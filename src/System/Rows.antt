-- ===== src/System/Rows.antt =====
-- A new process run keeps the database sound.
use innovativeproject_pm_gen.Base.{
  ℕ, ◌+◌, ◌<◌, String, ◌≡◌, not, ◌||◌, none, List, [], ◌∷◌, ◌++◌, eqb, arith, All, All-map,
  All-append, Bool-cases, inl, inr, if◌then◌else◌,
}
use innovativeproject_pm_gen.Schemas.{Dataset, DatasetType, ProcessRun}
use innovativeproject_pm_gen.Store.{Db}
use innovativeproject_pm_gen.Store.Tables.{insert_process_run, has_run_id, refers}
use innovativeproject_pm_gen.Poller.{output_key}
use innovativeproject_pm_gen.Poller.Invariant.{HasKey}
use innovativeproject_pm_gen.System.Sound.{AreRuns, IsSound, IsRegistered}

-- The output of the row that gets the next id is known from then on.
abbrev with_key : ℕ → String × DatasetType → (ℕ → String × DatasetType) → ℕ → String × DatasetType
with_key n k key i = if eqb i n then k else key i

with_key-old :
    (key : ℕ → String × DatasetType) (k : String × DatasetType) (n : ℕ) (x : ProcessRun)
    → x.id < n
    → HasKey key x
    → HasKey (with_key n k key) x
with_key-old key k n x lt h = elim (Bool-cases (eqb x.id n)) [
  | inl e ↦ absurd (ground arith)
  | inr e ↦ rw e h
]

both-All :
    (key : ℕ → String × DatasetType) (k : String × DatasetType) (n : ℕ) (rs : List ProcessRun)
    → All (λ (x : ProcessRun). x.id < n) rs
    → All (HasKey key) rs
    → All (HasKey (with_key n k key)) rs
both-All key k n [] b h = tt
both-All key k n (x ∷ rs) b h = (with_key-old key k n x b.0 h.0, both-All key k n rs b.1 h.1)

below-suc :
    (n : ℕ) (rs : List ProcessRun)
    → All (λ (x : ProcessRun). x.id < n) rs
    → All (λ (x : ProcessRun). x.id < n + 1) rs
below-suc n rs = All-map (λ x p. omega arith) rs

snoc-AreRuns :
    (key : ℕ → String × DatasetType) (ds : List Dataset) (r : ProcessRun) (rs : List ProcessRun)
    → r.registered_dataset_id ≡ none
    → AreRuns key ds rs r.id
    → AreRuns (with_key r.id (output_key r) key) ds (rs ++ (r ∷ [])) (r.id + 1)
snoc-AreRuns key ds r rs new h = record {
  registered = All-append (IsRegistered ds) rs (r ∷ []) h.registered ((λ i e. cc), tt);
  outputs =
      All-append (HasKey (with_key r.id (output_key r) key)) rs (r ∷ [])
        (both-All key (output_key r) r.id rs h.below h.outputs) (ground arith, tt);
  below =
      All-append (λ (x : ProcessRun). x.id < r.id + 1) rs (r ∷ []) (below-suc r.id rs h.below)
        (omega arith, tt);
}

-- A run that is not linked yet is recorded, or refused.
pub insert_process_run-IsSound :
    (r : ProcessRun) (db : Db)
    → r.registered_dataset_id ≡ none
    → IsSound db
    → IsSound (insert_process_run r db).1
unfolding insert_process_run
insert_process_run-IsSound r db new (key, h) =
    elim (Bool-cases
      (has_run_id r.run_id db.process_runs || not (refers r.input_dataset_id db.datasets))) [
        | inl e ↦ rw e (key, h)
        | inr e ↦ rw e (
          with_key db.next_process_id (output_key (record r { id = db.next_process_id })) key,
          record {
            datasets = h.datasets;
            models = h.models;
            runs =
                snoc-AreRuns key db.datasets (record r { id = db.next_process_id }) db.process_runs
                  new h.runs;
          },
        )
      ]
