-- ===== src/Store/Laws.antt =====
-- The keys of the datasets stay distinct, and what a query found it goes on finding.
use innovativeproject_pm_gen.Base.{
  eqb, Bool-cases, ℕ, All, String, ◌≡◌, refl, ◌↔◌, true, false, none, some, List, [], ◌∷◌, ◌++◌,
  map, arith, eq_iff, Option-cases, inl, inr,
}
use mathlib.Core.List.{map-append}
use innovativeproject_pm_gen.Base.Sets.{Distinct, Distinct-snoc, has}
use innovativeproject_pm_gen.Schemas.{ProcessRun, type_eq, DatasetType, Dataset}
use innovativeproject_pm_gen.Store.{
  is_running, update_run, running_runs, same_key, key_of, Db, insert_dataset, find_by_key,
}

abbrev pub keys_of : List Dataset → List (String × DatasetType)
keys_of = map key_of

type_eq_iff : (t u : DatasetType) → (type_eq t u ≡ true) ↔ (t ≡ u)
type_eq_iff t u = ground arith

pub same_key_iff : (p q : String × DatasetType) → (same_key p q ≡ true) ↔ (p ≡ q)
same_key_iff (k, t) (j, u) = ground (arith, eq_iff k j, type_eq_iff t u)

pub has-find :
    (k : String × DatasetType) (ds : List Dataset)
    → find_by_key k ds ≡ none
    → has same_key k (keys_of ds) ≡ false
unfolding find_by_key
has-find k [] h = refl
has-find k (d ∷ ds) h = ground (arith, has-find k ds)

-- A new row never hides an old one.
pub find-append :
    (k : String × DatasetType) (ds es : List Dataset) {d : Dataset}
    → find_by_key k ds ≡ some d
    → find_by_key k (ds ++ es) ≡ some d
unfolding find_by_key
find-append k [] es h = cc
find-append k (e ∷ ds) es {d} h = ground (arith, find-append k ds es {d = d})

pub find-snoc :
    (k : String × DatasetType) (ds : List Dataset) (d : Dataset)
    → find_by_key k ds ≡ none
    → key_of d ≡ k
    → find_by_key k (ds ++ (d ∷ [])) ≡ some d
unfolding find_by_key
find-snoc k [] d h e = ground (arith, same_key_iff (key_of d) k)
find-snoc k (x ∷ ds) d h e = ground (arith, find-snoc k ds d)

pub key-find :
    (k : String × DatasetType) (ds : List Dataset) {d : Dataset}
    → find_by_key k ds ≡ some d
    → key_of d ≡ k
unfolding find_by_key
key-find k [] h = cc
key-find k (e ∷ ds) {d} h = ground (arith, key-find k ds {d = d}, same_key_iff (key_of e) k)

pub snoc-Distinct :
    (d : Dataset) (ds : List Dataset)
    → find_by_key (key_of d) ds ≡ none
    → Distinct same_key (keys_of ds)
    → Distinct same_key (keys_of (ds ++ (d ∷ [])))
snoc-Distinct d ds new h =
    rw map-append
      (Distinct-snoc same_key same_key_iff (key_of d) (keys_of ds) (has-find (key_of d) ds new) h)

-- `insert_dataset` keeps the keys distinct, whether it adds the row or raises.
insert_dataset-Distinct :
    (d : Dataset) (db : Db)
    → Distinct same_key (keys_of db.datasets)
    → Distinct same_key (keys_of (insert_dataset d db).1.datasets)
unfolding insert_dataset
insert_dataset-Distinct d db h = elim (Option-cases (find_by_key (key_of d) db.datasets)) [
  | inl new ↦ rw new (snoc-Distinct (record d { id = db.next_dataset_id }) db.datasets new h)
  | inr (old, found) ↦ rw found h
]

-- An update of the rows with an id, where it keeps a property of those rows.
pub update_run-All :
    (P : ProcessRun → Type 0) (i : ℕ) (f : ProcessRun → ProcessRun) (rs : List ProcessRun)
    → ((r : ProcessRun) → P r → r.id ≡ i → P (f r))
    → All P rs
    → All P (update_run i f rs)
unfolding update_run
update_run-All P i f [] h k = tt
update_run-All P i f (r ∷ rs) h (p, k) = elim (Bool-cases (eqb r.id i)) [
  | inl e ↦ rw e (h r p (ground arith), update_run-All P i f rs h k)
  | inr e ↦ rw e (p, update_run-All P i f rs h k)
]

pub running_runs-All :
    (P : ProcessRun → Type 0) (rs : List ProcessRun) → All P rs → All P (running_runs rs)
unfolding running_runs
running_runs-All P [] h = tt
running_runs-All P (r ∷ rs) (p, h) = elim (Bool-cases (is_running r.status)) [
  | inl e ↦ rw e (p, running_runs-All P rs h)
  | inr e ↦ rw e (running_runs-All P rs h)
]
