-- ===== src/System/Status.antt =====
-- A dataset whose status changes leaves the database sound.
use innovativeproject_pm_gen.Base.{
  ℕ, String, ◌≡◌, refl, ap, ◌∙◌, some, List, [], ◌∷◌, eqb, arith, All-map, Bool-cases, inl, inr,
}
use innovativeproject_pm_gen.Schemas.{Dataset, DatasetType, DatasetStatus, ProcessRun, TrainedModel}
use innovativeproject_pm_gen.Store.{Db, find_by_id, key_of, set_status}
use innovativeproject_pm_gen.Store.Ids.{ids_of, AllBelow}
use innovativeproject_pm_gen.Store.Laws.{keys_of}
use innovativeproject_pm_gen.System.Sound.{IsSoundFor, IsRegistered, IsUsable}

keys-set_status :
    (i : ℕ) (t : DatasetStatus) (ds : List Dataset) → keys_of (set_status i t ds) ≡ keys_of ds
unfolding set_status
keys-set_status i t [] = refl
keys-set_status i t (d ∷ ds) = elim (Bool-cases (eqb d.id i)) [
  | inl e ↦ rw (e, keys-set_status i t ds) refl
  | inr e ↦ rw (e, keys-set_status i t ds) refl
]

ids-set_status :
    (i : ℕ) (t : DatasetStatus) (ds : List Dataset) → ids_of (set_status i t ds) ≡ ids_of ds
unfolding set_status
ids-set_status i t [] = refl
ids-set_status i t (d ∷ ds) = elim (Bool-cases (eqb d.id i)) [
  | inl e ↦ rw (e, ids-set_status i t ds) refl
  | inr e ↦ rw (e, ids-set_status i t ds) refl
]

below-set_status :
    (i n : ℕ) (t : DatasetStatus) (ds : List Dataset)
    → AllBelow n ds
    → AllBelow n (set_status i t ds)
unfolding set_status
below-set_status i n t [] h = tt
below-set_status i n t (d ∷ ds) h = elim (Bool-cases (eqb d.id i)) [
  | inl e ↦ rw e (h.0, below-set_status i n t ds h.1)
  | inr e ↦ rw e (h.0, below-set_status i n t ds h.1)
]

-- The same dataset is found, but for its status.
find-set_status :
    (i j : ℕ) (t : DatasetStatus) (ds : List Dataset) {d : Dataset}
    → find_by_id j ds ≡ some d
    → (d' : Dataset) × (find_by_id j (set_status i t ds) ≡ some d') × (key_of d' ≡ key_of d)
unfolding set_status find_by_id
find-set_status i j t [] h = cc
find-set_status i j t (x ∷ ds) {d} h = elim (Bool-cases (eqb x.id j)) [
  | inl here ↦
      let same : x ≡ d = ground (arith, here) in
      elim (Bool-cases (eqb x.id i)) [
        | inl e ↦ rw (e, here) (record x { status = t }, refl, ap key_of same)
        | inr e ↦ rw (e, here) (x, refl, ap key_of same)
      ]
  | inr later ↦
      let rest = find-set_status i j t ds {d = d} (ground (arith, later)) in
      elim (Bool-cases (eqb x.id i)) [ inl e ↦ rw (e, later) rest | inr e ↦ rw (e, later) rest ]
]

status-IsRegistered :
    (i : ℕ) (t : DatasetStatus) (ds : List Dataset) (r : ProcessRun)
    → IsRegistered ds r
    → IsRegistered (set_status i t ds) r
status-IsRegistered i t ds r h j e =
    let (d, found, k) = h j e in
    let (d', found', k') = find-set_status i j t ds found in (d', found', k' ∙ k)

status-IsUsable :
    (i : ℕ) (t : DatasetStatus) (ds : List Dataset) (m : TrainedModel)
    → IsUsable ds m
    → IsUsable (set_status i t ds) m
status-IsUsable i t ds m (w, h) = (
  w,
  λ j e.
      let (d, found, k) = h j e in
      let (d', found', k') = find-set_status i j t ds found in (d', found', ap (λ q. q.1) k' ∙ k),
)

module _ (key : ℕ → String × DatasetType) where
  pub set_status-IsSoundFor :
      (i : ℕ) (t : DatasetStatus) (db : Db)
      → IsSoundFor key db
      → IsSoundFor key (record db { datasets = set_status i t db.datasets })
  set_status-IsSoundFor i t db h = record {
    datasets = record {
      keys = rw (keys-set_status i t db.datasets) h.datasets.keys;
      ids = rw (ids-set_status i t db.datasets) h.datasets.ids;
      below = below-set_status i db.next_dataset_id t db.datasets h.datasets.below;
    };
    runs = record {
      registered = All-map (status-IsRegistered i t db.datasets) db.process_runs h.runs.registered;
      outputs = h.runs.outputs;
      below = h.runs.below;
    };
    models = record {
      usable = All-map (status-IsUsable i t db.datasets) db.trained_models h.models.usable;
      keys = h.models.keys;
      ids = h.models.ids;
      below = h.models.below;
    };
  }
