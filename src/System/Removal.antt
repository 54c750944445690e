-- ===== src/System/Removal.antt =====
-- A dataset that is deleted leaves the database sound: rows that refer to it lose the reference.
use innovativeproject_pm_gen.Base.{
  ℕ, ◌<◌, String, ◌≡◌, refl, ◌∙◌, false, Option, none, some, List, [], ◌∷◌, eqb, arith, All,
  Bool-cases, inl, inr,
}
use innovativeproject_pm_gen.Base.Sets.{Distinct, has}
use innovativeproject_pm_gen.Schemas.{Dataset, DatasetType, ProcessRun, TrainedModel}
use innovativeproject_pm_gen.Store.{
  Db, key_of, same_key, remove_dataset, forget, unlink_runs, unlink_models, delete_dataset_row,
}
use innovativeproject_pm_gen.Store.Ids.{Distinct-remove, All-remove, find_by_id-remove}
use innovativeproject_pm_gen.Store.Laws.{keys_of}
use innovativeproject_pm_gen.Poller.{resolve_dataset_type}
use innovativeproject_pm_gen.System.Sound.{
  AreRuns, IsSoundFor, IsRegistered, IsTrainedOn, IsUsable, model_keys, model_ids,
}

has-remove :
    (i : ℕ) (k : String × DatasetType) (ds : List Dataset)
    → has same_key k (keys_of ds) ≡ false
    → has same_key k (keys_of (remove_dataset i ds)) ≡ false
unfolding remove_dataset
has-remove i k [] h = refl
has-remove i k (d ∷ ds) h = elim (Bool-cases (eqb d.id i)) [
  | inl e ↦ rw e (has-remove i k ds (ground arith))
  | inr e ↦ rw e (ground (arith, has-remove i k ds))
]

keys-remove :
    (i : ℕ) (ds : List Dataset)
    → Distinct same_key (keys_of ds)
    → Distinct same_key (keys_of (remove_dataset i ds))
unfolding remove_dataset
keys-remove i [] h = tt
keys-remove i (d ∷ ds) h = elim (Bool-cases (eqb d.id i)) [
  | inl e ↦ rw e (keys-remove i ds h.1)
  | inr e ↦ rw e (has-remove i (key_of d) ds h.0, keys-remove i ds h.1)
]

-- A reference that is left was there, and is to another dataset.
forget-some : (i j : ℕ) (o : Option ℕ) → forget i o ≡ some j → (o ≡ some j) × (eqb j i ≡ false)
unfolding forget
forget-some i j none h = cc
forget-some i j (some k) h = elim (Bool-cases (eqb k i)) [
  | inl e ↦ ground (arith, e)
  | inr e ↦ ground (arith, e)
]

kept-IsTrainedOn :
    (i : ℕ) (ds : List Dataset) (o : Option ℕ)
    → IsTrainedOn ds o
    → IsTrainedOn (remove_dataset i ds) (forget i o)
kept-IsTrainedOn i ds o h j e =
    let (old, other) = forget-some i j o e in
    let (d, found, t) = h j old in (d, find_by_id-remove i j ds other ∙ found, t)

unlink-IsUsable :
    (i : ℕ) (ds : List Dataset) (ms : List TrainedModel)
    → All (IsUsable ds) ms
    → All (IsUsable (remove_dataset i ds)) (unlink_models i ms)
unfolding unlink_models
unlink-IsUsable i ds [] h = tt
unlink-IsUsable i ds (m ∷ ms) ((w, t), h) =
    ((w, kept-IsTrainedOn i ds m.dataset_id t), unlink-IsUsable i ds ms h)

keys-unlink : (i : ℕ) (ms : List TrainedModel) → model_keys (unlink_models i ms) ≡ model_keys ms
unfolding unlink_models
keys-unlink i [] = refl
keys-unlink i (m ∷ ms) = rw (keys-unlink i ms) refl

ids-unlink : (i : ℕ) (ms : List TrainedModel) → model_ids (unlink_models i ms) ≡ model_ids ms
unfolding unlink_models
ids-unlink i [] = refl
ids-unlink i (m ∷ ms) = rw (ids-unlink i ms) refl

below-unlink :
    (i n : ℕ) (ms : List TrainedModel)
    → All (λ (m : TrainedModel). m.id < n) ms
    → All (λ (m : TrainedModel). m.id < n) (unlink_models i ms)
unfolding unlink_models
below-unlink i n [] h = tt
below-unlink i n (m ∷ ms) h = (h.0, below-unlink i n ms h.1)

kept-IsRegistered :
    (i : ℕ) (ds : List Dataset) (r : ProcessRun)
    → IsRegistered ds r
    → IsRegistered (remove_dataset i ds) (record r {
      input_dataset_id = forget i r.input_dataset_id;
      registered_dataset_id = forget i r.registered_dataset_id;
    })
unfolding resolve_dataset_type
kept-IsRegistered i ds r h j e =
    let (old, other) = forget-some i j r.registered_dataset_id e in
    let (d, found, k) = h j old in (d, find_by_id-remove i j ds other ∙ found, k)

module _ (key : ℕ → String × DatasetType) where
  unlink-AreRuns :
      (i : ℕ) (ds : List Dataset) (rs : List ProcessRun) {n : ℕ}
      → AreRuns key ds rs n
      → AreRuns key (remove_dataset i ds) (unlink_runs i rs) n
  unfolding unlink_runs resolve_dataset_type
  unlink-AreRuns i ds [] h = record { registered = tt; outputs = tt; below = tt }
  unlink-AreRuns i ds (r ∷ rs) {n} h =
      let rest =
        unlink-AreRuns i ds rs {n = n}
          (record { registered = h.registered.1; outputs = h.outputs.1; below = h.below.1 }) in
      record {
        registered = (kept-IsRegistered i ds r h.registered.0, rest.registered);
        outputs = (h.outputs.0, rest.outputs);
        below = (h.below.0, rest.below);
      }

  pub delete_dataset_row-IsSoundFor :
      (i : ℕ) (db : Db) → IsSoundFor key db → IsSoundFor key (delete_dataset_row i db)
  unfolding delete_dataset_row
  delete_dataset_row-IsSoundFor i db h = record {
    datasets = record {
      keys = keys-remove i db.datasets h.datasets.keys;
      ids = Distinct-remove i db.datasets h.datasets.ids;
      below = All-remove (λ d. d.id < db.next_dataset_id) i db.datasets h.datasets.below;
    };
    runs = unlink-AreRuns i db.datasets db.process_runs h.runs;
    models = record {
      usable = unlink-IsUsable i db.datasets db.trained_models h.models.usable;
      keys = rw (keys-unlink i db.trained_models) h.models.keys;
      ids = rw (ids-unlink i db.trained_models) h.models.ids;
      below = below-unlink i db.next_model_id db.trained_models h.models.below;
    };
  }
