-- ===== src/System/ModelRows.antt =====
-- New, changed and deleted models keep the database sound.
use innovativeproject_pm_gen.Base.{
  ◌↔◌, ℕ, ◌+◌, ◌<◌, String, ◌≡◌, refl, sym, subst, ◌∙◌, true, false, some, List, [], ◌∷◌, ◌++◌, eqb,
  arith, All, All-map, All-append, Bool-cases, inl, inr, ◌==◌, eq_iff,
}
use mathlib.Core.List.{map-append}
use innovativeproject_pm_gen.Base.Sets.{Distinct, Distinct-snoc, has}
use innovativeproject_pm_gen.Schemas.{Dataset, DatasetType, TrainedModel}
use innovativeproject_pm_gen.Store.{Db}
use innovativeproject_pm_gen.Store.Tables.{
  refers, commit_model, update_model, has_model_key, key_taken, replace_model, remove_model,
  delete_model_row,
}
use innovativeproject_pm_gen.System.Sound.{AreModels, IsSoundFor, IsUsable, model_keys, model_ids}

has-model_key :
    (k : String) (ms : List TrainedModel) → has ◌==◌ k (model_keys ms) ≡ has_model_key k ms
unfolding has_model_key
has-model_key k [] = refl
has-model_key k (m ∷ ms) = rw (has-model_key k ms) refl

has-below :
    (n : ℕ) (ms : List TrainedModel)
    → All (λ (m : TrainedModel). m.id < n) ms
    → has eqb n (model_ids ms) ≡ false
has-below n [] h = refl
has-below n (m ∷ ms) h = ground (arith, has-below n ms h.1)

eqb_iff : (a b : ℕ) → (eqb a b ≡ true) ↔ (a ≡ b)
eqb_iff a b = ground arith

snoc-AreModels :
    (ds : List Dataset) (m : TrainedModel) (ms : List TrainedModel)
    → has_model_key m.s3_key ms ≡ false
    → IsUsable ds m
    → AreModels ds ms m.id
    → AreModels ds (ms ++ (m ∷ [])) (m.id + 1)
snoc-AreModels ds m ms new ok h = record {
  usable = All-append (IsUsable ds) ms (m ∷ []) h.usable (ok, tt);
  keys =
      rw map-append (
        Distinct-snoc ◌==◌ eq_iff m.s3_key (model_keys ms) (has-model_key m.s3_key ms ∙ new)
          h.keys);
  ids =
      rw map-append
        (Distinct-snoc eqb eqb_iff m.id (model_ids ms) (has-below m.id ms h.below) h.ids);
  below =
      All-append (λ (x : TrainedModel). x.id < m.id + 1) ms (m ∷ [])
        (All-map (λ x p. omega arith) ms h.below) (omega arith, tt);
}

-- A model that is put in place of the one with its id.
All-replace :
    (P : TrainedModel → Type 0) (m : TrainedModel) (ms : List TrainedModel)
    → P m
    → All P ms
    → All P (replace_model m ms)
unfolding replace_model
All-replace P m [] p h = tt
All-replace P m (x ∷ ms) p h = elim (Bool-cases (eqb x.id m.id)) [
  | inl e ↦ rw e (p, All-replace P m ms p h.1)
  | inr e ↦ rw e (h.0, All-replace P m ms p h.1)
]

ids-replace :
    (m : TrainedModel) (ms : List TrainedModel) → model_ids (replace_model m ms) ≡ model_ids ms
unfolding replace_model
ids-replace m [] = refl
ids-replace m (x ∷ ms) = ground (arith, ids-replace m ms)

replace-absent :
    (m : TrainedModel) (ms : List TrainedModel)
    → has eqb m.id (model_ids ms) ≡ false
    → replace_model m ms ≡ ms
unfolding replace_model
replace-absent m [] h = refl
replace-absent m (x ∷ ms) h = ground (arith, replace-absent m ms)

-- A key that is free after the change.
has-replace :
    (k : String) (m : TrainedModel) (ms : List TrainedModel)
    → has ◌==◌ k (model_keys ms) ≡ false
    → (m.s3_key == k) ≡ false
    → has ◌==◌ k (model_keys (replace_model m ms)) ≡ false
unfolding replace_model
has-replace k m [] h e = refl
has-replace k m (x ∷ ms) h e = ground (arith, has-replace k m ms)

absent-taken :
    (m : TrainedModel) (ms : List TrainedModel)
    → has eqb m.id (model_ids ms) ≡ false
    → key_taken m.id m.s3_key ms ≡ false
    → has ◌==◌ m.s3_key (model_keys ms) ≡ false
unfolding key_taken
absent-taken m [] h t = refl
absent-taken m (x ∷ ms) h t = ground (arith, absent-taken m ms)

keys-replace :
    (m : TrainedModel) (ms : List TrainedModel)
    → key_taken m.id m.s3_key ms ≡ false
    → Distinct eqb (model_ids ms)
    → Distinct ◌==◌ (model_keys ms)
    → Distinct ◌==◌ (model_keys (replace_model m ms))
unfolding key_taken replace_model
keys-replace m [] t u h = tt
keys-replace m (x ∷ ms) t u h = elim (Bool-cases (eqb x.id m.id)) [
  | inl e ↦
      let own : x.id ≡ m.id = (eqb_iff x.id m.id).0 e in
      let gone : has eqb m.id (model_ids ms) ≡ false =
        subst (λ i. has eqb i (model_ids ms) ≡ false) own u.0 in
      rw (e, replace-absent m ms gone) (absent-taken m ms gone (ground (arith, e)), h.1)
  | inr e ↦ rw e (
    has-replace x.s3_key m ms h.0
        (ground (arith, e, eq_iff x.s3_key m.s3_key, eq_iff m.s3_key x.s3_key)),
    keys-replace m ms (ground (arith, e)) u.1 h.1,
  )
]

has-remove_id :
    (i j : ℕ) (ms : List TrainedModel)
    → has eqb j (model_ids ms) ≡ false
    → has eqb j (model_ids (remove_model i ms)) ≡ false
unfolding remove_model
has-remove_id i j [] h = refl
has-remove_id i j (m ∷ ms) h = ground (arith, has-remove_id i j ms)

has-remove_key :
    (i : ℕ) (k : String) (ms : List TrainedModel)
    → has ◌==◌ k (model_keys ms) ≡ false
    → has ◌==◌ k (model_keys (remove_model i ms)) ≡ false
unfolding remove_model
has-remove_key i k [] h = refl
has-remove_key i k (m ∷ ms) h = ground (arith, has-remove_key i k ms)

All-remove :
    (P : TrainedModel → Type 0) (i : ℕ) (ms : List TrainedModel)
    → All P ms
    → All P (remove_model i ms)
unfolding remove_model
All-remove P i [] h = tt
All-remove P i (m ∷ ms) h = elim (Bool-cases (eqb m.id i)) [
  | inl e ↦ rw e (All-remove P i ms h.1)
  | inr e ↦ rw e (h.0, All-remove P i ms h.1)
]

Distinct-remove :
    (i : ℕ) (ms : List TrainedModel)
    → Distinct eqb (model_ids ms) × Distinct ◌==◌ (model_keys ms)
    → Distinct eqb (model_ids (remove_model i ms)) × Distinct ◌==◌ (model_keys (remove_model i ms))
unfolding remove_model
Distinct-remove i [] h = h
Distinct-remove i (m ∷ ms) (u, k) = elim (Bool-cases (eqb m.id i)) [
  | inl e ↦ rw e (Distinct-remove i ms (u.1, k.1))
  | inr e ↦
      let rest = Distinct-remove i ms (u.1, k.1) in
      rw e ((has-remove_id i m.id ms u.0, rest.0), (has-remove_key i m.s3_key ms k.0, rest.1))
]

module _ (key : ℕ → String × DatasetType) where
  pub commit_model-IsSoundFor :
      (m : TrainedModel) (db : Db)
      → m.id ≡ db.next_model_id
      → IsUsable db.datasets m
      → IsSoundFor key db
      → IsSoundFor key (commit_model (some m) db).1
  unfolding commit_model
  commit_model-IsSoundFor m db own usable h =
      elim (Bool-cases (has_model_key m.s3_key db.trained_models)) [
        | inl e ↦ rw e h
        | inr e ↦ elim (Bool-cases (refers m.dataset_id db.datasets)) [
          | inr f ↦ rw (e, f) h
          | inl f ↦
              rw (e, f)
                (record {
                  datasets = h.datasets;
                  runs = h.runs;
                  models =
                      subst (λ n. AreModels db.datasets (db.trained_models ++ (m ∷ [])) (n + 1)) own
                        (snoc-AreModels db.datasets m db.trained_models e usable (
                          subst (λ n. AreModels db.datasets db.trained_models n) (sym own)
                            h.models));
                })
        ]
      ]

  pub update_model-IsSoundFor :
      (m : TrainedModel) (db : Db)
      → m.id < db.next_model_id
      → IsUsable db.datasets m
      → IsSoundFor key db
      → IsSoundFor key (update_model m db).1
  unfolding update_model
  update_model-IsSoundFor m db lt usable h =
      elim (Bool-cases (key_taken m.id m.s3_key db.trained_models)) [
        | inl e ↦ rw e h
        | inr e ↦ elim (Bool-cases (refers m.dataset_id db.datasets)) [
          | inr f ↦ rw (e, f) h
          | inl f ↦
              rw (e, f)
                (record {
                  datasets = h.datasets;
                  runs = h.runs;
                  models = record {
                    usable =
                        All-replace (IsUsable db.datasets) m db.trained_models usable
                          h.models.usable;
                    keys = keys-replace m db.trained_models e h.models.ids h.models.keys;
                    ids = rw (ids-replace m db.trained_models) h.models.ids;
                    below =
                        All-replace (λ x. x.id < db.next_model_id) m db.trained_models lt
                          h.models.below;
                  };
                })
        ]
      ]

  pub delete_model_row-IsSoundFor :
      (i : ℕ) (db : Db) → IsSoundFor key db → IsSoundFor key (delete_model_row i db)
  unfolding delete_model_row
  delete_model_row-IsSoundFor i db h =
      let distinct = Distinct-remove i db.trained_models (h.models.ids, h.models.keys) in
      record {
        datasets = h.datasets;
        runs = h.runs;
        models = record {
          usable = All-remove (IsUsable db.datasets) i db.trained_models h.models.usable;
          keys = distinct.1;
          ids = distinct.0;
          below = All-remove (λ x. x.id < db.next_model_id) i db.trained_models h.models.below;
        };
      }
