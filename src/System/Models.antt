-- ===== src/System/Models.antt =====
-- The routes on trained models keep the database sound, since they check before they write.
use innovativeproject_pm_gen.Base.{
  ℕ, ◌<◌, String, true, Option, none, some, List, [], ◌∷◌, inl, inr, ◌≡◌, All, Bool-cases, arith,
  eqb, subst,
}
use innovativeproject_pm_gen.Base.Exec.Hoare.{
  Hoare, Hoare-pure, Hoare-asks, Hoare-lift, Hoare-bind, Hoare-then,
}
use innovativeproject_pm_gen.Base.Result.{ok}
use innovativeproject_pm_gen.Schemas.{TrainedModel}
use innovativeproject_pm_gen.Store.{Db, find_by_id}
use innovativeproject_pm_gen.Store.Tables.{find_model}
use innovativeproject_pm_gen.S3.{Storage, Site, S3}
use innovativeproject_pm_gen.Modeling.{require_preprocessed, get_model}
use innovativeproject_pm_gen.Modeling.Models.{
  is_weights, TrainedModelUpdate, set_name, set_weights, set_encoder, set_config, set_dataset,
  changed_model,
}
use innovativeproject_pm_gen.System.Sound.{IsSound, IsTrainedOn, IsUsable}
use innovativeproject_pm_gen.System.Services.{Holds}
use innovativeproject_pm_gen.Modeling.Models.Laws.{
  require_weights-ok, model_or_404-ok, check_type-ok,
}

pub require_preprocessed-IsTrainedOn :
    (i : ℕ) (db : Db) → require_preprocessed i db ≡ ok tt → IsTrainedOn db.datasets (some i)
unfolding require_preprocessed
require_preprocessed-IsTrainedOn i db h j e =
    let same : i ≡ j = cc in
    let (d, found, t) = check_type-ok i (find_by_id i db.datasets) h in
    (d, subst (λ k. find_by_id k db.datasets ≡ some d) same found, t)

find_model-All :
    (P : TrainedModel → Type 0) (i : ℕ) (ms : List TrainedModel) {m : TrainedModel}
    → find_model i ms ≡ some m
    → All P ms
    → P m
unfolding find_model
find_model-All P i [] h a = absurd (ground (arith, h))
find_model-All P i (x ∷ ms) {m} h a = elim (Bool-cases (eqb x.id i)) [
  | inl e ↦ let same : x ≡ m = ground (arith, e) in subst P same a.0
  | inr e ↦ find_model-All P i ms (ground (arith, e)) a.1
]

module _ {st : Storage} where
  -- A model that may be committed.
  abbrev pub Ready : TrainedModel → Site st → Type 0
  Ready m s = IsSound s.db × (m.id < s.db.next_model_id) × IsUsable s.db.datasets m

  abbrev Step : (TrainedModel → S3 st TrainedModel) → Type 0
  Step f = (m : TrainedModel) → Hoare (Ready m) Ready Holds (f m)

  found-Ready :
      (i : ℕ) (s : Site st) (m : TrainedModel) → IsSound s.db → get_model i s.db ≡ ok m → Ready m s
  unfolding get_model
  found-Ready i s m p h =
      let found = model_or_404-ok (find_model i s.db.trained_models) h in
      (
        p,
        find_model-All (λ m. m.id < s.db.next_model_id) i s.db.trained_models found
            p.1.models.below,
        find_model-All (IsUsable s.db.datasets) i s.db.trained_models found p.1.models.usable,
      )

  pub set_name-Ready :
      (o : Option String) (m : TrainedModel) (s : Site st) → Ready m s → Ready (set_name o m) s
  unfolding set_name
  set_name-Ready none m s h = h
  set_name-Ready (some name) m s h = h

  set_weights-Step : (o : Option String) → Step (set_weights st o)
  unfolding set_weights
  set_weights-Step none m = Hoare-pure m (λ s h. h)
  set_weights-Step (some key) m =
      Hoare-then {Q = λ u s. Ready m s × (is_weights key ≡ true)} _ _
        (Hoare-lift _ (λ s u h e. (h, require_weights-ok key e)) (λ s h. h.0))
        (λ u.
          Hoare-then {Q = λ v s. Ready m s × (is_weights key ≡ true)} _ _
            (Hoare-asks _ (λ s v h e. h) (λ s h. h.0.0))
            (λ v. Hoare-pure _ (λ s h. (h.0.0, h.0.1, (h.1, h.0.2.1)))))

  set_encoder-Step : (o : Option String) → Step (set_encoder st o)
  unfolding set_encoder
  set_encoder-Step none m = Hoare-pure m (λ s h. h)
  set_encoder-Step (some key) m =
      Hoare-then {Q = λ v s. Ready m s} _ _ (Hoare-asks _ (λ s v h e. h) (λ s h. h.0))
        (λ v. Hoare-pure _ (λ s h. h))

  set_config-Step : (o : Option String) → Step (set_config st o)
  unfolding set_config
  set_config-Step none m = Hoare-pure m (λ s h. h)
  set_config-Step (some key) m =
      Hoare-then {Q = λ v s. Ready m s} _ _ (Hoare-asks _ (λ s v h e. h) (λ s h. h.0))
        (λ v. Hoare-pure _ (λ s h. h))

  set_dataset-Step : (o : Option ℕ) → Step (set_dataset st o)
  unfolding set_dataset
  set_dataset-Step none m = Hoare-pure m (λ s h. h)
  set_dataset-Step (some i) m =
      Hoare-then {Q = λ v s. Ready m s × IsTrainedOn s.db.datasets (some i)} _ _
        (Hoare-asks _ (λ s v h e. (h, require_preprocessed-IsTrainedOn i s.db e)) (λ s h. h.0))
        (λ v. Hoare-pure _ (λ s h. (h.0.0, h.0.1, (h.0.2.0, h.1))))

  pub changed_model-Ready :
      (i : ℕ) (body : TrainedModelUpdate) → Hoare Holds Ready Holds (changed_model st i body)
  unfolding changed_model
  changed_model-Ready i body =
      Hoare-bind {Q = Ready} _ _ (Hoare-asks _ (λ s m p e. found-Ready i s m p e) (λ s p. p)) (λ m.
        Hoare-bind {Q = Ready} _ _
          (record {
            at = λ s h.
                (set_weights-Step body.s3_key (set_name body.name m)).at s
                  (set_name-Ready body.name m s h);
          })
          (λ w. Hoare-bind {Q = Ready} _ _ (set_encoder-Step body.encoder_s3_key w) (λ e.
            Hoare-bind {Q = Ready} _ _ (set_config-Step body.config_s3_key e)
              (λ c. set_dataset-Step body.dataset_id c))))
