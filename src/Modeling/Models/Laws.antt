-- ===== src/Modeling/Models/Laws.antt =====
-- What the checks of a request on a trained model establish.
use innovativeproject_pm_gen.Base.{
  ℕ, String, true, Option, none, some, inl, inr, ◌≡◌, refl, subst, arith, Bool-cases,
}
use innovativeproject_pm_gen.Base.Exec.Hoare.{Reads, Reads-pure, Reads-lift, Reads-asks, Reads-then}
use innovativeproject_pm_gen.Base.Result.{ok}
use innovativeproject_pm_gen.Schemas.{Dataset, DatasetType, TrainedModel}
use innovativeproject_pm_gen.Store.{find_by_id}
use innovativeproject_pm_gen.S3.{Storage, Site}
use innovativeproject_pm_gen.Modeling.{require_preprocessed, check_type, model_or_404}
use innovativeproject_pm_gen.Modeling.Models.{
  is_weights, require_weights, require_file, found_or_404, TrainedModelUpdate, set_name,
  set_weights, set_encoder, set_config, set_dataset,
}

-- What a request gives, or what was there.
abbrev pub or_old : {A : Type 0} → Option A → A → A
or_old none a = a
or_old (some b) a = b

abbrev pub or_old_id : Option ℕ → Option ℕ → Option ℕ
or_old_id none a = a
or_old_id (some i) a = some i

unfoldable pub given : TrainedModelUpdate → TrainedModel → TrainedModel
given body m = record m {
  name = or_old body.name m.name;
  s3_key = or_old body.s3_key m.s3_key;
  encoder_s3_key = or_old body.encoder_s3_key m.encoder_s3_key;
  config_s3_key = or_old body.config_s3_key m.config_s3_key;
  dataset_id = or_old_id body.dataset_id m.dataset_id;
}

pub check_type-ok :
    (i : ℕ) (o : Option Dataset)
    → check_type i o ≡ ok tt
    → (d : Dataset) × (o ≡ some d) × (d.type ≡ DatasetType.preprocessed)
unfolding check_type
check_type-ok i none h = cc
check_type-ok i (some d) h = (d, refl, ground arith)

pub require_weights-ok : (key : String) → require_weights key ≡ ok tt → is_weights key ≡ true
unfolding require_weights
require_weights-ok key h = elim (Bool-cases (is_weights key)) [
  | inl e ↦ e
  | inr e ↦ absurd (ground (arith, e))
]

pub model_or_404-ok :
    (o : Option TrainedModel) {m : TrainedModel} → model_or_404 o ≡ ok m → o ≡ some m
unfolding model_or_404
model_or_404-ok none h = cc
model_or_404-ok (some m) h = cc

-- A key that a request gives is that of a file of weights.
abbrev pub AreWeights : Option String → Type 0
AreWeights o = (key : String) → o ≡ some key → is_weights key ≡ true

found_or_404-ok : (label : String) (o : Option String) → found_or_404 label o ≡ ok tt → o ≡ none
found_or_404-ok label none h = refl
found_or_404-ok label (some exc) h = cc

pub set_name_lem :
    (o : Option String) (m : TrainedModel) → set_name o m ≡ record m { name = or_old o m.name }
unfolding set_name
set_name_lem none m = refl
set_name_lem (some name) m = refl

module _ {st : Storage} where
  -- A file that a request gives can be seen in the object store.
  abbrev pub IsThere : Option String → Site st → Type 0
  IsThere o s = (key : String) → o ≡ some key → st.head_object key s.objects ≡ none

  abbrev pub IsPreprocessed : Option ℕ → Site st → Type 0
  IsPreprocessed o s =
      (i : ℕ)
      → o ≡ some i
      → (d : Dataset) × (find_by_id i s.db.datasets ≡ some d) × (d.type ≡ DatasetType.preprocessed)

  require_file-IsThere :
      (label key : String) (s : Site st)
      → require_file st label key s ≡ ok tt
      → IsThere (some key) s
  unfolding require_file
  require_file-IsThere label key s h k e =
      let same : key ≡ k = cc in
      subst (λ x. st.head_object x s.objects ≡ none) same
        (found_or_404-ok label (st.head_object key s.objects) h)

  pub set_weights-Reads :
      (o : Option String) (m : TrainedModel) (s : Site st)
      → Reads s
          (λ m'. (m' ≡ record m { s3_key = or_old o m.s3_key }) × AreWeights o × IsThere o s)
          (set_weights st o m)
  unfolding set_weights
  set_weights-Reads none m s = Reads-pure m (refl, (λ k e. cc), λ k e. cc)
  set_weights-Reads (some key) m s =
      Reads-then {K = λ u. is_weights key ≡ true} _ _
        (Reads-lift _ (λ u e. require_weights-ok key e))
        (λ u w.
          Reads-then {K = λ u. IsThere (some key) s} _ _
            (Reads-asks _ (λ u e. require_file-IsThere "Model" key s e))
            (λ u t. Reads-pure _ (
              refl,
              (λ k e. let same : key ≡ k = cc in subst (λ x. is_weights x ≡ true) same w),
              t,
            )))

  pub set_encoder-Reads :
      (o : Option String) (m : TrainedModel) (s : Site st)
      → Reads s
          (λ m'. (m' ≡ record m { encoder_s3_key = or_old o m.encoder_s3_key }) × IsThere o s)
          (set_encoder st o m)
  unfolding set_encoder
  set_encoder-Reads none m s = Reads-pure m (refl, λ k e. cc)
  set_encoder-Reads (some key) m s =
      Reads-then {K = λ u. IsThere (some key) s} _ _
        (Reads-asks _ (λ u e. require_file-IsThere "Encoder" key s e))
        (λ u t. Reads-pure _ (refl, t))

  pub set_config-Reads :
      (o : Option String) (m : TrainedModel) (s : Site st)
      → Reads s
          (λ m'. (m' ≡ record m { config_s3_key = or_old o m.config_s3_key }) × IsThere o s)
          (set_config st o m)
  unfolding set_config
  set_config-Reads none m s = Reads-pure m (refl, λ k e. cc)
  set_config-Reads (some key) m s =
      Reads-then {K = λ u. IsThere (some key) s} _ _
        (Reads-asks _ (λ u e. require_file-IsThere "Config" key s e))
        (λ u t. Reads-pure _ (refl, t))

  require_preprocessed-ok :
      (i : ℕ) (s : Site st) → require_preprocessed i s.db ≡ ok tt → IsPreprocessed (some i) s
  unfolding require_preprocessed
  require_preprocessed-ok i s h j e =
      let same : i ≡ j = cc in
      let (d, found, t) = check_type-ok i (find_by_id i s.db.datasets) h in
      (d, subst (λ k. find_by_id k s.db.datasets ≡ some d) same found, t)

  pub set_dataset-Reads :
      (o : Option ℕ) (m : TrainedModel) (s : Site st)
      → Reads s
          (λ m'. (m' ≡ record m { dataset_id = or_old_id o m.dataset_id }) × IsPreprocessed o s)
          (set_dataset st o m)
  unfolding set_dataset
  set_dataset-Reads none m s = Reads-pure m (refl, λ k e. cc)
  set_dataset-Reads (some i) m s =
      Reads-then {K = λ u. IsPreprocessed (some i) s} _ _
        (Reads-asks _ (λ u e. require_preprocessed-ok i s e)) (λ u t. Reads-pure _ (refl, t))
