-- ===== src/Modeling/Models/Update.antt =====
-- What a request to change a trained model does.
use innovativeproject_pm_gen.Base.{
  ℕ, false, some, inl, inr, ◌≡◌, refl, sym, ap, ◌∙◌, subst, Bool-cases,
}
use innovativeproject_pm_gen.Base.Exec.{pure, ◌>>=◌}
use innovativeproject_pm_gen.Base.Exec.Hoare.{
  After, Hoare-bind, Reads, Reads-asks, Reads-bind, Reads-map,
}
use innovativeproject_pm_gen.Base.Result.{Result}
use innovativeproject_pm_gen.Errors.{Exn}
use innovativeproject_pm_gen.Schemas.{TrainedModel}
use innovativeproject_pm_gen.Store.Tables.{
  find_model, key_taken, refers, replace_model, update_model,
}
use innovativeproject_pm_gen.S3.{Storage, Site, on_db}
use innovativeproject_pm_gen.Modeling.{Call, get_model}
use innovativeproject_pm_gen.Modeling.Models.{
  TrainedModelUpdate, TrainedModelOption, changed_model, update_trained_model, option_of,
}
use innovativeproject_pm_gen.Modeling.Models.Laws.{
  or_old, or_old_id, given, AreWeights, IsThere, IsPreprocessed, set_weights-Reads,
  set_encoder-Reads, set_config-Reads, set_dataset-Reads, set_name_lem, model_or_404-ok,
}

module _ {st : Storage} where
  -- What the checks establish of the model that is committed.
  pub record IsChecked (i : ℕ) (body : TrainedModelUpdate) (s : Site st) (m' : TrainedModel)
      : Type 0 where
    pub model : TrainedModel
    pub found : find_model i s.db.trained_models ≡ some model
    pub changed : m' ≡ given body model
    pub weights : AreWeights body.s3_key
    pub model_file : IsThere body.s3_key s
    pub encoder_file : IsThere body.encoder_s3_key s
    pub config_file : IsThere body.config_s3_key s
    pub dataset : IsPreprocessed body.dataset_id s

  changed_model-IsChecked :
      (i : ℕ) (body : TrainedModelUpdate) (s : Site st)
      → Reads s (IsChecked i body s) (changed_model st i body)
  unfolding changed_model get_model given
  changed_model-IsChecked i body s =
      Reads-bind {K = λ m. find_model i s.db.trained_models ≡ some m} _ _
        (Reads-asks _ (λ m e. model_or_404-ok _ e))
        (λ m found. Reads-bind _ _ (set_weights-Reads body.s3_key _ s) (λ w kw.
          Reads-bind _ _ (set_encoder-Reads body.encoder_s3_key w s) (λ e ke.
            Reads-bind _ _ (set_config-Reads body.config_s3_key e s) (λ c kc.
              Reads-map _ (set_dataset-Reads body.dataset_id c s) (λ d kd. record {
                model = m;
                found = found;
                changed =
                    kd.0
                    ∙ ap with_dataset (
                        kc.0
                        ∙ ap with_config (
                            ke.0
                            ∙ ap with_encoder (kw.0 ∙ ap with_weights (set_name_lem body.name m))));
                weights = kw.1;
                model_file = kw.2;
                encoder_file = ke.1;
                config_file = kc.1;
                dataset = kd.1;
              })))))
    where
      with_weights : TrainedModel → TrainedModel
      with_weights x = record x { s3_key = or_old body.s3_key x.s3_key }

      with_encoder : TrainedModel → TrainedModel
      with_encoder x = record x { encoder_s3_key = or_old body.encoder_s3_key x.encoder_s3_key }

      with_config : TrainedModel → TrainedModel
      with_config x = record x { config_s3_key = or_old body.config_s3_key x.config_s3_key }

      with_dataset : TrainedModel → TrainedModel
      with_dataset x = record x { dataset_id = or_old_id body.dataset_id x.dataset_id }

  -- The committed change, and the answer.
  pub record IsUpdated (call : Call) (i : ℕ) (body : TrainedModelUpdate) (before : Site st)
      (c : TrainedModelOption) (after : Site st) : Type 0 where
    pub changed : TrainedModel
    pub checked : IsChecked i body before changed
    pub free : key_taken changed.id changed.s3_key before.db.trained_models ≡ false
    pub answer : c ≡ option_of call.bucket changed
    pub written : after ≡ record before {
      db = record before.db { trained_models = replace_model changed before.db.trained_models };
    }

  abbrev Outcome :
      Call → ℕ → TrainedModelUpdate → Site st → Result Exn TrainedModelOption × Site st → Type 0
  Outcome call i body before =
      After (λ c after. IsUpdated call i body before c after) (λ after. after ≡ before)

  commit-Outcome :
      (call : Call) (i : ℕ) (body : TrainedModelUpdate) (before : Site st) (m : TrainedModel)
      → IsChecked i body before m
      → Outcome call i body before
          ((on_db st (update_model m) >>= λ x. pure (option_of call.bucket x)) before)
  unfolding on_db update_model ◌>>=◌ pure
  commit-Outcome call i body before m h =
      elim (Bool-cases (key_taken m.id m.s3_key before.db.trained_models)) [
        | inl e ↦ rw e refl
        | inr e ↦ elim (Bool-cases (refers m.dataset_id before.db.datasets)) [
          | inr f ↦ rw (e, f) refl
          | inl f ↦
              rw (e, f)
                (record { changed = m; checked = h; free = e; answer = refl; written = refl })
        ]
      ]

  -- A request to change a model either raises and leaves the database and the object store as they
  -- were, or it replaces the model of that id by the one with the attributes that are given and the
  -- others unchanged, and answers with it; then a given key ends in .weights.h5 and is no other
  -- model's, given files can be seen in the object store, and a given dataset is there and PREPROCESSED.
  pub update_trained_model-Outcome :
      (call : Call) (i : ℕ) (body : TrainedModelUpdate) (before : Site st)
      → After
          (λ c after. IsUpdated call i body before c after)
          (λ after. after ≡ before)
          (update_trained_model st call i body before)
  unfolding update_trained_model
  update_trained_model-Outcome call i body before =
      (Hoare-bind _ _ (changed_model-IsChecked i body before) (λ m. record {
        at = λ s q.
            subst
              (λ x.
                Outcome call i body before
                  ((on_db st (update_model m) >>= λ y. pure (option_of call.bucket y)) x))
              (sym q.0) (commit-Outcome call i body before m q.1);
      })).at
        before refl
