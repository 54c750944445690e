-- ===== src/Modeling/Models.antt =====
-- apps/backend/app/api/v1/modeling.py: the routes on trained models. A model's attributes are set on a
-- row of the session, which the database has only after a commit.
pub mod Laws
pub mod Update
use innovativeproject_pm_gen.Base.{
  ℕ, String, ◌<>◌, Bool, true, false, Option, none, some, List, map, ◌==◌, if◌then◌else◌,
}
use innovativeproject_pm_gen.Base.Exec.{Exec, pure, raise, lift, gets, asks, ◌>>=◌, ◌>>◌}
use innovativeproject_pm_gen.Base.Result.{Result, ok, err, guard}
use innovativeproject_pm_gen.Base.Text.{lower, ends_with}
use innovativeproject_pm_gen.Base.Value.{decimal}
use innovativeproject_pm_gen.Errors.{Exn, http}
use innovativeproject_pm_gen.Schemas.{TrainedModel}
use innovativeproject_pm_gen.Store.{Db}
use innovativeproject_pm_gen.Store.Tables.{
  ModelDraft, insert_model, update_model, delete_model_row, has_model_key,
}
use innovativeproject_pm_gen.S3.{
  Storage, Site, S3, on_db, edit_db, new_uuid, delete_from_store, path_name, safe_name,
}
use innovativeproject_pm_gen.Modeling.{Call, require_preprocessed, get_model}

pub record TrainedModelOption : Type 0 where
  pub id : String
  pub name : String
  pub path : String
  pub encoder_s3_key : String
  pub config_s3_key : String
  pub dataset_id : Option ℕ
  pub created_at : ℕ

unfoldable pub option_of : String → TrainedModel → TrainedModelOption
option_of bucket m = record {
  id = decimal m.id;
  name = m.name;
  path = "s3://" <> (bucket <> ("/" <> m.s3_key));
  encoder_s3_key = m.encoder_s3_key;
  config_s3_key = m.config_s3_key;
  dataset_id = m.dataset_id;
  created_at = m.created_at;
}

-- `key.lower().endswith(".weights.h5")`
unfoldable pub is_weights : String → Bool
is_weights key = ends_with (lower key) ".weights.h5"

unfoldable pub require_weights : String → Result Exn (Unit {0})
require_weights key =
    guard (is_weights key) (http 400 "Model file must have .weights.h5 extension.")

-- `TrainedModelCreate`, `TrainedModelUpdate` and `ModelUploadInitiateRequest`
pub record TrainedModelCreate : Type 0 where
  pub name : String
  pub s3_key : String
  pub encoder_s3_key : String
  pub config_s3_key : String
  pub dataset_id : ℕ

pub record TrainedModelUpdate : Type 0 where
  pub name : Option String
  pub s3_key : Option String
  pub encoder_s3_key : Option String
  pub config_s3_key : Option String
  pub dataset_id : Option ℕ

pub record ModelUploadInitiateRequest : Type 0 where
  pub name : String
  pub file_name : String
  pub dataset_id : ℕ

pub record ModelUpload : Type 0 where
  pub model_id : ℕ
  pub s3_key : String
  pub upload_url : String

abbrev pub found_or_404 : String → Option String → Result Exn (Unit {0})
found_or_404 label none = ok tt
found_or_404 label (some exc) =
    err (http 404 (label <> (" file not found on S3 or access denied: " <> exc)))

-- The parts of `update_trained_model`, one for each attribute that may be given.
unfoldable pub set_name : Option String → TrainedModel → TrainedModel
set_name none m = m
set_name (some name) m = record m { name = name }

module _ (st : Storage) where
  -- `head_object`, whose exceptions become a 404
  unfoldable pub require_file : String → String → Site st → Result Exn (Unit {0})
  require_file label key s = found_or_404 label (st.head_object key s.objects)

  unfoldable pub list_trained_models : Call → S3 st (List TrainedModelOption)
  list_trained_models call = gets (λ s. map (option_of call.bucket) s.db.trained_models)

  unfoldable pub refuse_known : String → Db → Result Exn (Unit {0})
  refuse_known key db =
      if has_model_key key db.trained_models
      then err (http 400 "Model with this S3 key already exists")
      else ok tt

  -- The draft of the row, after every check.
  unfoldable pub checked_draft : Call → TrainedModelCreate → S3 st ModelDraft
  checked_draft call body = do
    asks (λ s. require_preprocessed body.dataset_id s.db)
    lift (require_weights body.s3_key)
    asks (require_file "Model" body.s3_key)
    asks (require_file "Encoder" body.encoder_s3_key)
    asks (require_file "Config" body.config_s3_key)
    asks (λ s. refuse_known body.s3_key s.db)
    uuid ← lift call.get_uuid
    pure (record {
      user_uuid = uuid;
      name = body.name;
      s3_key = body.s3_key;
      encoder_s3_key = some body.encoder_s3_key;
      config_s3_key = some body.config_s3_key;
      dataset_id = body.dataset_id;
      created_at = call.now;
    })

  unfoldable pub create_trained_model : Call → TrainedModelCreate → S3 st TrainedModelOption
  create_trained_model call body = do
    draft ← checked_draft call body
    m ← on_db st (insert_model draft)
    pure (option_of call.bucket m)

  unfoldable pub set_weights : Option String → TrainedModel → S3 st TrainedModel
  set_weights none m = pure m
  set_weights (some key) m = do
    lift (require_weights key)
    asks (require_file "Model" key)
    pure (record m { s3_key = key })

  unfoldable pub set_encoder : Option String → TrainedModel → S3 st TrainedModel
  set_encoder none m = pure m
  set_encoder (some key) m = do
    asks (require_file "Encoder" key)
    pure (record m { encoder_s3_key = key })

  unfoldable pub set_config : Option String → TrainedModel → S3 st TrainedModel
  set_config none m = pure m
  set_config (some key) m = do
    asks (require_file "Config" key)
    pure (record m { config_s3_key = key })

  unfoldable pub set_dataset : Option ℕ → TrainedModel → S3 st TrainedModel
  set_dataset none m = pure m
  set_dataset (some i) m = do
    asks (λ s. require_preprocessed i s.db)
    pure (record m { dataset_id = some i })

  unfoldable pub changed_model : ℕ → TrainedModelUpdate → S3 st TrainedModel
  changed_model model_id body = do
    found ← asks (λ s. get_model model_id s.db)
    weighted ← set_weights body.s3_key (set_name body.name found)
    encoded ← set_encoder body.encoder_s3_key weighted
    configured ← set_config body.config_s3_key encoded
    set_dataset body.dataset_id configured

  unfoldable pub update_trained_model : Call → ℕ → TrainedModelUpdate → S3 st TrainedModelOption
  update_trained_model call model_id body = do
    changed ← changed_model model_id body
    m ← on_db st (update_model changed)
    pure (option_of call.bucket m)

  unfoldable deleted_or_400 : Option String → Result Exn (Unit {0})
  deleted_or_400 none = ok tt
  deleted_or_400 (some exc) = err (http 400 ("Error deleting file from S3: " <> exc))

  -- `if delete_from_s3:`
  unfoldable pub delete_file_if : Bool → String → S3 st (Unit {0})
  unfolding deleted_or_400
  delete_file_if false key = pure tt
  delete_file_if true key = do answer ← delete_from_store st key; lift (deleted_or_400 answer)

  unfoldable pub delete_trained_model : ℕ → Bool → S3 st (Unit {0})
  delete_trained_model model_id delete_from_s3 = do
    m ← asks (λ s. get_model model_id s.db)
    delete_file_if delete_from_s3 m.s3_key
    edit_db st (delete_model_row m.id)

  -- A URL, or the row goes again and the request fails.
  unfoldable pub url_or_500 : TrainedModel → Result String String → S3 st ModelUpload
  url_or_500 m (ok url) = pure (record { model_id = m.id; s3_key = m.s3_key; upload_url = url })
  url_or_500 m (err exc) = do
    edit_db st (delete_model_row m.id)
    raise (http 500 ("Failed to generate presigned upload URL: " <> exc))

  -- The draft has no encoder and no configuration.
  unfoldable pub upload_draft : Call → ModelUploadInitiateRequest → S3 st ModelDraft
  upload_draft call body = do
    asks (λ s. require_preprocessed body.dataset_id s.db)
    lift (require_weights body.file_name)
    unique_id ← new_uuid st
    uuid ← lift call.get_uuid
    pure (record {
      user_uuid = uuid;
      name = body.name;
      s3_key =
          "models/" <> (unique_id <> ("_" <> safe_name (st.ascii_fold (path_name body.file_name))));
      encoder_s3_key = none;
      config_s3_key = none;
      dataset_id = body.dataset_id;
      created_at = call.now;
    })

  unfoldable pub initiate_model_upload : Call → ModelUploadInitiateRequest → S3 st ModelUpload
  initiate_model_upload call body = do
    draft ← upload_draft call body
    m ← on_db st (insert_model draft)
    url ← gets (λ s. st.presigned_put m.s3_key s.objects)
    url_or_500 m url
