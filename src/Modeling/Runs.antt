-- ===== src/Modeling/Runs.antt =====
-- apps/backend/app/api/v1/modeling.py: the routes that start a run in Airflow and record it for the
-- poller.
pub mod Laws
pub mod Started
pub mod Preprocessing
pub mod Finished
use text.Mathlib.Text.{starts_with}
use innovativeproject_pm_gen.Base.{ℕ, String, ◌<>◌, Option, none, some, if◌then◌else◌}
use innovativeproject_pm_gen.Base.Exec.{Exec, pure, raise, lift, asks, catch, ◌>>=◌, ◌>>◌}
use innovativeproject_pm_gen.Base.Result.{Result, ok, err}
use innovativeproject_pm_gen.Base.Text.{strip}
use innovativeproject_pm_gen.Base.Value.{Fields, obj}
use innovativeproject_pm_gen.Errors.{Exn, http}
use innovativeproject_pm_gen.Schemas.{Dataset, PipelineRunStatus, ProcessRun, TrainedModel}
use innovativeproject_pm_gen.Store.Tables.{insert_process_run}
use innovativeproject_pm_gen.S3.{Storage, Site, S3, on_db, get_dataset}
use innovativeproject_pm_gen.Airflow.Service.Actions.{ActionResponse, TriggerRequest, or_text}
use innovativeproject_pm_gen.Poller.{Backend, on_site, on_flow}
use innovativeproject_pm_gen.Modeling.{Call}
use innovativeproject_pm_gen.Modeling.Conf.{
  Outside, Prepared, GenerateRunRequest, ModelingRunRequest, ModelingRunCreated, dag_id_of,
  process_name, new_run_id, on_trigger_error, generating_model, comparison_path, generate_conf,
  output_prefix_of, require_completed, require_raw, prepare,
}
use innovativeproject_pm_gen.Autofill.Form.{
  ProcessType, preprocessing_feature_engineering, generate,
}

module _ {F : Type 0} (o : Outside F) (st : Storage) where
  abbrev pub Route : Type 0 → Type 0
  Route A = Exec Exn (Backend st F) A

  unfoldable pub object_or_404 : String → Option String → Result Exn (Unit {0})
  object_or_404 key none = ok tt
  object_or_404 key (some exc) =
      err (http 404 ("S3 object not found or access denied for key '" <> (key <> ("': " <> exc))))

  -- `_validate_s3_key`
  unfoldable pub validate_s3_key : String → Site st → Result Exn (Unit {0})
  unfolding object_or_404
  validate_s3_key key s =
      if starts_with key "s3://"
      then err (
          http 400 (
            "Invalid S3 key format: '"
            <> (key <> "'. Should be a key relative to the bucket, not a full s3:// URL.")))
      else object_or_404 key (st.head_object key s.objects)

  -- `_record_process_run`: whatever is raised is logged, and rolled back.
  unfoldable pub record_process_run : ProcessRun → S3 st (Unit {0})
  record_process_run r = catch (on_db st (insert_process_run r)) (λ e. pure tt)

  abbrev pub request : ProcessType → String → Fields → TriggerRequest
  request t run_id conf = record {
    conf = some (obj conf);
    run_id = some run_id;
    logical_date = none;
    note = some ("Modeling process " <> process_name t);
  }

  unfoldable pub trigger : Call → ProcessType → String → Fields → Route ActionResponse
  trigger call t run_id conf =
      catch (on_flow st (o.trigger_dag (dag_id_of t) (request t run_id conf) (some call.identity)))
        (λ e. raise (on_trigger_error (dag_id_of t) e))

  abbrev pub new_process_run :
      Call → ProcessType → String → ℕ → Option ℕ → String → String → ProcessRun
  new_process_run call t run_id uuid input output_s3_key output_name = record {
    id = 0;
    run_id = run_id;
    dag_id = dag_id_of t;
    process_type = process_name t;
    user_uuid = uuid;
    input_dataset_id = input;
    output_s3_key = output_s3_key;
    output_name = output_name;
    status = PipelineRunStatus.running;
    registered_dataset_id = none;
    created_at = call.now;
  }

  abbrev pub created : ProcessType → String → ActionResponse → Fields → ModelingRunCreated
  created t run_id action conf = record {
    process_type = t;
    dag_id = dag_id_of t;
    run_id = run_id;
    message = action.message;
    airflow_status = action.airflow_status;
    conf = conf;
  }

  -- The checks of a request to generate, and the configuration of the run.
  unfoldable pub prepare_generate : Call → GenerateRunRequest → S3 st (TrainedModel × Fields)
  prepare_generate call body = do
    m ← asks (λ s. generating_model o body.model_id s.db)
    comparison ← asks (λ s. comparison_path body.comparison_dataset_id s.db)
    asks (validate_s3_key (strip body.encoder_s3_key))
    asks (validate_s3_key (strip body.config_s3_key))
    pure (m, generate_conf body (new_run_id call generate) m comparison)

  unfoldable pub generated_run :
      Call → GenerateRunRequest → TrainedModel → Fields → ActionResponse → Route ModelingRunCreated
  generated_run call body m conf action = do
    let run_id = or_text action.run_id (new_run_id call generate)
    uuid ← lift call.get_uuid
    on_site st (
        record_process_run (
          new_process_run call generate run_id uuid body.comparison_dataset_id
            (output_prefix_of (new_run_id call generate)) (m.name <> (" generated " <> run_id))))
    pure (created generate run_id action conf)

  unfoldable pub trigger_generate_run : Call → GenerateRunRequest → Route ModelingRunCreated
  trigger_generate_run call body = do
    (m, conf) ← on_site st (prepare_generate call body)
    action ← trigger call generate (new_run_id call generate) conf
    generated_run call body m conf action

  -- The dataset of a modeling run, and the configuration.
  unfoldable pub prepare_modeling :
      Call → ProcessType → ModelingRunRequest → S3 st (Dataset × Prepared)
  prepare_modeling call t body = do
    d ← get_dataset st body.dataset_id
    lift (require_completed d.status)
    lift (require_raw t d.type)
    p ← lift (prepare o (new_run_id call t) t d body)
    pure (d, p)

  -- Only a preprocessing run is recorded.
  unfoldable pub record_modeling :
      Call → ProcessType → String → Dataset → Prepared → Route (Unit {0})
  record_modeling call preprocessing_feature_engineering run_id d p = do
    uuid ← lift call.get_uuid
    on_site st (
        record_process_run (
          new_process_run call preprocessing_feature_engineering run_id uuid (some d.id)
            p.output_prefix (d.file_name <> (" (preprocessed " <> (run_id <> ")")))))
  record_modeling call t run_id d p = pure tt

  unfoldable pub modeling_run :
      Call → ProcessType → Dataset → Prepared → ActionResponse → Route ModelingRunCreated
  modeling_run call t d p action = do
    let run_id = or_text action.run_id (new_run_id call t)
    record_modeling call t run_id d p
    pure (created t run_id action p.conf)

  unfoldable pub trigger_modeling_run :
      Call → ProcessType → ModelingRunRequest → Route ModelingRunCreated
  trigger_modeling_run call t body = do
    (d, p) ← on_site st (prepare_modeling call t body)
    action ← trigger call t (new_run_id call t) p.conf
    modeling_run call t d p action
