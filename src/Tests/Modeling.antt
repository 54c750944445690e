-- ===== src/Tests/Modeling.antt =====
-- Requests for runs and on models, over a database with one model and one run.
use innovativeproject_pm_gen.Base.{
  if◌then◌else◌, ℕ, suc, String, ◌≡◌, refl, true, false, none, some, List, [], ◌∷◌, arith, ◌==◌,
}
use innovativeproject_pm_gen.Base.Exec.Hoare.{After}
use innovativeproject_pm_gen.Base.Exec.{◌>>◌}
use innovativeproject_pm_gen.Modeling.Runs.{object_or_404, trigger}
use innovativeproject_pm_gen.Base.Result.{Result, ok, err}
use innovativeproject_pm_gen.Base.Value.{put, get, Fields, end, pos}
use innovativeproject_pm_gen.Errors.{Exn}
use innovativeproject_pm_gen.Schemas.{
  DagRunStatus, ProcessRun, Dataset, DatasetStatus, DatasetType, TrainedModel,
}
use innovativeproject_pm_gen.Store.{find_by_id, Db}
use innovativeproject_pm_gen.Poller.{on_flow, on_site, Backend, output_key}
use innovativeproject_pm_gen.Airflow.Service.Actions.{done}
use innovativeproject_pm_gen.Modeling.{Call}
use innovativeproject_pm_gen.Modeling.Conf.{
  output_prefix_of, new_run_id, comparison_path, named_or_404, model_at, put_kpis, model_of_text,
  generating_model, generate_dag_args, generate_conf, Outside, GenerateRunRequest,
  ModelingRunRequest, ModelingRunCreated,
}
use innovativeproject_pm_gen.Modeling.Models.{
  TrainedModelUpdate, ModelUploadInitiateRequest, initiate_model_upload, update_trained_model,
  is_weights,
}
use innovativeproject_pm_gen.Modeling.Models.Update.{update_trained_model-Outcome, IsUpdated}
use innovativeproject_pm_gen.Modeling.Runs.{
  record_process_run, generated_run, validate_s3_key, new_process_run, prepare_generate, created,
  trigger_generate_run, trigger_modeling_run,
}
use innovativeproject_pm_gen.Modeling.Runs.Started.{trigger_generate_run-Outcome, IsStarted}
use innovativeproject_pm_gen.Modeling.Runs.Preprocessing.{trigger_modeling_run-Outcome}
use innovativeproject_pm_gen.Autofill.Form.{generate, preprocessing_feature_engineering}
use innovativeproject_pm_gen.System.Sound.{IsSound}
use innovativeproject_pm_gen.Poller.Returns.{answered}
use innovativeproject_pm_gen.System.Commits.{initiate_model_upload-fails}
use innovativeproject_pm_gen.System.Events.{
  Event, tick, outside, generate_run, update_model, delete, run_events, run_events-IsSound,
}
use innovativeproject_pm_gen.Tests.Backend.{any_starts, bucket, store, run, succeeded}
use innovativeproject_pm_gen.Tests.Pipeline.{raw_folder}
use innovativeproject_pm_gen.Base.Text.{rstrip, lstrip, strip_of, strip, ends_with, lower}
use innovativeproject_pm_gen.Store.Tables.{find_model, refers, has_run_id, insert_process_run}
use innovativeproject_pm_gen.S3.{missing, on_db}
use innovativeproject_pm_gen.Base.Exec.{◌>>=◌, catch, pure, asks, lift}
use innovativeproject_pm_gen.Modeling.Runs.Finished.{generate-IsDelivered, IsDelivered}

abbrev world : Outside ℕ
world = record {
  paths = raw_folder;
  int_of_text = λ t. if t == "1" then some (pos 1) else none;
  is_digits = λ t. t == "1";
  trigger_dag = λ dag_id body user n. (ok (done "manual__1" "Triggered"), suc n);
}

abbrev call : Call
call = record {
  get_uuid = ok 5;
  identity = "anna";
  hex = "0badcafe0bad";
  now = 100;
  bucket = "datasets";
}

abbrev model : TrainedModel
model = record {
  id = 1;
  user_uuid = 5;
  name = "gan";
  s3_key = "models/gan.weights.h5";
  encoder_s3_key = "models/gan.encoder";
  config_s3_key = "models/gan.config";
  dataset_id = none;
  created_at = 0;
}

abbrev raw_dataset : Dataset
raw_dataset = record {
  id = 1;
  user_uuid = 5;
  s3_key = "/raw/pm.parquet";
  file_name = "pm.parquet";
  pm_metadata_s3_key = none;
  status = DatasetStatus.completed;
  type = DatasetType.raw;
}

abbrev full : Db
full = record store {
  datasets = raw_dataset ∷ [];
  next_dataset_id = 2;
  trained_models = model ∷ [];
  next_model_id = 2;
}

abbrev files : List String
files = "models/gan.encoder" ∷ "models/gan.config" ∷ "models/new.weights.h5" ∷ []

abbrev backend : Backend bucket ℕ
backend = record { site = record { db = full; objects = files }; flow = 0 }

abbrev generate_request : GenerateRunRequest
generate_request = record {
  model_id = "1";
  encoder_s3_key = " models/gan.encoder";
  config_s3_key = "models/gan.config";
  cell_id = "";
  anchor_date = "2024-01-01";
  n_weeks = 2;
  holiday = 0;
  prompt = "";
  comparison_dataset_id = some 1;
  dag_args = end;
  kpis = "kpi" ∷ [];
}

abbrev answer : Result Exn ModelingRunCreated × Backend bucket ℕ
answer = trigger_generate_run world bucket call generate_request backend

trigger_generate_run-Outcome_example :
    After
      (λ c after. IsStarted world call generate backend c after)
      (λ after. after.site ≡ backend.site)
      answer
trigger_generate_run-Outcome_example =
    trigger_generate_run-Outcome world call generate_request backend

abbrev preprocessing_request : ModelingRunRequest
preprocessing_request = record { dataset_id = 1; dataset_type = "working_days"; dag_args = end }

trigger_modeling_run-Outcome_example :
    After
      (λ c after. IsStarted world call preprocessing_feature_engineering backend c after)
      (λ after. after.site ≡ backend.site)
      (trigger_modeling_run world bucket call preprocessing_feature_engineering
        preprocessing_request backend)
trigger_modeling_run-Outcome_example =
    trigger_modeling_run-Outcome world call preprocessing_request backend

abbrev upload : ModelUploadInitiateRequest
upload = record { name = "new"; file_name = "new.weights.h5"; dataset_id = 1 }

initiate_model_upload-fails_example :
    (e : Exn) × ((initiate_model_upload bucket call upload backend.site).0 ≡ err e)
    × ((initiate_model_upload bucket call upload backend.site).1.db ≡ full)
initiate_model_upload-fails_example = initiate_model_upload-fails call upload backend.site

abbrev change : TrainedModelUpdate
change = record {
  name = none;
  s3_key = some "models/new.weights.h5";
  encoder_s3_key = none;
  config_s3_key = none;
  dataset_id = none;
}

update_trained_model-Outcome_example :
    After
      (λ c after. IsUpdated call 1 change backend.site c after)
      (λ after. after ≡ backend.site)
      (update_trained_model bucket call 1 change backend.site)
update_trained_model-Outcome_example = update_trained_model-Outcome call 1 change backend.site

-- A request to generate, a change of the model, a tick in which the output is there, and the deletion
-- of a dataset.
abbrev day : List (Event bucket ℕ)
day =
    generate_run call generate_request
    ∷ update_model call 1 change
    ∷ outside (λ o. "out/7" ∷ o) (λ n. n)
    ∷ tick
    ∷ delete 1 false
    ∷ []

full-IsSound : IsSound full
unfolding is_weights ends_with lower
full-IsSound = (
  λ i. output_key run,
  record {
    datasets = record { keys = (refl, tt); ids = (refl, tt); below = (omega arith, tt) };
    runs = record {
      registered = ((λ i e. cc), tt);
      outputs = (refl, tt);
      below = (omega arith, tt);
    };
    models = record {
      usable = ((refl, λ i e. cc), tt);
      keys = (refl, tt);
      ids = (refl, tt);
      below = (omega arith, tt);
    };
  },
)

run_events-IsSound_example :
    IsSound (run_events bucket world succeeded (λ n. true) day backend).site.db
run_events-IsSound_example =
    run_events-IsSound bucket world succeeded (λ n. true) day backend full-IsSound

abbrev conf : Fields
conf = generate_conf generate_request "genpm_gen_0badcafe0bad" model (some "/raw/pm.parquet")

abbrev answered_run : ModelingRunCreated
answered_run = created world bucket generate "manual__1" (done "manual__1" "Triggered") conf

abbrev row : ProcessRun
row =
    record (new_process_run world bucket call generate "manual__1" 5 (some 1)
      "generated/genpm_gen_0badcafe0bad" "gan generated manual__1") { id = 8 }

abbrev after : Backend bucket ℕ
after = record {
  site = record {
    db = record full { process_runs = run ∷ row ∷ []; next_process_id = 9 };
    objects = files;
  };
  flow = 1;
}

-- The output has been written.
abbrev later : Backend bucket ℕ
later = record after {
  site = record after.site { objects = "generated/genpm_gen_0badcafe0bad" ∷ files };
  flow = 4;
}

answer_test : answer ≡ (ok answered_run, after)
unfolding trigger_generate_run prepare_generate generating_model model_of_text model_at named_or_404
    comparison_path validate_s3_key trigger generated_run record_process_run insert_process_run
    has_run_id refers find_by_id find_model new_run_id output_prefix_of strip strip_of lstrip rstrip
    on_site on_flow on_db lift asks pure catch ◌>>=◌ ◌>>◌ object_or_404
answer_test = refl

generate-IsDelivered_example :
    IsDelivered bucket world succeeded
      (λ d i f. answered DagRunStatus.success)
      (λ f. true)
      backend
      later
      "manual__1"
      "generated/genpm_gen_0badcafe0bad"
unfolding generate_conf generate_dag_args put_kpis output_prefix_of get put missing any_starts
    has_run_id
generate-IsDelivered_example =
    generate-IsDelivered bucket world succeeded (λ d i f. answered DagRunStatus.success) (λ f. true)
      call generate_request backend after answered_run "generated/genpm_gen_0badcafe0bad" later
      answer_test full-IsSound refl refl
      (generate_dag_args generate_request "generated/genpm_gen_0badcafe0bad", refl, refl) refl
      (λ f. refl) refl
