-- ===== src/Pipeline.antt =====
-- apps/backend/app/services/pipeline.py: `create_run` and `delete_run`. The call of `trigger_dag` is
-- bound to the keywords of services/airflow/service.py before it runs; what it would do is an
-- argument, as are the clock and the random part of the run's id.
pub mod Laws
use innovativeproject_pm_gen.Base.{
  ◌&&◌, ℕ, ◌+◌, String, ◌<>◌, Bool, true, false, not, Option, none, some, List, [], ◌∷◌, ◌++◌, eqb,
  if◌then◌else◌,
}
use innovativeproject_pm_gen.Base.Value.{Fields, type_error, decimal}
use innovativeproject_pm_gen.Base.Text.{is_empty}
use innovativeproject_pm_gen.Base.Table.{member}
use innovativeproject_pm_gen.Base.Result.{Result, ok, err, ◌>>=◌, ◌>>◌}
use innovativeproject_pm_gen.Errors.{Exn, preprocessing_config, python, http, airflow}
use innovativeproject_pm_gen.Schemas.{
  Dataset, DatasetType, PipelineRun, PipelineRunStatus, PipelineType, type_eq,
}
use innovativeproject_pm_gen.Store.{Db, find_by_id}
use innovativeproject_pm_gen.SparkConf.{build_preprocessing_dag_conf, Paths}

pub record Deployment : Type 0 where
  pub paths : Paths
  -- Is the Airflow service set up?
  pub service_up : Bool
  pub hex : String
  pub now : ℕ
  -- `action.run_id` of a call that is made
  pub trigger : String → Result Exn String

unfoldable pub dag_id_of : PipelineType → String
dag_id_of PipelineType.preprocessing = "preprocessing_pipeline"
dag_id_of PipelineType.feature_engineering = "feature_engineering_pipeline"
dag_id_of PipelineType.training = "training_pipeline"

unfoldable pub is_preprocessing : PipelineType → Bool
is_preprocessing PipelineType.preprocessing = true
is_preprocessing _ = false

-- A call of a function with keyword-only parameters that have no defaults.
unfoldable pub bind_keywords : List String → List String → Result Exn (Unit {0})
bind_keywords [] given = ok tt
bind_keywords (k ∷ ks) given =
    let rest = bind_keywords ks given in if member k given then rest else err (python type_error)

unfoldable pub logical_run_id : Deployment → PipelineRun → String
logical_run_id s run = "genpm_pp_" <> (decimal run.id <> ("_" <> s.hex))

unfoldable pub check_conf : Deployment → PipelineRun → Dataset → Fields → Result Exn (Unit {0})
check_conf s run dataset dag_args =
    if is_preprocessing run.pipeline_type
    then (build_preprocessing_dag_conf s.paths (logical_run_id s run) run.dataset_id dataset.s3_key
          dag_args "preprocessing_feature_engineering" (some dataset.file_name) none
        >>= λ conf. ok tt)
    else ok tt

unfoldable pub started : String → String → Option String
started logical run_id = if is_empty run_id then some logical else some run_id

-- The `except` clauses.
unfoldable pub on_trigger_error : Result Exn (Option String) → Result Exn (Option String)
on_trigger_error (err (preprocessing_config message)) = err (http 422 message)
on_trigger_error (err (airflow e)) = ok none
on_trigger_error r = r

unfoldable pub trigger_airflow :
    Deployment → PipelineRun → Dataset → Fields → Result Exn (Option String)
trigger_airflow s run dataset dag_args =
    if s.service_up
    then on_trigger_error (
        check_conf s run dataset dag_args >>= λ _.
        bind_keywords ("body" ∷ "triggered_by" ∷ []) ("body" ∷ []) >>= λ _.
        s.trigger (dag_id_of run.pipeline_type) >>= λ run_id.
        ok (started (logical_run_id s run) run_id))
    else ok none

unfoldable pub update_pipeline_run :
    ℕ → (PipelineRun → PipelineRun) → List PipelineRun → List PipelineRun
update_pipeline_run i f [] = []
update_pipeline_run i f (r ∷ rs) =
    let rest = update_pipeline_run i f rs in (if eqb r.id i then f r else r) ∷ rest

unfoldable pub set_running : String → PipelineRun → PipelineRun
set_running airflow_run_id r = record r {
  airflow_run_id = some airflow_run_id;
  status = PipelineRunStatus.running;
}

-- What is done with the outcome of the trigger, when the row is committed.
unfoldable pub after_trigger :
    PipelineRun → Result Exn (Option String) → Db → Result Exn PipelineRun × Db
after_trigger run (err e) db = (err e, db)
after_trigger run (ok none) db = (ok run, db)
after_trigger run (ok (some airflow_run_id)) db = (
  ok (set_running airflow_run_id run),
  record db {
    pipeline_runs = update_pipeline_run run.id (set_running airflow_run_id) db.pipeline_runs;
  },
)

unfoldable pub new_run : Deployment → Db → ℕ → PipelineType → PipelineRun
new_run s db dataset_id pipeline_type = record {
  id = db.next_pipeline_id;
  dataset_id = dataset_id;
  pipeline_type = pipeline_type;
  status = PipelineRunStatus.pending;
  airflow_run_id = none;
  created_at = s.now;
}

unfoldable pub add_run : PipelineRun → Db → Db
add_run run db = record db {
  pipeline_runs = db.pipeline_runs ++ (run ∷ []);
  next_pipeline_id = db.next_pipeline_id + 1;
}

unfoldable pub create_for :
    Deployment → PipelineType → Fields → Option Dataset → ℕ → Db → Result Exn PipelineRun × Db
create_for s pipeline_type dag_args none dataset_id db = (err (http 404 "Dataset not found"), db)
create_for s pipeline_type dag_args (some dataset) dataset_id db =
    let run = new_run s db dataset_id pipeline_type in
    if is_preprocessing pipeline_type && not (type_eq dataset.type DatasetType.raw)
    then (err (http 409 "Preprocessing requires a RAW dataset as input"), db)
    else after_trigger run (trigger_airflow s run dataset dag_args) (add_run run db)

unfoldable pub create_run :
    Deployment → ℕ → PipelineType → Fields → Db → Result Exn PipelineRun × Db
create_run s dataset_id pipeline_type dag_args db =
    create_for s pipeline_type dag_args (find_by_id dataset_id db.datasets) dataset_id db

-- `delete_run`
unfoldable pub remove_run : ℕ → List PipelineRun → List PipelineRun
remove_run i [] = []
remove_run i (r ∷ rs) = let rest = remove_run i rs in if eqb r.id i then rest else r ∷ rest

unfoldable pub delete_run : ℕ → Db → Db
delete_run i db = record db { pipeline_runs = remove_run i db.pipeline_runs }
