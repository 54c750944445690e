-- ===== src/Modeling/Conf.antt =====
-- apps/backend/app/api/v1/modeling.py: the requests for a run, their checks on the database, and the
-- configuration that Airflow is given. The Airflow service is an argument, with a state of its own.
use innovativeproject_pm_gen.Base.{
  ℕ, String, ◌<>◌, Bool, Option, none, some, List, [], ◌∷◌, if◌then◌else◌,
}
use innovativeproject_pm_gen.Base.Exec.{Exec}
use innovativeproject_pm_gen.Base.Result.{Result, ok, err, guard}
use innovativeproject_pm_gen.Base.Text.{strip}
use innovativeproject_pm_gen.Base.Value.{
  Fields, Items, Value, ℤ, pos, end, field, int, null, obj, str, arr, nil, cons, put, value_error,
  decimal,
}
use innovativeproject_pm_gen.Errors.{
  Exn, Kind, http, airflow, python, preprocessing_config, http_status_of, AirflowError,
}
use innovativeproject_pm_gen.Schemas.{Dataset, DatasetStatus, DatasetType, TrainedModel, type_eq}
use innovativeproject_pm_gen.Store.{Db, find_by_id}
use innovativeproject_pm_gen.Store.Tables.{find_model}
use innovativeproject_pm_gen.SparkConf.{
  Paths, DagConf, build_preprocessing_dag_conf, to_airflow_conf,
}
use innovativeproject_pm_gen.Airflow.Service.Actions.{ActionResponse, TriggerRequest}
use innovativeproject_pm_gen.Poller.{preprocessing_type}
use innovativeproject_pm_gen.Modeling.{Call}
use innovativeproject_pm_gen.Autofill.Form.{
  ProcessType, preprocessing_feature_engineering, training_dataset, generate,
}

abbrev pub process_name : ProcessType → String
process_name preprocessing_feature_engineering = preprocessing_type
process_name training_dataset = "training_dataset"
process_name generate = "generate"

-- `DAG_ID_MAP`
abbrev pub dag_id_of : ProcessType → String
dag_id_of preprocessing_feature_engineering = "preprocessing_pipeline"
dag_id_of training_dataset = "training_dataset_pipeline"
dag_id_of generate = "generate_pipeline"

-- `_RUN_ID_PREFIX`
abbrev pub run_id_prefix : ProcessType → String
run_id_prefix preprocessing_feature_engineering = "pe"
run_id_prefix training_dataset = "td"
run_id_prefix generate = "gen"

unfoldable pub new_run_id : Call → ProcessType → String
new_run_id call t = "genpm_" <> (run_id_prefix t <> ("_" <> call.hex))

pub record GenerateRunRequest : Type 0 where
  pub model_id : String
  pub encoder_s3_key : String
  pub config_s3_key : String
  pub cell_id : String
  pub anchor_date : String
  pub n_weeks : ℕ
  pub holiday : ℕ
  pub prompt : String
  pub comparison_dataset_id : Option ℕ
  pub dag_args : Fields
  pub kpis : List String

pub record ModelingRunRequest : Type 0 where
  pub dataset_id : ℕ
  pub dataset_type : String
  pub dag_args : Fields

pub record ModelingRunCreated : Type 0 where
  pub process_type : ProcessType
  pub dag_id : String
  pub run_id : String
  pub message : String
  pub airflow_status : ℕ
  pub conf : Fields

-- What the routes call: `PurePosixPath` with pydantic, `int` and `isdigit`, and the Airflow service.
pub record Outside (F : Type 0) : Type 0 where
  pub paths : Paths
  pub int_of_text : String → Option ℤ
  pub is_digits : String → Bool
  pub trigger_dag : String → TriggerRequest → Option String → Exec Exn F ActionResponse

-- The `except` clauses of a trigger.
unfoldable pub on_kind : String → AirflowError → Kind → Exn
on_kind dag_id e Kind.not_found = http 404 (
    "DAG '"
    <> (dag_id
        <> ("' is not registered in Airflow. "
            <> "Ensure apps/airflow/dags is mounted and the scheduler has parsed the DAG.")))
on_kind dag_id e k = http (http_status_of k) e.message

unfoldable pub on_trigger_error : String → Exn → Exn
on_trigger_error dag_id (airflow e) = on_kind dag_id e e.kind
on_trigger_error dag_id e = e

unfoldable pub texts : List String → Items
texts [] = nil
texts (t ∷ ts) = cons (str t) (texts ts)

abbrev text_or_null : Option String → Value
text_or_null none = null
text_or_null (some t) = str t

unfoldable pub output_prefix_of : String → String
output_prefix_of run_id = "generated/" <> run_id

-- `if body.kpis:`
unfoldable pub put_kpis : List String → Fields → Fields
unfolding texts
put_kpis [] args = args
put_kpis (k ∷ ks) args = put "kpi_list" (arr (texts (k ∷ ks))) args

unfoldable pub generate_dag_args : GenerateRunRequest → String → Fields
generate_dag_args body output_prefix = put_kpis body.kpis (
    put "output_path_prefix" (str output_prefix) (
      put "holiday" (int (pos body.holiday)) (
        put "n_weeks" (int (pos body.n_weeks)) (
          put "anchor_date" (str body.anchor_date)
            (put "cell_id" (str body.cell_id) body.dag_args)))))

unfoldable pub generate_conf : GenerateRunRequest → String → TrainedModel → Option String → Fields
generate_conf body run_id m comparison = field "genpm_run_id" (str run_id) (
    field "model_id" (str body.model_id) (
      field "model_name" (str m.name) (
        field "model_path" (str m.s3_key) (
          field "encoder_path" (str (strip body.encoder_s3_key)) (
            field "config_path" (str (strip body.config_s3_key)) (
              field "prompt" (str body.prompt) (
                field "comparison_dataset_path" (text_or_null comparison) (
                  field "process_type" (str "generate") (
                    field "dag_args" (obj (generate_dag_args body (output_prefix_of run_id)))
                      end)))))))))

unfoldable pub comparison_path : Option ℕ → Db → Result Exn (Option String)
comparison_path none db = ok none
comparison_path (some i) db = elim (find_by_id i db.datasets) [
  | none ↦ err (http 400 ("Comparison dataset with ID " <> (decimal i <> " does not exist")))
  | some d ↦ ok (some d.s3_key)
]

unfoldable pub require_completed : DatasetStatus → Result Exn (Unit {0})
require_completed DatasetStatus.completed = ok tt
require_completed _ = err (http 409 "Dataset must be COMPLETED before modeling can start")

unfoldable pub require_raw : ProcessType → DatasetType → Result Exn (Unit {0})
require_raw preprocessing_feature_engineering t =
    guard (type_eq t DatasetType.raw) (http 409 "Preprocessing requires a RAW dataset as input")
require_raw _ t = ok tt

-- What the recorded run and the request to Airflow need of a configuration.
pub record Prepared : Type 0 where
  pub conf : Fields
  pub output_prefix : String

-- `except PreprocessingConfigError`
unfoldable pub prepared_or_422 : Result Exn DagConf → Result Exn Prepared
prepared_or_422 (ok c) =
    ok (record { conf = to_airflow_conf c; output_prefix = c.dag_args.output_path_prefix })
prepared_or_422 (err (preprocessing_config message)) = err (http 422 message)
prepared_or_422 (err e) = err e

unfoldable pub training_conf : String → Dataset → ModelingRunRequest → ProcessType → Fields
training_conf run_id d body t = field "genpm_run_id" (str run_id) (
    field "dataset_id" (int (pos d.id)) (
      field "dataset_name" (str d.file_name) (
        field "s3_key" (str d.s3_key) (
          field "dag_args" (obj (put "dataset_id" (int (pos d.id)) body.dag_args)) (
            field "process_type" (str (process_name t))
              (field "dataset_type" (str body.dataset_type) end))))))

module _ {F : Type 0} (o : Outside F) where
  unfoldable pub model_at : Option ℤ → Db → Result Exn (Option TrainedModel)
  model_at none db = err (python value_error)
  model_at (some (pos i)) db = ok (find_model i db.trained_models)
  model_at (some _) db = ok none

  unfoldable pub model_of_text : String → Db → Result Exn (Option TrainedModel)
  model_of_text t db = if o.is_digits t then model_at (o.int_of_text t) db else ok none

  unfoldable pub named_or_404 : String → Result Exn (Option TrainedModel) → Result Exn TrainedModel
  named_or_404 t (err e) = err e
  named_or_404 t (ok none) = err (http 404 ("Model not found: " <> t))
  named_or_404 t (ok (some m)) = ok m

  unfoldable pub generating_model : String → Db → Result Exn TrainedModel
  generating_model t db = named_or_404 t (model_of_text t db)

  unfoldable pub prepare : String → ProcessType → Dataset → ModelingRunRequest → Result Exn Prepared
  prepare run_id preprocessing_feature_engineering d body = prepared_or_422 (
      build_preprocessing_dag_conf o.paths run_id d.id d.s3_key body.dag_args preprocessing_type
        none (some d.file_name))
  prepare run_id t d body = ok (record { conf = training_conf run_id d body t; output_prefix = "" })
