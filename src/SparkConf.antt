-- ===== src/SparkConf.antt =====
-- apps/backend/app/services/spark_dag_conf.py, with models/spark_jobs.py and the prefix of
-- services/s3/visualization_artifacts.py: the configuration of a preprocessing run. pydantic's
-- validation of the user's arguments and `PurePosixPath` are arguments.
pub mod Laws
use innovativeproject_pm_gen.Base.{
  ℕ, String, ◌<>◌, Bool, true, false, ◌||◌, Option, none, some, List, [], ◌∷◌, ◌++◌, ◌==◌,
  if◌then◌else◌,
}
use innovativeproject_pm_gen.Base.Value.{
  Fields, Fault, value_error, Value, null, str, int, obj, field, end, pos,
}
use innovativeproject_pm_gen.Base.Text.{strip, strip_of, lstrip, is_slash, is_empty, join}
use innovativeproject_pm_gen.Base.Table.{member}
use innovativeproject_pm_gen.Base.Result.{Result, ok, err, ◌>>=◌, ◌>>◌}
use innovativeproject_pm_gen.Errors.{Exn, preprocessing_config, python}

-- The fields that are read here; the numbers of the job stand with the others.
pub record DagArgs : Type 0 where
  pub kpi_definitions_raw_path : String
  pub simple_reports_raw_path : String
  pub output_path_prefix : String
  pub others : Fields

pub record Paths : Type 0 where
  pub parent : String → String
  pub stem : String → String
  pub validate : Fields → Result Exn DagArgs

unfoldable pub is_blank_text : String → Bool
is_blank_text s = is_empty (strip s)

unfoldable pub missing_paths : DagArgs → List String
missing_paths args =
    (if is_blank_text args.kpi_definitions_raw_path then "kpi_definitions_raw_path" ∷ [] else [])
    ++ (if is_blank_text args.simple_reports_raw_path then "simple_reports_raw_path" ∷ [] else [])

unfoldable pub refuse_missing : List String → Result Exn (Unit {0})
refuse_missing [] = ok tt
refuse_missing (k ∷ ks) = err (
    preprocessing_config (
      "Missing required preprocessing dag_args: "
      <> (join ", " (k ∷ ks) <> ". Provide KPI definitions and simple reports S3 keys.")))

unfoldable pub require_paths : DagArgs → Result Exn (Unit {0})
require_paths args = refuse_missing (missing_paths args)

unfoldable pub folder_of : Paths → String → String → String
folder_of paths key parent = if is_empty parent || parent == "." then paths.stem key else parent

unfoldable pub dataset_visualization_prefix : Paths → String → String → Result Exn String
dataset_visualization_prefix paths dataset_s3_key dataset_type =
    let key = lstrip is_slash (strip dataset_s3_key) in
    if is_empty key
    then err (python value_error)
    else if member dataset_type ("GENERATED" ∷ "PREPROCESSED" ∷ [])
    then ok key
    else ok (folder_of paths key (paths.parent key))

unfoldable pub preprocessing_output_prefix : Paths → String → String → Result Exn String
preprocessing_output_prefix paths genpm_run_id raw_s3_key =
    dataset_visualization_prefix paths raw_s3_key "RAW" >>= λ base.
    ok
      (strip_of is_slash base <> ("/preprocessed/" <> (strip_of is_slash genpm_run_id <> "/final")))

unfoldable pub with_prefix : Paths → String → String → DagArgs → Result Exn DagArgs
with_prefix paths genpm_run_id raw_s3_key args =
    if is_blank_text args.output_path_prefix
    then (preprocessing_output_prefix paths genpm_run_id raw_s3_key >>= λ prefix.
        ok (record args { output_path_prefix = prefix }))
    else ok args

unfoldable pub resolve_preprocessing_dag_args :
    Paths → String → String → Fields → Result Exn DagArgs
resolve_preprocessing_dag_args paths genpm_run_id raw_s3_key user_args =
    paths.validate user_args >>= λ read.
    with_prefix paths genpm_run_id raw_s3_key read >>= λ args. require_paths args >>= λ _. ok args

pub record DagConf : Type 0 where
  pub genpm_run_id : String
  pub dataset_id : ℕ
  pub s3_key : String
  pub dag_args : DagArgs
  pub process_type : String
  pub file_name : Option String
  pub dataset_name : Option String

unfoldable pub build_preprocessing_dag_conf :
    Paths
    → String
    → ℕ
    → String
    → Fields
    → String
    → Option String
    → Option String
    → Result Exn DagConf
build_preprocessing_dag_conf paths genpm_run_id dataset_id s3_key user_dag_args process_type
      file_name dataset_name =
    resolve_preprocessing_dag_args paths genpm_run_id s3_key user_dag_args >>= λ dag_args.
    ok (record {
      genpm_run_id = genpm_run_id;
      dataset_id = dataset_id;
      s3_key = s3_key;
      dag_args = dag_args;
      process_type = process_type;
      file_name = file_name;
      dataset_name = dataset_name;
    })

-- `model_dump` of the configuration.
abbrev text_or_null : Option String → Value
text_or_null none = null
text_or_null (some t) = str t

unfoldable pub to_conf_dict : DagArgs → Fields
to_conf_dict args = field "kpi_definitions_raw_path" (str args.kpi_definitions_raw_path) (
    field "simple_reports_raw_path" (str args.simple_reports_raw_path)
      (field "output_path_prefix" (str args.output_path_prefix) args.others))

unfoldable pub to_airflow_conf : DagConf → Fields
to_airflow_conf c = field "genpm_run_id" (str c.genpm_run_id) (
    field "dataset_id" (int (pos c.dataset_id)) (
      field "s3_key" (str c.s3_key) (
        field "dag_args" (obj (to_conf_dict c.dag_args)) (
          field "process_type" (str c.process_type) (
            field "file_name" (text_or_null c.file_name)
              (field "dataset_name" (text_or_null c.dataset_name) end))))))
