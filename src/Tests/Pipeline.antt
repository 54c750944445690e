-- ===== src/Tests/Pipeline.antt =====
-- A preprocessing run over one dataset.
use innovativeproject_pm_gen.Base.{◌≡◌, refl, true, false, [], ◌∷◌, none}
use innovativeproject_pm_gen.Base.Value.{end, Fault}
use innovativeproject_pm_gen.Schemas.{
  DatasetStatus, PipelineType, DatasetType, PipelineRun, PipelineRunStatus,
}
use innovativeproject_pm_gen.Base.Result.{◌>>=◌, ok, err, Ensures}
use innovativeproject_pm_gen.SparkConf.{
  missing_paths, refuse_missing, require_paths, with_prefix, resolve_preprocessing_dag_args,
  is_blank_text, folder_of, dataset_visualization_prefix, preprocessing_output_prefix, Paths,
  DagArgs,
}
use innovativeproject_pm_gen.Store.{find_by_id, Db}
use innovativeproject_pm_gen.Pipeline.Laws.{create_run-IsLeft, IsLeft}
use innovativeproject_pm_gen.Pipeline.{
  Deployment, add_run, new_run, is_preprocessing, bind_keywords, check_conf, on_trigger_error,
  trigger_airflow, after_trigger, create_for, create_run,
}
use innovativeproject_pm_gen.Base.Text.{rstrip, lstrip, strip, strip_of}
use innovativeproject_pm_gen.SparkConf.Laws.{resolve-IsPlaced, IsPlaced}
use innovativeproject_pm_gen.Errors.{python}

abbrev pub given : DagArgs
given = record {
  kpi_definitions_raw_path = "defs.parquet";
  simple_reports_raw_path = "reports.parquet";
  output_path_prefix = " ";
  others = end;
}

abbrev pub raw_folder : Paths
raw_folder = record { parent = λ s. "raw"; stem = λ s. s; validate = λ d. ok given }

abbrev placed : DagArgs
placed = record given { output_path_prefix = "raw/preprocessed/run_1/final" }

prefix_test :
    preprocessing_output_prefix raw_folder "run_1/" "/raw/pm.parquet"
    ≡ ok "raw/preprocessed/run_1/final"
unfolding preprocessing_output_prefix dataset_visualization_prefix folder_of ◌>>=◌ strip_of strip
    lstrip rstrip
prefix_test = refl

slash_test :
    preprocessing_output_prefix raw_folder "/run_1" "/raw/pm.parquet"
    ≡ ok "raw/preprocessed/run_1/final"
unfolding preprocessing_output_prefix dataset_visualization_prefix folder_of ◌>>=◌ strip_of strip
    lstrip rstrip
slash_test = refl

resolved : resolve_preprocessing_dag_args raw_folder "run_1/" "/raw/pm.parquet" end ≡ ok placed
unfolding preprocessing_output_prefix dataset_visualization_prefix folder_of ◌>>=◌ strip_of strip
    lstrip rstrip resolve_preprocessing_dag_args with_prefix require_paths refuse_missing
    missing_paths is_blank_text
resolved = refl

resolve-IsPlaced_example :
    (read : DagArgs) × (raw_folder.validate end ≡ ok read)
    × IsPlaced raw_folder "run_1/" "/raw/pm.parquet" read placed
    × (is_blank_text placed.kpi_definitions_raw_path ≡ false)
    × (is_blank_text placed.simple_reports_raw_path ≡ false)
resolve-IsPlaced_example = resolve-IsPlaced raw_folder "run_1/" "/raw/pm.parquet" end resolved

abbrev site : Deployment
site = record {
  paths = raw_folder;
  service_up = true;
  hex = "0badcafe";
  now = 0;
  trigger = λ dag_id. ok "manual__1";
}

abbrev one_dataset : Db
one_dataset = record {
  datasets =
      record {
        id = 1;
        user_uuid = 0;
        s3_key = "/raw/pm.parquet";
        file_name = "pm.parquet";
        pm_metadata_s3_key = none;
        status = DatasetStatus.completed;
        type = DatasetType.raw;
      }
      ∷ [];
  next_dataset_id = 2;
  process_runs = [];
  pipeline_runs = [];
  next_pipeline_id = 1;
  next_process_id = 8;
  trained_models = [];
  next_model_id = 1;
}

-- The call of `trigger_dag` fails although the service is up.
trigger_test :
    (create_run site 1 PipelineType.training end one_dataset).0 ≡ err (python Fault.type_error)
unfolding create_run create_for find_by_id after_trigger trigger_airflow on_trigger_error check_conf
    bind_keywords is_preprocessing new_run add_run ◌>>=◌
trigger_test = refl

create_run-IsLeft_example :
    IsLeft one_dataset (create_run site 1 PipelineType.preprocessing end one_dataset).1
    × Ensures
        (λ (run : PipelineRun). run.status ≡ PipelineRunStatus.pending)
        (create_run site 1 PipelineType.preprocessing end one_dataset).0
create_run-IsLeft_example = create_run-IsLeft site 1 PipelineType.preprocessing end one_dataset
