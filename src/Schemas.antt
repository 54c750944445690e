-- ===== src/Schemas.antt =====
-- apps/backend/app/db/schemas.py: the enumerations and the rows of the backend's database.
-- A UUID and a time are numbers: the code only passes them on. Times count microseconds.
use innovativeproject_pm_gen.Base.{ℕ, String, Bool, true, false, Option}

pub data RunType : Type 0 where
  manual scheduled backfill asset_triggered : RunType

pub data LogLevel : Type 0 where
  debug info warning error critical : LogLevel

pub data DatasetStatus : Type 0 where
  pending uploading completed failed : DatasetStatus

pub data DatasetType : Type 0 where
  raw preprocessed generated kpi_definitions simple_reports : DatasetType

pub data PipelineType : Type 0 where
  preprocessing feature_engineering training : PipelineType

pub data PipelineRunStatus : Type 0 where
  pending running completed failed : PipelineRunStatus

pub data TaskStatus : Type 0 where
  success running failed up_for_retry queued skipped none_status : TaskStatus

pub data DagRunStatus : Type 0 where
  success running failed queued : DagRunStatus

pub record Dataset : Type 0 where
  pub id : ℕ
  pub user_uuid : ℕ
  pub s3_key : String
  pub file_name : String
  pub pm_metadata_s3_key : Option String
  pub status : DatasetStatus
  pub type : DatasetType

pub record PipelineRun : Type 0 where
  pub id : ℕ
  pub dataset_id : ℕ
  pub pipeline_type : PipelineType
  pub status : PipelineRunStatus
  pub airflow_run_id : Option String
  pub created_at : ℕ

pub record ProcessRun : Type 0 where
  pub id : ℕ
  pub run_id : String
  pub dag_id : String
  pub process_type : String
  pub user_uuid : ℕ
  pub input_dataset_id : Option ℕ
  pub output_s3_key : String
  pub output_name : String
  pub status : PipelineRunStatus
  pub registered_dataset_id : Option ℕ
  pub created_at : ℕ

pub record TrainedModel : Type 0 where
  pub id : ℕ
  pub user_uuid : ℕ
  pub name : String
  pub s3_key : String
  pub encoder_s3_key : String
  pub config_s3_key : String
  pub dataset_id : Option ℕ
  pub created_at : ℕ

-- `==` of the enumerations.
abbrev pub type_eq : DatasetType → DatasetType → Bool
type_eq raw raw = true
type_eq preprocessed preprocessed = true
type_eq generated generated = true
type_eq kpi_definitions kpi_definitions = true
type_eq simple_reports simple_reports = true
type_eq _ _ = false

-- The value of a `StrEnum` member.
abbrev pub task_status_value : TaskStatus → String
task_status_value success = "success"
task_status_value running = "running"
task_status_value failed = "failed"
task_status_value up_for_retry = "up_for_retry"
task_status_value queued = "queued"
task_status_value skipped = "skipped"
task_status_value none_status = "none"
