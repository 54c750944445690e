-- ===== src/Store.antt =====
-- The tables of the backend's database that the services write: rows in insertion order, with the
-- unique key of `datasets` (apps/backend/app/db/schemas.py) and SQLAlchemy's `IntegrityError`.
pub mod Laws
pub mod Tables
pub mod Ids
use innovativeproject_pm_gen.Base.{
  ℕ, ◌+◌, String, Bool, true, false, ◌&&◌, Option, none, some, List, [], ◌∷◌, ◌++◌, ◌==◌, eqb,
  if◌then◌else◌,
}
use innovativeproject_pm_gen.Base.Result.{Result, ok, err}
use innovativeproject_pm_gen.Errors.{Exn, integrity}
use innovativeproject_pm_gen.Schemas.{
  Dataset, DatasetType, DatasetStatus, ProcessRun, PipelineRun, PipelineRunStatus, TrainedModel,
  type_eq,
}

pub record Db : Type 0 where
  pub datasets : List Dataset
  pub next_dataset_id : ℕ
  pub process_runs : List ProcessRun
  pub pipeline_runs : List PipelineRun
  pub next_pipeline_id : ℕ
  pub next_process_id : ℕ
  pub trained_models : List TrainedModel
  pub next_model_id : ℕ

abbrev pub same_key : String × DatasetType → String × DatasetType → Bool
same_key (k, t) (j, u) = k == j && type_eq t u

abbrev pub key_of : Dataset → String × DatasetType
key_of d = (d.s3_key, d.type)

-- `query(Dataset).filter(Dataset.s3_key == …, Dataset.type == …).first()`
unfoldable pub find_by_key : String × DatasetType → List Dataset → Option Dataset
find_by_key k [] = none
find_by_key k (d ∷ ds) = if same_key (key_of d) k then some d else find_by_key k ds

-- `query(Dataset).filter(Dataset.id == …).first()`
unfoldable pub find_by_id : ℕ → List Dataset → Option Dataset
find_by_id i [] = none
find_by_id i (d ∷ ds) = if eqb d.id i then some d else find_by_id i ds

unless_found : Option Dataset → Dataset → Db → Result Exn Dataset × Db
unless_found none row db = (
  ok row,
  record db { datasets = db.datasets ++ (row ∷ []); next_dataset_id = db.next_dataset_id + 1 },
)
unless_found (some old) row db = (err integrity, db)

-- `db.add(row); db.commit()`: the row gets the next id, or the unique key is violated and the row is
-- rolled back. The id in `d` is not read.
unfoldable pub insert_dataset : Dataset → Db → Result Exn Dataset × Db
unfolding find_by_key unless_found
insert_dataset d db =
    unless_found (find_by_key (key_of d) db.datasets) (record d { id = db.next_dataset_id }) db

-- Sets attributes of the row with the id, and commits.
unfoldable pub update_run : ℕ → (ProcessRun → ProcessRun) → List ProcessRun → List ProcessRun
update_run i f [] = []
update_run i f (r ∷ rs) = (if eqb r.id i then f r else r) ∷ update_run i f rs

abbrev pub is_running : PipelineRunStatus → Bool
is_running PipelineRunStatus.running = true
is_running _ = false

-- `query(ProcessRun).filter(ProcessRun.status == RUNNING).all()`
unfoldable pub running_runs : List ProcessRun → List ProcessRun
running_runs [] = []
running_runs (r ∷ rs) = let rest = running_runs rs in if is_running r.status then r ∷ rest else rest

-- `dataset.status = …; commit()`, and `delete(dataset); commit()`, by the id of the row.
unfoldable pub set_status : ℕ → DatasetStatus → List Dataset → List Dataset
set_status i st [] = []
set_status i st (d ∷ ds) = (if eqb d.id i then record d { status = st } else d) ∷ set_status i st ds

unfoldable pub remove_dataset : ℕ → List Dataset → List Dataset
remove_dataset i [] = []
remove_dataset i (d ∷ ds) = let rest = remove_dataset i ds in if eqb d.id i then rest else d ∷ rest

-- The foreign keys of `process_runs` and `trained_models` are set to null where the dataset goes (`ondelete="SET NULL"`).
unfoldable pub forget : ℕ → Option ℕ → Option ℕ
forget i none = none
forget i (some j) = if eqb j i then none else some j

unfoldable pub unlink_runs : ℕ → List ProcessRun → List ProcessRun
unlink_runs i [] = []
unlink_runs i (r ∷ rs) =
    record r {
      input_dataset_id = forget i r.input_dataset_id;
      registered_dataset_id = forget i r.registered_dataset_id;
    }
    ∷ unlink_runs i rs

unfoldable pub unlink_models : ℕ → List TrainedModel → List TrainedModel
unlink_models i [] = []
unlink_models i (m ∷ ms) = record m { dataset_id = forget i m.dataset_id } ∷ unlink_models i ms

-- Those of `pipeline_runs` take the row with them (`ondelete="CASCADE"`).
cascade : ℕ → List PipelineRun → List PipelineRun
cascade i [] = []
cascade i (r ∷ rs) = let rest = cascade i rs in if eqb r.dataset_id i then rest else r ∷ rest

unfoldable pub delete_dataset_row : ℕ → Db → Db
unfolding cascade
delete_dataset_row i db = record db {
  datasets = remove_dataset i db.datasets;
  process_runs = unlink_runs i db.process_runs;
  trained_models = unlink_models i db.trained_models;
  pipeline_runs = cascade i db.pipeline_runs;
}
