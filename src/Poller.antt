-- ===== src/Poller.antt =====
-- apps/backend/app/services/runs/poller.py: one tick of the poller over the process runs. The Airflow
-- service is the parameter `get_dag_run`; it changes a state of its own (its cache, the network).
pub mod Steps
pub mod Tick
pub mod Invariant
pub mod Progress
pub mod Returns
pub mod Whole
use innovativeproject_pm_gen.Base.{
  ℕ, String, ◌<>◌, Bool, true, false, Option, none, some, List, [], ◌∷◌, ◌==◌, eqb, if◌then◌else◌,
}
use innovativeproject_pm_gen.Base.Exec.{Exec, pure, raise, gets, modify, catch, ◌>>=◌, ◌>>◌}
use innovativeproject_pm_gen.Schemas.{
  generated, DagRunStatus, preprocessed, ProcessRun, PipelineRunStatus, DatasetType, Dataset,
}
use innovativeproject_pm_gen.S3.{register_existing_dataset, S3, strip_slashes, Site, Storage}
use innovativeproject_pm_gen.Base.Table.{lookup}
use innovativeproject_pm_gen.Errors.{Kind, integrity, http, airflow, Exn}
use innovativeproject_pm_gen.Store.{update_run, running_runs, find_by_key, Db}

abbrev pub preprocessing_type : String
preprocessing_type = "preprocessing_feature_engineering"

-- `_PROCESS_TYPE_TO_DATASET_TYPE`
abbrev process_type_to_dataset_type : List (String × DatasetType)
process_type_to_dataset_type = (preprocessing_type, preprocessed) ∷ ("generate", generated) ∷ []

type_or : Option DatasetType → DatasetType
type_or none = preprocessed
type_or (some t) = t

unfoldable pub resolve_dataset_type : ProcessRun → DatasetType
unfolding lookup type_or
resolve_dataset_type r = type_or (lookup r.process_type process_type_to_dataset_type)

unfoldable pub derive_pm_metadata_s3_key : ProcessRun → Option String
derive_pm_metadata_s3_key r =
    if r.process_type == preprocessing_type
    then some (strip_slashes r.output_s3_key <> "/pm_metadata.json")
    else none

-- The key under which the output of a run is registered.
abbrev pub output_key : ProcessRun → String × DatasetType
output_key r = (r.output_s3_key, resolve_dataset_type r)

abbrev pub set_run_status : PipelineRunStatus → ProcessRun → ProcessRun
set_run_status st r = record r { status = st }

abbrev pub complete : Option ℕ → ProcessRun → ProcessRun
complete i r = record r { registered_dataset_id = i; status = PipelineRunStatus.completed }

abbrev id_of : Option Dataset → Option ℕ
id_of none = none
id_of (some d) = some d.id

-- The backend's database, the object store and the Airflow service's state.
pub record Backend (st : Storage) (F : Type 0) : Type 0 where
  pub site : Site st
  pub flow : F

module _ (st : Storage) {F : Type 0} where
  -- A method of `S3Service`, and one of the Airflow service.
  unfoldable pub on_site : {A : Type 0} → S3 st A → Exec Exn (Backend st F) A
  on_site m s = let (r, site) = m s.site in (r, record s { site = site })

  unfoldable pub on_flow : {A : Type 0} → Exec Exn F A → Exec Exn (Backend st F) A
  on_flow m s = let (r, flow) = m s.flow in (r, record s { flow = flow })

module _ (st : Storage) {F : Type 0} (get_dag_run : String → String → Exec Exn F DagRunStatus) where
  abbrev pub Poll : Type 0 → Type 0
  Poll A = Exec Exn (Backend st F) A

  unfoldable pub edit_db : (Db → Db) → Poll (Unit {0})
  edit_db f = modify (λ s. record s { site = record s.site { db = f s.site.db } })

  -- The attributes of the row are set, and committed.
  unfoldable pub update : ProcessRun → (ProcessRun → ProcessRun) → Poll (Unit {0})
  unfolding edit_db
  update r f = edit_db (λ db. record db { process_runs = update_run r.id f db.process_runs })

  unfoldable pub register : ProcessRun → Poll Dataset
  register r = on_site st (
      register_existing_dataset st r.user_uuid r.output_s3_key (some r.output_name)
        (resolve_dataset_type r) (derive_pm_metadata_s3_key r))

  -- `except IntegrityError`: the row that is there is linked.
  unfoldable pub link_existing : ProcessRun → Poll (Unit {0})
  link_existing r = do
    existing ← gets (λ s. find_by_key (output_key r) s.site.db.datasets)
    update r (complete (id_of existing))

  -- The two handlers of `_register_output`; `db.rollback()` has nothing to undo.
  unfoldable pub on_register_error : ProcessRun → Exn → Poll (Unit {0})
  on_register_error r integrity = link_existing r
  on_register_error r (http status detail) = pure tt
  on_register_error r e = raise e

  unfoldable pub register_and_complete : ProcessRun → Poll (Unit {0})
  register_and_complete r = do d ← register r; update r (complete (some d.id))

  unfoldable pub register_output : ProcessRun → Poll (Unit {0})
  unfolding register_and_complete on_register_error link_existing register
  register_output r = catch (register_and_complete r) (on_register_error r)

  unfoldable pub on_status : ProcessRun → DagRunStatus → Poll (Unit {0})
  on_status r DagRunStatus.success = register_output r
  on_status r DagRunStatus.failed = update r (set_run_status PipelineRunStatus.failed)
  on_status r _ = pure tt

  -- What asking Airflow gave: a status, "not found", or another of its errors.
  unfoldable pub unknown_or_later : Kind → Poll (Option DagRunStatus)
  unknown_or_later Kind.not_found = pure (some DagRunStatus.failed)
  unknown_or_later _ = pure none

  unfoldable pub asked : Exn → Poll (Option DagRunStatus)
  asked (airflow e) = unknown_or_later e.kind
  asked e = raise e

  unfoldable pub ask : ProcessRun → Poll (Option DagRunStatus)
  ask r = catch (do status ← on_flow st (get_dag_run r.dag_id r.run_id); pure (some status)) asked

  unfoldable pub on_answer : ProcessRun → Option DagRunStatus → Poll (Unit {0})
  on_answer r none = pure tt
  on_answer r (some status) = on_status r status

  -- A run that Airflow does not know is marked FAILED, as a failed one is.
  unfoldable pub finalize : ProcessRun → Poll (Unit {0})
  unfolding ask asked unknown_or_later on_answer on_status
  finalize r = do answer ← ask r; on_answer r answer

  unfoldable pub finalize_all : List ProcessRun → Poll (Unit {0})
  finalize_all [] = pure tt
  finalize_all (r ∷ rs) = do finalize r; finalize_all rs

  -- The runs that are RUNNING when the tick begins, while the Airflow runtime is up.
  poll_running : Bool → Poll (Unit {0})
  poll_running false = pure tt
  poll_running true = do runs ← gets (λ s. running_runs s.site.db.process_runs); finalize_all runs

  module _ (runtime_up : F → Bool) where
    unfoldable pub poll_once : Poll (Unit {0})
    unfolding poll_running
    poll_once = do up ← gets (λ s. runtime_up s.flow); poll_running up
