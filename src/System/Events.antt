-- ===== src/System/Events.antt =====
-- The backend as one system: the poller's ticks and the requests that write to the database, in any
-- order, while others may change the object store and Airflow between them.
use innovativeproject_pm_gen.Base.{ℕ, String, Bool, Option, List, [], ◌∷◌}
use innovativeproject_pm_gen.Base.Exec.{Exec}
use innovativeproject_pm_gen.Errors.{Exn}
use innovativeproject_pm_gen.Schemas.{DagRunStatus, DatasetStatus, DatasetType}
use innovativeproject_pm_gen.S3.{
  Storage, create_dataset, register_existing_dataset, change_dataset_status, delete_dataset,
}
use innovativeproject_pm_gen.Poller.{Backend, on_site, poll_once}
use innovativeproject_pm_gen.Modeling.{Call}
use innovativeproject_pm_gen.Modeling.Conf.{Outside, GenerateRunRequest, ModelingRunRequest}
use innovativeproject_pm_gen.Modeling.Runs.{trigger_generate_run, trigger_modeling_run}
use innovativeproject_pm_gen.Modeling.Models.{
  TrainedModelCreate, TrainedModelUpdate, ModelUploadInitiateRequest, create_trained_model,
  update_trained_model, delete_trained_model, initiate_model_upload,
}
use innovativeproject_pm_gen.Autofill.Form.{ProcessType}
use innovativeproject_pm_gen.System.Sound.{IsSound}
use innovativeproject_pm_gen.System.Services.{
  register_existing_dataset-Keeps, create_dataset-Keeps, change_dataset_status-Keeps,
  delete_dataset-Keeps,
}
use innovativeproject_pm_gen.System.Commits.{
  create_trained_model-Keeps, update_trained_model-Keeps, delete_trained_model-Keeps,
  initiate_model_upload-fails,
}
use innovativeproject_pm_gen.System.Runs.{
  on_site-Keeps, trigger_generate_run-Keeps, trigger_modeling_run-Keeps, poll_once-Keeps,
}

-- What happens next.
pub data Event (st : Storage) (F : Type 0) : Type 0 where
  tick : Event st F
  -- others write to the object store, or to Airflow
  outside : (st.Objects → st.Objects) → (F → F) → Event st F
  create : ℕ → String → String → DatasetType → Option String → Event st F
  register : ℕ → String → Option String → DatasetType → Option String → Event st F
  set_status : ℕ → DatasetStatus → Event st F
  delete : ℕ → Bool → Event st F
  create_model : Call → TrainedModelCreate → Event st F
  update_model : Call → ℕ → TrainedModelUpdate → Event st F
  delete_model : ℕ → Bool → Event st F
  upload_model : Call → ModelUploadInitiateRequest → Event st F
  generate_run : Call → GenerateRunRequest → Event st F
  modeling_run : Call → ProcessType → ModelingRunRequest → Event st F

module _ (st : Storage) {F : Type 0} (o : Outside F)
    (get_dag_run : String → String → Exec Exn F DagRunStatus) (runtime_up : F → Bool) where
  -- What an event leaves; the answer to a request, or its exception, goes to the caller.
  unfoldable pub happen : Event st F → Backend st F → Backend st F
  happen tick s = (poll_once st get_dag_run runtime_up s).1
  happen (outside f g) s = record s {
    site = record s.site { objects = f s.site.objects };
    flow = g s.flow;
  }
  happen (create user name key type metadata) s =
      (on_site st (create_dataset st user name key type metadata) s).1
  happen (register user key name type metadata) s =
      (on_site st (register_existing_dataset st user key name type metadata) s).1
  happen (set_status i t) s = (on_site st (change_dataset_status st i t) s).1
  happen (delete i from_s3) s = (on_site st (delete_dataset st i from_s3) s).1
  happen (create_model call body) s = (on_site st (create_trained_model st call body) s).1
  happen (update_model call i body) s = (on_site st (update_trained_model st call i body) s).1
  happen (delete_model i from_s3) s = (on_site st (delete_trained_model st i from_s3) s).1
  happen (upload_model call body) s = (on_site st (initiate_model_upload st call body) s).1
  happen (generate_run call body) s = (trigger_generate_run o st call body s).1
  happen (modeling_run call t body) s = (trigger_modeling_run o st call t body s).1

  unfoldable pub run_events : List (Event st F) → Backend st F → Backend st F
  run_events [] s = s
  run_events (e ∷ es) s = run_events es (happen e s)

  upload-IsSound :
      (call : Call) (body : ModelUploadInitiateRequest) (s : Backend st F)
      → IsSound s.site.db
      → IsSound (on_site st (initiate_model_upload st call body) s).1.site.db
  unfolding on_site
  upload-IsSound call body s h =
      let (e, raised, same) = initiate_model_upload-fails call body s.site in rw same h

  happen-IsSound :
      (e : Event st F) (s : Backend st F) → IsSound s.site.db → IsSound (happen e s).site.db
  unfolding happen
  happen-IsSound tick s h = (poll_once-Keeps get_dag_run runtime_up).at s h
  happen-IsSound (outside f g) s h = h
  happen-IsSound (create user name key type metadata) s h =
      (on_site-Keeps _ (create_dataset-Keeps user name key type metadata)).at s h
  happen-IsSound (register user key name type metadata) s h =
      (on_site-Keeps _ (register_existing_dataset-Keeps user key name type metadata)).at s h
  happen-IsSound (set_status i t) s h = (on_site-Keeps _ (change_dataset_status-Keeps i t)).at s h
  happen-IsSound (delete i from_s3) s h = (on_site-Keeps _ (delete_dataset-Keeps i from_s3)).at s h
  happen-IsSound (create_model call body) s h =
      (on_site-Keeps _ (create_trained_model-Keeps call body)).at s h
  happen-IsSound (update_model call i body) s h =
      (on_site-Keeps _ (update_trained_model-Keeps call i body)).at s h
  happen-IsSound (delete_model i from_s3) s h =
      (on_site-Keeps _ (delete_trained_model-Keeps i from_s3)).at s h
  happen-IsSound (upload_model call body) s h = upload-IsSound call body s h
  happen-IsSound (generate_run call body) s h = (trigger_generate_run-Keeps o call body).at s h
  happen-IsSound (modeling_run call t body) s h = (trigger_modeling_run-Keeps o call t body).at s h

  -- Whatever requests come and ticks pass, in any order and with any answers of Airflow and the
  -- object store, a sound database stays sound: the ids and keys of datasets and models name one row
  -- each, a run that is linked is linked to a dataset that is there and has the key of the run's
  -- output, and a model has a file of weights and its dataset, if it has one, is there and
  -- PREPROCESSED.
  pub run_events-IsSound :
      (es : List (Event st F)) (s : Backend st F)
      → IsSound s.site.db
      → IsSound (run_events es s).site.db
  unfolding run_events
  run_events-IsSound [] s h = h
  run_events-IsSound (e ∷ es) s h = run_events-IsSound es (happen e s) (happen-IsSound e s h)
