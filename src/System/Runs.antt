-- ===== src/System/Runs.antt =====
-- The routes that start runs, and the ticks of the poller, keep the database sound.
use innovativeproject_pm_gen.Base.{Bool, String, none, ◌≡◌, refl}
use innovativeproject_pm_gen.Base.Exec.{Exec}
use innovativeproject_pm_gen.Base.Exec.Keeps.{
  Keeps, Keeps-bind, Keeps-then, Keeps-pure, Keeps-raise, Keeps-asks, Keeps-lift, Keeps-catch,
}
use innovativeproject_pm_gen.Base.Value.{Fields}
use innovativeproject_pm_gen.Errors.{Exn}
use innovativeproject_pm_gen.Schemas.{DagRunStatus, Dataset, ProcessRun, TrainedModel}
use innovativeproject_pm_gen.S3.{Storage, S3}
use innovativeproject_pm_gen.Airflow.Service.Actions.{ActionResponse}
use innovativeproject_pm_gen.Poller.{Backend, on_site, on_flow, poll_once}
use innovativeproject_pm_gen.Poller.Invariant.{HasKey}
use innovativeproject_pm_gen.Poller.Tick.{poll_once-Holds}
use innovativeproject_pm_gen.Modeling.{Call}
use innovativeproject_pm_gen.Modeling.Conf.{
  Outside, Prepared, GenerateRunRequest, ModelingRunRequest,
}
use innovativeproject_pm_gen.Modeling.Runs.{
  record_process_run, trigger, prepare_generate, generated_run, trigger_generate_run,
  prepare_modeling, record_modeling, modeling_run, trigger_modeling_run,
}
use innovativeproject_pm_gen.Autofill.Form.{
  ProcessType, preprocessing_feature_engineering, training_dataset, generate,
}
use innovativeproject_pm_gen.System.Sound.{IsSound, IsSoundFor}
use innovativeproject_pm_gen.System.Datasets.{step-IsSoundFor}
use innovativeproject_pm_gen.System.Rows.{insert_process_run-IsSound}
use innovativeproject_pm_gen.System.Services.{Holds, on_db-Keeps, get_dataset-Keeps}

module _ {st : Storage} {F : Type 0} where
  abbrev pub Kept : Backend st F → Type 0
  Kept s = IsSound s.site.db

  pub on_site-Keeps : {A : Type 0} (m : S3 st A) → Keeps Holds m → Keeps Kept (on_site st m)
  unfolding on_site
  on_site-Keeps m h = record { at = λ s p. h.at s.site p }

  on_flow-Keeps : {A : Type 0} (m : Exec Exn F A) → Keeps Kept (on_flow st m)
  unfolding on_flow
  on_flow-Keeps m = record { at = λ s p. p }

  module _ (o : Outside F) where
    record_process_run-Keeps :
        (r : ProcessRun) → r.registered_dataset_id ≡ none → Keeps Holds (record_process_run o st r)
    unfolding record_process_run
    record_process_run-Keeps r new =
        Keeps-catch _ _ (on_db-Keeps _ (λ db p. insert_process_run-IsSound r db new p))
          (λ e. Keeps-pure tt)

    trigger-Keeps :
        (call : Call) (t : ProcessType) (run_id : String) (conf : Fields)
        → Keeps Kept (trigger o st call t run_id conf)
    unfolding trigger
    trigger-Keeps call t run_id conf = Keeps-catch _ _ (on_flow-Keeps _) (λ e. Keeps-raise _)

    prepare_generate-Keeps :
        (call : Call) (body : GenerateRunRequest) → Keeps Holds (prepare_generate o st call body)
    unfolding prepare_generate
    prepare_generate-Keeps call body = Keeps-bind _ _ (Keeps-asks _) (λ m.
        Keeps-bind _ _ (Keeps-asks _) (λ comparison.
          Keeps-then _ _ (Keeps-asks _) (Keeps-then _ _ (Keeps-asks _) (Keeps-pure _))))

    generated_run-Keeps :
        (call : Call) (body : GenerateRunRequest) (m : TrainedModel) (conf : Fields)
        (action : ActionResponse)
        → Keeps Kept (generated_run o st call body m conf action)
    unfolding generated_run
    generated_run-Keeps call body m conf action =
        Keeps-bind _ _ (Keeps-lift _) (λ uuid.
          Keeps-then _ _ (on_site-Keeps _ (record_process_run-Keeps _ refl)) (Keeps-pure _))

    pub trigger_generate_run-Keeps :
        (call : Call) (body : GenerateRunRequest) → Keeps Kept (trigger_generate_run o st call body)
    unfolding trigger_generate_run
    trigger_generate_run-Keeps call body =
        Keeps-bind _ _ (on_site-Keeps _ (prepare_generate-Keeps call body)) (λ p.
          Keeps-bind _ _ (trigger-Keeps call generate _ p.1)
            (λ action. generated_run-Keeps call body p.0 p.1 action))

    prepare_modeling-Keeps :
        (call : Call) (t : ProcessType) (body : ModelingRunRequest)
        → Keeps Holds (prepare_modeling o st call t body)
    unfolding prepare_modeling
    prepare_modeling-Keeps call t body = Keeps-bind _ _ (get_dataset-Keeps body.dataset_id) (λ d.
        Keeps-then _ _ (Keeps-lift _)
          (Keeps-then _ _ (Keeps-lift _) (Keeps-bind _ _ (Keeps-lift _) (λ p. Keeps-pure _))))

    record_modeling-Keeps :
        (call : Call) (t : ProcessType) (run_id : String) (d : Dataset) (p : Prepared)
        → Keeps Kept (record_modeling o st call t run_id d p)
    unfolding record_modeling
    record_modeling-Keeps call preprocessing_feature_engineering run_id d p =
        Keeps-bind _ _ (Keeps-lift _) (λ uuid. on_site-Keeps _ (record_process_run-Keeps _ refl))
    record_modeling-Keeps call training_dataset run_id d p = Keeps-pure tt
    record_modeling-Keeps call generate run_id d p = Keeps-pure tt

    pub trigger_modeling_run-Keeps :
        (call : Call) (t : ProcessType) (body : ModelingRunRequest)
        → Keeps Kept (trigger_modeling_run o st call t body)
    unfolding trigger_modeling_run modeling_run
    trigger_modeling_run-Keeps call t body =
        Keeps-bind _ _ (on_site-Keeps _ (prepare_modeling-Keeps call t body)) (λ p.
          Keeps-bind _ _ (trigger-Keeps call t _ p.1.conf)
            (λ action. Keeps-then _ _ (record_modeling-Keeps call t _ p.0 p.1) (Keeps-pure _)))

  -- The outputs that the ids stand for stay the same through a tick.
  pub poll_once-Keeps :
      (get_dag_run : String → String → Exec Exn F DagRunStatus) (runtime_up : F → Bool)
      → Keeps Kept (poll_once st get_dag_run runtime_up)
  poll_once-Keeps get_dag_run runtime_up = record {
    at = λ s p. (
      p.0,
      (poll_once-Holds (IsSoundFor p.0) (HasKey p.0) (λ db h. h.runs.outputs)
            (λ r db db' step own h. step-IsSoundFor p.0 r step own h) st get_dag_run runtime_up).at
          s p.1,
    );
  }
