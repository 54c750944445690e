-- ===== src/Airflow/Service/Effects.antt =====
-- What the actions on runs do to the caches, and what they return.
use innovativeproject_pm_gen.Base.{inr, inl, Bool-cases, false, String, ◌≡◌, refl, Option, none}
use innovativeproject_pm_gen.Airflow.Http.{World}
use innovativeproject_pm_gen.Airflow.Service.{
  forget_run, invalidate_run_caches, invalidate_dag_list_cache, Flow, on_client, RunKey,
}
use innovativeproject_pm_gen.Airflow.Service.Actions.{
  trigger_dag, triggered, TriggerRequest, ActionResponse, changed, stop_dag_run,
}
use innovativeproject_pm_gen.Base.Result.{err, ok, Result}
use innovativeproject_pm_gen.Base.Exec.{Exec, pure, modify, ◌>>◌, ◌>>=◌}
use innovativeproject_pm_gen.Errors.{Exn}
use innovativeproject_pm_gen.Airflow.Service.Cache.{forget_run-IsForgotten, IsForgotten}
use innovativeproject_pm_gen.Airflow.Auth.{Session}
use innovativeproject_pm_gen.Base.Value.{Value}
use innovativeproject_pm_gen.Base.Exec.Returns.{
  Returns-then, Returns-bind, Returns-pure, Returns-raise, Returns,
}
use innovativeproject_pm_gen.Base.Text.{is_empty}

module _ (w : World) where
  -- Where the action returns, the caches have forgotten the run; where it raises, they are as before.
  unfoldable pub ActionSpec : RunKey → Flow w → Result Exn ActionResponse × Flow w → Type 0
  ActionSpec k s (ok a, s') = (a.run_id ≡ k.1) × (s'.dag_list_cache ≡ none) × IsForgotten w k s s'
  ActionSpec k s (err e, s') =
      (s'.dag_list_cache ≡ s.dag_list_cache)
      × (s'.run_cache ≡ s.run_cache)
      × (s'.task_list_cache ≡ s.task_list_cache)
      × (s'.task_cache ≡ s.task_cache)

  change-ActionSpec :
      (m : Exec Exn (Session w) Value) (dag_id run_id message : String) (s : Flow w)
      → ActionSpec (dag_id, run_id) s ((on_client w m >> changed w dag_id run_id message) s)
  unfolding on_client changed ◌>>=◌ ◌>>◌ invalidate_dag_list_cache invalidate_run_caches modify pure
      ActionSpec forget_run
  change-ActionSpec m dag_id run_id message s = let (r, t) = m s.session in after r t refl
    where
      after :
          (r : Result Exn Value) (t : Session w)
          → m s.session ≡ (r, t)
          → ActionSpec (dag_id, run_id) s ((on_client w m >> changed w dag_id run_id message) s)
      after (ok v) t h = rw h (refl, refl, forget_run-IsForgotten w (dag_id, run_id) s)
      after (err e) t h = rw h (refl, refl, refl, refl)

  -- Stopping a run makes the caches of runs, of task lists and of tasks hold nothing of that run, and of
  -- every other run what they held, and drops the list of DAGs; where Airflow refuses, the caches stay
  -- as they were.
  pub stop_dag_run-ActionSpec :
      (dag_id run_id : String) (triggered_by : Option String) (s : Flow w)
      → ActionSpec (dag_id, run_id) s (stop_dag_run w dag_id run_id triggered_by s)
  unfolding stop_dag_run
  stop_dag_run-ActionSpec dag_id run_id triggered_by s = change-ActionSpec _ dag_id run_id _ s

  triggered-run_id :
      (dag_id run_id : String)
      → Returns (λ a. is_empty a.run_id ≡ false) (triggered w dag_id run_id)
  unfolding triggered
  triggered-run_id dag_id run_id = elim (Bool-cases (is_empty run_id)) [
    | inl h ↦ rw h (Returns-raise _)
    | inr h ↦ rw h (Returns-pure _ h)
  ]

  trigger_dag-Returns :
      (dag_id : String) (body : TriggerRequest) (triggered_by : Option String)
      → Returns (λ a. is_empty a.run_id ≡ false) (trigger_dag w dag_id body triggered_by)
  unfolding trigger_dag
  trigger_dag-Returns dag_id body triggered_by =
      search (Returns-bind, Returns-then, triggered-run_id) depth 10

  unfoldable pub IsNamed : Result Exn ActionResponse → Type 0
  IsNamed (ok a) = is_empty a.run_id ≡ false
  IsNamed (err e) = Unit

  -- A trigger that returns gives the id of a run, never the empty one.
  trigger_dag-IsNamed :
      (dag_id : String) (body : TriggerRequest) (triggered_by : Option String) (s : Flow w)
      → IsNamed (trigger_dag w dag_id body triggered_by s).0
  unfolding IsNamed
  trigger_dag-IsNamed dag_id body triggered_by s =
      let (r, t) = trigger_dag w dag_id body triggered_by s in after r t refl
    where
      after :
          (r : Result Exn ActionResponse) (t : Flow w)
          → trigger_dag w dag_id body triggered_by s ≡ (r, t)
          → IsNamed r
      after (ok a) t h = (trigger_dag-Returns dag_id body triggered_by).at s t a h
      after (err e) t h = tt
