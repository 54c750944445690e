-- ===== src/Airflow/Service/Actions.antt =====
-- apps/backend/app/services/airflow/service.py: the actions on DAGs and runs of `AirflowService`.
use innovativeproject_pm_gen.Airflow.Endpoints
use innovativeproject_pm_gen.Base.{
  if◌then◌else◌, ℕ, String, ◌<>◌, Bool, true, false, Option, none, some, [], ◌∷◌,
}
use innovativeproject_pm_gen.Base.Exec.{pure, raise, ◌>>=◌, ◌>>◌}
use innovativeproject_pm_gen.Base.Value.{get_value, truthy, as_dict, Fields, Value}
use innovativeproject_pm_gen.Airflow.Http.{World}
use innovativeproject_pm_gen.Airflow.Service.{
  fetch_dag_run_raw, invalidate_run_caches, checked, on_client, invalidate_dag_list_cache, Service,
}
use innovativeproject_pm_gen.Base.Text.{is_empty}
use innovativeproject_pm_gen.Errors.{Kind, airflow}
use innovativeproject_pm_gen.Airflow.Endpoints.{
  patch_dag_run_state, patch_dag, get_dag, clear_task_instances,
}
use innovativeproject_pm_gen.Airflow.Payload.{run_id_from_payload, compose_note}

pub record ActionResponse : Type 0 where
  pub run_id : String
  pub message : String
  pub airflow_status : ℕ

-- `TriggerRequest`; the logical date in ISO format
pub record TriggerRequest : Type 0 where
  pub conf : Option Value
  pub run_id : Option String
  pub logical_date : Option String
  pub note : Option String

abbrev pub done : String → String → ActionResponse
done run_id message = record { run_id = run_id; message = message; airflow_status = 200 }

-- `str(body.run_id or "")`, and `requested_id or None`
abbrev text_or_empty : Option String → String
text_or_empty none = ""
text_or_empty (some t) = t

abbrev nonempty : String → Option String
nonempty t = if is_empty t then none else some t

abbrev pub or_text : String → String → String
or_text a b = if is_empty a then b else a

module _ (w : World) where
  abbrev integration_error : {A : Type 0} → String → Service w A
  integration_error message =
      raise (airflow (record { kind = Kind.integration; message = message; details = none }))

  dict : Value → Service w Fields
  dict v = checked w (as_dict v)

  is_paused : String → Service w Bool
  is_paused dag_id = do
    raw ← on_client w (get_dag w dag_id)
    d ← dict raw
    pure (truthy w.builtins (get_value d "is_paused"))

  refuse_paused : String → Bool → Service w (Unit {0})
  refuse_paused dag_id false = pure tt
  refuse_paused dag_id true =
      integration_error ("DAG '" <> (dag_id <> "' is paused in Airflow and could not be unpaused."))

  unpause : String → Bool → Service w (Unit {0})
  unpause dag_id false = pure tt
  unpause dag_id true = do
    on_client w (patch_dag w dag_id (some false))
    invalidate_dag_list_cache w
    still ← is_paused dag_id
    refuse_paused dag_id still

  unfoldable pub ensure_dag_unpaused : String → Service w (Unit {0})
  unfolding is_paused unpause dict refuse_paused
  ensure_dag_unpaused dag_id = do paused ← is_paused dag_id; unpause dag_id paused

  unfoldable pub triggered : String → String → Service w ActionResponse
  triggered dag_id run_id =
      if is_empty run_id
      then integration_error ("Airflow triggered '" <> (dag_id <> "' but returned no run_id."))
      else pure (done run_id ("Triggered DAG '" <> (dag_id <> ("' (run " <> (run_id <> ")")))))

  unfoldable pub trigger_dag : String → TriggerRequest → Option String → Service w ActionResponse
  unfolding dict
  trigger_dag dag_id body triggered_by = do
    ensure_dag_unpaused dag_id
    raw ← on_client w (
        Endpoints.trigger_dag w dag_id body.conf body.run_id body.logical_date
          (compose_note body.note triggered_by))
    invalidate_dag_list_cache w
    d ← dict raw
    let requested = text_or_empty body.run_id
    resolved ←
        fetch_dag_run_raw w dag_id (or_text (run_id_from_payload d) requested) (nonempty requested)
    r ← dict resolved
    triggered dag_id (run_id_from_payload r)

  -- What follows a change of a run in Airflow.
  unfoldable pub changed : String → String → String → Service w ActionResponse
  changed dag_id run_id message = do
    invalidate_dag_list_cache w
    invalidate_run_caches w dag_id run_id
    pure (done run_id message)

  unfoldable pub stop_dag_run : String → String → Option String → Service w ActionResponse
  stop_dag_run dag_id run_id triggered_by = do
    on_client w (
        patch_dag_run_state w dag_id run_id "failed"
          (compose_note (some "Stopped via GenPM") triggered_by))
    changed dag_id run_id ("Stopped DAG run '" <> (run_id <> "'"))

  unfoldable pub clear_dag_run : String → String → Service w ActionResponse
  clear_dag_run dag_id run_id = do
    on_client w (clear_task_instances w dag_id run_id [] false false false true)
    changed dag_id run_id ("Cleared all tasks in run '" <> (run_id <> "'"))

  abbrev downstream_text : Bool → String
  downstream_text true = " + downstream"
  downstream_text false = ""

  unfoldable pub clear_task_instance : String → String → String → Bool → Service w ActionResponse
  clear_task_instance dag_id run_id task_id downstream = do
    on_client w (clear_task_instances w dag_id run_id (task_id ∷ []) downstream false false true)
    changed dag_id run_id ("Cleared task '" <> (task_id <> ("'" <> downstream_text downstream)))
