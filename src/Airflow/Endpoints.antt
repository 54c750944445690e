-- ===== src/Airflow/Endpoints.antt =====
-- apps/backend/app/services/airflow/client.py: the methods of `AirflowClient`, one per endpoint.
use innovativeproject_pm_gen.Base.{
  ℕ, String, ◌<>◌, Bool, false, Option, none, some, List, [], ◌∷◌, if◌then◌else◌,
}
use innovativeproject_pm_gen.Base.Exec.{Exec, gets, ◌>>=◌}
use innovativeproject_pm_gen.Errors.{Exn}
use innovativeproject_pm_gen.Airflow.Http.{World}
use innovativeproject_pm_gen.Airflow.Auth.{Session}
use innovativeproject_pm_gen.Base.Value.{
  cons, pos, nil, arr, int, bool, Items, Fields, decimal, str, field, end, obj, Value,
}
use innovativeproject_pm_gen.Base.Text.{is_empty}
use innovativeproject_pm_gen.Airflow.Client.{send_request, path_segment}

module _ (w : World) where
  dag_path : String → String
  dag_path dag_id = "/dags/" <> path_segment dag_id

  run_path : String → String → String
  run_path dag_id run_id = dag_path dag_id <> ("/dagRuns/" <> path_segment run_id)

  task_path : String → String → String → String
  task_path dag_id run_id task_id =
      run_path dag_id run_id <> ("/taskInstances/" <> path_segment task_id)

  request_to : String → String → Option Fields → Option Value → Exec Exn (Session w) Value
  request_to method path params json = send_request w (record {
    method = method;
    path = path;
    params = params;
    json = json;
    accept = "application/json";
    token = "";
  })

  abbrev get_from : String → Exec Exn (Session w) Value
  get_from path = request_to "GET" path none none

  abbrev number : ℕ → Value
  number n = int (pos n)

  abbrev optional : String → Option String → Fields → Fields
  optional k none d = d
  optional k (some v) d = field k (str v) d

  unfoldable pub list_dags : ℕ → ℕ → Bool → Exec Exn (Session w) Value
  unfolding request_to
  list_dags limit offset only_active =
      let active = if only_active then field "only_active" (str "true") end else end in
      request_to "GET" "/dags"
        (some (field "limit" (number limit) (field "offset" (number offset) active))) none

  unfoldable pub get_dag : String → Exec Exn (Session w) Value
  unfolding request_to dag_path
  get_dag dag_id = get_from (dag_path dag_id)

  unfoldable pub patch_dag : String → Option Bool → Exec Exn (Session w) Value
  unfolding request_to dag_path
  patch_dag dag_id none = request_to "PATCH" (dag_path dag_id) none (some (obj end))
  patch_dag dag_id (some is_paused) =
      request_to "PATCH" (dag_path dag_id) (some (field "update_mask" (str "is_paused") end))
        (some (obj (field "is_paused" (bool is_paused) end)))

  unfoldable pub list_dag_tasks : String → Exec Exn (Session w) Value
  unfolding request_to dag_path
  list_dag_tasks dag_id = get_from (dag_path dag_id <> "/tasks")

  unfoldable pub list_dag_runs :
      String → ℕ → ℕ → String → Option String → Exec Exn (Session w) Value
  unfolding request_to dag_path
  list_dag_runs dag_id limit offset order_by start_date_gte =
      let since = optional "start_date_gte" start_date_gte end in
      request_to "GET" (dag_path dag_id <> "/dagRuns")
        (some (
          field "limit" (number limit)
            (field "offset" (number offset) (field "order_by" (str order_by) since))))
        none

  unfoldable pub get_dag_run : String → String → Exec Exn (Session w) Value
  unfolding request_to run_path dag_path
  get_dag_run dag_id run_id = get_from (run_path dag_id run_id)

  unfoldable pub list_task_instances : String → String → Exec Exn (Session w) Value
  unfolding request_to run_path dag_path
  list_task_instances dag_id run_id = get_from (run_path dag_id run_id <> "/taskInstances")

  unfoldable pub get_task_instance : String → String → String → Exec Exn (Session w) Value
  unfolding request_to task_path run_path dag_path
  get_task_instance dag_id run_id task_id = get_from (task_path dag_id run_id task_id)

  unfoldable pub list_task_tries : String → String → String → Exec Exn (Session w) Value
  unfolding request_to task_path run_path dag_path
  list_task_tries dag_id run_id task_id = get_from (task_path dag_id run_id task_id <> "/tries")

  unfoldable pub get_task_logs :
      String → String → String → ℕ → Option String → Bool → Exec Exn (Session w) Value
  unfolding request_to task_path run_path dag_path
  get_task_logs dag_id run_id task_id try_number token full_content =
      let full = if full_content then field "full_content" (str "true") end else end in
      request_to "GET" (task_path dag_id run_id task_id <> ("/logs/" <> decimal try_number))
        (some (optional "token" token full)) none

  -- `logical_date or _utc_now_iso()`
  run_moment : Option String → Session w → String
  run_moment none s = w.now_iso s.outside
  run_moment (some d) s = if is_empty d then w.now_iso s.outside else d

  abbrev optional_value : String → Option Value → Fields → Fields
  optional_value k none d = d
  optional_value k (some v) d = field k v d

  unfoldable pub trigger_dag :
      String
      → Option Value
      → Option String
      → Option String
      → Option String
      → Exec Exn (Session w) Value
  unfolding run_moment request_to dag_path
  trigger_dag dag_id conf run_id logical_date note = do
    moment ← gets (run_moment logical_date)
    let extra = optional "dag_run_id" run_id (optional_value "conf" conf (optional "note" note end))
    let body = field "logical_date" (str moment) (field "run_after" (str moment) extra)
    request_to "POST" (dag_path dag_id <> "/dagRuns") none (some (obj body))

  unfoldable pub patch_dag_run_state :
      String → String → String → Option String → Exec Exn (Session w) Value
  unfolding request_to run_path dag_path
  patch_dag_run_state dag_id run_id state note =
      request_to "PATCH" (run_path dag_id run_id) (some (field "update_mask" (str "state") end))
        (some (obj (field "state" (str state) (optional "note" note end))))

  texts : List String → Items
  texts [] = nil
  texts (t ∷ r) = cons (str t) (texts r)

  -- `if task_ids:`
  abbrev task_ids_field : List String → Fields
  task_ids_field [] = end
  task_ids_field (t ∷ r) = field "task_ids" (arr (texts (t ∷ r))) end

  unfoldable pub clear_task_instances :
      String → String → List String → Bool → Bool → Bool → Bool → Exec Exn (Session w) Value
  unfolding request_to dag_path texts
  clear_task_instances dag_id run_id task_ids downstream upstream only_failed reset =
      request_to "POST" (dag_path dag_id <> "/clearTaskInstances") none (
        some (
          obj (
            field "dry_run" (bool false) (
              field "reset_dag_runs" (bool reset) (
                field "only_failed" (bool only_failed) (
                  field "include_downstream" (bool downstream) (
                    field "include_upstream" (bool upstream)
                      (field "dag_run_id" (str run_id) (task_ids_field task_ids)))))))))
