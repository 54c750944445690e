-- ===== src/Tests/Airflow.antt =====
-- The Airflow client and service at concrete inputs.
use innovativeproject_pm_gen.Base.{suc, ◌≤◌, ℕ, ◌≡◌, refl, true, none, some, List, [], ◌∷◌}
use innovativeproject_pm_gen.Airflow.Service.Effects.{stop_dag_run-ActionSpec, ActionSpec}
use innovativeproject_pm_gen.Base.Result.{err}
use innovativeproject_pm_gen.Airflow.Service.{get_dag_run_raw, Flow}
use innovativeproject_pm_gen.Airflow.Service.Cache.{get_dag_run_raw-IsCached, IsCached}
use innovativeproject_pm_gen.Airflow.Http.{Request}
use innovativeproject_pm_gen.Airflow.Http.{http_error, response, World, Response}
use innovativeproject_pm_gen.Airflow.Auth.{get_token, Session}
use innovativeproject_pm_gen.Airflow.Auth.Laws.{get_token-TokenSpec, TokenSpec}
use innovativeproject_pm_gen.Airflow.Service.Actions.{stop_dag_run, TriggerRequest}
use innovativeproject_pm_gen.Base.Value.{plain_builtins, str, field, end, obj, Value}
use innovativeproject_pm_gen.Airflow.Client.{send_request}
use innovativeproject_pm_gen.Airflow.Client.Status.{send_request-rejected, rejected_token}
use innovativeproject_pm_gen.Airflow.Client.Laws.{send_request-count}

-- The state counts the requests; the server always gives the same reply.
abbrev server : ℕ → World
server status = record {
  State = ℕ;
  request = λ q n. (
    response (record {
      status_code = status;
      has_content = true;
      json = some (obj (field "dag_run_id" (str "r1") end));
      text = "";
    }),
    suc n,
  );
  post_token = λ n. (http_error "down", n);
  time = λ n. 0;
  monotonic = λ n. 0;
  now_iso = λ n. "now";
  pause = λ n. n;
  decode = λ t. none;
  float_us = λ f. none;
  token_url = "http://airflow/auth/token";
  builtins = plain_builtins;
}

abbrev logged_in : (status : ℕ) → Session (server status)
logged_in status = record {
  started = true;
  cached = some (record { token = "jwt"; expires_at = 900000000 });
  outside = 0;
}

abbrev ping : Request
ping = record {
  method = "GET";
  path = "/dags/d";
  params = none;
  json = none;
  accept = "application/json";
  token = "";
}

abbrev reply : ℕ → Response
reply status = record { status_code = status; has_content = true; json = none; text = "" }

abbrev idle : (status : ℕ) → Flow (server status)
idle status = record {
  session = logged_in status;
  dag_list_cache = none;
  run_cache = (("d", "r1"), (0, obj end)) ∷ [];
  task_list_cache = [];
  task_cache = (("d", "r1", "t"), (0, obj end)) ∷ (("d", "r2", "t"), (0, obj end)) ∷ [];
}

send_request-count_example : (send_request (server 503) ping (logged_in 503)).1.outside ≤ 3
send_request-count_example =
    send_request-count (server 503) (λ n. n)
      (record { request = λ q o. refl; post_token = λ o. refl; pause = λ o. refl }) ping
      (logged_in 503)

send_request-rejected_example :
    send_request (server 401) ping (logged_in 401)
    ≡ (err rejected_token, record (logged_in 401) { cached = none; outside = 1 })
send_request-rejected_example =
    send_request-rejected (server 401) ping (logged_in 401) refl refl refl refl

get_token-TokenSpec_example :
    TokenSpec
      (server 200)
      (logged_in 200)
      (get_token (server 200) (logged_in 200)).0
      (get_token (server 200) (logged_in 200)).1
get_token-TokenSpec_example = get_token-TokenSpec (server 200) (logged_in 200)

stop_dag_run-ActionSpec_example :
    ActionSpec
      (server 200)
      ("d", "r1")
      (idle 200)
      (stop_dag_run (server 200) "d" "r1" (some "ann") (idle 200))
stop_dag_run-ActionSpec_example =
    stop_dag_run-ActionSpec (server 200) "d" "r1" (some "ann") (idle 200)

abbrev body : TriggerRequest
body = record { conf = none; run_id = some "r1"; logical_date = none; note = none }

get_dag_run_raw-IsCached_example :
    IsCached (server 200) ("d", "r1") (get_dag_run_raw (server 200) "d" "r1" (idle 200))
get_dag_run_raw-IsCached_example = get_dag_run_raw-IsCached (server 200) "d" "r1" (idle 200)

abbrev runs : List Value
runs = obj end ∷ obj (field "dag_run_id" (str "r1") end) ∷ []
