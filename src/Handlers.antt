-- ===== src/Handlers.antt =====
-- apps/backend/app/core/error_handlers.py: the response to each exception that an endpoint raises.
-- Starlette takes the handler of the nearest class that has one.
pub mod Laws
use innovativeproject_pm_gen.Base.{
  false, ◌||◌, ◌&&◌, leb, true, eqb, if◌then◌else◌, Bool, ℕ, String, ◌≡◌, refl, Option, none, some,
}
use innovativeproject_pm_gen.Errors.{
  integrity, model_invalid, python, visualization_storage, runtime, visualization_schema,
  preprocessing_config, request_invalid, http, http_status_of, code_of, airflow, Exn, AirflowError,
  Kind,
}
use innovativeproject_pm_gen.Base.Value.{str, end, get_default, field, obj, Value}
use innovativeproject_pm_gen.Base.Text.{is_empty, contains_text}

pub record ErrorResponse : Type 0 where
  pub status : ℕ
  pub code : String
  pub message : String
  pub details : Option Value
  -- in the body and in the header `X-Request-ID`
  pub request_id : String

-- `request.state.request_id`
pub record Request : Type 0 where
  pub request_id : Option String

abbrev pub request_id_of : Request → String
request_id_of r = elim r.request_id [
  | none ↦ "unknown"
  | some rid ↦ if is_empty rid then "unknown" else rid
]

unfoldable pub envelope : String → String → Option Value → Request → ℕ → ErrorResponse
envelope code message details r status = record {
  status = status;
  code = code;
  message = message;
  details = details;
  request_id = request_id_of r;
}

-- `(exc.details or {}).get("path", "")`; the client's details hold a text there.
path_in : Option Value → String
path_in (some (obj d)) = elim (get_default d "path" (str "")) [ str p ↦ p | _ ↦ "" ]
path_in _ = ""

unfoldable not_found_code : String → String
not_found_code path =
    if contains_text "/dagRuns/" path && contains_text "/taskInstances/" path
    then "TASK_NOT_FOUND"
    else if contains_text "/dagRuns/" path
    then "RUN_NOT_FOUND"
    else "DAG_NOT_FOUND"

unfoldable pub airflow_handler : Request → Kind → AirflowError → ErrorResponse
unfolding not_found_code path_in
airflow_handler r Kind.not_found e =
    envelope (not_found_code (path_in e.details)) e.message e.details r 404
airflow_handler r k e = envelope (code_of k) e.message e.details r (http_status_of k)

unfoldable pub runtime_handler : Request → String → ErrorResponse
runtime_handler r message =
    if contains_text "Airflow runtime not started" message
      || contains_text "Airflow configuration" message
    then envelope "AIRFLOW_UNAVAILABLE" message none r 503
    else envelope "INTERNAL_ERROR" message none r 500

http_code : ℕ → String
http_code status =
    if eqb status 401
    then "UNAUTHENTICATED"
    else if eqb status 403
    then "FORBIDDEN"
    else if leb 500 status
    then "INTERNAL_ERROR"
    else "VALIDATION_ERROR"

unfoldable pub http_handler : Request → ℕ → String → ErrorResponse
unfolding http_code
http_handler r status detail = envelope (http_code status) detail none r status

unfoldable pub fallback_handler : Request → ErrorResponse
fallback_handler r = envelope "INTERNAL_ERROR" "An unexpected error occurred." none r 500

unfoldable pub handle : Request → Exn → ErrorResponse
handle r (airflow e) = airflow_handler r e.kind e
handle r (request_invalid errors) =
    envelope "VALIDATION_ERROR" "Request payload failed validation."
      (some (obj (field "errors" errors end))) r 422
handle r (visualization_schema message) = envelope "VISUALIZATION_SCHEMA_ERROR" message none r 400
handle r (visualization_storage message) =
    envelope "VISUALIZATION_STORAGE_ERROR"
      "An error occurred while accessing visualization storage." none r 500
handle r (runtime message) = runtime_handler r message
handle r (http status detail) = http_handler r status detail
handle r _ = fallback_handler r
