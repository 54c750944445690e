-- ===== src/Errors.antt =====
-- The exceptions of the backend: apps/backend/app/services/airflow/errors.py, FastAPI's
-- `HTTPException`, and those of the libraries that the code catches or lets through.
use innovativeproject_pm_gen.Base.{ℕ, String, Option}
use innovativeproject_pm_gen.Base.Value.{Value, Fault}

-- `AirflowIntegrationError` and its subclasses.
pub data Kind : Type 0 where
  integration unavailable auth_failed not_found conflict : Kind

pub record AirflowError : Type 0 where
  pub kind : Kind
  pub message : String
  pub details : Option Value

abbrev pub code_of : Kind → String
code_of integration = "INTERNAL_ERROR"
code_of unavailable = "AIRFLOW_UNAVAILABLE"
code_of auth_failed = "AIRFLOW_AUTH_FAILED"
code_of not_found = "DAG_NOT_FOUND"
code_of conflict = "AIRFLOW_CONFLICT"

abbrev pub http_status_of : Kind → ℕ
http_status_of integration = 500
http_status_of unavailable = 502
http_status_of auth_failed = 502
http_status_of not_found = 404
http_status_of conflict = 409

pub data Exn : Type 0 where
  airflow : AirflowError → Exn
  -- `HTTPException(status_code, detail)`
  http : ℕ → String → Exn
  -- `RequestValidationError`, with its list of errors
  request_invalid : Value → Exn
  -- pydantic's `ValidationError`
  model_invalid : Exn
  -- SQLAlchemy's `IntegrityError`
  integrity : Exn
  runtime : String → Exn
  preprocessing_config : String → Exn
  visualization_schema : String → Exn
  visualization_storage : String → Exn
  python : Fault → Exn
