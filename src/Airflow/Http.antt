-- ===== src/Airflow/Http.antt =====
-- What the Airflow client takes from `httpx`, `time`, `jwt` and `json`: the world outside, as a
-- parameter. Times count microseconds.
use innovativeproject_pm_gen.Base.{ℕ, String, Bool, Option}
use innovativeproject_pm_gen.Base.Value.{Value, Fields, Builtins}

pub record Request : Type 0 where
  pub method : String
  pub path : String
  pub params : Option Fields
  pub json : Option Value
  pub accept : String
  pub token : String

pub record Response : Type 0 where
  pub status_code : ℕ
  pub has_content : Bool
  -- `response.json()`; `none` where it raises
  pub json : Option Value
  pub text : String

-- What sending gives: a response, or an `httpx.HTTPError` with its text.
pub data Reply : Type 0 where
  response : Response → Reply
  http_error : String → Reply

pub record World : Type 1 where
  pub State : Type 0
  pub request : Request → State → Reply × State
  -- the POST to the token endpoint, with the user name and the password of the settings
  pub post_token : State → Reply × State
  pub time : State → ℕ
  pub monotonic : State → ℕ
  pub now_iso : State → String
  -- the pause of `wait_exponential`
  pub pause : State → State
  -- `jwt.decode` without verification; `none` where it raises
  pub decode : String → Option Fields
  -- a claim that is a float, in microseconds, if it is above zero
  pub float_us : String → Option ℕ
  pub token_url : String
  pub builtins : Builtins
