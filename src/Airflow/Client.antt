-- ===== src/Airflow/Client.antt =====
-- apps/backend/app/services/airflow/client.py: requests with retries, and one method per endpoint.
pub mod Laws
pub mod Status
use Prim.Native.Char.{Char, code}
use innovativeproject_pm_gen.Base.{
  Option, ◌/◌, ◌%◌, ◌+◌, not, ◌+◌, ℕ, zero, suc, String, ◌<>◌, Bool, true, false, ◌&&◌, ◌||◌, none,
  some, List, [], ◌∷◌, ltb, leb, eqb, if◌then◌else◌,
}
use innovativeproject_pm_gen.Base.Exec.{Exec, pure, raise, catch, gets, modify, ◌>>=◌, ◌>>◌}
use innovativeproject_pm_gen.Errors.{
  auth_failed, conflict, not_found, integration, unavailable, airflow, Kind, Exn,
}
use innovativeproject_pm_gen.Airflow.Http.{Reply, response, http_error, Request, World, Response}
use innovativeproject_pm_gen.Airflow.Auth.{invalidate, effect, get_token, airflow_error, Session}
use innovativeproject_pm_gen.Base.Value.{decimal, str, field, end, obj, Value}
use innovativeproject_pm_gen.Base.Text.{text_take}
use innovativeproject_pm_gen.Dags.Parse.{is_name_char}

-- The bytes of a code point in UTF-8.
utf8 : ℕ → List ℕ
utf8 c =
    if ltb c 128
    then c ∷ []
    else if ltb c 2048
    then (192 + c / 64) ∷ (128 + c % 64) ∷ []
    else if ltb c 65536
    then (224 + c / 4096) ∷ (128 + c / 64 % 64) ∷ (128 + c % 64) ∷ []
    else (240 + c / 262144) ∷ (128 + c / 4096 % 64) ∷ (128 + c / 64 % 64) ∷ (128 + c % 64) ∷ []

char_of : String → ℕ → String
char_of String.[] n = ""
char_of (String.◌∷◌ c s) zero = String.◌∷◌ c String.[]
char_of (String.◌∷◌ c s) (suc n) = char_of s n

abbrev hex_digits : String
hex_digits = "0123456789ABCDEF"

escapes : List ℕ → String
escapes [] = ""
escapes (n ∷ r) = "%" <> (char_of hex_digits (n / 16) <> (char_of hex_digits (n % 16) <> escapes r))

-- What `quote` leaves as it is: letters, digits and `-_.~`.
abbrev pub is_unreserved : Char → Bool
is_unreserved c = is_name_char c || eqb (code c) 126

-- `quote(value, safe="-_.~")`
unfoldable pub path_segment : String → String
unfolding utf8 escapes char_of
path_segment String.[] = String.[]
path_segment (String.◌∷◌ c s) =
    if is_unreserved c
    then String.◌∷◌ c (path_segment s)
    else escapes (utf8 (code c)) <> path_segment s

abbrev is_retryable : ℕ → Bool
is_retryable status = eqb status 502 || eqb status 503 || eqb status 504

abbrev airflow_detailed : Kind → String → Value → Exn
airflow_detailed k m d = airflow (record { kind = k; message = m; details = some d })

unfoldable safe_json : Response → Value
safe_json r = elim r.json [
  | none ↦ obj (field "raw" (str (text_take 500 r.text)) end)
  | some (obj d) ↦ obj d
  | some v ↦ obj (field "body" v end)
]

-- `tenacity` tries again only after `AirflowUnavailable`; an `httpx.HTTPError` never reaches it.
abbrev pub is_unavailable : Exn → Bool
is_unavailable (airflow e) = elim e.kind [ unavailable ↦ true | _ ↦ false ]
is_unavailable _ = false

module _ (w : World) where
  unfoldable check_unauthorized : Response → Exec Exn (Session w) Response
  check_unauthorized r =
      if eqb r.status_code 401
      then (invalidate w
          >> raise (
              airflow_error auth_failed
                "Airflow rejected our service-account JWT (will retry once)"))
      else pure r

  unfoldable on_reply : Request → Reply → Exec Exn (Session w) Response
  on_reply q (http_error exc) = raise (
      airflow_error unavailable
        ("Network error talking to Airflow (" <> (q.method <> (" " <> (q.path <> ("): " <> exc))))))
  on_reply q (response r) = check_unauthorized r

  unfoldable send : Request → Exec Exn (Session w) Response
  unfolding on_reply check_unauthorized
  send q = do
    token ← get_token w
    reply ← effect w (w.request (record q { token = token }))
    on_reply q reply

  body_or_raise : String → Option Value → Exec Exn (Session w) Value
  body_or_raise place (some v) = pure v
  body_or_raise place none =
      raise (airflow_error integration ("Airflow returned non-JSON 2xx body on " <> place))

  unfoldable handle_response : Request → Response → Exec Exn (Session w) Value
  handle_response q r =
      let place = q.method <> (" " <> q.path) in
      let status = r.status_code in
      if leb 200 status && ltb status 300
      then if eqb status 204 || not r.has_content
        then pure (obj end)
        else body_or_raise place r.json
      else if eqb status 404
      then raise (
          airflow_detailed not_found ("Airflow returned 404 on " <> place)
            (obj (field "path" (str q.path) end)))
      else if eqb status 409
      then raise (airflow_detailed conflict ("Airflow returned 409 on " <> place) (safe_json r))
      else if eqb status 401 || eqb status 403
      then raise (
          airflow_detailed auth_failed
            ("Airflow returned " <> (decimal status <> (" on " <> place))) (safe_json r))
      else if leb 500 status
      then raise (
          airflow_detailed unavailable ("Airflow 5xx (" <> (decimal status <> (") on " <> place)))
            (safe_json r))
      else raise (
          airflow_detailed integration
            ("Unexpected Airflow status " <> (decimal status <> (" on " <> place))) (safe_json r))

  unfoldable pub judge : Request → Response → Exec Exn (Session w) Value
  unfolding handle_response body_or_raise safe_json
  judge q r =
      if is_retryable r.status_code
      then raise (
          airflow_error unavailable (
            "Airflow returned "
            <> (decimal r.status_code <> (" on " <> (q.method <> (" " <> q.path))))))
      else handle_response q r

  -- The body of the retry loop.
  unfoldable pub attempt : Request → Exec Exn (Session w) Value
  unfolding send judge handle_response body_or_raise safe_json
  attempt q = do r ← send q; judge q r

  pause_once : Exec Exn (Session w) (Unit {0})
  pause_once = modify (λ s. record s { outside = w.pause s.outside })

  -- The attempts that are left after this one. The last exception is raised again.
  unfoldable pub retry : ℕ → Exec Exn (Session w) Value → Exec Exn (Session w) Value
  unfolding pause_once
  retry zero m = m
  retry (suc k) m = catch m λ e. if is_unavailable e then (pause_once >> retry k m) else raise e

  -- `if self._client is None: raise …`
  send_started : Request → Bool → Exec Exn (Session w) Value
  send_started q true = retry 2 (attempt q)
  send_started q false = raise (airflow_error unavailable "Airflow client not started")

  unfoldable pub send_request : Request → Exec Exn (Session w) Value
  unfolding send_started
  send_request q = do started ← gets (λ s. s.started); send_started q started
