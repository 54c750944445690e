-- ===== src/Airflow/Client/Status.antt =====
-- Which exception each status of a response becomes, and what a rejected token leads to.
use innovativeproject_pm_gen.Base.{
  ◌∙◌, ◌||◌, eqb, ap, leb, if◌then◌else◌, ℕ, ◌≤◌, ◌<◌, ◌≡◌, ◌↔◌, ◌⊎◌, true, Option, none, some,
  arith, String,
}
use innovativeproject_pm_gen.Base.Exec.{
  modify, bind_err, catch_err, bind_ok, gets, raise, ◌>>=◌, ◌>>◌,
}
use innovativeproject_pm_gen.Base.Result.{ok, err, Result}
use innovativeproject_pm_gen.Airflow.Http.{response, Response, Request, World}
use innovativeproject_pm_gen.Airflow.Client.{
  send_started, check_unauthorized, attempt, send, retry, on_reply, handle_response, send_request,
  judge,
}
use innovativeproject_pm_gen.Errors.{
  conflict, not_found, auth_failed, airflow, unavailable, integration, Kind, Exn,
}
use innovativeproject_pm_gen.Airflow.Auth.{invalidate, effect, airflow_error, fresh_token, Session}
use innovativeproject_pm_gen.Base.Value.{Value}
use innovativeproject_pm_gen.Airflow.Auth.Laws.{get_token_fresh}

-- The kind of the Airflow exception that was raised, if one was.
abbrev pub raised_kind : Result Exn Value → Option Kind
raised_kind (err (airflow e)) = some e.kind
raised_kind _ = none

-- The kind for a status that is no success.
status_kind : ℕ → Kind
status_kind n =
    if leb 500 n
    then unavailable
    else if eqb n 401 || eqb n 403
    then auth_failed
    else if eqb n 404
    then not_found
    else if eqb n 409
    then conflict
    else integration

judge-status_kind :
    (w : World) (q : Request) (r : Response) (s : Session w)
    → (r.status_code < 200) ⊎ (300 ≤ r.status_code)
    → raised_kind (judge w q r s).0 ≡ some (status_kind r.status_code)
unfolding judge handle_response raise status_kind
judge-status_kind w q r s h = ground arith

-- A response with a status outside 200 to 299 raises, and its exception tells the status: at least
-- 500 is "unavailable", 401 and 403 are "auth failed", 404 is "not found", 409 is "conflict", and
-- any other is a plain integration error.
judge-kind :
    (w : World) (q : Request) (r : Response) (s : Session w)
    → (r.status_code < 200) ⊎ (300 ≤ r.status_code)
    → (k : Kind) × (raised_kind (judge w q r s).0 ≡ some k)
      × ((k ≡ unavailable) ↔ (500 ≤ r.status_code))
      × ((k ≡ auth_failed) ↔ ((r.status_code ≡ 401) ⊎ (r.status_code ≡ 403)))
      × ((k ≡ not_found) ↔ (r.status_code ≡ 404))
      × ((k ≡ conflict) ↔ (r.status_code ≡ 409))
unfolding status_kind
judge-kind w q r s h = (
  status_kind r.status_code,
  judge-status_kind w q r s h,
  (ground arith, ground arith),
  (ground arith, ground arith),
  (ground arith, ground arith),
  (ground arith, ground arith),
)

abbrev pub rejected_token : Exn
rejected_token =
    airflow_error auth_failed "Airflow rejected our service-account JWT (will retry once)"

module _ (w : World) (q : Request) (s : Session w) {t : String} {r : Response} {o : w.State}
    (fresh : fresh_token w s ≡ some t)
    (reply : w.request (record q { token = t }) s.outside ≡ (response r, o))
    (status : r.status_code ≡ 401) where
  after_rejection : Session w
  after_rejection = record s { cached = none; outside = o }

  effect-reply :
      effect w (w.request (record q { token = t })) s ≡ (ok (response r), record s { outside = o })
  unfolding effect
  effect-reply = rw reply

  on_reply-rejected :
      on_reply w q (response r) (record s { outside = o }) ≡ (err rejected_token, after_rejection)
  unfolding on_reply check_unauthorized invalidate ◌>>◌ ◌>>=◌ raise modify after_rejection
  on_reply-rejected = rw status

  send-rejected : send w q s ≡ (err rejected_token, after_rejection)
  unfolding send
  send-rejected =
      bind_ok _ _ (get_token_fresh w s fresh) ∙ (bind_ok _ _ effect-reply ∙ on_reply-rejected)

  retry-rejected : retry w 2 (attempt w q) s ≡ (err rejected_token, after_rejection)
  unfolding retry attempt raise
  retry-rejected = catch_err _ _ (bind_err _ _ send-rejected)

-- Airflow answers 401 to a request with a fresh token: the token is dropped from the cache, and the
-- call fails at once, after one request, though its message says that it will retry.
pub send_request-rejected :
    (w : World) (q : Request) (s : Session w) {t : String} {r : Response} {o : w.State}
    → s.started ≡ true
    → fresh_token w s ≡ some t
    → w.request (record q { token = t }) s.outside ≡ (response r, o)
    → r.status_code ≡ 401
    → send_request w q s ≡ (err rejected_token, record s { cached = none; outside = o })
unfolding send_request ◌>>=◌ gets send_started after_rejection
send_request-rejected w q s on fresh reply status =
    ap (λ c. send_started w q c s) on ∙ retry-rejected w q s fresh reply status
