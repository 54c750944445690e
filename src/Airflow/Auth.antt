-- ===== src/Airflow/Auth.antt =====
-- apps/backend/app/services/airflow/auth.py: the cached service-account token.
pub mod Laws
use innovativeproject_pm_gen.Base.{
  ℕ, suc, ◌+◌, ◌*◌, String, ◌<>◌, Bool, true, Option, none, some, List, [], ◌∷◌, ltb, leb, eqb,
  if◌then◌else◌,
}
use innovativeproject_pm_gen.Base.Value.{
  Fault, decimal, nil, float, arr, cons, bool, pos, field, as_dict, str, int, get_value, Items,
  Value, Fields,
}
use innovativeproject_pm_gen.Errors.{unavailable, python, auth_failed, airflow, Exn, Kind}
use innovativeproject_pm_gen.Airflow.Http.{Reply, response, http_error, Response, World}
use innovativeproject_pm_gen.Base.Exec.{gets, ◌>>=◌, ◌>>◌, raise, pure, modify, Exec}
use innovativeproject_pm_gen.Base.Text.{text_take, is_empty}
use innovativeproject_pm_gen.Base.Result.{Result, err, ok}

abbrev pub refresh_leeway : ℕ
refresh_leeway = 60000000

abbrev pub fallback_ttl : ℕ
fallback_ttl = 600000000

pub record CachedToken : Type 0 where
  pub token : String
  pub expires_at : ℕ

-- `self.expires_at - now > leeway`
abbrev pub is_fresh : CachedToken → ℕ → Bool
is_fresh c now = ltb (now + refresh_leeway) c.expires_at

abbrev pub airflow_error : Kind → String → Exn
airflow_error k m = airflow (record { kind = k; message = m; details = none })

choose : Value → Option String → Option String
choose (str s) later = if is_empty s then later else some s
choose _ later = later

-- The first of the keys that holds a non-empty text.
first_text : Fields → List String → Option String
first_text d [] = none
first_text d (k ∷ ks) = choose (get_value d k) (first_text d ks)

abbrev token_keys : List String
token_keys = "access_token" ∷ "token" ∷ "jwt" ∷ "id_token" ∷ []

-- `list(body)[:5]`
first_keys : ℕ → Fields → Items
first_keys (suc n) (field k v r) = cons (str k) (first_keys n r)
first_keys _ _ = nil

-- The client object with its auth object, and the world around them.
pub record Session (w : World) : Type 0 where
  pub started : Bool
  pub cached : Option CachedToken
  pub outside : w.State

module _ (w : World) where
  -- An effect on the world that gives a value.
  unfoldable pub effect : {A : Type 0} → (w.State → A × w.State) → Exec Exn (Session w) A
  effect f s = let (a, o) = f s.outside in (ok a, record s { outside = o })

  abbrev pub now : Exec Exn (Session w) ℕ
  now s = (ok (w.time s.outside), s)

  found_token : Fields → Option String → Exec Exn (Session w) String
  found_token body (some t) = pure t
  found_token body none = raise (
      airflow_error auth_failed (
        "Airflow auth response did not contain a token field (keys="
        <> (w.builtins.repr (arr (first_keys 5 body)) <> ")")))

  unfoldable extract_token : Fields → Exec Exn (Session w) String
  extract_token body = found_token body (first_text body token_keys)

  -- `exp` as a time, if it is a number above zero.
  expiry_of : Value → Option ℕ
  expiry_of (int (pos (suc n))) = some (suc n * 1000000)
  expiry_of (bool true) = some 1000000
  expiry_of (float f) = w.float_us f
  expiry_of _ = none

  claimed_expiry : Option Fields → Option ℕ
  claimed_expiry none = none
  claimed_expiry (some claims) = expiry_of (get_value claims "exp")

  expiry_or_fallback : Option ℕ → Session w → ℕ
  expiry_or_fallback (some t) s = t
  expiry_or_fallback none s = w.time s.outside + fallback_ttl

  unfoldable extract_expiry : String → Exec Exn (Session w) ℕ
  extract_expiry token = gets (expiry_or_fallback (claimed_expiry (w.decode token)))

  -- The checks on the status of the token endpoint's response.
  unfoldable check_auth_status : Response → Exec Exn (Session w) (Unit {0})
  check_auth_status r =
      if eqb r.status_code 401
      then raise (
          airflow_error auth_failed
            "Airflow rejected the service-account credentials (AIRFLOW_USERNAME / AIRFLOW_PASSWORD).")
      else if leb 500 r.status_code
      then raise
          (airflow_error unavailable ("Airflow auth endpoint returned " <> decimal r.status_code))
      else if leb 400 r.status_code
      then raise (
          airflow_error auth_failed (
            "Airflow auth endpoint returned "
            <> (decimal r.status_code <> (": " <> text_take 200 r.text))))
      else pure tt

  json_body : Option Value → Exec Exn (Session w) Value
  json_body none = raise (airflow_error auth_failed "Airflow auth endpoint returned non-JSON body")
  json_body (some v) = pure v

  dict_of : Result Fault Fields → Exec Exn (Session w) Fields
  dict_of (ok d) = pure d
  dict_of (err e) = raise (python e)

  unfoldable accept_token : Response → Exec Exn (Session w) CachedToken
  accept_token r = do
    check_auth_status r
    v ← json_body r.json
    body ← dict_of (as_dict v)
    token ← extract_token body
    expires_at ← extract_expiry token
    pure (record { token = token; expires_at = expires_at })

  on_auth_reply : Reply → Exec Exn (Session w) CachedToken
  on_auth_reply (http_error exc) = raise (
      airflow_error unavailable
        ("Cannot reach Airflow auth endpoint (" <> (w.token_url <> ("): " <> exc))))
  on_auth_reply (response r) = accept_token r

  unfoldable pub exchange_credentials : Exec Exn (Session w) CachedToken
  unfolding on_auth_reply accept_token first_text first_keys choose extract_token found_token
      expiry_of claimed_expiry expiry_or_fallback extract_expiry check_auth_status json_body dict_of
  exchange_credentials = do reply ← effect w.post_token; on_auth_reply reply

  -- `self._cached`, if it is fresh now.
  abbrev pub fresh_token : Session w → Option String
  fresh_token s = elim s.cached [
    | none ↦ none
    | some c ↦ if is_fresh c (w.time s.outside) then some c.token else none
  ]

  unfoldable pub renew : Exec Exn (Session w) String
  renew = do c ← exchange_credentials; modify (λ s. record s { cached = some c }); pure c.token

  -- The second look at the cache, under the lock.
  unfoldable look_again : Option String → Exec Exn (Session w) String
  look_again (some token) = pure token
  look_again none = renew

  look_first : Option String → Exec Exn (Session w) String
  look_first (some token) = pure token
  look_first none = do second ← gets fresh_token; look_again second

  -- The lock is free: no other task runs between the two looks.
  unfoldable pub get_token : Exec Exn (Session w) String
  unfolding look_first look_again renew
  get_token = do first ← gets fresh_token; look_first first

  unfoldable pub invalidate : Exec Exn (Session w) (Unit {0})
  invalidate = modify (λ s. record s { cached = none })
