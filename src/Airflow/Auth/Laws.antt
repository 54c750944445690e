-- ===== src/Airflow/Auth/Laws.antt =====
-- When a token is taken from the cache, and what an exchange leaves alone.
use innovativeproject_pm_gen.Base.{ap, inr, inl, ◌⊎◌, refl, ◌≡◌, String, Option, none, some}
use innovativeproject_pm_gen.Base.Exec.Keeps.{Keeps, Keeps-bind, keeps_rules}
use innovativeproject_pm_gen.Airflow.Http.{response, http_error, Response, Reply, World}
use innovativeproject_pm_gen.Airflow.Auth.{
  look_again, look_first, fresh_token, renew, get_token, CachedToken, extract_expiry, extract_token,
  on_auth_reply, json_body, found_token, exchange_credentials, dict_of, check_auth_status,
  accept_token, effect, Session,
}
use innovativeproject_pm_gen.Base.Value.{Fault, Value, Fields}
use innovativeproject_pm_gen.Base.Result.{err, ok, Result}
use innovativeproject_pm_gen.Errors.{Exn}
use innovativeproject_pm_gen.Base.Exec.{◌>>◌, ◌>>=◌, modify, pure, gets}

-- An invariant of one exchange: the reply of the token endpoint keeps it, and nothing else matters.
module _ (w : World) {P : Session w → Type 0} (post : Keeps P (effect w w.post_token)) where
  found-Keeps : (body : Fields) (t : Option String) → Keeps P (found_token w body t)
  unfolding found_token
  found-Keeps body (some t) = search keeps_rules
  found-Keeps body none = search keeps_rules

  check-Keeps : (r : Response) → Keeps P (check_auth_status w r)
  unfolding check_auth_status
  check-Keeps r = search keeps_rules

  body-Keeps : (v : Option Value) → Keeps P (json_body w v)
  unfolding json_body
  body-Keeps none = search keeps_rules
  body-Keeps (some v) = search keeps_rules

  dict-Keeps : (r : Result Fault Fields) → Keeps P (dict_of w r)
  unfolding dict_of
  dict-Keeps (ok d) = search keeps_rules
  dict-Keeps (err e) = search keeps_rules

  accept-Keeps : (r : Response) → Keeps P (accept_token w r)
  unfolding accept_token extract_token extract_expiry
  accept-Keeps r = search (keeps_rules, found-Keeps, check-Keeps, body-Keeps, dict-Keeps) depth 12

  reply-Keeps : (r : Reply) → Keeps P (on_auth_reply w r)
  unfolding on_auth_reply
  reply-Keeps (http_error exc) = search keeps_rules
  reply-Keeps (response r) = accept-Keeps r

  pub exchange-Keeps : Keeps P (exchange_credentials w)
  unfolding exchange_credentials
  exchange-Keeps = Keeps-bind _ _ post reply-Keeps

-- An invariant of `get_token`: an exchange and a new entry keep it.
module _ (w : World) {P : Session w → Type 0} (post : Keeps P (effect w w.post_token))
    (store : (c : Option CachedToken)
      → Keeps P (modify {E = Exn} (λ s. record s { cached = c }))) where
  exchange_credentials-Keeps : Keeps P (exchange_credentials w)
  exchange_credentials-Keeps = exchange-Keeps w post

  look_again-Keeps : (f : Option String) → Keeps P (look_again w f)
  unfolding look_again renew
  look_again-Keeps (some t) = search keeps_rules
  look_again-Keeps none = search (keeps_rules, exchange_credentials-Keeps, store)

  look_first-Keeps : (f : Option String) → Keeps P (look_first w f)
  unfolding look_first
  look_first-Keeps (some t) = search keeps_rules
  look_first-Keeps none = search (keeps_rules, look_again-Keeps)

  pub get_token-Keeps : Keeps P (get_token w)
  unfolding get_token
  get_token-Keeps = search (keeps_rules, look_first-Keeps)

module _ (w : World) where
  effect-cached : (c : Option CachedToken) → Keeps (λ s. s.cached ≡ c) (effect w w.post_token)
  unfolding effect
  effect-cached c = record { at = λ s h. h }

  pub exchange-cached : (s : Session w) → (exchange_credentials w s).1.cached ≡ s.cached
  exchange-cached s = (exchange-Keeps w (effect-cached s.cached)).at s refl

  -- A token comes from the cache, which is then left alone, if it is fresh there; else it is that of
  -- the new entry. A failed exchange leaves the cache as it was.
  unfoldable pub TokenSpec : Session w → Result Exn String → Session w → Type 0
  TokenSpec s (ok t) s' =
      ((fresh_token w s ≡ some t) × (s' ≡ s))
      ⊎ ((fresh_token w s ≡ none) × (c : CachedToken) × (s'.cached ≡ some c) × (c.token ≡ t))
  TokenSpec s (err e) s' = (fresh_token w s ≡ none) × (s'.cached ≡ s.cached)

  renew-TokenSpec :
      (s : Session w) → fresh_token w s ≡ none → TokenSpec s (renew w s).0 (renew w s).1
  unfolding renew ◌>>=◌ ◌>>◌ pure modify TokenSpec
  renew-TokenSpec s stale = let (r, s') = exchange_credentials w s in after r s' (exchange-cached s)
    where
      after :
          (r : Result Exn CachedToken) (s' : Session w)
          → s'.cached ≡ s.cached
          → let m =
              ((λ _. (r, s')) >>= λ c.
              modify (λ s. record s { cached = some c }) >> pure c.token) in
            TokenSpec s (m s).0 (m s).1
      after (ok c) s' h = inr (stale, c, refl, refl)
      after (err e) s' h = (stale, h)

  -- `get_token` returns the cached token and changes nothing exactly if that token is fresh; else it
  -- returns the token that it has just put into the cache, or fails and keeps the old entry.
  pub get_token-TokenSpec : (s : Session w) → TokenSpec s (get_token w s).0 (get_token w s).1
  unfolding get_token ◌>>=◌ gets pure TokenSpec
  get_token-TokenSpec s = look (fresh_token w s) refl
    where
      look :
          (f : Option String)
          → fresh_token w s ≡ f
          → TokenSpec s (look_first w f s).0 (look_first w f s).1
      look (some t) h = inl (h, refl)
      look none h = rw h (renew-TokenSpec s h)

  pub get_token_fresh :
      (s : Session w) {t : String} → fresh_token w s ≡ some t → get_token w s ≡ (ok t, s)
  unfolding get_token ◌>>=◌ gets pure
  get_token_fresh s fresh = ap (λ f. look_first w f s) fresh
