-- ===== src/Airflow/Client/Laws.antt =====
-- How many requests a call sends.
use innovativeproject_pm_gen.Base.{
  false, zero, true, if◌then◌else◌, Bool, ◌+◌, ℕ, suc, ◌≤◌, ◌≡◌, Option, none, some, arith, String,
}
use innovativeproject_pm_gen.Base.Exec.{gets, ◌>>=◌, raise, ◌>>◌, Exec, modify}
use innovativeproject_pm_gen.Airflow.Http.{response, http_error, Reply, Response, Request, World}
use innovativeproject_pm_gen.Airflow.Auth.{invalidate, get_token, effect, Session, CachedToken}
use innovativeproject_pm_gen.Base.Exec.Keeps.{
  catch-leads, bind-leads, Keeps-modify, keeps_rules, Keeps,
}
use innovativeproject_pm_gen.Errors.{Exn}
use innovativeproject_pm_gen.Airflow.Auth.Laws.{get_token-Keeps}
use innovativeproject_pm_gen.Airflow.Client.{
  send_started, send_request, is_unavailable, send, retry, pause_once, attempt, handle_response,
  check_unauthorized, on_reply, judge, body_or_raise,
}
use innovativeproject_pm_gen.Base.Value.{Value}

-- A count of the requests that went out; pauses and token exchanges send none.
pub record IsCount (w : World) (sends : w.State → ℕ) : Type 0 where
  pub request : (q : Request) (o : w.State) → sends (w.request q o).1 ≡ suc (sends o)
  pub post_token : (o : w.State) → sends (w.post_token o).1 ≡ sends o
  pub pause : (o : w.State) → sends (w.pause o) ≡ sends o

module _ (w : World) (sends : w.State → ℕ) (h : IsCount w sends) where
  abbrev count : Session w → ℕ
  count s = sends s.outside

  post-count : (n : ℕ) → Keeps (λ s. count s ≤ n) (effect w w.post_token)
  unfolding effect
  post-count n = record { at = λ s p. omega (arith, h.post_token s.outside) }

  modify-count :
      (n : ℕ) (c : Option CachedToken)
      → Keeps (λ s. count s ≤ n) (modify {E = Exn} (λ s. record s { cached = c }))
  modify-count n c = Keeps-modify _ (λ s p. p)

  get_token-count : (n : ℕ) → Keeps (λ s. count s ≤ n) (get_token w)
  get_token-count n = get_token-Keeps w (post-count n) (modify-count n)

  on_reply-count : (n : ℕ) (q : Request) (r : Reply) → Keeps (λ s. count s ≤ n) (on_reply w q r)
  unfolding on_reply check_unauthorized invalidate
  on_reply-count n q (http_error exc) = search keeps_rules
  on_reply-count n q (response r) = search (keeps_rules, modify-count)

  body-count :
      (n : ℕ) (place : String) (v : Option Value)
      → Keeps (λ s. count s ≤ n) (body_or_raise w place v)
  unfolding body_or_raise
  body-count n place none = search keeps_rules
  body-count n place (some v) = search keeps_rules

  judge-count : (n : ℕ) (q : Request) (r : Response) → Keeps (λ s. count s ≤ n) (judge w q r)
  unfolding judge handle_response
  judge-count n q r = search (keeps_rules, body-count) depth 12

  -- One attempt sends at most one request.
  request-count :
      (q : Request) (s : Session w) (n : ℕ)
      → count s ≤ n
      → count (effect w (w.request q) s).1 ≤ suc n
  unfolding effect
  request-count q s n p = omega (arith, h.request q s.outside)

  send-count : (q : Request) (n : ℕ) (s : Session w) → count s ≤ n → count (send w q s).1 ≤ suc n
  unfolding send
  send-count q n =
      bind-leads {R = λ s. count s ≤ n} {Q = λ s. count s ≤ suc n} _ _ (get_token-count n).at
        (λ s p. omega arith)
        (λ token.
          bind-leads {R = λ s. count s ≤ suc n} {Q = λ s. count s ≤ suc n} _ _
            (λ s p. request-count (record q { token = token }) s n p) (λ s p. p)
            (λ reply s p. (on_reply-count (suc n) q reply).at s p))

  attempt-count :
      (q : Request) (n : ℕ) (s : Session w) → count s ≤ n → count (attempt w q s).1 ≤ suc n
  unfolding attempt
  attempt-count q n =
      bind-leads {R = λ s. count s ≤ suc n} {Q = λ s. count s ≤ suc n} _ _ (send-count q n)
        (λ s p. p) (λ r s p. (judge-count (suc n) q r).at s p)

  pause-count : (n : ℕ) → Keeps (λ s. count s ≤ n) (pause_once w)
  unfolding pause_once
  pause-count n = Keeps-modify _ (λ s p. omega (arith, h.pause s.outside))

  again-count :
      (k : ℕ) (m : Exec Exn (Session w) Value) (n : ℕ)
      → ((s : Session w) → count s ≤ suc n → count (retry w k m s).1 ≤ suc n + suc k)
      → (c : Bool) (e : Exn) (s : Session w) → count s ≤ suc n
      → count ((if c then (pause_once w >> retry w k m) else raise e) s).1 ≤ n + suc (suc k)
  unfolding ◌>>◌ raise
  again-count k m n rest true e s p =
      bind-leads {R = λ s. count s ≤ suc n} {Q = λ s. count s ≤ n + suc (suc k)} (pause_once w)
        (λ _. retry w k m) (pause-count (suc n)).at (λ s p. omega arith)
        (λ _ s p. omega (arith, rest s p)) s p
  again-count k m n rest false e s p = omega arith

  -- With `k` attempts left after the first, a method of one request at most sends `k + 1` at most.
  retry-count :
      (k : ℕ) (m : Exec Exn (Session w) Value)
      → ((n : ℕ) (s : Session w) → count s ≤ n → count (m s).1 ≤ suc n)
      → (n : ℕ) (s : Session w) → count s ≤ n
      → count (retry w k m s).1 ≤ n + suc k
  unfolding retry
  retry-count zero m one n s p = omega (arith, one n s p)
  retry-count (suc k) m one n s p =
      catch-leads {R = λ s. count s ≤ suc n} {Q = λ s. count s ≤ n + suc (suc k)} m _ (one n)
        (λ s p. omega arith)
        (λ e. again-count k m n (retry-count k m one (suc n)) (is_unavailable e) e) s p

  started-count :
      (q : Request) (c : Bool) (s : Session w) → count (send_started w q c s).1 ≤ count s + 3
  unfolding send_started raise
  started-count q true s = retry-count 2 (attempt w q) (attempt-count q) (count s) s (omega arith)
  started-count q false s = omega arith

  -- Whatever Airflow answers, one call of `_request` sends at most three requests, besides those that
  -- exchange a token.
  pub send_request-count :
      (q : Request) (s : Session w) → count (send_request w q s).1 ≤ count s + 3
  unfolding send_request ◌>>=◌ gets
  send_request-count q s = started-count q s.started s
