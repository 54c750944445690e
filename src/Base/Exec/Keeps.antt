-- ===== src/Base/Exec/Keeps.antt =====
-- Invariants and costs of methods, one rule for each way to build a method.
use mathlib.Core.Bool.{Bool, true, false}
use innovativeproject_pm_gen.Base.Tests.{if◌then◌else◌}
use innovativeproject_pm_gen.Base.Result.{Result, ok, err}
use innovativeproject_pm_gen.Base.Exec.{
  Exec, pure, raise, lift, gets, asks, modify, catch, ◌>>=◌, ◌>>◌,
}

-- The method leaves `P` true, whether it returns or raises.
pub record Keeps {ℓ κ} {E S A : Type ℓ} (P : S → Type κ) (m : Exec E S A) : Type (ℓ ⊔ κ) where
  pub at : (s : S) → P s → P (m s).1

module _ {ℓ κ} {E S A : Type ℓ} {P : S → Type κ} where
  pub Keeps-pure : (a : A) → Keeps {E = E} P (pure a)
  unfolding pure
  Keeps-pure a = record { at = λ s h. h }

  pub Keeps-raise : (e : E) → Keeps {A = A} P (raise e)
  unfolding raise
  Keeps-raise e = record { at = λ s h. h }

  pub Keeps-lift : (r : Result E A) → Keeps P (lift r)
  unfolding lift
  Keeps-lift r = record { at = λ s h. h }

  pub Keeps-gets : (f : S → A) → Keeps {E = E} P (gets f)
  unfolding gets
  Keeps-gets f = record { at = λ s h. h }

  pub Keeps-asks : (f : S → Result E A) → Keeps P (asks f)
  unfolding asks
  Keeps-asks f = record { at = λ s h. h }

  pub Keeps-if :
      (c : Bool) {m n : Exec E S A} → Keeps P m → Keeps P n → Keeps P (if c then m else n)
  Keeps-if true h k = h
  Keeps-if false h k = k

  pub Keeps-catch :
      (m : Exec E S A) (h : E → Exec E S A)
      → Keeps P m
      → ((e : E) → Keeps P (h e))
      → Keeps P (catch m h)
  unfolding catch
  Keeps-catch m h km kh = record { at = λ s p. let (r, s') = m s in after r s' (km.at s p) }
    where
      after : (r : Result E A) (t : S) → P t → P (catch (λ _. (r, t)) h t).1
      after (ok a) t p = p
      after (err e) t p = (kh e).at t p

module _ {ℓ κ} {E S A B : Type ℓ} {P : S → Type κ} where
  pub Keeps-bind :
      (m : Exec E S A) (f : A → Exec E S B)
      → Keeps P m
      → ((a : A) → Keeps P (f a))
      → Keeps P (m >>= f)
  unfolding ◌>>=◌
  Keeps-bind m f first rest = record { at = λ s p. let (r, t) = m s in after r t (first.at s p) }
    where
      after : (r : Result E A) (t : S) → P t → P (((λ _. (r, t)) >>= f) t).1
      after (ok a) t p = (rest a).at t p
      after (err e) t p = p

  pub Keeps-then : (m : Exec E S A) (n : Exec E S B) → Keeps P m → Keeps P n → Keeps P (m >> n)
  unfolding ◌>>◌
  Keeps-then m n km kn = Keeps-bind m (λ _. n) km (λ _. kn)

pub Keeps-modify {κ} :
    {E S : Type 0} {P : S → Type κ} (f : S → S)
    → ((s : S) → P s → P (f s))
    → Keeps {E = E} P (modify f)
unfolding modify
Keeps-modify f h = record { at = h }

pub ruleset keeps_rules = (
  Keeps-pure, Keeps-raise, Keeps-lift, Keeps-gets, Keeps-asks, Keeps-if, Keeps-catch, Keeps-bind,
  Keeps-then,
)

-- From `P` to `Q`: the first part leads to `R`, which is enough where it raises, and the rest goes on.
module _ {ℓ κ} {E S A B : Type ℓ} {P R Q : S → Type κ} where
  pub bind-leads :
      (m : Exec E S A) (f : A → Exec E S B)
      → ((s : S) → P s → R (m s).1)
      → ((s : S) → R s → Q s)
      → ((a : A) (s : S) → R s → Q (f a s).1)
      → (s : S) → P s
      → Q ((m >>= f) s).1
  unfolding ◌>>=◌
  bind-leads m f first weaken rest s p = let (r, s') = m s in after r s' (first s p)
    where
      after : (r : Result E A) (t : S) → R t → Q (((λ _. (r, t)) >>= f) t).1
      after (ok a) t h = rest a t h
      after (err e) t h = weaken t h

module _ {ℓ κ} {E S A : Type ℓ} {P R Q : S → Type κ} where
  pub catch-leads :
      (m : Exec E S A) (h : E → Exec E S A)
      → ((s : S) → P s → R (m s).1)
      → ((s : S) → R s → Q s)
      → ((e : E) (s : S) → R s → Q (h e s).1)
      → (s : S) → P s
      → Q (catch m h s).1
  unfolding catch
  catch-leads m h first weaken rest s p = let (r, s') = m s in after r s' (first s p)
    where
      after : (r : Result E A) (t : S) → R t → Q (catch (λ _. (r, t)) h t).1
      after (ok a) t q = weaken t q
      after (err e) t q = rest e t q
