-- ===== src/Base/Exec/Returns.antt =====
-- What a method returns, where it returns.
use mathlib.Core.Path.{◌≡◌}
use innovativeproject_pm_gen.Base.Result.{Result, ok, err}
use innovativeproject_pm_gen.Base.Exec.{Exec, pure, raise, ◌>>=◌, ◌>>◌}
use innovativeproject_pm_gen.Base.{subst}

pub record Returns {ℓ κ} {E S A : Type ℓ} (Q : A → Type κ) (m : Exec E S A) : Type (ℓ ⊔ κ) where
  pub at : (s s' : S) (a : A) → m s ≡ (ok a, s') → Q a

pub Returns-pure {ℓ κ} :
    {E S A : Type ℓ} {Q : A → Type κ} (a : A) → Q a → Returns {E = E} {S = S} Q (pure a)
unfolding pure
Returns-pure {Q = Q} a q = record { at = λ s s' b h. subst Q (cc) q }

pub Returns-raise {ℓ κ} :
    {E S A : Type ℓ} {Q : A → Type κ} (e : E) → Returns {E = E} {S = S} Q (raise e)
unfolding raise
Returns-raise e = record { at = λ s s' b h. cc }

pub Returns-bind {ℓ κ} :
    {E S A B : Type ℓ} {Q : B → Type κ} (m : Exec E S A) (f : A → Exec E S B)
    → ((a : A) → Returns Q (f a))
    → Returns Q (m >>= f)
unfolding ◌>>=◌
Returns-bind {E = E} {S = S} {A = A} {B = B} {Q = Q} m f rest = record {
  at = λ s s' b h. let (r, t) = m s in after r t s' b h;
}
  where
    after : (r : Result E A) (t s' : S) (b : B) → ((λ (u : S). (r, t)) >>= f) t ≡ (ok b, s') → Q b
    after (ok a) t s' b h = (rest a).at t s' b h
    after (err e) t s' b h = cc

pub Returns-then {ℓ κ} :
    {E S A B : Type ℓ} {Q : B → Type κ} (m : Exec E S A) (n : Exec E S B)
    → Returns Q n
    → Returns Q (m >> n)
unfolding ◌>>◌
Returns-then m n rest = Returns-bind m (λ a. n) (λ a. rest)
