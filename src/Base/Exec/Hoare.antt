-- ===== src/Base/Exec/Hoare.antt =====
-- What holds after a method, beside what holds before: one condition where it returns, one where it
-- raises.
use mathlib.Core.Path.{◌≡◌, refl, subst}
use innovativeproject_pm_gen.Base.Result.{Result, ok, err}
use innovativeproject_pm_gen.Base.Exec.{Exec, pure, raise, lift, asks, ◌>>=◌, ◌>>◌}

abbrev pub After : {E S A : Type 0} → (A → S → Type 0) → (S → Type 0) → Result E A × S → Type 0
After Q R (ok a, s) = Q a s
After Q R (err e, s) = R s

pub record Hoare {E S A : Type 0} (P : S → Type 0) (Q : A → S → Type 0) (R : S → Type 0)
    (m : Exec E S A) : Type 0 where
  pub at : (s : S) → P s → After Q R (m s)

module _ {E S A : Type 0} {P R : S → Type 0} where
  pub Hoare-pure :
      {Q : A → S → Type 0} (a : A) → ((s : S) → P s → Q a s) → Hoare {E = E} P Q R (pure a)
  unfolding pure
  Hoare-pure a h = record { at = h }

  pub Hoare-raise :
      {Q : A → S → Type 0} (e : E) → ((s : S) → P s → R s) → Hoare {A = A} P Q R (raise e)
  unfolding raise
  Hoare-raise e h = record { at = h }

  -- A check or a query.
  pub Hoare-asks :
      {Q : A → S → Type 0} (f : S → Result E A)
      → ((s : S) (a : A) → P s → f s ≡ ok a → Q a s)
      → ((s : S) → P s → R s)
      → Hoare P Q R (asks f)
  unfolding asks
  Hoare-asks {Q = Q} f good bad = record { at = λ s p. split s p (f s) refl }
    where
      split : (s : S) → P s → (r : Result E A) → f s ≡ r → After Q R (r, s)
      split s p (ok a) h = good s a p h
      split s p (err e) h = bad s p

  pub Hoare-lift :
      {Q : A → S → Type 0} (r : Result E A)
      → ((s : S) (a : A) → P s → r ≡ ok a → Q a s)
      → ((s : S) → P s → R s)
      → Hoare P Q R (lift r)
  unfolding lift
  Hoare-lift {Q = Q} r good bad = record { at = λ s p. split s p r refl }
    where
      split : (s : S) → P s → (x : Result E A) → r ≡ x → After Q R (x, s)
      split s p (ok a) h = good s a p h
      split s p (err e) h = bad s p

module _ {E S A B : Type 0} {P R : S → Type 0} where
  pub Hoare-bind :
      {Q : A → S → Type 0} {T : B → S → Type 0} (m : Exec E S A) (f : A → Exec E S B)
      → Hoare P Q R m
      → ((a : A) → Hoare (Q a) T R (f a))
      → Hoare P T R (m >>= f)
  unfolding ◌>>=◌
  Hoare-bind {Q = Q} {T = T} m f first rest = record {
    at = λ s p. let (r, t) = m s in go r t (first.at s p);
  }
    where
      go : (r : Result E A) (t : S) → After Q R (r, t) → After T R (((λ (u : S). (r, t)) >>= f) t)
      go (ok a) t q = (rest a).at t q
      go (err e) t q = q

  pub Hoare-then :
      {Q : A → S → Type 0} {T : B → S → Type 0} (m : Exec E S A) (n : Exec E S B)
      → Hoare P Q R m
      → ((a : A) → Hoare (Q a) T R n)
      → Hoare P T R (m >> n)
  unfolding ◌>>◌
  Hoare-then m n first rest = Hoare-bind m (λ a. n) first rest

-- What holds however the method ends.
pub Hoare-state :
    {E S A : Type 0} {P : S → Type 0} (m : Exec E S A)
    → Hoare P (λ a s. P s) P m
    → (s : S) → P s
    → P (m s).1
Hoare-state {E = E} {S = S} {A = A} {P = P} m h s p = let (r, t) = m s in go r t (h.at s p)
  where
    go : (r : Result E A) (t : S) → After (λ a u. P u) P (r, t) → P t
    go (ok a) t q = q
    go (err e) t q = q

-- A fact on values alone goes on holding.
pub Hoare-frame :
    {E S A : Type 0} {P R : S → Type 0} {Q : A → S → Type 0} (K : Type 0) (m : Exec E S A)
    → Hoare P Q R m
    → Hoare (λ s. P s × K) (λ a s. Q a s × K) R m
Hoare-frame {E = E} {S = S} {A = A} {R = R} {Q = Q} K m h = record {
  at = λ s p. let (r, t) = m s in go p.1 r t (h.at s p.0);
}
  where
    go : K → (r : Result E A) (t : S) → After Q R (r, t) → After (λ a u. Q a u × K) R (r, t)
    go k (ok a) t q = (q, k)
    go k (err e) t q = q

pub Hoare-weaken :
    {E S A : Type 0} {P R : S → Type 0} {Q T : A → S → Type 0} (m : Exec E S A)
    → Hoare P Q R m
    → ((a : A) (s : S) → Q a s → T a s)
    → Hoare P T R m
Hoare-weaken {E = E} {S = S} {A = A} {R = R} {Q = Q} {T = T} m h f = record {
  at = λ s p. let (r, t) = m s in go r t (h.at s p);
}
  where
    go : (r : Result E A) (t : S) → After Q R (r, t) → After T R (r, t)
    go (ok a) t q = f a t q
    go (err e) t q = q

-- A method that changes nothing, and establishes a fact of what it returns.
abbrev pub Reads : {E S A : Type 0} → S → (A → Type 0) → Exec E S A → Type 0
Reads b K m = Hoare (λ s. s ≡ b) (λ a s. (s ≡ b) × K a) (λ s. s ≡ b) m

module _ {E S A : Type 0} {b : S} {K : A → Type 0} where
  pub Reads-pure : (a : A) → K a → Reads {E = E} b K (pure a)
  Reads-pure a k = Hoare-pure a (λ s p. (p, k))

  pub Reads-lift : (r : Result E A) → ((a : A) → r ≡ ok a → K a) → Reads b K (lift r)
  Reads-lift r h = Hoare-lift r (λ s a p e. (p, h a e)) (λ s p. p)

  pub Reads-asks : (f : S → Result E A) → ((a : A) → f b ≡ ok a → K a) → Reads b K (asks f)
  Reads-asks f h = Hoare-asks f (λ s a p e. (p, h a (subst (λ x. f x ≡ ok a) p e))) (λ s p. p)

module _ {E S A B : Type 0} {b : S} {K : A → Type 0} {L : B → Type 0} where
  pub Reads-bind :
      (m : Exec E S A) (f : A → Exec E S B)
      → Reads b K m
      → ((a : A) → K a → Reads b L (f a))
      → Reads b L (m >>= f)
  Reads-bind m f first rest =
      Hoare-bind m f first (λ a. record { at = λ s q. (rest a q.1).at s q.0 })

  pub Reads-then :
      (m : Exec E S A) (n : Exec E S B)
      → Reads b K m
      → ((a : A) → K a → Reads b L n)
      → Reads b L (m >> n)
  Reads-then m n first rest =
      Hoare-then m n first (λ a. record { at = λ s q. (rest a q.1).at s q.0 })

pub Reads-map :
    {E S A : Type 0} {b : S} {K L : A → Type 0} (m : Exec E S A)
    → Reads b K m
    → ((a : A) → K a → L a)
    → Reads b L m
Reads-map m h f = Hoare-weaken m h (λ a s q. (q.0, f a q.1))
