-- ===== src/Base/Result.antt =====
-- Computations that may raise, over a type of exceptions `E`.
use mathlib.Core.Path.{◌≡◌, refl, subst}
use mathlib.Core.Bool.{Bool, true, false, ◌||◌}
use native.Mathlib.Omega.{arith}
use mathlib.Core.List.{List, [], ◌∷◌}
use innovativeproject_pm_gen.Base.{any, if◌then◌else◌}

pub data Result {ℓ κ} (E : Type ℓ) (A : Type κ) : Type (ℓ ⊔ κ) where
  ok : A → Result E A
  err : E → Result E A

infixl 5 ◌>>=◌ ◌>>◌
unfoldable pub ◌>>=◌ {ℓ κ μ} :
    {E : Type ℓ} {A : Type κ} {B : Type μ} → Result E A → (A → Result E B) → Result E B
ok a >>= f = f a
err e >>= f = err e

abbrev pub ◌>>◌ {ℓ μ} : {E : Type ℓ} {B : Type μ} → Result E (Unit {0}) → Result E B → Result E B
m >> k = m >>= λ _. k

abbrev pub guard {ℓ} : {E : Type ℓ} → Bool → E → Result E (Unit {0})
guard true e = ok tt
guard false e = err e

pub ok-injective {ℓ κ} :
    {E : Type ℓ} {A : Type κ} {a b : A} → ◌≡◌ {A = Result E A} (ok a) (ok b) → a ≡ b
ok-injective e = cc

-- Inversion of a successful bind.
pub >>=-eq-ok {ℓ κ μ} :
    {E : Type ℓ} {A : Type κ} {B : Type μ} (m : Result E A) (f : A → Result E B) {b : B}
    → (m >>= f) ≡ ok b
    → (a : A) × (m ≡ ok a) × (f a ≡ ok b)
unfolding ◌>>=◌
>>=-eq-ok (ok a) f h = (a, refl, h)
>>=-eq-ok (err e) f h = cc

-- What a computation has where it returns: a postcondition, with a rule for each way to go on.
pub record Ensures {ℓ κ μ} {E : Type ℓ} {A : Type κ} (P : A → Type μ) (r : Result E A)
    : Type (ℓ ⊔ κ ⊔ μ) where
  pub at : (a : A) → r ≡ ok a → P a

pub Ensures-ok {ℓ κ μ} :
    {E : Type ℓ} {A : Type κ} {P : A → Type μ} (a : A) → P a → Ensures {E = E} P (ok a)
Ensures-ok {P} a p = record { at = λ x e. subst P (ok-injective e) p }

pub Ensures-err {ℓ κ μ} :
    {E : Type ℓ} {A : Type κ} {P : A → Type μ} (e : E) → Ensures {A = A} P (err e)
Ensures-err e = record { at = λ a p. cc }

-- The elements of a list that was computed; none where the computation raised.
pub values_of {ℓ κ} : {E : Type ℓ} {A : Type κ} → Result E (List A) → List A
values_of (ok xs) = xs
values_of (err e) = []

pub values_of_ok {ℓ κ} :
    {E : Type ℓ} {A : Type κ} {r : Result E (List A)} {xs : List A} → r ≡ ok xs → values_of r ≡ xs
unfolding values_of
values_of_ok e = rw e

pub Ensures-bind {ℓ κ μ ν} :
    {E : Type ℓ} {A : Type κ} {B : Type μ} {P : B → Type ν} (m : Result E A) (f : A → Result E B)
    → ((a : A) → m ≡ ok a → Ensures P (f a))
    → Ensures P (m >>= f)
Ensures-bind m f rest = record {
  at = λ b e. let (a, first, second) = >>=-eq-ok m f e in (rest a first).at b second;
}

pub Ensures-if {ℓ κ μ} :
    {E : Type ℓ} {A : Type κ} {P : A → Type μ} (c : Bool) {r s : Result E A}
    → (c ≡ true → Ensures P r)
    → (c ≡ false → Ensures P s)
    → Ensures P (if c then r else s)
Ensures-if true h k = h refl
Ensures-if false h k = k refl

-- A loop over a list that may raise.
unfoldable pub fold_ok {ℓ κ μ} :
    {E : Type ℓ} {S : Type κ} {A : Type μ} → (S → A → Result E S) → S → List A → Result E S
fold_ok f s [] = ok s
fold_ok f s (x ∷ xs) = f s x >>= λ t. fold_ok f t xs

-- An invariant of the body is one of the loop.
pub fold_ok-inv {ℓ κ μ ν} :
    {E : Type ℓ} {S : Type κ} {A : Type μ} (f : S → A → Result E S) (P : S → Type ν)
    → ((s : S) (x : A) (t : S) → P s → f s x ≡ ok t → P t)
    → (s : S) (xs : List A) {t : S} → P s
    → fold_ok f s xs ≡ ok t
    → P t
unfolding fold_ok
fold_ok-inv f P step s [] p h = subst P (cc) p
fold_ok-inv f P step s (x ∷ xs) p h =
    let (u, first, rest) = >>=-eq-ok (f s x) (λ t. fold_ok f t xs) h in
    fold_ok-inv f P step u xs (step s x u p first) rest

-- A test that each round can only turn on, by what its element contributes, holds at the end
-- exactly if it held before or some element contributes.
pub fold_ok-any {ℓ κ μ} :
    {E : Type ℓ} {S : Type κ} {A : Type μ} (f : S → A → Result E S) (seen : S → Bool)
    (adds : A → Bool)
    → ((s : S) (x : A) → Ensures (λ t. seen t ≡ (seen s || adds x)) (f s x))
    → (s : S) (xs : List A) → Ensures (λ t. seen t ≡ (seen s || any adds xs)) (fold_ok f s xs)
unfolding fold_ok
fold_ok-any f seen adds step s [] = Ensures-ok s (ground arith)
fold_ok-any f seen adds step s (x ∷ xs) = Ensures-bind _ _ λ u first. record {
  at = λ t e. ground (arith, (step s x).at u first, (fold_ok-any f seen adds step u xs).at t e);
}
