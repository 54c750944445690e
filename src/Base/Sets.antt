-- ===== src/Base/Sets.antt =====
-- Python's sets, kept as lists with no repetition, over any type with an equality test.
use mathlib.Core.Path.{◌≡◌, refl}
use mathlib.Core.Logic.{◌↔◌}
use mathlib.Core.Bool.{Bool, true, false, ◌||◌}
use mathlib.Core.List.{List, [], ◌∷◌, ◌++◌}
use native.Mathlib.Omega.{arith}
use innovativeproject_pm_gen.Base.Tests.{if◌then◌else◌}

module _ {ℓ} {A : Type ℓ} (same : A → A → Bool) where
  -- `k in xs`
  abbrev pub has : A → List A → Bool
  has k [] = false
  has k (x ∷ xs) = same x k || has k xs

  -- `xs.add(k)`
  abbrev pub add : A → List A → List A
  add k xs = if has k xs then xs else xs ++ (k ∷ [])

  abbrev pub Distinct : List A → Type 0
  Distinct [] = Unit
  Distinct (x ∷ xs) = (has x xs ≡ false) × Distinct xs

  pub has-append : (k : A) (xs ys : List A) → has k (xs ++ ys) ≡ (has k xs || has k ys)
  has-append k [] ys = refl
  has-append k (x ∷ xs) ys = ground (arith, has-append k xs ys)

  pub has-middle :
      ((a b : A) → (same a b ≡ true) ↔ (a ≡ b))
      → (k : A) (xs ys : List A) → has k (xs ++ k ∷ ys) ≡ true
  has-middle iff k [] ys = ground (arith, iff k k)
  has-middle iff k (x ∷ xs) ys = ground (arith, has-middle iff k xs ys)

  pub has-snoc : (k x : A) (xs : List A) → has k (xs ++ (x ∷ [])) ≡ (has k xs || same x k)
  has-snoc k x xs = ground (arith, has-append k xs (x ∷ []))

  pub Distinct-snoc :
      ((a b : A) → (same a b ≡ true) ↔ (a ≡ b))
      → (k : A) (xs : List A) → has k xs ≡ false
      → Distinct xs
      → Distinct (xs ++ (k ∷ []))
  Distinct-snoc iff k [] h d = (refl, tt)
  Distinct-snoc iff k (x ∷ xs) h d =
      (ground (arith, has-snoc x k xs, iff x k, iff k x), Distinct-snoc iff k xs (ground arith) d.1)
