-- ===== src/Base/Table.antt =====
-- Constant tables of the source, keyed by texts, and sets of texts and of pairs of texts.
use Prim.Native.String.{String}
use mathlib.Core.Path.{◌≡◌}
use mathlib.Core.Logic.{◌↔◌, inl, inr}
use mathlib.Core.Bool.{Bool, true, ◌&&◌, ◌||◌}
use mathlib.Core.Option.{Option, none, some}
use mathlib.Core.List.{List, [], ◌∷◌}
use native.Mathlib.Omega.{arith}
use text.Mathlib.Text.{◌==◌}
use text.Mathlib.TextEquality.{eq_iff}
use innovativeproject_pm_gen.Base.Tests.{if◌then◌else◌, Bool-cases}
use innovativeproject_pm_gen.Base.Sets.{has, add, has-snoc}

-- `table.get(k)`
unfoldable pub lookup {ℓ} : {V : Type ℓ} → String → List (String × V) → Option V
lookup k [] = none
lookup k ((j, v) ∷ m) = if j == k then some v else lookup k m

-- `k in texts`
abbrev pub member : String → List String → Bool
member = has ◌==◌

abbrev pub same_pair : String × String → String × String → Bool
same_pair (a, b) (c, d) = a == c && b == d

pub same_pair_iff : (p q : String × String) → (same_pair p q ≡ true) ↔ (p ≡ q)
same_pair_iff (a, b) (c, d) = ground (arith, eq_iff a c, eq_iff b d)

abbrev pub member_pair : String × String → List (String × String) → Bool
member_pair = has same_pair

pub member-add :
    (k x : String) (xs : List String) → member k (add ◌==◌ x xs) ≡ (member k xs || x == k)
member-add k x xs = elim (Bool-cases (member x xs)) [
  | inl e ↦ rw e (ground (arith, eq_iff x k))
  | inr e ↦ rw e (has-snoc ◌==◌ k x xs)
]
