-- ===== src/Autofill/Laws.antt =====
-- Every value that `_normalize` gives a field is of the field's kind.
use innovativeproject_pm_gen.Base.{
  ap, subst, eq_iff, zero, Bool-cases, ◌==◌, if◌then◌else◌, ℕ, suc, String, true, false, List, [],
  ◌∷◌, ◌≡◌, refl, inl, inr, Option, none, some, arith, All,
}
use innovativeproject_pm_gen.Base.Value.{put, int, end, field, ℤ, pos, negsuc, Value, Fields, get}
use innovativeproject_pm_gen.Base.Result.{Ensures, Ensures-ok, Ensures-bind}
use innovativeproject_pm_gen.Autofill.{raise_to, lower_to, max_int, Numbers}
use innovativeproject_pm_gen.Autofill.Form.{put_value, apply_rule, fill, Rule}
use innovativeproject_pm_gen.Autofill.Kinds.{at_least, IsPositive, between, Fits}

-- The order of floats that are compared here, NaN included.
pub record IsComparison (n : Numbers) : Type 0 where
  pub asymmetric : (a b : n.F) → n.lt a b ≡ true → n.lt b a ≡ false
  pub unit : n.lt (n.literal "1") (n.literal "0") ≡ false
  pub test_share : n.lt (n.literal "0.5") (n.literal "0.05") ≡ false

-- A field that gets a value gets one with the property.
unfoldable pub OnSome : (Value → Type 0) → Option Value → Type 0
OnSome P none = Unit
OnSome P (some v) = P v

get-put :
    (k j : String) (v : Value) (d : Fields)
    → get (put j v d) k ≡ (if j == k then some v else get d k)
unfolding get put
get-put k j v end = refl
get-put k j v (field i w r) = elim (Bool-cases (i == j)) [
  | inl e ↦ rw e (ground (arith, eq_iff i j, eq_iff i k, eq_iff j k))
  | inr e ↦ rw e (ground (arith, get-put k j v r, eq_iff i j, eq_iff i k, eq_iff j k))
]

some-injective : {v w : Value} → ◌≡◌ {A = Option Value} (some v) (some w) → v ≡ w
some-injective e = cc

-- The property of the key holds of every value of the dict.
abbrev pub Each : (String → Value → Type 0) → Fields → Type 0
Each P d = (k : String) (w : Value) → get d k ≡ some w → P k w

module _ (P : String → Value → Type 0) (patch : Fields) where
  abbrev pub RuleFits : Rule → Type 0
  RuleFits r = (v : Value) → get patch r.0 ≡ some v → Ensures (OnSome (P r.0)) (r.1 v)

  put-Each : (j : String) (v : Value) (d : Fields) → P j v → Each P d → Each P (put j v d)
  put-Each j v d p each k w e = elim (Bool-cases (j == k)) [
    | inl same ↦
        let first = (rw (get-put k j v d, same) at e) in
        subst (λ x. P x w) ((eq_iff j k).0 same) (subst (P j) (some-injective first) p)
    | inr other ↦ each k w (rw (get-put k j v d, other) at e)
  ]

  put_value-Each :
      (j : String) (o : Option Value) (d : Fields)
      → OnSome (P j) o
      → Each P d
      → Each P (put_value j o d)
  unfolding put_value OnSome
  put_value-Each j none d p each = each
  put_value-Each j (some v) d p each = put-Each j v d p each

  apply_rule-Each :
      (r : Rule) (o : Option Value) (d : Fields)
      → get patch r.0 ≡ o
      → RuleFits r
      → Each P d
      → Ensures (Each P) (apply_rule r o d)
  unfolding apply_rule
  apply_rule-Each (j, f) none d e fit each = Ensures-ok d each
  apply_rule-Each (j, f) (some v) d e fit each =
      Ensures-bind (f v) _
        (λ o first. Ensures-ok _ (put_value-Each j o d ((fit v e).at o first) each))

  pub fill-Each :
      (rules : List Rule) (result : Fields)
      → All RuleFits rules
      → Each P result
      → Ensures (Each P) (fill rules patch result)
  unfolding fill apply_rule put_value OnSome
  fill-Each [] result fit each = Ensures-ok result each
  fill-Each ((k, f) ∷ rules) result fit each =
      let first = apply_rule-Each (k, f) (get patch k) result refl fit.0 each in
      Ensures-bind _ _ (λ next e. fill-Each rules next fit.1 (first.at next e))

module _ (n : Numbers) (c : IsComparison n) (ids : List ℤ) (model_ids : List String)
    (current : Fields) where
  pub clamped :
      (lo hi : String) (x : n.F)
      → n.lt (n.literal hi) (n.literal lo) ≡ false
      → Fits n ids model_ids
          (between lo hi)
          (n.value_of (lower_to n (some (n.literal hi)) (raise_to n (some (n.literal lo)) x)))
  unfolding Fits lower_to raise_to
  clamped lo hi x h = (
    lower_to n (some (n.literal hi)) (raise_to n (some (n.literal lo)) x),
    refl,
    ground (arith, c.asymmetric (n.literal lo) x, c.asymmetric (n.literal lo) (n.literal lo)),
    ground (
      arith,
      c.asymmetric x (n.literal hi),
      c.asymmetric (n.literal lo) (n.literal hi),
      c.asymmetric (n.literal hi) (n.literal hi),
    ),
  )

  max_int-positive : (i : ℤ) → (m : ℕ) × (max_int (pos 1) i ≡ pos (suc m))
  unfolding max_int
  max_int-positive (pos zero) = (0, ground arith)
  max_int-positive (pos (suc m)) = (m, ground arith)
  max_int-positive (negsuc m) = (0, ground arith)

  pub clipped : (i : ℤ) → IsPositive n ids model_ids (int (max_int (pos 1) i))
  unfolding IsPositive
  clipped i = let (m, e) = max_int-positive i in (m, ap int e)

  pub raised :
      (lo : String) (x : n.F)
      → Fits n ids model_ids
          (at_least lo)
          (n.value_of (lower_to n none (raise_to n (some (n.literal lo)) x)))
  unfolding Fits lower_to raise_to
  raised lo x = (
    raise_to n (some (n.literal lo)) x,
    refl,
    ground (arith, c.asymmetric (n.literal lo) x, c.asymmetric (n.literal lo) (n.literal lo)),
  )
