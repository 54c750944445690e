-- ===== src/PmSchema/Laws.antt =====
-- When a table has the columns that the visualizations need.
use innovativeproject_pm_gen.Base.{
  eq_iff, length, All-map, All, Option-cases, inr, inl, any, Bool-cases, ℕ, zero, suc, String, ◌≡◌,
  refl, true, false, some, List, [], ◌∷◌, arith,
}
use innovativeproject_pm_gen.PmSchema.{
  none_left, fuel, present_columns, validate_pm_columns, missing_of, aliases_of, column_satisfied,
  Schema,
}
use innovativeproject_pm_gen.Base.Table.{lookup, member}

-- A column is there under its name, under an alias, or through the column it is derived from.
pub data HasColumn (sc : Schema) (present : List String) : String → Type 0 where
  direct : {c : String} → member c present ≡ true → HasColumn sc present c
  alias :
      {c : String}
      → any (λ name. member name present) (aliases_of sc c) ≡ true
      → HasColumn sc present c
  derived :
      {c d : String}
      → lookup c sc.derived_columns ≡ some d
      → HasColumn sc present d
      → HasColumn sc present c

-- What the recursion accepts is there.
satisfied-HasColumn :
    (n : ℕ) (sc : Schema) (c : String) (present : List String)
    → column_satisfied n sc c present ≡ true
    → HasColumn sc present c
unfolding column_satisfied
satisfied-HasColumn zero sc c present h = cc
satisfied-HasColumn (suc n) sc c present h = elim (Bool-cases (member c present)) [
  | inl here ↦ direct here
  | inr away ↦ elim (Bool-cases (any (λ name. member name present) (aliases_of sc c))) [
    | inl other ↦ alias other
    | inr no_alias ↦ elim (Option-cases (lookup c sc.derived_columns)) [
      | inl root ↦ ground arith
      | inr (d, source) ↦ derived source (satisfied-HasColumn n sc d present (ground arith))
    ]
  ]
]

-- A name that is there satisfies its column.
named-satisfied :
    (n : ℕ) (sc : Schema) (c : String) (present : List String)
    → column_satisfied (suc n) sc c present ≡ false
    → member c present ≡ false
unfolding column_satisfied
named-satisfied n sc c present h = ground arith

module _ (sc : Schema) (present : List String) where
  missing-none : (cs : List String) → missing_of sc present cs ≡ [] → All (HasColumn sc present) cs
  unfolding missing_of
  missing-none [] h = tt
  missing-none (c ∷ cs) h = elim (Bool-cases (column_satisfied (fuel sc) sc c present)) [
    | inl yes' ↦ (satisfied-HasColumn (fuel sc) sc c present yes', missing-none cs (ground arith))
    | inr no' ↦ ground arith
  ]

  missing-absent :
      (cs : List String)
      → All (λ c. (member c present ≡ false) × (member c cs ≡ true)) (missing_of sc present cs)
  unfolding missing_of
  missing-absent [] = tt
  missing-absent (c ∷ cs) = elim (Bool-cases (column_satisfied (fuel sc) sc c present)) [
    | inl h ↦ rw h (All-map (λ x p. (p.0, ground (arith, p.1))) _ (missing-absent cs))
    | inr h ↦ rw h (
      (named-satisfied (length sc.derived_columns) sc c present h, ground (arith, eq_iff c c)),
      All-map (λ x p. (p.0, ground (arith, p.1))) _ (missing-absent cs),
    )
  ]

-- Columns that pass have every required column, by its name, an alias or the column it is derived from;
-- and each column that is reported missing is required and not there by its name.
pub validate_pm_columns-HasColumn :
    (sc : Schema) (columns : List String)
    → let (valid, missing) = validate_pm_columns sc columns in
      let present = present_columns columns in
      (valid ≡ true → All (HasColumn sc present) sc.required_columns)
      × All (λ c. (member c present ≡ false) × (member c sc.required_columns ≡ true)) missing
unfolding validate_pm_columns
validate_pm_columns-HasColumn sc columns = (
  λ h. missing-none sc (present_columns columns) sc.required_columns (empty_list _ h),
  missing-absent sc (present_columns columns) sc.required_columns,
)
  where
    empty_list : (xs : List String) → none_left xs ≡ true → xs ≡ []
    empty_list [] h = refl
    empty_list (x ∷ xs) h = cc
