-- ===== src/PmSchema.antt =====
-- apps/backend/app/services/s3/pm_schema.py, with the columns of shared/pm_schema_columns.json.
pub mod Laws
use innovativeproject_pm_gen.Base.{
  any, if◌then◌else◌, ℕ, zero, suc, String, ◌<>◌, Bool, true, false, not, ◌||◌, Option, none, some,
  List, [], ◌∷◌, length,
}
use innovativeproject_pm_gen.Base.Table.{member, lookup}
use innovativeproject_pm_gen.Base.Text.{strip, is_empty}

-- `_SCHEMA`
pub record Schema : Type 0 where
  pub required_columns : List String
  pub column_aliases : List (String × List String)
  pub derived_columns : List (String × String)

abbrev pub pm_schema : Schema
pm_schema = record {
  required_columns =
      "kpi_id" ∷ "bts_id" ∷ "start_time" ∷ "kpi_value" ∷ "start_date" ∷ "distname" ∷ [];
  column_aliases = ("bts_id", "bts_anon" ∷ []) ∷ ("distname", "distname_anon" ∷ []) ∷ [];
  derived_columns = ("start_date", "start_time") ∷ [];
}

abbrev pub aliases_of : Schema → String → List String
aliases_of sc col = elim (lookup col sc.column_aliases) [ none ↦ [] | some names ↦ names ]

-- Python recurses until a column has no source, without end on a cycle; here it stops after as many
-- columns as the fuel counts.
unfoldable pub column_satisfied : ℕ → Schema → String → List String → Bool
column_satisfied zero sc col present = false
column_satisfied (suc n) sc col present =
    member col present
    || (any (λ name. member name present) (aliases_of sc col)
        || elim (lookup col sc.derived_columns) [
          | none ↦ false
          | some source ↦ column_satisfied n sc source present
        ])

abbrev pub fuel : Schema → ℕ
fuel sc = suc (length sc.derived_columns)

-- `{name.strip() for name in columns if name}`
unfoldable pub present_columns : List String → List String
present_columns [] = []
present_columns (c ∷ cs) =
    let rest = present_columns cs in if is_empty c then rest else strip c ∷ rest

unfoldable pub missing_of : Schema → List String → List String → List String
missing_of sc present [] = []
missing_of sc present (c ∷ cs) =
    let rest = missing_of sc present cs in
    if column_satisfied (fuel sc) sc c present then rest else c ∷ rest

abbrev pub none_left : List String → Bool
none_left [] = true
none_left (c ∷ cs) = false

unfoldable pub validate_pm_columns : Schema → List String → Bool × List String
validate_pm_columns sc columns =
    let missing = missing_of sc (present_columns columns) sc.required_columns in
    (none_left missing, missing)
