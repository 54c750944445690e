-- ===== src/Tests/Imputing.antt =====
-- A series of seven rows with gaps, on which the theorems on imputation are applied.
use innovativeproject_pm_gen.Base.{
  if◌then◌else◌, ℕ, ◌≡◌, refl, ◌==◌, Option, none, some, List, [], ◌∷◌, ◌+◌, ◌*◌, ◌-◌, ◌/◌, leb,
  ltb, true, false,
}
use innovativeproject_pm_gen.Imputing.Classify.{
  from_unit, averaged, when_chained, holds, value_range, join_bars, unit_in, make_pattern,
  names_one, classify_kpis, Engine, KpiStats, AggMethod, categorize_kpi,
}
use innovativeproject_pm_gen.Imputing.Classify.Priority.{categorize_kpi-IsRanked, IsRanked}
use innovativeproject_pm_gen.Imputing.{
  imputed_value, gap_len, imputed, impute_rows, gap_lens_of, Point, Spark, Imputed, detect_gap_runs,
  impute, missing,
}
use innovativeproject_pm_gen.Imputing.Rows.{EachIsImputed, impute-EachIsImputed}
use innovativeproject_pm_gen.KpiCoverage.Imputability.{count_row, group_runs, with_runs}

-- Whole numbers in place of floats: a quotient is rounded down, and the median is the first value.
unfoldable most : List ℕ → Option ℕ
most [] = none
most (x ∷ xs) = elim (most xs) [ none ↦ some x | some y ↦ some (if leb x y then y else x) ]

unfoldable least : List ℕ → Option ℕ
least [] = none
least (x ∷ xs) = elim (least xs) [ none ↦ some x | some y ↦ some (if leb x y then x else y) ]

abbrev first_of : List ℕ → Option ℕ
first_of [] = none
first_of (x ∷ xs) = some x

abbrev whole_numbers : Spark ℕ
whole_numbers = record {
  add = λ a b. a + b;
  subtract = λ a b. a - b;
  multiply = λ a b. a * b;
  quotient = λ a b. a / b;
  max = most;
  min = least;
  median = first_of;
}

abbrev point : ℕ → Option ℕ → Point ℕ
point hour value = record { ts = 3600 * hour; value = value }

abbrev measured : List (Point ℕ)
measured =
    point 0 (some 5)
    ∷ point 1 none
    ∷ point 2 none
    ∷ point 3 (some 7)
    ∷ point 4 none
    ∷ point 5 none
    ∷ point 6 none
    ∷ []

abbrev flag : Option ℕ → ℕ → Imputed ℕ
flag value n = record { value = value; imputed_flag = n }

gap_test : detect_gap_runs (missing measured) ≡ 0 ∷ 2 ∷ 2 ∷ 2 ∷ 3 ∷ 3 ∷ 3 ∷ []
unfolding detect_gap_runs gap_lens_of with_runs gap_len group_runs count_row
gap_test = refl

-- A sum with short gaps, with a gap of more than two rows, and one that is longer than the bound.
sum_test :
    impute whole_numbers 6 (some AggMethod.sum) measured
    ≡ flag (some 5) 0
      ∷ flag (some 5) 1
      ∷ flag (some 5) 1
      ∷ flag (some 7) 0
      ∷ flag (some 5) 1
      ∷ flag (some 5) 1
      ∷ flag (some 5) 1
      ∷ []
unfolding impute impute_rows imputed imputed_value when_chained detect_gap_runs gap_lens_of
    with_runs gap_len group_runs count_row
sum_test = refl

long_test :
    impute whole_numbers 2 (some AggMethod.max) measured
    ≡ flag (some 5) 0
      ∷ flag (some 7) 1
      ∷ flag (some 7) 1
      ∷ flag (some 7) 0
      ∷ flag none 0
      ∷ flag none 0
      ∷ flag none 0
      ∷ []
unfolding impute impute_rows imputed imputed_value when_chained detect_gap_runs gap_lens_of
    with_runs gap_len group_runs count_row most
long_test = refl

impute-EachIsImputed_example :
    EachIsImputed whole_numbers 6
      (some AggMethod.avg)
      (some 5)
      []
      measured
      (impute whole_numbers 6 (some AggMethod.avg) measured)
impute-EachIsImputed_example = impute-EachIsImputed whole_numbers 6 (some AggMethod.avg) measured

-- A matcher that finds the pattern of the volume units only.
abbrev only_volume : Engine ℕ
only_volume = record {
  rlike = λ pattern text. pattern == "(?i)(^|[^a-z0-9])(#)([^a-z0-9]|$)";
  escape = λ w. w;
  is_positive = λ x. ltb 0 x;
  is_nonnegative = λ x. true;
  is_at_most_100 = λ x. leb x 100;
}

abbrev attempts : KpiStats ℕ
attempts = record {
  kpi_name = some "attempts [#]";
  unit = some "#";
  kpi_min = some 0;
  kpi_max = some 900;
}

-- The unit # in a name makes a count a maximum.
attempts_test : categorize_kpi only_volume attempts ≡ AggMethod.max
unfolding categorize_kpi classify_kpis names_one unit_in value_range make_pattern join_bars holds
    when_chained averaged from_unit
attempts_test = refl

categorize_kpi-IsRanked_example : IsRanked false true false (categorize_kpi only_volume attempts)
unfolding names_one make_pattern join_bars holds
categorize_kpi-IsRanked_example = categorize_kpi-IsRanked only_volume attempts
