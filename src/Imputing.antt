-- ===== src/Imputing.antt =====
-- apps/generator/genpm/preprocessing/logic/imputing.py, `impute` for one series: its rows in the
-- order of time. Times are seconds, and those of the rows before are not later. Spark's functions on
-- floats and its aggregates are arguments, and so is the method of the series, which is the first
-- that its rows have.
pub mod Classify
pub mod Gaps
pub mod Rows
use innovativeproject_pm_gen.Base.{
  ℕ, zero, suc, ◌-◌, ◌<>◌, Bool, true, false, not, ◌&&◌, Option, none, some, List, [], ◌∷◌, ◌++◌,
  take, map, leb, ltb, eqb, if◌then◌else◌,
}
use innovativeproject_pm_gen.KpiCoverage.Imputability.{with_runs, group_runs}
use innovativeproject_pm_gen.Imputing.Classify.{AggMethod, when_chained}

pub record Point (F : Type 0) : Type 0 where
  pub ts : ℕ
  pub value : Option F

-- Doubles, with the quotient of two times; and the aggregates of a column, which ignore nulls.
pub record Spark (F : Type 0) : Type 0 where
  pub add : F → F → F
  pub subtract : F → F → F
  pub multiply : F → F → F
  pub quotient : ℕ → ℕ → F
  pub max : List F → Option F
  pub min : List F → Option F
  pub median : List F → Option F

pub record Imputed (F : Type 0) : Type 0 where
  pub value : Option F
  pub imputed_flag : ℕ

abbrev pub is_none {ℓ} : {A : Type ℓ} → Option A → Bool
is_none none = true
is_none (some a) = false

-- `gap_len` of a gap, 0 where the join finds none.
unfoldable pub gap_len : ℕ → List (ℕ × ℕ) → ℕ
gap_len gap_id [] = 0
gap_len gap_id ((key, n) ∷ gap_runs) =
    let rest = gap_len gap_id gap_runs in if eqb key gap_id then n else rest

unfoldable pub gap_lens_of : List (ℕ × ℕ) → List (Bool × ℕ) → List ℕ
gap_lens_of gap_runs [] = []
gap_lens_of gap_runs ((is_missing, gap_id) ∷ r) = gap_len gap_id gap_runs ∷ gap_lens_of gap_runs r

-- `detect_gap_runs`: the `gap_len` of each row. `with_runs` numbers the gaps and `group_runs`
-- counts the rows of each, as in the gate on series. No two rows of a series have one time here, as
-- `fill_internal_gaps` leaves them; Spark's running sum would take rows with one time together.
unfoldable pub detect_gap_runs : List Bool → List ℕ
detect_gap_runs is_missing =
    gap_lens_of (group_runs (with_runs false 0 is_missing) []) (with_runs false 0 is_missing)

abbrev pub is_method : (AggMethod → Bool) → Option AggMethod → Bool
is_method test none = false
is_method test (some m) = test m

abbrev pub is_avg : AggMethod → Bool
is_avg AggMethod.avg = true
is_avg m = false

abbrev pub is_sum : AggMethod → Bool
is_sum AggMethod.sum = true
is_sum m = false

abbrev pub is_max : AggMethod → Bool
is_max AggMethod.max = true
is_max m = false

abbrev pub is_min : AggMethod → Bool
is_min AggMethod.min = true
is_min m = false

module _ {F : Type 0} where
  abbrev pub missing : List (Point F) → List Bool
  missing ps = map (λ p. is_none p.value) ps

  abbrev pub or_else : Option F → List F → List F
  or_else none r = r
  or_else (some x) r = x ∷ r

  -- The values of a window that are not null.
  abbrev pub values : List (Point F) → List F
  values [] = []
  values (p ∷ ps) = or_else p.value (values ps)

  abbrev pub with_value : Option F → Point F → Option (Point F) → Option (Point F)
  with_value none p rest = rest
  with_value (some x) p rest = some p

  -- The nearest row that has a value.
  abbrev pub nearest : List (Point F) → Option (Point F)
  nearest [] = none
  nearest (p ∷ ps) = with_value p.value p (nearest ps)

  abbrev pub value_at : Option (Point F) → Option F
  value_at none = none
  value_at (some p) = p.value

  module _ (spark : Spark F) (max_imputable_gap : ℕ) (method : Option AggMethod) where
    -- The formula of `interp`, null where one of its values is.
    unfoldable pub interp : ℕ → ℕ → ℕ → Option F → Option F → Option F
    interp ts prev_ts next_ts none next_val = none
    interp ts prev_ts next_ts (some a) none = none
    interp ts prev_ts next_ts (some a) (some b) = some (
        spark.add
          (spark.multiply (spark.quotient (ts - prev_ts) (next_ts - prev_ts)) (spark.subtract b a))
          a)

    unfoldable pub interp_or_null : Point F → Option (Point F) → Option (Point F) → Option F
    interp_or_null p (some prev) (some next) =
        if ltb prev.ts next.ts then interp p.ts prev.ts next.ts prev.value next.value else p.value
    interp_or_null p prev next = p.value

    -- `imputed_expr` of the row `p`, with the rows before it, the last one first, and those after.
    unfoldable pub imputed_value :
        (median_value : Option F) (gap : ℕ) (before : List (Point F))
        → Point F
        → List (Point F)
        → Option F
    imputed_value median_value gap before p after =
        let local = take 4 before ++ p ∷ take 4 after in
        when_chained
          ((not (is_none p.value), p.value)
            ∷ (not (leb gap max_imputable_gap), p.value)
            ∷ (
              is_method is_avg method,
              interp_or_null p (nearest (p ∷ before)) (nearest (p ∷ after)),
            )
            ∷ (is_method is_sum method && leb gap 2, value_at (nearest (p ∷ before)))
            ∷ (is_method is_sum method && ltb 2 gap, median_value)
            ∷ (is_method is_max method, spark.max (values local))
            ∷ (is_method is_min method, spark.min (values local))
            ∷ [])
          p.value

    unfoldable pub imputed : Option F → Option F → Imputed F
    imputed old new = record {
      value = new;
      imputed_flag = if is_none old && not (is_none new) then 1 else 0;
    }

    unfoldable pub impute_rows :
        Option F → List (Point F) → List (Point F) → List ℕ → List (Imputed F)
    impute_rows median_value before [] gaps = []
    impute_rows median_value before (p ∷ after) [] = []
    impute_rows median_value before (p ∷ after) (gap ∷ gaps) =
        imputed p.value (imputed_value median_value gap before p after)
        ∷ impute_rows median_value (p ∷ before) after gaps

    unfoldable pub impute : List (Point F) → List (Imputed F)
    impute series =
        impute_rows (spark.median (values series)) [] series (detect_gap_runs (missing series))
