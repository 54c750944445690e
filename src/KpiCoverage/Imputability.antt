-- ===== src/KpiCoverage/Imputability.antt =====
-- apps/generator/genpm/preprocessing/logic/kpi_coverage.py, `series_imputability_gate` for one
-- series: the nulls of its spine in the order of time. The two comparisons of a quotient with a
-- threshold, which are on floats, are arguments.
pub mod Runs
use innovativeproject_pm_gen.Base.{
  ℕ, zero, suc, ◌+◌, Bool, true, false, not, ◌&&◌, List, [], ◌∷◌, length, leb, eqb, if◌then◌else◌,
}

unfoldable pub non_null_count : List Bool → ℕ
non_null_count [] = 0
non_null_count (is_null ∷ r) = let rest = non_null_count r in if is_null then rest else suc rest

-- `is_null` and `run_id` of each row. The row before has the null `prev_is_null`, and as many runs
-- have started up to it as the number says.
unfoldable pub with_runs : Bool → ℕ → List Bool → List (Bool × ℕ)
with_runs prev_is_null run_id [] = []
with_runs prev_is_null run_id (is_null ∷ r) =
    let null_run_start = if is_null && not prev_is_null then 1 else 0 in
    (is_null, run_id + null_run_start) ∷ with_runs is_null (run_id + null_run_start) r

-- A row more in the group of a run.
unfoldable pub count_row : ℕ → List (ℕ × ℕ) → List (ℕ × ℕ)
count_row run_id [] = (run_id, 1) ∷ []
count_row run_id ((key, n) ∷ groups) =
    let rest = count_row run_id groups in
    if eqb key run_id then (key, suc n) ∷ groups else (key, n) ∷ rest

unfoldable pub group_runs : List (Bool × ℕ) → List (ℕ × ℕ) → List (ℕ × ℕ)
group_runs [] groups = groups
group_runs ((is_null, run_id) ∷ rows) groups =
    group_runs rows (if is_null then count_row run_id groups else groups)

-- The `run_length` of each group.
unfoldable pub lengths_of : List (ℕ × ℕ) → List ℕ
lengths_of [] = []
lengths_of ((key, n) ∷ groups) = n ∷ lengths_of groups

unfoldable pub null_run_lengths : List Bool → List ℕ
null_run_lengths series = lengths_of (group_runs (with_runs false 0 series) [])

-- The sum of `short_flag`.
unfoldable pub short_runs : ℕ → List ℕ → ℕ
short_runs max_imputable_gap [] = 0
short_runs max_imputable_gap (n ∷ ns) =
    let rest = short_runs max_imputable_gap ns in if leb n max_imputable_gap then suc rest else rest

-- The mean of no runs is missing from the join, and counts as a pass.
unfoldable pub gap_shape_passes : (ℕ → ℕ → Bool) → ℕ → List ℕ → Bool
gap_shape_passes enough_short max_imputable_gap [] = true
gap_shape_passes enough_short max_imputable_gap (n ∷ ns) =
    enough_short (short_runs max_imputable_gap (n ∷ ns)) (length (n ∷ ns))

unfoldable pub series_imputability_gate : (ℕ → ℕ → Bool) → (ℕ → ℕ → Bool) → ℕ → List Bool → Bool
series_imputability_gate dense_enough enough_short max_imputable_gap series =
    dense_enough (non_null_count series) (length series)
    && gap_shape_passes enough_short max_imputable_gap (null_run_lengths series)
