-- ===== src/KpiCoverage/Selection.antt =====
-- apps/generator/genpm/preprocessing/logic/kpi_coverage.py, `greedy_joint_kpi_selection` from the
-- matrix on: the forced rows, the floor and the prefix of the greedy order. `kpi_ids` is read at
-- rows of the matrix only; the curve stands as its joint counts.
pub mod Laws
pub mod Elbow
pub mod Floor
use innovativeproject_pm_gen.Base.{
  ℕ, zero, suc, ◌-◌, String, Bool, true, false, not, ◌&&◌, Option, none, some, List, [], ◌∷◌,
  length, ltb, leb, if◌then◌else◌, ◌==◌,
}
use innovativeproject_pm_gen.Base.Value.{ℤ}
use innovativeproject_pm_gen.Base.Int.{sub_ℕ, ◌-ℤ◌, ltb_ℤ}
use innovativeproject_pm_gen.Base.Result.{Result, ok, err, ◌>>=◌}
use innovativeproject_pm_gen.KpiCoverage.Greedy.{
  Matrix, Halt, empty_argmin, empty_curve, greedy_order, range_from,
}

-- `np.diff`, on the counts and on their differences.
unfoldable pub diff : List ℕ → List ℤ
diff [] = []
diff (a ∷ []) = []
diff (a ∷ b ∷ r) = sub_ℕ b a ∷ diff (b ∷ r)

unfoldable pub diff_ℤ : List ℤ → List ℤ
diff_ℤ [] = []
diff_ℤ (a ∷ []) = []
diff_ℤ (a ∷ b ∷ r) = (b -ℤ a) ∷ diff_ℤ (b ∷ r)

-- `np.argmin`: the index of the first least value. The best one so far stands at `at`, the rest
-- of the list starts at `k`.
unfoldable pub argmin_from : ℕ → ℤ → ℕ → List ℤ → ℕ
argmin_from at best k [] = at
argmin_from at best k (x ∷ xs) =
    if ltb_ℤ x best then argmin_from k x (suc k) xs else argmin_from at best (suc k) xs

unfoldable pub argmin : List ℤ → Result Halt ℕ
argmin [] = err empty_argmin
argmin (x ∷ xs) = ok (argmin_from 0 x 1 xs)

unfoldable pub find_elbow : List ℕ → Result Halt ℕ
find_elbow counts = argmin (diff_ℤ (diff counts)) >>= λ i. ok (suc i)

-- `curve[k]["joint_windows"]`
unfoldable pub count_at : ℕ → List ℕ → Result Halt ℕ
count_at k [] = err empty_curve
count_at zero (c ∷ cs) = ok c
count_at (suc k) (c ∷ cs) = count_at k cs

unfoldable pub suggest_threshold : List ℕ → ℕ → Result Halt ℕ
suggest_threshold counts elbow_idx = count_at (elbow_idx - 1) counts

-- `row_of`, searched from a list of rows.
unfoldable pub row_of : (ℕ → String) → String → List ℕ → Option ℕ
row_of kpi_ids kpi [] = none
row_of kpi_ids kpi (r ∷ rs) =
    let rest = row_of kpi_ids kpi rs in if kpi_ids r == kpi then some r else rest

unfoldable pub keep_row : Option ℕ → List ℕ → List ℕ
keep_row none rows = rows
keep_row (some r) rows = r ∷ rows

unfoldable pub forced_rows_of : Matrix → (ℕ → String) → List String → List ℕ
forced_rows_of m kpi_ids [] = []
forced_rows_of m kpi_ids (kpi ∷ kpis) =
    keep_row (row_of kpi_ids kpi (range_from 0 m.n_kpis)) (forced_rows_of m kpi_ids kpis)

-- The loop over the order, at step `k`.
unfoldable pub select : (ℕ → String) → ℕ → ℕ → ℕ → List ℕ → List ℕ → List String
select kpi_ids floor n_forced k [] counts = []
select kpi_ids floor n_forced k (row ∷ rows) [] = []
select kpi_ids floor n_forced k (row ∷ rows) (joint_windows ∷ counts) =
    let rest = select kpi_ids floor n_forced (suc k) rows counts in
    if leb n_forced k && ltb joint_windows floor then [] else kpi_ids row ∷ rest

unfoldable pub floor_of : Option ℕ → List ℕ → Result Halt ℕ
floor_of none counts = find_elbow counts >>= λ elbow_idx. suggest_threshold counts elbow_idx
floor_of (some min_joint_windows_abs) counts = ok min_joint_windows_abs

unfoldable pub greedy_joint_kpi_selection :
    Matrix → (ℕ → String) → (List ℕ → List ℕ) → Option ℕ → List String → Result Halt (List String)
greedy_joint_kpi_selection m kpi_ids arrange min_joint_windows_abs forced_kpis =
    let forced_rows = forced_rows_of m kpi_ids forced_kpis in
    greedy_order m arrange forced_rows >>= λ found.
    floor_of min_joint_windows_abs found.1 >>= λ floor.
    ok (select kpi_ids floor (length forced_rows) 0 found.0 found.1)
