-- ===== src/KpiCoverage/Selection/Elbow.antt =====
-- The elbow of the coverage curve, and the steps that its threshold lets through.
use innovativeproject_pm_gen.Base.{
  ◌+◌, ◌<◌, ap, ℕ, zero, suc, ◌-◌, ◌≡◌, refl, String, List, [], ◌∷◌, ◌++◌, length, arith, ◌≤◌,
}
use innovativeproject_pm_gen.KpiCoverage.Selection.{
  suggest_threshold, select, count_at, diff_ℤ, argmin, find_elbow, diff, argmin_from,
}
use innovativeproject_pm_gen.Base.Value.{ℤ}
use innovativeproject_pm_gen.KpiCoverage.Greedy.{empty_argmin, Matrix}
use innovativeproject_pm_gen.Base.Result.{err, ok, ◌>>=◌}
use innovativeproject_pm_gen.KpiCoverage.Greedy.Joint.{curve}
use innovativeproject_pm_gen.Base.Int.{◌-ℤ◌, sub_ℕ}
use innovativeproject_pm_gen.KpiCoverage.Selection.Laws.{Falls}

argmin_from-bound :
    (at k : ℕ) (best : ℤ) (xs : List ℤ) → at < k → argmin_from at best k xs < k + length xs
unfolding argmin_from
argmin_from-bound at k best [] h = omega arith
argmin_from-bound at k best (x ∷ xs) h =
    ground (arith, argmin_from-bound k (suc k) x xs, argmin_from-bound at (suc k) best xs)

length-diffs : (a b c : ℕ) (r : List ℕ) → length (diff_ℤ (diff (a ∷ b ∷ c ∷ r))) ≡ suc (length r)
unfolding diff diff_ℤ
length-diffs a b c [] = refl
length-diffs a b c (d ∷ r) = ap suc (length-diffs b c d r)

pub find_elbow-bound :
    (counts : List ℕ)
    → 3 ≤ length counts
    → (i : ℕ) × (find_elbow counts ≡ ok (suc i)) × (suc i < length counts)
unfolding find_elbow argmin ◌>>=◌ diff diff_ℤ
find_elbow-bound [] long = ground arith
find_elbow-bound (a ∷ []) long = ground arith
find_elbow-bound (a ∷ b ∷ []) long = ground arith
find_elbow-bound (a ∷ b ∷ c ∷ r) long =
    let xs = diff_ℤ (sub_ℕ c b ∷ diff (c ∷ r)) in
    let x = sub_ℕ c b -ℤ sub_ℕ b a in
    (
      argmin_from 0 x 1 xs,
      refl,
      omega (arith, argmin_from-bound 0 1 x xs (omega arith), length-diffs a b c r),
    )

pub find_elbow-short : (counts : List ℕ) → length counts ≤ 2 → find_elbow counts ≡ err empty_argmin
unfolding find_elbow argmin ◌>>=◌ diff diff_ℤ
find_elbow-short [] short = refl
find_elbow-short (a ∷ []) short = refl
find_elbow-short (a ∷ b ∷ []) short = refl
find_elbow-short (a ∷ b ∷ c ∷ r) short = ground arith

pub length-curve : (m : Matrix) (before rows : List ℕ) → length (curve m before rows) ≡ length rows
unfolding curve
length-curve m before [] = refl
length-curve m before (r ∷ rs) = ap suc (length-curve m (before ++ (r ∷ [])) rs)

suc_sub : (i : ℕ) → suc i - 1 ≡ i
suc_sub i = omega arith

pub suggest_threshold-suc :
    (counts : List ℕ) (i : ℕ) → suggest_threshold counts (suc i) ≡ count_at i counts
unfolding suggest_threshold
suggest_threshold-suc counts i = rw (suc_sub i) refl

-- The threshold that is read before step `k` lets the steps up to there through.
pub count_at-keeps :
    (kpi_ids : ℕ → String) (n_forced top i k : ℕ) (rows counts : List ℕ)
    → Falls top counts
    → k < length counts
    → length counts ≤ length rows
    → (floor : ℕ) × (count_at k counts ≡ ok floor)
      × (floor ≤ top)
      × (suc k ≤ length (select kpi_ids floor n_forced i rows counts))
unfolding count_at Falls select
count_at-keeps kpi_ids n_forced top i k rows [] falls inside long = ground arith
count_at-keeps kpi_ids n_forced top i k [] (c ∷ counts) falls inside long = ground arith
count_at-keeps kpi_ids n_forced top i zero (r ∷ rows) (c ∷ counts) falls inside long =
    (c, refl, falls.0, ground arith)
count_at-keeps kpi_ids n_forced top i (suc k) (r ∷ rows) (c ∷ counts) falls inside long =
    let (floor, found, low, kept_steps) =
      count_at-keeps kpi_ids n_forced c (suc i) k rows counts falls.1 (omega arith) (omega arith) in
    (floor, found, omega arith, ground arith)
