-- ===== src/Tests/Spine.antt =====
-- A series with a gap of two hours, a repeated row and a row beside the hour.
use innovativeproject_pm_gen.Base.{ℕ, ◌≡◌, refl, none, some, List, [], ◌∷◌, arith}
use innovativeproject_pm_gen.KpiCoverage.Spine.{
  left_join, row_at, interval, min_t, without, times, max_t, spine_from, drop_duplicates,
  series_spine, fill_internal_gaps,
}
use innovativeproject_pm_gen.KpiCoverage.Spine.Filled.{
  fill_internal_gaps-IsSpine, IsSpine, AreBounds,
}
use innovativeproject_pm_gen.KpiCoverage.Windows.{least, greatest}

abbrev later : List (ℕ × ℕ)
later = (7200, 4) ∷ (18000, 9) ∷ (7200, 5) ∷ (9000, 6) ∷ []

gap_test :
    fill_internal_gaps 1 ((3600, 1) ∷ later)
    ≡ (3600, some 1) ∷ (7200, some 4) ∷ (10800, none) ∷ (14400, none) ∷ (18000, some 9) ∷ []
unfolding fill_internal_gaps left_join series_spine drop_duplicates spine_from max_t greatest times
    without min_t least interval row_at
gap_test = refl

fill_internal_gaps-IsSpine_example :
    (lo : ℕ) × (hi : ℕ) × AreBounds lo hi ((3600, 1) ∷ later)
    × IsSpine 1 lo hi ((3600, 1) ∷ later) (fill_internal_gaps 1 ((3600, 1) ∷ later))
fill_internal_gaps-IsSpine_example = fill_internal_gaps-IsSpine 1 (3600, 1) later (omega arith)
