-- ===== src/KpiCoverage/Spine.antt =====
-- apps/generator/genpm/preprocessing/logic/kpi_coverage.py, `fill_internal_gaps` for one series: the
-- rows as a time in seconds and what the other columns hold. Of the rows with one time Spark keeps
-- any; here it is the first.
pub mod Grid
pub mod Filled
use innovativeproject_pm_gen.Base.{
  ℕ, zero, suc, ◌+◌, ◌-◌, ◌*◌, ◌/◌, Bool, true, false, Option, none, some, List, [], ◌∷◌, eqb,
  if◌then◌else◌,
}
use innovativeproject_pm_gen.KpiCoverage.Windows.{least, greatest}

-- `INTERVAL {freq_hours} HOUR`
unfoldable pub interval : ℕ → ℕ
interval freq_hours = freq_hours * 3600

-- `sequence` from a time on, with as many steps.
unfoldable pub spine_from : ℕ → ℕ → ℕ → List ℕ
spine_from step t zero = t ∷ []
spine_from step t (suc n) = t ∷ spine_from step (t + step) n

module _ {ℓ} {A : Type ℓ} where
  unfoldable pub times : List (ℕ × A) → List ℕ
  times [] = []
  times ((t, a) ∷ rows) = t ∷ times rows

  unfoldable pub without : ℕ → List (ℕ × A) → List (ℕ × A)
  without t [] = []
  without t ((u, a) ∷ rows) = let rest = without t rows in if eqb u t then rest else (u, a) ∷ rest

  unfoldable pub drop_duplicates : List (ℕ × A) → List (ℕ × A)
  drop_duplicates [] = []
  drop_duplicates ((t, a) ∷ rows) = (t, a) ∷ without t (drop_duplicates rows)

  unfoldable pub min_t : ℕ → List (ℕ × A) → ℕ
  min_t t rows = least t (times rows)

  unfoldable pub max_t : ℕ → List (ℕ × A) → ℕ
  max_t t rows = greatest t (times rows)

  -- The spine of a group, which has a row.
  unfoldable pub series_spine : ℕ → List (ℕ × A) → List ℕ
  series_spine step [] = []
  series_spine step ((t, a) ∷ rows) =
      spine_from step (min_t t rows) ((max_t t rows - min_t t rows) / step)

  unfoldable pub row_at : ℕ → List (ℕ × A) → Option A
  row_at t [] = none
  row_at t ((u, a) ∷ rows) = let rest = row_at t rows in if eqb u t then some a else rest

  -- The left join of a spine.
  unfoldable pub left_join : List ℕ → List (ℕ × A) → List (ℕ × Option A)
  left_join [] rows = []
  left_join (t ∷ ts) rows = (t, row_at t rows) ∷ left_join ts rows

  unfoldable pub fill_internal_gaps : ℕ → List (ℕ × A) → List (ℕ × Option A)
  fill_internal_gaps freq_hours rows =
      left_join (series_spine (interval freq_hours) (drop_duplicates rows)) (drop_duplicates rows)
