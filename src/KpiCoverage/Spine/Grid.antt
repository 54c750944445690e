-- ===== src/KpiCoverage/Spine/Grid.antt =====
-- The rows that `fill_internal_gaps` makes of a series.
use innovativeproject_pm_gen.Base.{
  ℕ, zero, suc, ◌+◌, ◌-◌, ◌*◌, ◌/◌, ◌≤◌, ◌<◌, ◌≡◌, refl, Bool, true, false, none, some, List, [],
  ◌∷◌, All, All-map, eqb, if◌then◌else◌, arith,
}
use innovativeproject_pm_gen.Base.Sets.{has, Distinct}
use native.Mathlib.Nat.{suc-mul, add-mul-div_right}
use innovativeproject_pm_gen.KpiCoverage.Windows.{Row}
use innovativeproject_pm_gen.KpiCoverage.Spine.{
  interval, spine_from, times, without, drop_duplicates, row_at, left_join,
}

before_spine : (step t n x : ℕ) → x < t → has eqb x (spine_from step t n) ≡ false
unfolding spine_from
before_spine step t zero x h = ground arith
before_spine step t (suc n) x h = ground (arith, before_spine step (t + step) n x)

spine_from-Distinct : (step t n : ℕ) → 1 ≤ step → Distinct eqb (spine_from step t n)
unfolding spine_from
spine_from-Distinct step t zero h = (refl, tt)
spine_from-Distinct step t (suc n) h =
    (before_spine step (t + step) n t (omega arith), spine_from-Distinct step (t + step) n h)

-- The times of a spine: whole steps from its start.
pub spine_from-steps :
    (step t n : ℕ) → All (λ x. (k : ℕ) × (k ≤ n) × (x ≡ t + k * step)) (spine_from step t n)
unfolding spine_from
spine_from-steps step t zero = ((0, omega arith, omega arith), tt)
spine_from-steps step t (suc n) = (
  (0, omega arith, omega arith),
  All-map (λ x s. (suc s.0, omega (arith, s.1), omega (arith, s.2, suc-mul s.0 step)))
      (spine_from step (t + step) n) (spine_from-steps step (t + step) n),
)

one_step : (step t k : ℕ) → t + suc k * step ≡ (t + step) + k * step
one_step step t k = omega (arith, suc-mul k step)

pub has-spine_from : (step t n k : ℕ) → k ≤ n → has eqb (t + k * step) (spine_from step t n) ≡ true
unfolding spine_from
has-spine_from step t zero zero h = ground arith
has-spine_from step t (suc n) zero h = ground arith
has-spine_from step t zero (suc k) h = ground arith
has-spine_from step t (suc n) (suc k) h =
    ground (arith, has-spine_from step (t + step) n k, one_step step t k)

module _ {ℓ} {A : Type ℓ} where
  row_at-without :
      (t u : ℕ) (rows : List (ℕ × A))
      → row_at t (without u rows) ≡ (if eqb u t then none else row_at t rows)
  unfolding row_at without
  row_at-without t u [] = ground arith
  row_at-without t u ((v, a) ∷ rows) = ground (arith, row_at-without t u rows)

  pub row_at-drop_duplicates :
      (t : ℕ) (rows : List (ℕ × A)) → row_at t (drop_duplicates rows) ≡ row_at t rows
  unfolding row_at drop_duplicates
  row_at-drop_duplicates t [] = refl
  row_at-drop_duplicates t ((u, a) ∷ rows) =
      ground (arith, row_at-drop_duplicates t rows, row_at-without t u (drop_duplicates rows))

  pub row_at-left_join :
      (t : ℕ) (ts : List ℕ) (rows : List (ℕ × A))
      → has eqb t ts ≡ true
      → row_at t (left_join ts rows) ≡ some (row_at t rows)
  unfolding row_at left_join
  row_at-left_join t [] rows h = ground arith
  row_at-left_join t (u ∷ ts) rows h = ground (arith, row_at-left_join t ts rows)

  pub times-left_join : (ts : List ℕ) (rows : List (ℕ × A)) → times (left_join ts rows) ≡ ts
  unfolding times left_join
  times-left_join [] rows = refl
  times-left_join (t ∷ ts) rows = rw (times-left_join ts rows) refl

  -- The hours since an origin, as `drop_windows_with_nulls` counts them.
  abbrev pub row_of : ℕ → (A → Bool) → (ℕ × A) → Row
  row_of origin has_value r = record { offset_h = (r.0 - origin) / 3600; has_value = has_value r.1 }

-- From the hours of a spine on, each is later than those before.
abbrev pub hour_of : ℕ → ℕ → ℕ
hour_of origin t = (t - origin) / 3600

unfoldable pub hours_of : ℕ → List ℕ → List ℕ
hours_of origin [] = []
hours_of origin (t ∷ ts) = hour_of origin t ∷ hours_of origin ts

hour_of-later :
    (origin freq_hours t : ℕ)
    → origin ≤ t
    → hour_of origin (t + interval freq_hours) ≡ hour_of origin t + freq_hours
unfolding interval
hour_of-later origin f t h =
    let shift : (t + f * 3600) - origin ≡ (t - origin) + f * 3600 = omega arith in
    rw shift (add-mul-div_right (t - origin) f (omega arith))

earlier_hour :
    (origin freq_hours t n x : ℕ)
    → 1 ≤ freq_hours
    → origin ≤ t
    → x < hour_of origin t
    → has eqb x (hours_of origin (spine_from (interval freq_hours) t n)) ≡ false
unfolding spine_from hours_of
earlier_hour origin f t zero x pos h lt = ground arith
earlier_hour origin f t (suc n) x pos h lt = ground (
  arith,
  hour_of-later origin f t h,
  earlier_hour origin f (t + interval f) n x pos (omega arith),
)

pub hours_of-Distinct :
    (origin freq_hours t n : ℕ)
    → 1 ≤ freq_hours
    → origin ≤ t
    → Distinct eqb (hours_of origin (spine_from (interval freq_hours) t n))
unfolding spine_from hours_of
hours_of-Distinct origin f t zero pos h = (refl, tt)
hours_of-Distinct origin f t (suc n) pos h = (
  earlier_hour origin f (t + interval f) n (hour_of origin t) pos (omega arith)
      (omega (arith, hour_of-later origin f t h)),
  hours_of-Distinct origin f (t + interval f) n pos (omega arith),
)
