-- ===== src/KpiCoverage/Spine/Filled.antt =====
-- `fill_internal_gaps` as a whole: what it makes of a series, and that `drop_windows_with_nulls` may
-- count its rows.
use innovativeproject_pm_gen.Base.{
  ℕ, ◌+◌, ◌-◌, ◌*◌, ◌/◌, ◌≤◌, ◌≡◌, refl, ap, ◌∙◌, sym, Bool, true, false, Option, some, List, [],
  ◌∷◌, ◌⊎◌, All, All-map, map, eqb, ltb, if◌then◌else◌, arith, Bool-cases, inl, inr,
}
use innovativeproject_pm_gen.Base.Sets.{has, Distinct}
use native.Mathlib.Nat.{le-div_iff_mul-le}
use innovativeproject_pm_gen.KpiCoverage.Windows.{least, greatest}
use innovativeproject_pm_gen.KpiCoverage.Windows.Cover.{hour_offsets}
use innovativeproject_pm_gen.KpiCoverage.Spine.{
  interval, spine_from, times, without, drop_duplicates, min_t, max_t, series_spine, row_at,
  left_join, fill_internal_gaps,
}
use innovativeproject_pm_gen.KpiCoverage.Spine.Grid.{
  row_of, has-spine_from, row_at-left_join, row_at-drop_duplicates, spine_from-steps,
  hours_of-Distinct, hours_of, hour_of, times-left_join,
}

least-bound : (x : ℕ) (ys : List ℕ) (y : ℕ) → has eqb y (x ∷ ys) ≡ true → least x ys ≤ y
unfolding least
least-bound x [] y h = ground arith
least-bound x (z ∷ ys) y h = elim (Bool-cases (ltb z x)) [
  | inl e ↦ rw e (ground (arith, least-bound z ys y, least-bound z ys z))
  | inr e ↦ rw e (ground (arith, least-bound x ys y, least-bound x ys x))
]

either : (b : Bool) (x z : ℕ) → ((if b then z else x) ≡ x) ⊎ ((if b then z else x) ≡ z)
either true x z = inr refl
either false x z = inl refl

has-either :
    (m w x z : ℕ) (ys : List ℕ)
    → (w ≡ x) ⊎ (w ≡ z)
    → has eqb m (w ∷ ys) ≡ true
    → has eqb m (x ∷ z ∷ ys) ≡ true
has-either m w x z ys e h = ground arith

has-least : (x : ℕ) (ys : List ℕ) → has eqb (least x ys) (x ∷ ys) ≡ true
unfolding least
has-least x [] = ground arith
has-least x (z ∷ ys) =
    let w = if ltb z x then z else x in
    has-either _ w x z ys (either (ltb z x) x z) (has-least w ys)

greatest-bound : (x : ℕ) (ys : List ℕ) (y : ℕ) → has eqb y (x ∷ ys) ≡ true → y ≤ greatest x ys
unfolding greatest
greatest-bound x [] y h = ground arith
greatest-bound x (z ∷ ys) y h = elim (Bool-cases (ltb x z)) [
  | inl e ↦ rw e (ground (arith, greatest-bound z ys y, greatest-bound z ys z))
  | inr e ↦ rw e (ground (arith, greatest-bound x ys y, greatest-bound x ys x))
]

has-greatest : (x : ℕ) (ys : List ℕ) → has eqb (greatest x ys) (x ∷ ys) ≡ true
unfolding greatest
has-greatest x [] = ground arith
has-greatest x (z ∷ ys) =
    let w = if ltb x z then z else x in
    has-either _ w x z ys (either (ltb x z) x z) (has-greatest w ys)

steps_fit :
    (freq_hours k width : ℕ)
    → 1 ≤ freq_hours
    → k * interval freq_hours ≤ width
    → k ≤ width / interval freq_hours
unfolding interval
steps_fit f k width pos h = (le-div_iff_mul-le {x = k} {y = width} (omega arith)).1 h

steps_stay :
    (freq_hours k width : ℕ)
    → 1 ≤ freq_hours
    → k ≤ width / interval freq_hours
    → k * interval freq_hours ≤ width
unfolding interval
steps_stay f k width pos h = (le-div_iff_mul-le {x = k} {y = width} (omega arith)).0 h

module _ {ℓ} {A : Type ℓ} where
  has-times :
      (t : ℕ) (rows : List (ℕ × A)) (a : A) → row_at t rows ≡ some a → has eqb t (times rows) ≡ true
  unfolding times row_at
  has-times t [] a h = ground arith
  has-times t ((u, b) ∷ rows) a h = ground (arith, has-times t rows a)

  row_at-times :
      (t : ℕ) (rows : List (ℕ × A))
      → has eqb t (times rows) ≡ true
      → (a : A) × (row_at t rows ≡ some a)
  unfolding times row_at
  row_at-times t [] h = ground arith
  row_at-times t ((u, b) ∷ rows) h = elim (Bool-cases (eqb u t)) [
    | inl e ↦ (b, rw e refl)
    | inr e ↦ let (a, there) = row_at-times t rows (ground arith) in (a, rw e there)
  ]

  -- The times `lo` and `hi` are the first and the last of the rows.
  pub record AreBounds (lo hi : ℕ) (rows : List (ℕ × A)) : Type ℓ where
    pub first : (a : A) × (row_at lo rows ≡ some a)
    pub last : (a : A) × (row_at hi rows ≡ some a)
    pub between : (t : ℕ) (a : A) → row_at t rows ≡ some a → (lo ≤ t) × (t ≤ hi)

  pub record IsSpine (freq_hours lo hi : ℕ) (rows : List (ℕ × A)) (out : List (ℕ × Option A))
      : Type ℓ where
    pub filled :
        (k : ℕ)
        → lo + k * interval freq_hours ≤ hi
        → row_at (lo + k * interval freq_hours) out
          ≡ some (row_at (lo + k * interval freq_hours) rows)
    pub on_grid : All (λ t. (k : ℕ) × (t ≡ lo + k * interval freq_hours) × (t ≤ hi)) (times out)
    pub hourly :
        (origin : ℕ) (has_value : Option A → Bool)
        → origin ≤ lo
        → Distinct eqb (hour_offsets (map (row_of origin has_value) out))

  bounds :
      (t : ℕ) (a : A) (rows : List (ℕ × A))
      → AreBounds (min_t t rows) (max_t t rows) ((t, a) ∷ rows)
  unfolding min_t max_t times
  bounds t a rows = record {
    first = row_at-times _ ((t, a) ∷ rows) (has-least t (times rows));
    last = row_at-times _ ((t, a) ∷ rows) (has-greatest t (times rows));
    between = λ u b h.
        let there = has-times u ((t, a) ∷ rows) b h in
        (least-bound t (times rows) u there, greatest-bound t (times rows) u there);
  }

  -- The bounds of rows that have the same values at the same times.
  AreBounds-same :
      (lo hi : ℕ) (rows kept : List (ℕ × A))
      → ((t : ℕ) → row_at t kept ≡ row_at t rows)
      → AreBounds lo hi kept
      → AreBounds lo hi rows
  AreBounds-same lo hi rows kept same b = record {
    first = (b.first.0, sym (same lo) ∙ b.first.1);
    last = (b.last.0, sym (same hi) ∙ b.last.1);
    between = λ t a h. b.between t a (same t ∙ h);
  }

  hour_offsets-left_join :
      (origin : ℕ) (has_value : Option A → Bool) (ts : List ℕ) (rows : List (ℕ × A))
      → hour_offsets (map (row_of origin has_value) (left_join ts rows)) ≡ hours_of origin ts
  unfolding left_join hours_of
  hour_offsets-left_join origin hv [] rows = refl
  hour_offsets-left_join origin hv (t ∷ ts) rows =
      ap (λ l. hour_of origin t ∷ l) (hour_offsets-left_join origin hv ts rows)

  -- The spine over rows, no two of which have one time.
  joined-IsSpine :
      (freq_hours lo hi : ℕ) (rows kept : List (ℕ × A))
      → 1 ≤ freq_hours
      → ((t : ℕ) → row_at t kept ≡ row_at t rows)
      → lo ≤ hi
      → IsSpine freq_hours lo hi rows
          (left_join (spine_from (interval freq_hours) lo ((hi - lo) / interval freq_hours)) kept)
  joined-IsSpine f lo hi rows kept pos same order =
      let steps = (hi - lo) / interval f in
      let ts = spine_from (interval f) lo steps in
      record {
        filled = λ k h.
            row_at-left_join (lo + k * interval f) ts kept (
              has-spine_from (interval f) lo steps k
                (steps_fit f k (hi - lo) pos (omega (arith, h))))
            ∙ ap some (same (lo + k * interval f));
        on_grid = rw (times-left_join ts kept) (
            All-map
              (λ t s. (s.0, s.2, omega (arith, s.2, order, steps_stay f s.0 (hi - lo) pos s.1))) ts
              (spine_from-steps (interval f) lo steps));
        hourly = λ origin hv h.
            rw (hour_offsets-left_join origin hv ts kept)
              (hours_of-Distinct origin f lo steps pos h);
      }

  -- If the interval is a whole number of hours, one at least, then the rows that come out of
  -- `fill_internal_gaps` for a series stand at times between its first and its last, whole intervals
  -- after the first; each such time is there, with the values of the series at it, or nulls; and
  -- counted in hours from an origin that is not later, no two rows have one hour.
  pub fill_internal_gaps-IsSpine :
      (freq_hours : ℕ) (row : ℕ × A) (rows : List (ℕ × A))
      → 1 ≤ freq_hours
      → (lo : ℕ) × (hi : ℕ) × AreBounds lo hi (row ∷ rows)
        × IsSpine freq_hours lo hi (row ∷ rows) (fill_internal_gaps freq_hours (row ∷ rows))
  unfolding fill_internal_gaps drop_duplicates series_spine
  fill_internal_gaps-IsSpine f row rows pos =
      let kept = without row.0 (drop_duplicates rows) in
      let lo = min_t row.0 kept in
      let hi = max_t row.0 kept in
      let same = λ (t : ℕ). row_at-drop_duplicates t (row ∷ rows) in
      let b = bounds row.0 row.1 kept in
      (
        lo,
        hi,
        AreBounds-same lo hi (row ∷ rows) (drop_duplicates (row ∷ rows)) same b,
        joined-IsSpine f lo hi (row ∷ rows) (drop_duplicates (row ∷ rows)) pos same
            (b.between hi b.last.0 b.last.1).0,
      )
