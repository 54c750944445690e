-- ===== src/KpiCoverage/Windows/Full.antt =====
-- The test of one window's hours: distinct hours below the width pass exactly if there are as many
-- as the width, and then they are all hours.
use innovativeproject_pm_gen.Base.{
  inr, inl, Bool-cases, ℕ, ◌+◌, ◌-◌, ◌≡◌, refl, ◌∙◌, ◌&&◌, not, ltb, eqb, arith, ◌≤◌, ◌<◌, List, [],
  ◌∷◌, length, lt→ltb, ltb→lt, true, false,
}
use innovativeproject_pm_gen.Base.Sets.{has, Distinct}
use innovativeproject_pm_gen.KpiCoverage.Greedy.Rows.{
  length-discard-Distinct, length-range_from, has-discard, discard-Distinct, range_from-Distinct,
  has-range, discard_all,
}
use innovativeproject_pm_gen.KpiCoverage.Windows.{least, greatest, is_good_window}
use innovativeproject_pm_gen.KpiCoverage.Greedy.{discard, range_from}

-- Distinct hours below a bound, as many as the bound: all of them.
has-discard_all :
    (x : ℕ) (rows avail : List ℕ)
    → has eqb x (discard_all rows avail) ≡ (has eqb x avail && not (has eqb x rows))
unfolding discard_all
has-discard_all x [] avail = ground arith
has-discard_all x (r ∷ rs) avail =
    ground (arith, has-discard_all x rs (discard r avail), has-discard x r avail)

length-discard_all-Distinct :
    (rows avail : List ℕ)
    → Distinct eqb rows
    → Distinct eqb avail
    → ((x : ℕ) → has eqb x rows ≡ true → has eqb x avail ≡ true)
    → length rows + length (discard_all rows avail) ≡ length avail
unfolding discard_all
length-discard_all-Distinct [] avail d da sub = omega arith
length-discard_all-Distinct (r ∷ rs) avail d da sub = omega (
  arith,
  length-discard_all-Distinct rs (discard r avail) d.1 (discard-Distinct r avail da)
      (λ x h. ground (arith, has-discard x r avail, sub x, d.0)),
  length-discard-Distinct r avail da (sub r (ground arith)),
)

none_left : (x : ℕ) (xs : List ℕ) → length xs ≡ 0 → has eqb x xs ≡ false
none_left x [] h = refl
none_left x (y ∷ ys) h = ground arith

all_gone : (xs : List ℕ) → ((x : ℕ) → has eqb x xs ≡ false) → length xs ≡ 0
all_gone [] h = refl
all_gone (y ∷ ys) h = ground (arith, h y)

least-le : (x y : ℕ) (ys : List ℕ) → has eqb y (x ∷ ys) ≡ true → least x ys ≤ y
unfolding least
least-le x y [] h = ground arith
least-le x y (z ∷ zs) h = elim (Bool-cases (ltb z x)) [
  | inl e ↦ rw e (ground (arith, least-le z y zs, least-le z z zs))
  | inr e ↦ rw e (ground (arith, least-le x y zs, least-le x x zs))
]

greatest-ge : (x y : ℕ) (ys : List ℕ) → has eqb y (x ∷ ys) ≡ true → y ≤ greatest x ys
unfolding greatest
greatest-ge x y [] h = ground arith
greatest-ge x y (z ∷ zs) h = elim (Bool-cases (ltb x z)) [
  | inl e ↦ rw e (ground (arith, greatest-ge z y zs, greatest-ge z z zs))
  | inr e ↦ rw e (ground (arith, greatest-ge x y zs, greatest-ge x x zs))
]

greatest-below :
    (b x : ℕ) (ys : List ℕ) → ((y : ℕ) → has eqb y (x ∷ ys) ≡ true → y < b) → greatest x ys < b
unfolding greatest
greatest-below b x [] below = below x (ground arith)
greatest-below b x (z ∷ zs) below = elim (Bool-cases (ltb x z)) [
  | inl e ↦ rw e (greatest-below b z zs (λ y h. below y (ground arith)))
  | inr e ↦ rw e (greatest-below b x zs (λ y h. below y (ground arith)))
]

module _ (w : ℕ) (hs : List ℕ) (distinct : Distinct eqb hs)
    (inside : (x : ℕ) → has eqb x hs ≡ true → x < w) where
  size : length hs + length (discard_all hs (range_from 0 w)) ≡ w
  size =
      length-discard_all-Distinct hs (range_from 0 w) distinct (range_from-Distinct 0 w)
        (λ x h. has-range x w ∙ lt→ltb x w (inside x h))
      ∙ length-range_from 0 w

  pub full-has : length hs ≡ w → (x : ℕ) → x < w → has eqb x hs ≡ true
  full-has full x h = ground (
    arith,
    has-discard_all x hs (range_from 0 w),
    none_left x (discard_all hs (range_from 0 w)) (omega (arith, size)),
    has-range x w,
    lt→ltb x w,
  )

  pub has-full : ((x : ℕ) → x < w → has eqb x hs ≡ true) → length hs ≡ w
  has-full each = omega (
    arith,
    size,
    all_gone (discard_all hs (range_from 0 w)) (λ x.
        ground (arith, has-discard_all x hs (range_from 0 w), has-range x w, ltb→lt x w, each x)),
  )

-- The tests of the least and the greatest hour follow from the test of their number.
pub is_good_window-length :
    (w : ℕ) (hs : List ℕ) (distinct : Distinct eqb hs)
    (inside : (x : ℕ) → has eqb x hs ≡ true → x < w)
    → 1 ≤ w
    → is_good_window w hs ≡ eqb (length hs) w
unfolding is_good_window
is_good_window-length w [] distinct inside some_hour = ground arith
is_good_window-length w (h ∷ hs) distinct inside some_hour = ground (
  arith,
  (λ (full : length (h ∷ hs) ≡ w).
      least-le h 0 hs (full-has w (h ∷ hs) distinct inside full 0 some_hour)),
  (λ (full : length (h ∷ hs) ≡ w).
      greatest-ge h (w - 1) hs (full-has w (h ∷ hs) distinct inside full (w - 1) (omega arith))),
  greatest-below w h hs inside,
)
