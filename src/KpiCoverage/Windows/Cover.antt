-- ===== src/KpiCoverage/Windows/Cover.antt =====
-- A window is kept exactly if the series has a value at each of its hours.
use innovativeproject_pm_gen.Base.{
  add_suc, add_zero, inr, inl, Bool-cases, subst, lt→ltb, ltb→lt, ℕ, zero, suc, ◌+◌, ◌-◌, ◌*◌, ◌≡◌,
  refl, ◌∙◌, ◌&&◌, ◌||◌, Bool, true, false, leb, ltb, eqb, arith, ◌≤◌, ◌<◌, List, [], ◌∷◌, length,
}
use native.Mathlib.Nat.{mul-pos}
use innovativeproject_pm_gen.Base.Sets.{has-snoc, add, has, Distinct}
use innovativeproject_pm_gen.KpiCoverage.Windows.{
  passes, anchors_of, series_end, keep_good, good_anchors, anchor_keys, add_all, is_good_window,
  is_member, hours_in, Row,
}
use innovativeproject_pm_gen.KpiCoverage.Windows.Anchors.{anchors_of-has}
use innovativeproject_pm_gen.KpiCoverage.Windows.Full.{is_good_window-length, has-full, full-has}

-- The series has a value at the hour.
unfoldable pub has_value_at : ℕ → List Row → Bool
has_value_at o [] = false
has_value_at o (r ∷ rs) = (r.has_value && eqb r.offset_h o) || has_value_at o rs

-- At all hours from `start` on, `n` of them.
unfoldable pub covered : ℕ → ℕ → List Row → Bool
covered start zero rows = true
covered start (suc n) rows = has_value_at start rows && covered (suc start) n rows

-- One row for each hour.
abbrev pub hour_offsets : List Row → List ℕ
hour_offsets [] = []
hour_offsets (r ∷ rs) = r.offset_h ∷ hour_offsets rs

has_value_at-offset :
    (o : ℕ) (rows : List Row) → has_value_at o rows ≡ true → has eqb o (hour_offsets rows) ≡ true
unfolding has_value_at
has_value_at-offset o [] h = ground arith
has_value_at-offset o (r ∷ rs) h = ground (arith, has_value_at-offset o rs)

sub_add : (a o : ℕ) → a ≤ o → a + (o - a) ≡ o
sub_add a o h = omega arith

covered-each :
    (start n : ℕ) (rows : List Row)
    → covered start n rows ≡ true
    → (h : ℕ) → h < n
    → has_value_at (start + h) rows ≡ true
unfolding covered
covered-each start zero rows c h inside = ground arith
covered-each start (suc n) rows c zero inside = rw (add_zero start) (ground arith)
covered-each start (suc n) rows c (suc h) inside =
    rw (add_suc start h) (covered-each (suc start) n rows (ground arith) h (ground arith))

each-covered :
    (start n : ℕ) (rows : List Row)
    → ((h : ℕ) → h < n → has_value_at (start + h) rows ≡ true)
    → covered start n rows ≡ true
unfolding covered
each-covered start zero rows each = refl
each-covered start (suc n) rows each = ground (
  arith,
  add_zero start,
  each 0,
  each-covered (suc start) n rows (λ h below.
      subst (λ o. has_value_at o rows ≡ true) (add_suc start h) (each (suc h) (ground arith))),
)

has-keep_good :
    (p : ℕ → Bool) (x : ℕ) (ks : List ℕ) → has eqb x (keep_good p ks) ≡ (has eqb x ks && p x)
unfolding keep_good
has-keep_good p x [] = refl
has-keep_good p x (k ∷ ks) = ground (arith, has-keep_good p x ks)

has-add : (x k : ℕ) (seen : List ℕ) → has eqb x (add eqb k seen) ≡ (has eqb x seen || eqb k x)
has-add x k seen = elim (Bool-cases (has eqb k seen)) [
  | inl e ↦ rw e (ground arith)
  | inr e ↦ rw e (has-snoc eqb x k seen)
]

has-add_all :
    (x : ℕ) (ks seen : List ℕ) → has eqb x (add_all ks seen) ≡ (has eqb x ks || has eqb x seen)
unfolding add_all
has-add_all x [] seen = refl
has-add_all x (k ∷ ks) seen = ground (arith, has-add_all x ks (add eqb k seen), has-add x k seen)

series_end-after : (o : ℕ) (rows : List Row) → has_value_at o rows ≡ true → o ≤ series_end rows
unfolding has_value_at series_end
series_end-after o [] h = ground arith
series_end-after o (r ∷ rs) h = ground (arith, series_end-after o rs)

module _ (n stride_hours k : ℕ) (some_stride : 1 ≤ n) (pos_stride : 1 ≤ stride_hours) where
  abbrev width : ℕ
  width = n * stride_hours

  abbrev anchor : ℕ
  anchor = k * stride_hours

  is_member-inside :
      (r : Row)
      → is_member width stride_hours k r
        ≡ (r.has_value && (leb anchor r.offset_h && ltb r.offset_h (anchor + width)))
  unfolding is_member
  is_member-inside r =
      ground (arith, anchors_of-has n stride_hours k r.offset_h some_stride pos_stride)

  hours_in-has :
      (rows : List Row) (h : ℕ)
      → has eqb h (hours_in width stride_hours k rows)
        ≡ (ltb h width && has_value_at (anchor + h) rows)
  unfolding hours_in has_value_at
  hours_in-has [] h = ground arith
  hours_in-has (r ∷ rs) h = ground (arith, hours_in-has rs h, is_member-inside r)

  hours_in-Distinct :
      (rows : List Row)
      → Distinct eqb (hour_offsets rows)
      → Distinct eqb (hours_in width stride_hours k rows)
  unfolding hours_in
  hours_in-Distinct [] d = tt
  hours_in-Distinct (r ∷ rs) d = elim (Bool-cases (is_member width stride_hours k r)) [
    | inl e ↦ rw e (
      ground (
        arith,
        e,
        is_member-inside r,
        hours_in-has rs (r.offset_h - anchor),
        sub_add anchor r.offset_h,
        has_value_at-offset r.offset_h rs,
        d.0,
      ),
      hours_in-Distinct rs d.1,
    )
    | inr e ↦ rw e (hours_in-Distinct rs d.1)
  ]

  -- The hours of the window's rows.
  abbrev hours : List Row → List ℕ
  hours rows = hours_in width stride_hours k rows

  hours-inside : (rows : List Row) (x : ℕ) → has eqb x (hours rows) ≡ true → x < width
  hours-inside rows x h = ground (arith, hours_in-has rows x, ltb→lt x width)

  covered-length :
      (rows : List Row)
      → Distinct eqb (hour_offsets rows)
      → covered anchor width rows ≡ true
      → length (hours rows) ≡ width
  covered-length rows d c =
      has-full width (hours rows) (hours_in-Distinct rows d) (hours-inside rows) (λ x h.
        ground (arith, hours_in-has rows x, covered-each anchor width rows c x, lt→ltb x width))

  length-covered :
      (rows : List Row)
      → Distinct eqb (hour_offsets rows)
      → length (hours rows) ≡ width
      → covered anchor width rows ≡ true
  length-covered rows d full = each-covered anchor width rows (λ x h. ground (
    arith,
    hours_in-has rows x,
    full-has width (hours rows) (hours_in-Distinct rows d) (hours-inside rows) full x h,
  ))

  some_width : 1 ≤ width
  some_width = mul-pos some_stride pos_stride

  good-covered :
      (rows : List Row)
      → Distinct eqb (hour_offsets rows)
      → is_good_window width (hours rows) ≡ covered anchor width rows
  good-covered rows d =
      is_good_window-length width (hours rows) (hours_in-Distinct rows d) (hours-inside rows)
        some_width
      ∙ ground (arith, covered-length rows d, length-covered rows d)

  anchor_keys-has :
      (rows : List Row)
      → has_value_at anchor rows ≡ true
      → has eqb k (anchor_keys width stride_hours rows) ≡ true
  unfolding anchor_keys has_value_at
  anchor_keys-has [] h = ground arith
  anchor_keys-has (r ∷ rs) h = ground (
    arith,
    has-add_all k (anchors_of width stride_hours r.offset_h) (anchor_keys width stride_hours rs),
    anchors_of-has n stride_hours k r.offset_h some_stride pos_stride,
    some_width,
    anchor_keys-has rs,
  )

  -- If the width of the windows is a positive multiple of the positive stride, and the series has
  -- at most one row for each hour, then the anchors of the windows that are kept are exactly those
  -- from whose hour on the series has a value at each of the window's hours.
  pub good_anchors-covered :
      (rows : List Row)
      → Distinct eqb (hour_offsets rows)
      → has eqb k (good_anchors width stride_hours rows) ≡ covered anchor width rows
  unfolding good_anchors passes
  good_anchors-covered rows d =
      has-keep_good (passes width stride_hours rows) k (anchor_keys width stride_hours rows)
      ∙ ground (
        arith,
        good-covered rows d,
        some_width,
        (λ (c : covered anchor width rows ≡ true). anchor_keys-has rows (
            subst (λ o. has_value_at o rows ≡ true) (add_zero anchor)
              (covered-each anchor width rows c 0 some_width))),
        (λ (c : covered anchor width rows ≡ true).
            series_end-after (anchor + (width - 1)) rows
              (covered-each anchor width rows c (width - 1) (omega (arith, some_width)))),
      )
