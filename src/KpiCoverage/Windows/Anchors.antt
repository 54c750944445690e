-- ===== src/KpiCoverage/Windows/Anchors.antt =====
-- The anchors of a row, where the stride divides the width of a window.
use innovativeproject_pm_gen.Base.{
  ℕ, zero, suc, ◌+◌, ◌-◌, ◌*◌, ◌/◌, ◌≡◌, ◌∙◌, ◌&&◌, leb, ltb, eqb, arith, ◌≤◌,
}
use innovativeproject_pm_gen.Base.Sets.{has}
use native.Mathlib.Nat.{le-div_iff_mul-le, div-lt_iff_lt-mul, mul-div_cancel, add-mul}
use innovativeproject_pm_gen.KpiCoverage.Windows.{up_from, sequence, anchors_of}

has-up_from : (x k n : ℕ) → has eqb x (up_from k n) ≡ (leb k x && leb x (k + n))
unfolding up_from
has-up_from x k zero = ground arith
has-up_from x k (suc n) = ground (arith, has-up_from x (suc k) n)

has-sequence : (x lo hi : ℕ) → lo ≤ hi → has eqb x (sequence lo hi) ≡ (leb lo x && leb x hi)
unfolding sequence
has-sequence x lo hi h = ground (arith, has-up_from x lo (hi - lo))

-- If the window is a positive number of positive strides wide, then a row at an hour is given to
-- exactly the anchors whose window of that width holds the hour.
pub anchors_of-has :
    (n stride_hours k offset_h : ℕ)
    → 1 ≤ n
    → 1 ≤ stride_hours
    → has eqb k (anchors_of (n * stride_hours) stride_hours offset_h)
      ≡ (leb (k * stride_hours) offset_h && ltb offset_h (k * stride_hours + n * stride_hours))
unfolding anchors_of
anchors_of-has n s k off some_stride pos_stride = rw (mul-div_cancel n pos_stride) (
    has-sequence k (suc (off / s) - n) (off / s) (omega arith)
    ∙ ground (
      arith,
      le-div_iff_mul-le {x = k} {y = off} pos_stride,
      div-lt_iff_lt-mul {x = off} {y = k + n} pos_stride,
      add-mul k n s,
    ))
