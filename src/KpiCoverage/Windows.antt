-- ===== src/KpiCoverage/Windows.antt =====
-- apps/generator/genpm/preprocessing/logic/kpi_coverage.py, `drop_windows_with_nulls` and
-- `discard_invalid_windows` for the rows of one series. Times are whole hours since the origin of
-- the group, so that an anchor with index k stands at hour k * stride.
pub mod Anchors
pub mod Full
pub mod Cover
use innovativeproject_pm_gen.Base.{
  ℕ, zero, suc, ◌+◌, ◌-◌, ◌*◌, ◌/◌, Bool, true, false, not, ◌&&◌, List, [], ◌∷◌, length, ltb, leb,
  eqb, if◌then◌else◌,
}
use innovativeproject_pm_gen.Base.Sets.{has, add}

-- A row of the spine: its `offset_h`, and whether its `kpi_value` is not null.
pub record Row : Type 0 where
  pub offset_h : ℕ
  pub has_value : Bool

-- Spark's `sequence`, which counts down where the start is above the end.
unfoldable pub up_from : ℕ → ℕ → List ℕ
up_from k zero = k ∷ []
up_from k (suc n) = k ∷ up_from (suc k) n

unfoldable pub down_from : ℕ → ℕ → List ℕ
down_from k zero = k ∷ []
down_from k (suc n) = k ∷ down_from (k - 1) n

unfoldable pub sequence : ℕ → ℕ → List ℕ
sequence lo hi = if leb lo hi then up_from lo (hi - lo) else down_from lo (lo - hi)

-- From `min_k` to `max_k`; with `n_overlap` zero, `min_k` is `max_k + 1`.
unfoldable pub anchors_of : ℕ → ℕ → ℕ → List ℕ
anchors_of window_hours stride_hours offset_h =
    let max_k = offset_h / stride_hours in
    let n_overlap = window_hours / stride_hours in sequence (suc max_k - n_overlap) max_k

-- Does the row count for the window of anchor k?
unfoldable pub is_member : ℕ → ℕ → ℕ → Row → Bool
is_member window_hours stride_hours k r =
    r.has_value
    && has eqb k (anchors_of window_hours stride_hours r.offset_h)
    && leb (k * stride_hours) r.offset_h
    && ltb (r.offset_h - k * stride_hours) window_hours

-- The `hour_idx` of the rows of one group of `window_stats`.
unfoldable pub hours_in : ℕ → ℕ → ℕ → List Row → List ℕ
hours_in window_hours stride_hours k [] = []
hours_in window_hours stride_hours k (r ∷ rs) =
    let rest = hours_in window_hours stride_hours k rs in
    if is_member window_hours stride_hours k r then (r.offset_h - k * stride_hours) ∷ rest else rest

unfoldable pub least : ℕ → List ℕ → ℕ
least x [] = x
least x (y ∷ ys) = least (if ltb y x then y else x) ys

unfoldable pub greatest : ℕ → List ℕ → ℕ
greatest x [] = x
greatest x (y ∷ ys) = greatest (if ltb x y then y else x) ys

-- `is_good_window`; an anchor with no rows has no group.
unfoldable pub is_good_window : ℕ → List ℕ → Bool
is_good_window window_hours [] = false
is_good_window window_hours (h ∷ hs) =
    eqb (length (h ∷ hs)) window_hours
    && eqb (least h hs) 0
    && eqb (greatest h hs) (window_hours - 1)

-- `series_end`
unfoldable pub series_end : List Row → ℕ
series_end [] = 0
series_end (r ∷ rs) =
    let rest = series_end rs in if r.has_value && ltb rest r.offset_h then r.offset_h else rest

-- The anchors that `explode` gives rows to.
unfoldable pub add_all : List ℕ → List ℕ → List ℕ
add_all [] seen = seen
add_all (k ∷ ks) seen = add_all ks (add eqb k seen)

unfoldable pub anchor_keys : ℕ → ℕ → List Row → List ℕ
anchor_keys window_hours stride_hours [] = []
anchor_keys window_hours stride_hours (r ∷ rs) =
    add_all (anchors_of window_hours stride_hours r.offset_h)
      (anchor_keys window_hours stride_hours rs)

unfoldable pub passes : ℕ → ℕ → List Row → ℕ → Bool
passes window_hours stride_hours rows k =
    is_good_window window_hours (hours_in window_hours stride_hours k rows)
    && leb (k * stride_hours + (window_hours - 1)) (series_end rows)

unfoldable pub keep_good : (ℕ → Bool) → List ℕ → List ℕ
keep_good p [] = []
keep_good p (k ∷ ks) = let rest = keep_good p ks in if p k then k ∷ rest else rest

-- The anchors of the windows that are kept.
unfoldable pub good_anchors : ℕ → ℕ → List Row → List ℕ
good_anchors window_hours stride_hours rows =
    keep_good (passes window_hours stride_hours rows) (anchor_keys window_hours stride_hours rows)
