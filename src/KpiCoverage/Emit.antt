-- ===== src/KpiCoverage/Emit.antt =====
-- apps/generator/genpm/preprocessing/logic/kpi_coverage.py, `emit_window_index`: the rows of the
-- selected series that a window holds, with a mark on those that begin one. A group is one text and
-- times are whole hours. No value of a column that a join compares is null; `kpi_value` stands for
-- the value with the flag of imputation.
pub mod Marks
use innovativeproject_pm_gen.Base.{
  ℕ, String, Bool, false, Option, none, some, List, [], ◌∷◌, ◌++◌, ltb, leb, eqb, ◌==◌, ◌&&◌, ◌||◌,
  ◌+◌, if◌then◌else◌,
}
use innovativeproject_pm_gen.Base.Sets.{has}

-- The group, the KPI and the start time.
abbrev pub Window : Type 0
Window = String × String × ℕ

abbrev pub Anchor : Type 0
Anchor = String × ℕ

pub record PmRow (V : Type 0) : Type 0 where
  pub group : String
  pub kpi_id : String
  pub start_time : ℕ
  pub kpi_value : V

abbrev pub same_anchor : Anchor → Anchor → Bool
same_anchor (g, s) (h, t) = g == h && eqb s t

-- `anchors`, with `distinct()`
unfoldable pub anchors : List Window → List Anchor
anchors [] = []
anchors ((g, k, t) ∷ ws) =
    let rest = anchors ws in if has same_anchor (g, t) rest then rest else (g, t) ∷ rest

-- The join with `selected_pairs`.
unfoldable pub is_selected : String → String → List Window → Bool
is_selected g k [] = false
is_selected g k ((h, j, t) ∷ ws) = (h == g && j == k) || is_selected g k ws

-- The join with `anchor_spans`.
unfoldable pub in_span : ℕ → String → ℕ → List Anchor → Bool
in_span window_hours g t [] = false
in_span window_hours g t ((h, s) ∷ spans) =
    (h == g && leb s t && ltb t (s + window_hours)) || in_span window_hours g t spans

-- The anchors that the left join pairs with a row.
unfoldable pub matching : String → ℕ → List Anchor → List ℕ
matching g t [] = []
matching g t ((h, s) ∷ rows) =
    let rest = matching g t rows in if h == g && eqb t s then s ∷ rest else rest

unfoldable pub pair_with : {V : Type 0} → PmRow V → List ℕ → List (PmRow V × Option ℕ)
pair_with p [] = []
pair_with p (s ∷ ss) = (p, some s) ∷ pair_with p ss

unfoldable pub left_join : {V : Type 0} → PmRow V → List ℕ → List (PmRow V × Option ℕ)
left_join p [] = (p, none) ∷ []
left_join p (s ∷ ss) = pair_with p (s ∷ ss)

unfoldable pub emit_window_index :
    {V : Type 0} → ℕ → List (PmRow V) → List Window → List (PmRow V × Option ℕ)
emit_window_index window_hours [] good_windows = []
emit_window_index window_hours (p ∷ pm) good_windows =
    let rest = emit_window_index window_hours pm good_windows in
    if is_selected (p.group) (p.kpi_id) good_windows
      && in_span window_hours (p.group) (p.start_time) (anchors good_windows)
    then left_join p (matching (p.group) (p.start_time) (anchors good_windows)) ++ rest
    else rest
