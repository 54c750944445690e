-- ===== src/KpiCoverage/Emit/Marks.antt =====
-- The rows that `emit_window_index` gives, against a description of each row by the good windows.
use innovativeproject_pm_gen.Base.{
  ℕ, String, Bool, true, false, Option, none, some, List, [], ◌∷◌, ltb, leb, eqb, ◌==◌, ◌&&◌, ◌||◌,
  ◌+◌, if◌then◌else◌, ◌≡◌, refl, arith, Bool-cases, inl, inr, eq_iff,
}
use innovativeproject_pm_gen.Base.Sets.{has}
use innovativeproject_pm_gen.KpiCoverage.Emit.{
  Window, Anchor, PmRow, same_anchor, anchors, is_selected, in_span, matching, pair_with, left_join,
  emit_window_index,
}

-- A good window of the group, of any KPI, begins at the hour.
unfoldable pub begins : String → ℕ → List Window → Bool
begins g t [] = false
begins g t ((h, k, s) ∷ ws) = (h == g && eqb s t) || begins g t ws

-- A good window of the group, of any KPI, holds the hour.
unfoldable pub holds : ℕ → String → ℕ → List Window → Bool
holds n g t [] = false
holds n g t ((h, k, s) ∷ ws) = (h == g && leb s t && ltb t (s + n)) || holds n g t ws

-- Every row once or not at all, marked with its own hour or not.
unfoldable pub marked : {V : Type 0} → ℕ → List (PmRow V) → List Window → List (PmRow V × Option ℕ)
marked n [] ws = []
marked n (p ∷ pm) ws =
    let rest = marked n pm ws in
    if is_selected (p.group) (p.kpi_id) ws && holds n (p.group) (p.start_time) ws
    then (p, (if begins (p.group) (p.start_time) ws then some (p.start_time) else none)) ∷ rest
    else rest

has-anchors :
    (g : String) (t : ℕ) (ws : List Window) → has same_anchor (g, t) (anchors ws) ≡ begins g t ws
unfolding anchors begins
has-anchors g t [] = refl
has-anchors g t ((h, k, s) ∷ ws) =
    ground (arith, has-anchors g t ws, has-anchors h s ws, eq_iff h g)

in_span-has :
    (n : ℕ) (g h : String) (t s : ℕ) (spans : List Anchor)
    → has same_anchor (h, s) spans ≡ true
    → ((h == g && leb s t && ltb t (s + n)) || in_span n g t spans) ≡ in_span n g t spans
unfolding in_span
in_span-has n g h t s [] e = ground arith
in_span-has n g h t s ((i, r) ∷ spans) e =
    ground (arith, in_span-has n g h t s spans, eq_iff i h, eq_iff h g, eq_iff i g)

in_span-anchors :
    (n : ℕ) (g : String) (t : ℕ) (ws : List Window) → in_span n g t (anchors ws) ≡ holds n g t ws
unfolding anchors in_span holds
in_span-anchors n g t [] = refl
in_span-anchors n g t ((h, k, s) ∷ ws) =
    ground (arith, in_span-anchors n g t ws, has-anchors h s ws, in_span-has n g h t s (anchors ws))

matching-anchors :
    (g : String) (t : ℕ) (ws : List Window)
    → matching g t (anchors ws) ≡ (if begins g t ws then t ∷ [] else [])
unfolding anchors matching begins
matching-anchors g t [] = refl
matching-anchors g t ((h, k, s) ∷ ws) =
    ground (arith, matching-anchors g t ws, has-anchors h s ws, eq_iff h g)

-- For any width of a window, emit_window_index gives a row exactly if its group and KPI are those
-- of a good window and a good window of its group, of any KPI, holds its hour; it gives the row
-- once, in its place, and marks it with its own hour exactly if a good window of its group begins there.
pub emit_window_index-marked :
    {V : Type 0}
    → (window_hours : ℕ) (pm : List (PmRow V)) (good_windows : List Window)
    → emit_window_index window_hours pm good_windows ≡ marked window_hours pm good_windows
unfolding emit_window_index marked left_join pair_with
emit_window_index-marked n [] ws = refl
emit_window_index-marked n (p ∷ pm) ws =
    rw
      (
        in_span-anchors n (p.group) (p.start_time) ws,
        matching-anchors (p.group) (p.start_time) ws,
        emit_window_index-marked n pm ws,
      )
      (elim (Bool-cases (begins (p.group) (p.start_time) ws)) [
        | inl e ↦ rw e refl
        | inr e ↦ rw e refl
      ])
