-- ===== src/KpiCoverage/Joint.antt =====
-- apps/generator/genpm/preprocessing/logic/kpi_coverage.py, `filter_joint_complete_windows`. A row is
-- a KPI and the anchor of one of its good windows: the group with the start time.
pub mod Laws
use innovativeproject_pm_gen.Base.{
  String, Bool, List, [], ◌∷◌, length, eqb, if◌then◌else◌, ◌==◌, ◌&&◌,
}
use innovativeproject_pm_gen.Base.Sets.{has, add}
use innovativeproject_pm_gen.Base.Table.{member}

-- `good_windows.filter(f.col("kpi_id").isin(selected_kpis))`
unfoldable pub selected_windows : List String → List (String × String) → List (String × String)
selected_windows selected_kpis [] = []
selected_windows selected_kpis ((kpi_id, anchor) ∷ rows) =
    let rest = selected_windows selected_kpis rows in
    if member kpi_id selected_kpis then (kpi_id, anchor) ∷ rest else rest

-- The distinct KPIs of an anchor's group.
unfoldable pub kpis_at : String → List (String × String) → List String
kpis_at a [] = []
kpis_at a ((kpi_id, anchor) ∷ rows) =
    let rest = kpis_at a rows in if anchor == a then add ◌==◌ kpi_id rest else rest

-- `n_kpis_present == n_selected`
unfoldable pub is_complete : List String → List (String × String) → String → Bool
is_complete selected_kpis rows a = eqb (length (kpis_at a rows)) (length selected_kpis)

-- The inner join with the anchors that pass.
unfoldable pub join_anchors : (String → Bool) → List (String × String) → List (String × String)
join_anchors passes [] = []
join_anchors passes ((kpi_id, anchor) ∷ rows) =
    let rest = join_anchors passes rows in if passes anchor then (kpi_id, anchor) ∷ rest else rest

unfoldable pub filter_joint_complete_windows :
    List String → List (String × String) → List (String × String)
filter_joint_complete_windows selected_kpis good_windows =
    let rows = selected_windows selected_kpis good_windows in
    join_anchors (is_complete selected_kpis rows) rows
