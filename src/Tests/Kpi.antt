-- ===== src/Tests/Kpi.antt =====
-- A small coverage matrix and a short series, on which the theorems on KPI coverage are applied.
use innovativeproject_pm_gen.Base.{
  zero, ◌&&◌, ℕ, suc, String, Bool, true, false, List, [], ◌∷◌, ◌++◌, ◌≡◌, refl, ◌⊎◌, Option, none,
  some, ltb, leb, eqb, ◌≤◌, ◌<◌, map, length, arith, ◌+◌, ◌*◌, ◌==◌,
}
use innovativeproject_pm_gen.Base.Sets.{has}
use innovativeproject_pm_gen.KpiCoverage.Greedy.{
  kept, pick_all, pick, flatnonzero, argmax_from, where_true, discard, seeded, is_left, greedy_fill,
  argmax, range_from, insert_down, seed_pass, row_sum, sorted_down, greedy_order, Matrix,
}
use innovativeproject_pm_gen.KpiCoverage.Windows.{
  series_end, greatest, least, down_from, up_from, sequence, is_member, hours_in, is_good_window,
  passes, add_all, anchor_keys, keep_good, good_anchors, anchors_of, Row,
}
use innovativeproject_pm_gen.KpiCoverage.Selection.{
  diff_ℤ, diff, argmin_from, argmin, count_at, suggest_threshold, select, floor_of, keep_row,
  row_of, find_elbow, greedy_joint_kpi_selection, forced_rows_of,
}
use innovativeproject_pm_gen.KpiCoverage.Imputability.{
  count_row, with_runs, group_runs, lengths_of, null_run_lengths,
}
use innovativeproject_pm_gen.KpiCoverage.Prefilter.{prefilter_kpis-keeps, prefilter_kpis}
use innovativeproject_pm_gen.KpiCoverage.Windows.Cover.{good_anchors-covered, covered}
use innovativeproject_pm_gen.Base.Result.{◌>>=◌, ok}
use innovativeproject_pm_gen.KpiCoverage.Windows.Anchors.{anchors_of-has}
use innovativeproject_pm_gen.KpiCoverage.Greedy.Joint.{joint, curve}
use innovativeproject_pm_gen.KpiCoverage.Selection.Laws.{reaching}
use innovativeproject_pm_gen.KpiCoverage.Selection.Floor.{
  selection-HasFloor, selection-reaching, selection-elbow,
}
use innovativeproject_pm_gen.KpiCoverage.Greedy.Choice.{IsGreedy}
use innovativeproject_pm_gen.KpiCoverage.Greedy.Order.{IsOrder, greedy_order-IsGreedy}
use innovativeproject_pm_gen.Base.Int.{◌-ℤ◌}
use innovativeproject_pm_gen.KpiCoverage.Joint.{
  selected_windows, kpis_at, is_complete, join_anchors, filter_joint_complete_windows,
}
use innovativeproject_pm_gen.Base.Table.{member, member_pair}
use innovativeproject_pm_gen.KpiCoverage.Joint.Laws.{filter_joint_complete_windows-has, has_all}
use innovativeproject_pm_gen.KpiCoverage.Collect.{
  collect_kpi_coverage, entries_of, collect_rows, cover, add_pairs, sort_entries, insert_entry,
  all_anchors, index_of, entry_at, row_cell, Entry,
}
use innovativeproject_pm_gen.KpiCoverage.Collect.Laws.{has_window}
use innovativeproject_pm_gen.KpiCoverage.Collect.Cells.{collect_kpi_coverage-cell}
use innovativeproject_pm_gen.KpiCoverage.Emit.{Window, PmRow, is_selected, emit_window_index}
use innovativeproject_pm_gen.KpiCoverage.Emit.Marks.{
  marked, begins, holds, emit_window_index-marked,
}

-- KPI 0 has windows at anchors 0 to 3, KPI 1 at 0 to 2, KPI 2 at 2 and 3.
abbrev cell : ℕ → ℕ → Bool
cell zero c = ltb c 4
cell (suc zero) c = ltb c 3
cell (suc (suc zero)) c = leb 2 c && ltb c 4
cell (suc (suc (suc r))) c = false

abbrev small : Matrix
small = record { n_kpis = 3; n_anchors = 4; cell = cell }

abbrev two_rows : Matrix
two_rows = record { n_kpis = 2; n_anchors = 4; cell = cell }

abbrev as_listed : List ℕ → List ℕ
as_listed xs = xs

abbrev names : ℕ → String
names zero = "A"
names (suc zero) = "B"
names (suc (suc r)) = "C"

order_test : greedy_order small as_listed [] ≡ ok (0 ∷ 1 ∷ 2 ∷ [], 4 ∷ 3 ∷ 1 ∷ [])
unfolding greedy_order ◌>>=◌ seed_pass sorted_down insert_down argmax range_from greedy_fill is_left
    seeded discard where_true argmax_from row_sum flatnonzero pick pick_all kept
order_test = refl

forced_test : greedy_order small as_listed (2 ∷ []) ≡ ok (2 ∷ 0 ∷ 1 ∷ [], 2 ∷ 2 ∷ 1 ∷ [])
unfolding greedy_order ◌>>=◌ seed_pass sorted_down insert_down argmax range_from greedy_fill is_left
    seeded discard where_true argmax_from row_sum flatnonzero pick pick_all kept
forced_test = refl

selection_test : greedy_joint_kpi_selection small names as_listed (some 2) [] ≡ ok ("A" ∷ "B" ∷ [])
unfolding greedy_order ◌>>=◌ seed_pass sorted_down insert_down argmax range_from greedy_fill is_left
    seeded discard where_true argmax_from row_sum flatnonzero pick pick_all kept
    greedy_joint_kpi_selection forced_rows_of row_of keep_row floor_of select find_elbow
    suggest_threshold count_at argmin argmin_from diff diff_ℤ ◌-ℤ◌
selection_test = refl

-- A KPI that is forced twice is selected twice.
twice_test :
    greedy_joint_kpi_selection small names as_listed (some 2) ("A" ∷ "A" ∷ [])
    ≡ ok ("A" ∷ "A" ∷ "B" ∷ [])
unfolding greedy_order ◌>>=◌ seed_pass sorted_down insert_down argmax range_from greedy_fill is_left
    seeded discard where_true argmax_from row_sum flatnonzero pick pick_all kept
    greedy_joint_kpi_selection forced_rows_of row_of keep_row floor_of select find_elbow
    suggest_threshold count_at argmin argmin_from diff diff_ℤ ◌-ℤ◌
twice_test = refl

elbow_test : greedy_joint_kpi_selection small names as_listed none [] ≡ ok ("A" ∷ [])
unfolding greedy_order ◌>>=◌ seed_pass sorted_down insert_down argmax range_from greedy_fill is_left
    seeded discard where_true argmax_from row_sum flatnonzero pick pick_all kept
    greedy_joint_kpi_selection forced_rows_of row_of keep_row floor_of select find_elbow
    suggest_threshold count_at argmin argmin_from diff diff_ℤ ◌-ℤ◌
elbow_test = refl

abbrev six_hours : List Row
six_hours =
    record { offset_h = 0; has_value = true }
    ∷ record { offset_h = 1; has_value = true }
    ∷ record { offset_h = 2; has_value = true }
    ∷ record { offset_h = 3; has_value = true }
    ∷ record { offset_h = 4; has_value = true }
    ∷ record { offset_h = 5; has_value = false }
    ∷ []

windows_test : good_anchors 4 2 six_hours ≡ 0 ∷ []
unfolding good_anchors keep_good anchor_keys add_all passes is_good_window hours_in is_member
    anchors_of sequence up_from down_from least greatest series_end
windows_test = refl

-- Hours 0 to 4 have values, and yet no window of 5 hours is kept with a stride of 3.
stride_test : good_anchors 5 3 six_hours ≡ []
unfolding good_anchors keep_good anchor_keys add_all passes is_good_window hours_in is_member
    anchors_of sequence up_from down_from least greatest series_end
stride_test = refl

greedy_order-IsGreedy_example :
    (rest : List ℕ) × ((greedy_order small as_listed (2 ∷ [])
        ≡ ok (
          sorted_down (row_sum small) (2 ∷ []) ++ rest,
          curve small [] (sorted_down (row_sum small) (2 ∷ []) ++ rest),
        ))
      × IsOrder small (sorted_down (row_sum small) (2 ∷ []) ++ rest)
      × IsGreedy small (sorted_down (row_sum small) (2 ∷ [])) rest)
greedy_order-IsGreedy_example =
    greedy_order-IsGreedy small as_listed (λ x xs. refl) (2 ∷ []) (omega arith)
      ((refl, tt), λ x h. ground arith)

selection-HasFloor_example :
    (more : List ℕ) × (greedy_joint_kpi_selection small names as_listed (some 2) ("C" ∷ [])
      ≡ ok (
          map names (sorted_down (row_sum small) (forced_rows_of small names ("C" ∷ [])))
          ++ map names more))
    × ((more ≡ [])
        ⊎ (2
            ≤ joint small
                (sorted_down (row_sum small) (forced_rows_of small names ("C" ∷ [])) ++ more)))
unfolding forced_rows_of row_of keep_row range_from
selection-HasFloor_example =
    selection-HasFloor small names as_listed (λ x xs. refl) ("C" ∷ []) 2 (omega arith) (refl, tt)

selection-reaching_example :
    (rows : List ℕ) × (greedy_order small as_listed (forced_rows_of small names [])
      ≡ ok (rows, curve small [] rows))
    × (greedy_joint_kpi_selection small names as_listed (some 2) []
        ≡ ok (
            reaching names 2 (length (forced_rows_of small names [])) 0 rows (curve small [] rows)))
unfolding forced_rows_of row_of keep_row range_from
selection-reaching_example =
    selection-reaching small names as_listed (λ x xs. refl) [] 2 (omega arith) tt

selection-elbow_example :
    (rows : List ℕ) × (elbow : ℕ) × (kpis : List String) × (greedy_order small as_listed
        (forced_rows_of small names [])
      ≡ ok (rows, curve small [] rows))
    × (find_elbow (curve small [] rows) ≡ ok elbow)
    × (1 ≤ elbow)
    × (elbow < small.n_kpis)
    × (greedy_joint_kpi_selection small names as_listed none [] ≡ ok kpis)
    × (elbow ≤ length kpis)
unfolding forced_rows_of row_of keep_row range_from
selection-elbow_example = selection-elbow small names as_listed (λ x xs. refl) [] (omega arith) tt

anchors_of-has_example :
    has eqb 1 (anchors_of (2 * 2) 2 5) ≡ (leb (1 * 2) 5 && ltb 5 (1 * 2 + 2 * 2))
anchors_of-has_example = anchors_of-has 2 2 1 5 (omega arith) (omega arith)

good_anchors-covered_example :
    has eqb 0 (good_anchors (2 * 2) 2 six_hours) ≡ covered (0 * 2) (2 * 2) six_hours
good_anchors-covered_example =
    good_anchors-covered 2 2 0 (omega arith) (omega arith) six_hours
      (refl, (refl, (refl, (refl, (refl, (refl, tt))))))

abbrev with_gaps : List Bool
with_gaps = true ∷ false ∷ true ∷ true ∷ false ∷ []

runs_test : null_run_lengths with_gaps ≡ 1 ∷ 2 ∷ []
unfolding null_run_lengths lengths_of group_runs with_runs count_row
runs_test = refl

-- Breadths in percent; the quantile is that of the first KPI.
abbrev first_breadth : List (String × ℕ) → Option ℕ
first_breadth [] = none
first_breadth ((kpi_id, breadth) ∷ r) = some breadth

prefilter_kpis-keeps_example :
    (kpis : List String) × (prefilter_kpis ltb first_breadth
        (λ dropped total. ltb total (4 * dropped))
        5
        ((("A", 3) ∷ []) ++ ("B", 7) ∷ [])
      ≡ ok kpis)
    × (has ◌==◌ "B" kpis ≡ true)
prefilter_kpis-keeps_example =
    prefilter_kpis-keeps ltb
      (record { asymmetric = λ a b h. ground arith; before_upper = λ a b c h k. ground arith })
      first_breadth (λ dropped total. ltb total (4 * dropped)) 5 "B" 7 (("A", 3) ∷ []) [] refl refl

abbrev good : List (String × String)
good = ("A", "c1 t0") ∷ ("B", "c1 t0") ∷ ("A", "c1 t1") ∷ ("C", "c1 t1") ∷ []

joint_test :
    filter_joint_complete_windows ("A" ∷ "B" ∷ []) good ≡ ("A", "c1 t0") ∷ ("B", "c1 t0") ∷ []
unfolding filter_joint_complete_windows join_anchors is_complete kpis_at selected_windows
joint_test = refl

-- With a KPI selected twice no window is left.
joint_twice_test : filter_joint_complete_windows ("A" ∷ "A" ∷ "B" ∷ []) good ≡ []
unfolding filter_joint_complete_windows join_anchors is_complete kpis_at selected_windows
joint_twice_test = refl

filter_joint_complete_windows-has_example :
    member_pair ("B", "c1 t0") (filter_joint_complete_windows ("A" ∷ "B" ∷ []) good) ≡ (
      member_pair ("B", "c1 t0") good
      && (member "B" ("A" ∷ "B" ∷ [])
          && has_all (λ y. member_pair (y, "c1 t0") good) ("A" ∷ "B" ∷ [])))
filter_joint_complete_windows-has_example =
    filter_joint_complete_windows-has ("A" ∷ "B" ∷ []) good "B" "c1 t0" (refl, (refl, tt))

abbrev two_candidates : List String
two_candidates = "a" ∷ "b" ∷ []

abbrev collected : List Entry
collected =
    ("b", "g1" ∷ []) ∷ ("a", "g1" ∷ "g2" ∷ []) ∷ ("c", "g4" ∷ []) ∷ ("a", "g3" ∷ "g2" ∷ []) ∷ []

collect_kpi_coverage-cell_example :
    ((collect_kpi_coverage two_candidates collected).cell 0 2 ≡ true)
    × (member "a" two_candidates ≡ true)
unfolding collect_kpi_coverage entries_of collect_rows cover add_pairs sort_entries insert_entry
    all_anchors index_of entry_at row_cell has_window
collect_kpi_coverage-cell_example =
    collect_kpi_coverage-cell "g3" 0 "a" ("g1" ∷ "g2" ∷ "g3" ∷ []) two_candidates collected refl
      refl

-- Two KPIs have a window at hour 0 of one group, and the second one also at hour 2.
abbrev two_windows : List Window
two_windows = ("g", "a", 0) ∷ ("g", "b", 0) ∷ ("g", "b", 2) ∷ []

abbrev at_hour : String → ℕ → PmRow ℕ
at_hour kpi_id t = record { group = "g"; kpi_id = kpi_id; start_time = t; kpi_value = 7 }

abbrev long_rows : List (PmRow ℕ)
long_rows = at_hour "a" 0 ∷ at_hour "a" 1 ∷ at_hour "c" 1 ∷ at_hour "b" 2 ∷ at_hour "b" 4 ∷ []

emit_window_index-marked_example :
    emit_window_index 2 long_rows two_windows
    ≡ (at_hour "a" 0, some 0) ∷ (at_hour "a" 1, none) ∷ (at_hour "b" 2, some 2) ∷ []
unfolding marked begins holds is_selected
emit_window_index-marked_example = emit_window_index-marked 2 long_rows two_windows
