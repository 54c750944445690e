-- ===== src/KpiCoverage/Collect/Cells.antt =====
-- What a cell of the collected matrix says.
use innovativeproject_pm_gen.Base.{String, true, List, [], ℕ, some, ◌≡◌, ◌∙◌, refl, arith}
use innovativeproject_pm_gen.Base.Table.{member}
use innovativeproject_pm_gen.KpiCoverage.Collect.{
  collect_rows, collect_kpi_coverage, Entry, sort_entries, entry_at, entries_of, all_anchors,
  index_of, row_cell,
}
use innovativeproject_pm_gen.KpiCoverage.Collect.Laws.{
  covers, has_window, covers-collect, has-index_of,
}
use innovativeproject_pm_gen.KpiCoverage.Collect.Keys.{
  distinct, distinct-collect, distinct-sort, covers-sort, covers-entry_at, entry_at-member,
}

-- The set in a row of the matrix has the anchors of all collected rows of the KPI.
entries_of-row :
    (a : String) (i : ℕ) (k : String) (ps candidates : List String) (rows : List Entry)
    → entry_at i (entries_of candidates rows) ≡ some (k, ps)
    → member a ps ≡ has_window k a rows
unfolding entries_of distinct covers
entries_of-row a i k ps candidates rows h =
    let table = collect_rows candidates rows [] in
    let d = distinct-collect candidates rows [] refl in
    ground (
      arith,
      covers-entry_at a i k ps (sort_entries table) (distinct-sort table d) h,
      covers-sort k a table d,
      covers-collect k a candidates rows [],
      entry_at-member i k ps candidates rows h,
    )

-- In the collected matrix, the cell of a row, which belongs to the KPI at that place of the order,
-- and of the column of an anchor among all anchors says whether any collected row of the KPI has a
-- window at the anchor, and the KPI is one of the candidates.
pub collect_kpi_coverage-cell :
    (a : String) (i : ℕ) (k : String) (ps candidates : List String) (rows : List Entry)
    → entry_at i (entries_of candidates rows) ≡ some (k, ps)
    → member a (all_anchors (entries_of candidates rows) []) ≡ true
    → ((collect_kpi_coverage candidates rows).cell i
          (index_of a (all_anchors (entries_of candidates rows) []))
        ≡ has_window k a rows)
      × (member k candidates ≡ true)
unfolding collect_kpi_coverage entries_of row_cell
collect_kpi_coverage-cell a i k ps candidates rows h m =
    let row = has-index_of a (all_anchors (entries_of candidates rows) []) ps m in
    (
      rw h (row ∙ entries_of-row a i k ps candidates rows h),
      entry_at-member i k ps candidates rows h,
    )
