-- ===== src/KpiCoverage/Selection/Floor.antt =====
-- `greedy_joint_kpi_selection` as a whole: the floor it respects, and the elbow that sets it.
use innovativeproject_pm_gen.Base.{
  ◌⊎◌, ◌∙◌, map, ltb→lt, inr, inl, Option-cases, ◌<◌, eqb, ℕ, suc, ◌≡◌, refl, String, true, none,
  some, List, [], ◌∷◌, ◌++◌, length, arith, ◌≤◌,
}
use innovativeproject_pm_gen.KpiCoverage.Selection.{
  floor_of, greedy_joint_kpi_selection, select, keep_row, row_of, forced_rows_of, find_elbow,
}
use innovativeproject_pm_gen.Base.Sets.{Distinct, has}
use innovativeproject_pm_gen.KpiCoverage.Greedy.{
  row_sum, greedy_order, sorted_down, empty_argmin, range_from, Matrix,
}
use innovativeproject_pm_gen.Base.Result.{err, ok, ◌>>=◌}
use innovativeproject_pm_gen.KpiCoverage.Greedy.Joint.{joint, curve}
use innovativeproject_pm_gen.KpiCoverage.Greedy.Rows.{length-sorted_down, has-range}
use innovativeproject_pm_gen.KpiCoverage.Selection.Laws.{
  select-forced, select-prefix, select-Falls, curve-Falls, reaching,
}
use innovativeproject_pm_gen.KpiCoverage.Greedy.Choice.{IsGreedy, IsArrangement}
use innovativeproject_pm_gen.KpiCoverage.Greedy.Order.{greedy_order-IsGreedy, IsOrder}
use innovativeproject_pm_gen.KpiCoverage.Selection.Elbow.{
  suggest_threshold-suc, count_at-keeps, find_elbow-bound, length-curve, find_elbow-short,
}

row_of-inside :
    (kpi_ids : ℕ → String) (kpi : String) (rows : List ℕ) {r : ℕ}
    → row_of kpi_ids kpi rows ≡ some r
    → has eqb r rows ≡ true
unfolding row_of
row_of-inside kpi_ids kpi [] {r} h = cc
row_of-inside kpi_ids kpi (x ∷ xs) {r} h = ground (arith, row_of-inside kpi_ids kpi xs {r = r})

forced_rows_of-inside :
    (m : Matrix) (kpi_ids : ℕ → String) (kpis : List String) (x : ℕ)
    → has eqb x (forced_rows_of m kpi_ids kpis) ≡ true
    → x < m.n_kpis
unfolding forced_rows_of keep_row
forced_rows_of-inside m kpi_ids [] x h = ground arith
forced_rows_of-inside m kpi_ids (kpi ∷ kpis) x h =
    elim (Option-cases (row_of kpi_ids kpi (range_from 0 m.n_kpis))) [
      | inl e ↦ forced_rows_of-inside m kpi_ids kpis x (rw e at h)
      | inr (r, e) ↦ ground (
        arith,
        rw e at h,
        row_of-inside kpi_ids kpi (range_from 0 m.n_kpis) e,
        has-range r m.n_kpis,
        ltb→lt r m.n_kpis,
        forced_rows_of-inside m kpi_ids kpis x,
      )
    ]

module _ (m : Matrix) (kpi_ids : ℕ → String) (arrange : List ℕ → List ℕ)
    (arranged : IsArrangement arrange) (forced_kpis : List String) where
  abbrev forced : List ℕ
  forced = forced_rows_of m kpi_ids forced_kpis

  abbrev first_rows : List ℕ
  first_rows = sorted_down (row_sum m) forced

  order_of :
      1 ≤ m.n_kpis
      → Distinct eqb forced
      → (rest : List ℕ) × (greedy_order m arrange forced
          ≡ ok (first_rows ++ rest, curve m [] (first_rows ++ rest)))
        × IsOrder m (first_rows ++ rest)
        × IsGreedy m first_rows rest
  order_of some_row distinct =
      let (rest, (done, order, greedy)) =
        greedy_order-IsGreedy m arrange arranged forced some_row
          (distinct, forced_rows_of-inside m kpi_ids forced_kpis) in
      (rest, done, order, greedy)

  -- With a floor given, on a matrix with a row and forced KPIs none of which is listed twice, the
  -- selection returns the names of the forced rows of the matrix, by descending coverage, and of
  -- rows after them; either there are none of these, or at least `floor` columns are common to all
  -- rows selected.
  pub selection-HasFloor :
      (floor : ℕ)
      → 1 ≤ m.n_kpis
      → Distinct eqb forced
      → (more : List ℕ) × (greedy_joint_kpi_selection m kpi_ids arrange (some floor) forced_kpis
          ≡ ok (map kpi_ids first_rows ++ map kpi_ids more))
        × ((more ≡ []) ⊎ (floor ≤ joint m (first_rows ++ more)))
  unfolding greedy_joint_kpi_selection floor_of ◌>>=◌
  selection-HasFloor floor some_row distinct =
      let (rest, done, order, greedy) = order_of some_row distinct in
      let n = length forced in
      let (more, same, reached) = select-prefix kpi_ids floor n m n first_rows rest (omega arith) in
      (
        more,
        rw
            (
              done,
              select-forced kpi_ids floor n m 0 [] first_rows rest
                  (omega (arith, length-sorted_down (row_sum m) forced)),
              same,
            )
            refl,
        reached,
      )

  -- With a floor given, on a matrix with a row and forced KPIs none of which is listed twice,
  -- stopping at the first step below the floor
  -- selects the same KPIs as the test of every step of the order by itself: those that are forced
  -- and those whose count of common columns reaches the floor.
  pub selection-reaching :
      (floor : ℕ)
      → 1 ≤ m.n_kpis
      → Distinct eqb forced
      → (rows : List ℕ) × (greedy_order m arrange forced ≡ ok (rows, curve m [] rows))
        × (greedy_joint_kpi_selection m kpi_ids arrange (some floor) forced_kpis
            ≡ ok (reaching kpi_ids floor (length forced) 0 rows (curve m [] rows)))
  unfolding greedy_joint_kpi_selection floor_of ◌>>=◌
  selection-reaching floor some_row distinct =
      let (rest, done, order, greedy) = order_of some_row distinct in
      let rows = first_rows ++ rest in
      (
        rows,
        done,
        rw
            (
              done,
              select-Falls kpi_ids floor (length forced) (joint m []) 0 rows (curve m [] rows)
                  (curve-Falls m [] rows),
            )
            refl,
      )

  -- With no floor given, on a matrix of at least three rows and forced KPIs none of which is
  -- listed twice, the selection returns at least as many KPIs as the index of the elbow of the
  -- coverage curve of the greedy order, which is positive and below the number of rows.
  pub selection-elbow :
      3 ≤ m.n_kpis
      → Distinct eqb forced
      → (rows : List ℕ) × (elbow : ℕ) × (names : List String) × (greedy_order m arrange forced
          ≡ ok (rows, curve m [] rows))
        × (find_elbow (curve m [] rows) ≡ ok elbow)
        × (1 ≤ elbow)
        × (elbow < m.n_kpis)
        × (greedy_joint_kpi_selection m kpi_ids arrange none forced_kpis ≡ ok names)
        × (elbow ≤ length names)
  unfolding greedy_joint_kpi_selection floor_of ◌>>=◌
  selection-elbow long distinct =
      let (rest, done, order, greedy) = order_of (omega arith) distinct in
      let rows = first_rows ++ rest in
      let counts = curve m [] rows in
      let size = length-curve m [] rows ∙ order.2 in
      let (i, at, inside) = find_elbow-bound counts (rw size long) in
      let (floor, found, low, enough_steps) =
        count_at-keeps kpi_ids (length forced) (joint m []) 0 i rows counts (curve-Falls m [] rows)
          (omega arith) (omega (arith, length-curve m [] rows)) in
      (
        rows,
        suc i,
        select kpi_ids floor (length forced) 0 rows counts,
        done,
        at,
        omega arith,
        omega (arith, inside, size),
        rw (done, at, suggest_threshold-suc counts i, found) refl,
        enough_steps,
      )

  -- With no floor given, on a matrix of one or two rows and forced KPIs none of which is listed
  -- twice, the selection raises: the second difference of its curve is empty and has no least
  -- element.
  selection-short :
      1 ≤ m.n_kpis
      → m.n_kpis ≤ 2
      → Distinct eqb forced
      → greedy_joint_kpi_selection m kpi_ids arrange none forced_kpis ≡ err empty_argmin
  unfolding greedy_joint_kpi_selection floor_of ◌>>=◌
  selection-short some_row short distinct =
      let (rest, done, order, greedy) = order_of some_row distinct in
      let rows = first_rows ++ rest in
      rw (done, find_elbow-short (curve m [] rows) (rw (length-curve m [] rows, order.2) short))
        refl
