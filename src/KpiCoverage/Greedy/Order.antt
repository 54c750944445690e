-- ===== src/KpiCoverage/Greedy/Order.antt =====
-- `_greedy_order` as a whole: which rows it gives, in which order, and the counts beside them.
use innovativeproject_pm_gen.Base.{
  ltb→lt, lt→ltb, subst, ℕ, ◌≡◌, refl, true, List, [], ◌∷◌, ◌++◌, length, arith, ltb, eqb, ◌≤◌, ◌<◌,
  ap, sym, ◌∙◌,
}
use innovativeproject_pm_gen.KpiCoverage.Greedy.{
  sorted_down, greedy_order, kept, seeded, flatnonzero, row_sum, seed_pass, range_from, pick,
  greedy_fill, Pass, pick_all, Matrix,
}
use innovativeproject_pm_gen.Base.Sets.{has, Distinct}
use innovativeproject_pm_gen.KpiCoverage.Greedy.Rows.{
  range_from-Distinct, Exhausts-length, has-sorted_down, sorted_down-Distinct, length-range_from,
  Exhausts-append, length-discard_all, has-range, Exhausts-has, Exhausts-Distinct, discard_all,
  Exhausts,
}
use innovativeproject_pm_gen.KpiCoverage.Greedy.Choice.{
  argmax-IsMost, greedy_fill-IsGreedy, IsGreedy, IsArrangement,
}
use innovativeproject_pm_gen.KpiCoverage.Greedy.Joint.{
  pick_all-counts, curve, kept-joint, joint, pick_all-order, blank-IsLive, pick_all-IsLive, blank,
}
use innovativeproject_pm_gen.Base.Result.{>>=-eq-ok, ◌>>=◌, ok}

pick_all-append :
    (m : Matrix) (first rest : List ℕ) (p : Pass)
    → pick_all m rest (pick_all m first p) ≡ pick_all m (first ++ rest) p
unfolding pick_all
pick_all-append m [] rest p = refl
pick_all-append m (r ∷ rs) rest p = pick_all-append m rs rest (pick m r p)

pick_all-available :
    (m : Matrix) (rows : List ℕ) (p : Pass)
    → (pick_all m rows p).available ≡ discard_all rows p.available
unfolding pick_all discard_all pick
pick_all-available m [] p = refl
pick_all-available m (r ∷ rs) p = pick_all-available m rs (pick m r p)

-- Every row of the matrix is listed exactly once.
abbrev pub IsOrder : Matrix → List ℕ → Type 0
IsOrder m rows =
    Distinct eqb rows × ((x : ℕ) → has eqb x rows ≡ ltb x m.n_kpis) × (length rows ≡ m.n_kpis)

Exhausts-IsOrder :
    (m : Matrix) (rows : List ℕ) → Exhausts (range_from 0 m.n_kpis) rows → IsOrder m rows
Exhausts-IsOrder m rows h = (
  Exhausts-Distinct _ rows h,
  λ x. Exhausts-has x _ rows h ∙ has-range x m.n_kpis,
  Exhausts-length _ rows h (range_from-Distinct 0 m.n_kpis) ∙ length-range_from 0 m.n_kpis,
)

-- Rows of the matrix, none twice.
abbrev pub AreRows : Matrix → List ℕ → Type 0
AreRows m rows = Distinct eqb rows × ((x : ℕ) → has eqb x rows ≡ true → x < m.n_kpis)

first_available :
    (m : Matrix) (first : List ℕ)
    → (pick_all m first (blank m)).available ≡ discard_all first (range_from 0 m.n_kpis)
unfolding blank
first_available m first = pick_all-available m first (blank m)

enough : (m : Matrix) (first : List ℕ) → length (pick_all m first (blank m)).available ≤ m.n_kpis
enough m first =
    rw (first_available m first) (
      omega (arith, length-discard_all first (range_from 0 m.n_kpis), length-range_from 0 m.n_kpis))

row_sum-joint : (m : Matrix) (s : ℕ) → row_sum m s ≡ joint m (s ∷ [])
unfolding row_sum flatnonzero kept blank
row_sum-joint m s = kept-joint m (blank m) s (blank-IsLive m)

module _ (m : Matrix) (arrange : List ℕ → List ℕ) (arranged : IsArrangement arrange) where
  filled :
      (first : List ℕ)
      → AreRows m first
      → (rest : List ℕ) × (greedy_fill m arrange m.n_kpis (pick_all m first (blank m))
          ≡ ok (pick_all m (first ++ rest) (blank m)))
        × IsOrder m (first ++ rest)
        × IsGreedy m first rest
  unfolding blank
  filled first (distinct, inside) =
      let p = pick_all m first (blank m) in
      let (rest, done, empty, greedy) =
        greedy_fill-IsGreedy m arrange arranged m.n_kpis p
          (pick_all-IsLive m first (blank m) (blank-IsLive m)) (enough m first) in
      let left = subst (λ a. Exhausts a rest) (first_available m first) empty in
      (
        rest,
        done ∙ ap ok (pick_all-append m first rest (blank m)),
        Exhausts-IsOrder m (first ++ rest) (
            Exhausts-append first rest _ distinct
              (λ x h. has-range x m.n_kpis ∙ lt→ltb x m.n_kpis (inside x h)) left),
        subst (λ a. IsGreedy m a rest) (pick_all-order m first (blank m)) greedy,
      )

  -- For rows that must come first.
  forced_fill :
      (r : ℕ) (rs : List ℕ)
      → AreRows m (r ∷ rs)
      → (rest : List ℕ) × ((seed_pass m (r ∷ rs) >>= λ p. greedy_fill m arrange m.n_kpis p)
          ≡ ok (pick_all m ((r ∷ rs) ++ rest) (blank m)))
        × IsOrder m ((r ∷ rs) ++ rest)
        × IsGreedy m (r ∷ rs) rest
  unfolding seed_pass ◌>>=◌ pick_all seeded pick blank flatnonzero
  forced_fill r rs h =
      let (rest, done, order, greedy) = filled (r ∷ rs) h in (rest, done, order, greedy)

  -- With none of them.
  free_fill :
      1 ≤ m.n_kpis
      → (rest : List ℕ) × ((seed_pass m [] >>= λ p. greedy_fill m arrange m.n_kpis p)
          ≡ ok (pick_all m rest (blank m)))
        × IsOrder m rest
        × IsGreedy m [] rest
  unfolding seed_pass ◌>>=◌ pick_all seeded pick blank flatnonzero IsGreedy
  free_fill some_row =
      let (a, chosen, found, most) =
        argmax-IsMost (row_sum m) (range_from 0 m.n_kpis) 0
          (has-range 0 m.n_kpis ∙ lt→ltb 0 m.n_kpis some_row) in
      let (rest, done, order, greedy) =
        filled (a ∷ [])
          ((refl, tt), λ x h. ground (arith, found, has-range a m.n_kpis, ltb→lt x m.n_kpis)) in
      (
        a ∷ rest,
        rw chosen done,
        order,
        (
          λ s i.
              rw (sym (row_sum-joint m s), sym (row_sum-joint m a))
                (most s (ground (arith, has-range s m.n_kpis, order.1 s))),
          greedy,
        ),
      )

  fill_seed :
      (first : List ℕ)
      → 1 ≤ m.n_kpis
      → AreRows m first
      → (rest : List ℕ) × ((seed_pass m first >>= λ p. greedy_fill m arrange m.n_kpis p)
          ≡ ok (pick_all m (first ++ rest) (blank m)))
        × IsOrder m (first ++ rest)
        × IsGreedy m first rest
  fill_seed [] some_row h = free_fill some_row
  fill_seed (r ∷ rs) some_row h = forced_fill r rs h

  lists_of :
      (forced rows : List ℕ)
      → (seed_pass m (sorted_down (row_sum m) forced) >>= λ p. greedy_fill m arrange m.n_kpis p)
        ≡ ok (pick_all m rows (blank m))
      → greedy_order m arrange forced ≡ ok (rows, curve m [] rows)
  unfolding greedy_order ◌>>=◌ blank
  lists_of forced rows h =
      let (p, first, second) =
        >>=-eq-ok (seed_pass m (sorted_down (row_sum m) forced))
          (λ p. greedy_fill m arrange m.n_kpis p) h in
      rw
        (
          first,
          second,
          pick_all-order m rows (blank m),
          pick_all-counts m rows (blank m) (blank-IsLive m),
        )
        refl

  -- On a matrix with a row, and for forced rows of it without repetition, `_greedy_order` returns
  -- every row exactly once, the forced rows first by descending coverage, beside the number of
  -- columns that all the rows up to each one have; no row that is not forced keeps fewer columns
  -- than a row placed after it would have kept in its place.
  pub greedy_order-IsGreedy :
      (forced_rows : List ℕ)
      → 1 ≤ m.n_kpis
      → AreRows m forced_rows
      → (rest : List ℕ) × let first = sorted_down (row_sum m) forced_rows in
          (greedy_order m arrange forced_rows ≡ ok (first ++ rest, curve m [] (first ++ rest)))
          × IsOrder m (first ++ rest)
          × IsGreedy m first rest
  greedy_order-IsGreedy forced_rows some_row (distinct, inside) =
      let first = sorted_down (row_sum m) forced_rows in
      let (rest, done, order, greedy) = fill_seed first some_row (
        sorted_down-Distinct (row_sum m) forced_rows distinct,
        λ x h. inside x (sym (has-sorted_down (row_sum m) x forced_rows) ∙ h),
      ) in
      (rest, (lists_of forced_rows (first ++ rest) done, order, greedy))
