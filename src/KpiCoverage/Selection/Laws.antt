-- ===== src/KpiCoverage/Selection/Laws.antt =====
-- What the selected KPIs have in common, and where the elbow has no value.
use innovativeproject_pm_gen.Base.{
  append_nil, append_assoc, add_zero, ◌∙◌, sym, subst, inr, ◌&&◌, Bool-cases, inl, ◌⊎◌, length, ◌+◌,
  map, ℕ, suc, ◌≡◌, refl, String, ◌||◌, List, [], ◌∷◌, ◌++◌, ltb, leb, if◌then◌else◌, arith, ◌≤◌,
}
use innovativeproject_pm_gen.KpiCoverage.Greedy.Joint.{joint-snoc, joint, curve}
use innovativeproject_pm_gen.KpiCoverage.Selection.{select}
use innovativeproject_pm_gen.KpiCoverage.Greedy.{Matrix}

-- The names of all steps that are forced or whose count reaches the floor.
unfoldable pub reaching : (ℕ → String) → ℕ → ℕ → ℕ → List ℕ → List ℕ → List String
reaching kpi_ids floor n_forced k [] counts = []
reaching kpi_ids floor n_forced k (row ∷ rows) [] = []
reaching kpi_ids floor n_forced k (row ∷ rows) (c ∷ counts) =
    let rest = reaching kpi_ids floor n_forced (suc k) rows counts in
    if ltb k n_forced || leb floor c then kpi_ids row ∷ rest else rest

-- No count is above `top`, nor above the one before it.
unfoldable pub Falls : ℕ → List ℕ → Type 0
Falls top [] = Unit
Falls top (c ∷ cs) = (c ≤ top) × Falls c cs

pub curve-Falls : (m : Matrix) (before rows : List ℕ) → Falls (joint m before) (curve m before rows)
unfolding Falls curve
curve-Falls m before [] = tt
curve-Falls m before (r ∷ rs) = (joint-snoc m before r, curve-Falls m (before ++ (r ∷ [])) rs)

module _ (kpi_ids : ℕ → String) (floor n_forced : ℕ) where
  reaching-none :
      (top k : ℕ) (rows counts : List ℕ)
      → Falls top counts
      → n_forced ≤ k
      → suc top ≤ floor
      → reaching kpi_ids floor n_forced k rows counts ≡ []
  unfolding reaching Falls
  reaching-none top k [] counts falls late low = refl
  reaching-none top k (row ∷ rows) [] falls late low = refl
  reaching-none top k (row ∷ rows) (c ∷ counts) (le, falls) late low =
      ground (arith, reaching-none c (suc k) rows counts falls)

  pub select-Falls :
      (top k : ℕ) (rows counts : List ℕ)
      → Falls top counts
      → select kpi_ids floor n_forced k rows counts ≡ reaching kpi_ids floor n_forced k rows counts
  unfolding reaching select Falls
  select-Falls top k [] counts falls = refl
  select-Falls top k (row ∷ rows) [] falls = refl
  select-Falls top k (row ∷ rows) (c ∷ counts) (le, falls) =
      ground
        (arith, reaching-none c (suc k) rows counts falls, select-Falls c (suc k) rows counts falls)

  still :
      (m : Matrix) (before more : List ℕ)
      → (more ≡ []) ⊎ (floor ≤ joint m (before ++ more))
      → floor ≤ joint m before
      → floor ≤ joint m (before ++ more)
  still m before more (inl none_more) h = rw (none_more, append_nil before) h
  still m before more (inr k) h = k

  -- Past the forced steps, what is selected is a prefix that reaches the floor.
  pub select-prefix :
      (m : Matrix) (k : ℕ) (before rest : List ℕ)
      → n_forced ≤ k
      → (more : List ℕ) × (select kpi_ids floor n_forced k rest (curve m before rest)
          ≡ map kpi_ids more)
        × ((more ≡ []) ⊎ (floor ≤ joint m (before ++ more)))
  unfolding select curve
  select-prefix m k before [] late = ([], refl, inl refl)
  select-prefix m k before (r ∷ rs) late =
      let n = joint m (before ++ (r ∷ [])) in
      let (more, same, reached) = select-prefix m (suc k) (before ++ (r ∷ [])) rs (omega arith) in
      elim (Bool-cases (leb n_forced k && ltb n floor)) [
        | inl stop ↦ ([], rw stop refl, inl refl)
        | inr go ↦ (
          r ∷ more,
          rw (go, same) refl,
          inr (
              subst (λ l. floor ≤ joint m l) (append_assoc before (r ∷ []) more)
                (still m (before ++ (r ∷ [])) more reached (ground arith))),
        )
      ]

  pub select-forced :
      (m : Matrix) (k : ℕ) (before first rest : List ℕ)
      → k + length first ≡ n_forced
      → select kpi_ids floor n_forced k (first ++ rest) (curve m before (first ++ rest))
        ≡ map kpi_ids first
          ++ select kpi_ids floor n_forced n_forced rest (curve m (before ++ first) rest)
  unfolding select curve
  select-forced m k before [] rest e = rw (append_nil before, sym (add_zero k) ∙ e) refl
  select-forced m k before (r ∷ rs) rest e =
      rw
        (
          sym (append_assoc before (r ∷ []) rs),
          sym (select-forced m (suc k) (before ++ (r ∷ [])) rs rest (omega arith)),
        )
        (ground arith)
