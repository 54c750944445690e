-- ===== src/KpiCoverage/Greedy/Choice.antt =====
-- The loop of `_greedy_order`: it ends, and each row it picks keeps the most columns.
use innovativeproject_pm_gen.Base.{
  if◌then◌else◌, ◌⊎◌, ℕ, zero, suc, ◌≡◌, refl, true, false, List, [], ◌∷◌, ◌++◌, length, arith, ltb,
  eqb, ◌≤◌, sym, ◌∙◌, Bool-cases, inl, inr,
}
use innovativeproject_pm_gen.Base.Result.{ok, ◌>>=◌}
use innovativeproject_pm_gen.Base.Sets.{has}
use innovativeproject_pm_gen.KpiCoverage.Greedy.{
  is_left, pick, kept, Pass, pick_all, greedy_fill, argmax_from, argmax, Matrix,
}
use innovativeproject_pm_gen.KpiCoverage.Greedy.Joint.{kept-joint, pick-IsLive, IsLive, joint}
use innovativeproject_pm_gen.KpiCoverage.Greedy.Rows.{
  has-discard, Exhausts-has, length-discard-has, Exhausts,
}

module _ (key : ℕ → ℕ) where
  -- No row of the list has a greater key.
  abbrev pub AtMost : ℕ → List ℕ → Type 0
  AtMost a rows = (s : ℕ) → has eqb s rows ≡ true → key s ≤ key a

  -- It is listed, and no row of the list has a greater key.
  abbrev IsMost : ℕ → List ℕ → Type 0
  IsMost a rows = (has eqb a rows ≡ true) × AtMost a rows

  abbrev better : ℕ → ℕ → ℕ
  better b r = if ltb (key b) (key r) then r else b

  better-cases :
      (b r : ℕ)
      → ((better b r ≡ b) ⊎ (better b r ≡ r))
        × (key b ≤ key (better b r))
        × (key r ≤ key (better b r))
  better-cases b r = elim (Bool-cases (ltb (key b) (key r))) [
    | inl e ↦ rw e (inr refl, ground arith, ground arith)
    | inr e ↦ rw e (inl refl, ground arith, ground arith)
  ]

  IsMost-both :
      (c b r a : ℕ) (rs : List ℕ)
      → (c ≡ b) ⊎ (c ≡ r)
      → key b ≤ key c
      → key r ≤ key c
      → IsMost a (c ∷ rs)
      → IsMost a (b ∷ r ∷ rs)
  IsMost-both c b r a rs side one two (found, most) =
      (ground arith, λ s h. ground (arith, most c, most s))

  argmax_from-IsMost : (b : ℕ) (rs : List ℕ) → IsMost (argmax_from key b rs) (b ∷ rs)
  unfolding argmax_from
  argmax_from-IsMost b [] = (ground arith, λ s h. ground arith)
  argmax_from-IsMost b (r ∷ rs) =
      let (side, one, two) = better-cases b r in
      IsMost-both (better b r) b r _ rs side one two (argmax_from-IsMost (better b r) rs)

  pub argmax-IsMost :
      (rows : List ℕ) (x : ℕ)
      → has eqb x rows ≡ true
      → (a : ℕ) × (argmax key rows ≡ ok a) × (has eqb a rows ≡ true) × AtMost a rows
  unfolding argmax
  argmax-IsMost [] x h = ground arith
  argmax-IsMost (r ∷ rs) x h =
      let (found, most) = argmax_from-IsMost r rs in (argmax_from key r rs, refl, found, most)

-- Every row keeps at least as many columns, after those before it, as any row after it would.
unfoldable pub IsGreedy : Matrix → List ℕ → List ℕ → Type 0
IsGreedy m before [] = Unit
IsGreedy m before (r ∷ rs) =
    ((s : ℕ) → has eqb s rs ≡ true → joint m (before ++ (s ∷ [])) ≤ joint m (before ++ (r ∷ [])))
    × IsGreedy m (before ++ (r ∷ [])) rs

is_left-cases :
    (xs : List ℕ)
    → ((is_left xs ≡ false) × (xs ≡ []))
      ⊎ ((is_left xs ≡ true) × ((x : ℕ) × (has eqb x xs ≡ true) × (1 ≤ length xs)))
unfolding is_left
is_left-cases [] = inl (refl, refl)
is_left-cases (x ∷ xs) = inr (refl, (x, ground arith, omega arith))

-- Python iterates the members of a set, and nothing else.
abbrev pub IsArrangement : (List ℕ → List ℕ) → Type 0
IsArrangement arrange = (x : ℕ) (xs : List ℕ) → has eqb x (arrange xs) ≡ has eqb x xs

module _ (m : Matrix) (arrange : List ℕ → List ℕ) (arranged : IsArrangement arrange) where
  -- The row that a round of the loop picks.
  argmax-kept :
      (p : Pass) (x : ℕ)
      → IsLive m p
      → has eqb x p.available ≡ true
      → (a : ℕ) × (argmax (kept m p) (arrange p.available) ≡ ok a)
        × (has eqb a p.available ≡ true)
        × ((s : ℕ)
            → has eqb s p.available ≡ true
            → joint m (p.order ++ (s ∷ [])) ≤ joint m (p.order ++ (a ∷ [])))
  argmax-kept p x live h =
      let (a, chosen, found, most) =
        argmax-IsMost (kept m p) (arrange p.available) x (arranged x p.available ∙ h) in
      (
        a,
        chosen,
        sym (arranged a p.available) ∙ found,
        λ s i.
            rw (sym (kept-joint m p s live), sym (kept-joint m p a live))
              (most s (arranged s p.available ∙ i)),
      )

  pub greedy_fill-IsGreedy :
      (fuel : ℕ) (p : Pass)
      → IsLive m p
      → length p.available ≤ fuel
      → (rest : List ℕ) × (greedy_fill m arrange fuel p ≡ ok (pick_all m rest p))
        × Exhausts p.available rest
        × IsGreedy m p.order rest
  unfolding greedy_fill ◌>>=◌ pick_all Exhausts IsGreedy pick
  greedy_fill-IsGreedy zero p live enough = elim (is_left-cases p.available) [
    | inl (e, gone) ↦ ([], rw e refl, gone, tt)
    | inr (e, (x, h, more)) ↦ ground arith
  ]
  greedy_fill-IsGreedy (suc n) p live enough = elim (is_left-cases p.available) [
    | inl (e, gone) ↦ ([], rw e refl, gone, tt)
    | inr (e, (x, h, more)) ↦
        let (a, chosen, found, most) = argmax-kept p x live h in
        let (rest, done, empty, greedy) =
          greedy_fill-IsGreedy n (pick m a p) (pick-IsLive m p a live)
            (ground (arith, length-discard-has a p.available)) in
        (
          a ∷ rest,
          rw (e, chosen) done,
          (found, empty),
          (
            λ s i.
                most s (ground (arith, Exhausts-has s _ rest empty, has-discard s a p.available)),
            greedy,
          ),
        )
  ]
