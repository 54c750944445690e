-- ===== src/KpiCoverage/Imputability/Runs.antt =====
-- The runs that the lag and the running sum find are the streaks of nulls.
use innovativeproject_pm_gen.Base.{
  length, append_nil, sym, append_assoc, ◌∙◌, add_zero, ap, ℕ, zero, suc, ◌+◌, ◌≡◌, refl, Bool,
  true, false, List, [], ◌∷◌, ◌++◌, arith, ◌<◌,
}
use innovativeproject_pm_gen.KpiCoverage.Imputability.{
  non_null_count, null_run_lengths, with_runs, group_runs, lengths_of, count_row,
}

-- The lengths of the streaks of nulls, one after another, after a streak of `open_run` nulls that
-- is not closed yet.
unfoldable pub close_run : ℕ → List ℕ → List ℕ
close_run zero rest = rest
close_run (suc n) rest = suc n ∷ rest

unfoldable pub streaks : ℕ → List Bool → List ℕ
streaks open_run [] = close_run open_run []
streaks open_run (true ∷ r) = streaks (suc open_run) r
streaks open_run (false ∷ r) = close_run open_run (streaks 0 r)

-- All keys are below the bound.
abbrev KeysBelow : ℕ → List (ℕ × ℕ) → Type 0
KeysBelow b [] = Unit
KeysBelow b ((key, n) ∷ groups) = (key < b) × KeysBelow b groups

KeysBelow-weaken : (b : ℕ) (g : List (ℕ × ℕ)) → KeysBelow b g → KeysBelow (suc b) g
KeysBelow-weaken b [] h = tt
KeysBelow-weaken b ((key, n) ∷ g) h = (omega (arith, h.0), KeysBelow-weaken b g h.1)

KeysBelow-snoc :
    (b n : ℕ) (g : List (ℕ × ℕ)) → KeysBelow b g → KeysBelow (suc b) (g ++ ((b, n) ∷ []))
KeysBelow-snoc b n [] h = (omega arith, tt)
KeysBelow-snoc b n ((key, m) ∷ g) h = (omega (arith, h.0), KeysBelow-snoc b n g h.1)

count_row-last :
    (k n : ℕ) (g : List (ℕ × ℕ))
    → KeysBelow k g
    → count_row k (g ++ ((k, n) ∷ [])) ≡ g ++ ((k, suc n) ∷ [])
unfolding count_row
count_row-last k n [] h = ground arith
count_row-last k n ((key, m) ∷ g) h = ground (arith, h.0, count_row-last k n g h.1)

count_row-new : (k : ℕ) (g : List (ℕ × ℕ)) → KeysBelow k g → count_row k g ≡ g ++ ((k, 1) ∷ [])
unfolding count_row
count_row-new k [] h = refl
count_row-new k ((key, m) ∷ g) h = ground (arith, h.0, count_row-new k g h.1)

lengths_of-snoc :
    (k n : ℕ) (g : List (ℕ × ℕ)) → lengths_of (g ++ ((k, n) ∷ [])) ≡ lengths_of g ++ (n ∷ [])
unfolding lengths_of
lengths_of-snoc k n [] = refl
lengths_of-snoc k n ((key, m) ∷ g) = ap (λ l. m ∷ l) (lengths_of-snoc k n g)

add_one : (k : ℕ) → k + 1 ≡ suc k
add_one k = omega arith

mutual
  unfolding with_runs group_runs streaks close_run

  -- In a streak of n + 1 nulls with the key k.
  in_streak :
      (k n : ℕ) (g : List (ℕ × ℕ)) (r : List Bool)
      → KeysBelow k g
      → lengths_of (group_runs (with_runs true k r) (g ++ ((k, suc n) ∷ [])))
        ≡ lengths_of g ++ streaks (suc n) r
  in_streak k n g [] h = lengths_of-snoc k (suc n) g
  in_streak k n g (true ∷ r) h =
      rw (add_zero k, count_row-last k (suc n) g h) (in_streak k (suc n) g r h)
  in_streak k n g (false ∷ r) h = rw (add_zero k) (
      between_streaks k (g ++ ((k, suc n) ∷ [])) r (KeysBelow-snoc k (suc n) g h)
      ∙ ap (λ l. l ++ streaks 0 r) (lengths_of-snoc k (suc n) g)
      ∙ append_assoc (lengths_of g) (suc n ∷ []) (streaks 0 r))

  -- Outside of one.
  between_streaks :
      (k : ℕ) (g : List (ℕ × ℕ)) (r : List Bool)
      → KeysBelow (suc k) g
      → lengths_of (group_runs (with_runs false k r) g) ≡ lengths_of g ++ streaks 0 r
  between_streaks k g [] h = sym (append_nil (lengths_of g))
  between_streaks k g (true ∷ r) h =
      rw (add_one k, count_row-new (suc k) g h) (in_streak (suc k) 0 g r h)
  between_streaks k g (false ∷ r) h = rw (add_zero k) (between_streaks k g r h)

unfoldable pub total : List ℕ → ℕ
total [] = 0
total (n ∷ ns) = n + total ns

total-close_run : (n : ℕ) (rest : List ℕ) → total (close_run n rest) ≡ n + total rest
unfolding total close_run
total-close_run zero rest = omega arith
total-close_run (suc n) rest = omega arith

total_nil : total [] ≡ 0
unfolding total
total_nil = refl

total-streaks :
    (n : ℕ) (series : List Bool)
    → total (streaks n series) + non_null_count series ≡ n + length series
unfolding streaks non_null_count
total-streaks n [] = omega (arith, total-close_run n [], total_nil)
total-streaks n (true ∷ r) = omega (arith, total-streaks (suc n) r)
total-streaks n (false ∷ r) = omega (arith, total-streaks 0 r, total-close_run n (streaks 0 r))

-- The run lengths that are grouped by run ids are the lengths of the maximal streaks of nulls, in
-- the order of time; with the rows that are not null they add up to the rows of the series.
null_run_lengths-streaks :
    (series : List Bool)
    → (null_run_lengths series ≡ streaks 0 series)
      × (total (null_run_lengths series) + non_null_count series ≡ length series)
unfolding null_run_lengths lengths_of
null_run_lengths-streaks series =
    let same = between_streaks 0 [] series tt in
    (same, rw same (omega (arith, total-streaks 0 series)))
