-- ===== src/Imputing/Gaps.antt =====
-- The length that a gap is given is that of the streak of nulls around the row.
use innovativeproject_pm_gen.Base.{
  ℕ, suc, ◌+◌, ◌<◌, ◌≡◌, refl, Bool, true, false, List, [], ◌∷◌, arith, eqb, if◌then◌else◌,
  add_zero, ◌∙◌,
}
use innovativeproject_pm_gen.KpiCoverage.Imputability.{with_runs, group_runs, count_row}
use innovativeproject_pm_gen.Imputing.{gap_len, gap_lens_of, detect_gap_runs}

-- The nulls that the rows begin with.
unfoldable pub ahead : List Bool → ℕ
ahead [] = 0
ahead (true ∷ r) = suc (ahead r)
ahead (false ∷ r) = 0

-- The length of the streak around each null, after `open_run` nulls. A row that is not null has the
-- length of the streak before it.
unfoldable pub streak_around : (last open_run : ℕ) → List Bool → List ℕ
streak_around last open_run [] = []
streak_around last open_run (true ∷ r) =
    (suc open_run + ahead r) ∷ streak_around (suc open_run + ahead r) (suc open_run) r
streak_around last open_run (false ∷ r) = last ∷ streak_around last 0 r

-- The nulls with the id.
unfoldable count_of : ℕ → List (Bool × ℕ) → ℕ
count_of j [] = 0
count_of j ((is_null, key) ∷ r) =
    let rest = count_of j r in if is_null then (if eqb key j then suc rest else rest) else rest

gap_len-count_row :
    (j key : ℕ) (g : List (ℕ × ℕ))
    → gap_len j (count_row key g) ≡ (if eqb key j then suc (gap_len j g) else gap_len j g)
unfolding gap_len count_row
gap_len-count_row j key [] = ground arith
gap_len-count_row j key ((i, n) ∷ g) = ground (arith, gap_len-count_row j key g)

gap_len-group_runs :
    (j : ℕ) (rows : List (Bool × ℕ)) (g : List (ℕ × ℕ))
    → gap_len j (group_runs rows g) ≡ gap_len j g + count_of j rows
unfolding group_runs count_of
gap_len-group_runs j [] g = omega arith
gap_len-group_runs j ((true, key) ∷ r) g =
    ground (arith, gap_len-group_runs j r (count_row key g), gap_len-count_row j key g)
gap_len-group_runs j ((false, key) ∷ r) g = gap_len-group_runs j r g

-- No later row has an earlier id.
count_of-earlier :
    (j k : ℕ) (prev : Bool) (r : List Bool) → j < k → count_of j (with_runs prev k r) ≡ 0
unfolding count_of with_runs
count_of-earlier j k prev [] h = refl
count_of-earlier j k true (true ∷ r) h = ground (arith, count_of-earlier j (k + 0) true r)
count_of-earlier j k false (true ∷ r) h = ground (arith, count_of-earlier j (k + 1) true r)
count_of-earlier j k prev (false ∷ r) h = count_of-earlier j (k + 0) false r (omega arith)

-- A streak that is over has no more nulls.
count_of-closed : (k : ℕ) (r : List Bool) → count_of k (with_runs false k r) ≡ 0
unfolding count_of with_runs
count_of-closed k [] = refl
count_of-closed k (true ∷ r) = ground (arith, count_of-earlier k (k + 1) true r)
count_of-closed k (false ∷ r) = rw (add_zero k) (count_of-closed k r)

-- One that is open has those ahead.
count_of-ahead : (k : ℕ) (r : List Bool) → count_of k (with_runs true k r) ≡ ahead r
unfolding count_of with_runs ahead
count_of-ahead k [] = refl
count_of-ahead k (true ∷ r) = rw (add_zero k) (ground (arith, count_of-ahead k r))
count_of-ahead k (false ∷ r) = rw (add_zero k) (count_of-closed k r)

add_one : (k : ℕ) → k + 1 ≡ suc k
add_one k = omega arith

cons_eq : {x y : ℕ} {xs ys : List ℕ} → x ≡ y → xs ≡ ys → x ∷ xs ≡ y ∷ ys
cons_eq p q = rw (p, q) refl

first_eq :
    (g : List (ℕ × ℕ)) (k : ℕ) (r : List Bool)
    → gap_len (suc k) g ≡ count_of (suc k) (with_runs false k (true ∷ r))
    → gap_len (suc k) g ≡ 1 + ahead r
unfolding count_of with_runs
first_eq g k r h = let same = rw (add_one k) at h in ground (arith, same, count_of-ahead (suc k) r)

later_eq :
    (g : List (ℕ × ℕ)) (k : ℕ) (r : List Bool)
    → ((j : ℕ) → k < j → gap_len j g ≡ count_of j (with_runs false k (true ∷ r)))
    → (j : ℕ) → suc k < j
    → gap_len j g ≡ count_of j (with_runs true (suc k) r)
unfolding count_of with_runs
later_eq g k r later j lt =
    let h = later j (omega arith) in let same = rw (add_one k) at h in ground arith

mutual
  unfolding gap_lens_of with_runs count_of ahead streak_around

  -- In the streak of the id `k`, after `open_run` of its nulls.
  in_streak :
      (gap_runs : List (ℕ × ℕ)) (k open_run : ℕ) (r : List Bool)
      → gap_len k gap_runs ≡ open_run + ahead r
      → ((j : ℕ) → k < j → gap_len j gap_runs ≡ count_of j (with_runs true k r))
      → gap_lens_of gap_runs (with_runs true k r) ≡ streak_around (open_run + ahead r) open_run r
  in_streak g k n [] h later = refl
  in_streak g k n (true ∷ r) h later = rw (add_zero k) (
      cons_eq (omega (arith, h))
        (in_streak g k (suc n) r (omega (arith, h)) (λ j lt. ground (arith, later j lt))))
  in_streak g k n (false ∷ r) h later =
      rw (add_zero k)
        (cons_eq h (after_streak g k (n + 0) r h (λ j lt. ground (arith, later j lt))))

  -- After it.
  after_streak :
      (gap_runs : List (ℕ × ℕ)) (k last : ℕ) (r : List Bool)
      → gap_len k gap_runs ≡ last
      → ((j : ℕ) → k < j → gap_len j gap_runs ≡ count_of j (with_runs false k r))
      → gap_lens_of gap_runs (with_runs false k r) ≡ streak_around last 0 r
  after_streak g k last [] h later = refl
  after_streak g k last (true ∷ r) h later = rw (add_one k) (
      let length_eq = first_eq g k r (later (suc k) (omega arith)) in
      cons_eq length_eq (in_streak g (suc k) 1 r length_eq (later_eq g k r later)))
  after_streak g k last (false ∷ r) h later =
      rw (add_zero k) (cons_eq h (after_streak g k last r h (λ j lt. ground (arith, later j lt))))

counted : (j : ℕ) (rows : List (Bool × ℕ)) → gap_len j (group_runs rows []) ≡ count_of j rows
unfolding gap_len
counted j rows = ground (arith, gap_len-group_runs j rows [])

-- The gap length of each null is the length of the maximal streak of nulls around it; a row that is
-- not null has that of the last streak before it, or 0.
pub detect_gap_runs-streaks :
    (is_missing : List Bool) → detect_gap_runs is_missing ≡ streak_around 0 0 is_missing
unfolding detect_gap_runs
detect_gap_runs-streaks is_missing =
    let rows = with_runs false 0 is_missing in
    after_streak (group_runs rows []) 0 0 is_missing (counted 0 rows ∙ count_of-closed 0 is_missing)
      (λ j lt. counted j rows)
