-- ===== src/KpiCoverage/Greedy/Joint.antt =====
-- The coverage curve of `_greedy_order`, and the reference that counts every prefix anew.
use innovativeproject_pm_gen.Base.{
  append_assoc, append_nil, ℕ, ◌≡◌, refl, Bool, true, ◌&&◌, List, [], ◌∷◌, ◌++◌, length, arith, ◌≤◌,
  ap, ◌∙◌, sym,
}
use innovativeproject_pm_gen.KpiCoverage.Greedy.{
  Matrix, Pass, pick, pick_all, seeded, where_true, range_from, kept, flatnonzero,
}

-- Has every listed row the column?
unfoldable pub in_all : Matrix → List ℕ → ℕ → Bool
in_all m [] c = true
in_all m (r ∷ rs) c = m.cell r c && in_all m rs c

-- How many columns all the rows have.
unfoldable pub joint : Matrix → List ℕ → ℕ
joint m rows = length (where_true (in_all m rows) (range_from 0 m.n_anchors))

-- The joint counts of all prefixes, from one on.
unfoldable pub curve : Matrix → List ℕ → List ℕ → List ℕ
curve m before [] = []
curve m before (r ∷ rs) = joint m (before ++ (r ∷ [])) ∷ curve m (before ++ (r ∷ [])) rs

unfoldable pub blank : Matrix → Pass
blank m = record {
  order = [];
  counts = [];
  live_cols = range_from 0 m.n_anchors;
  available = range_from 0 m.n_kpis;
}

pub seeded-pick : (m : Matrix) (r : ℕ) → seeded m r ≡ pick m r (blank m)
unfolding seeded pick blank flatnonzero
seeded-pick m r = refl

where_true-both :
    (p q r : ℕ → Bool)
    → ((c : ℕ) → r c ≡ (p c && q c))
    → (xs : List ℕ) → where_true q (where_true p xs) ≡ where_true r xs
unfolding where_true
where_true-both p q r h [] = refl
where_true-both p q r h (x ∷ xs) = ground (arith, where_true-both p q r h xs, h x)

in_all-snoc :
    (m : Matrix) (rows : List ℕ) (r c : ℕ)
    → in_all m (rows ++ (r ∷ [])) c ≡ (in_all m rows c && m.cell r c)
unfolding in_all
in_all-snoc m [] r c = ground arith
in_all-snoc m (s ∷ rows) r c = ground (arith, in_all-snoc m rows r c)

where_true-all : (xs : List ℕ) → where_true (λ _. true) xs ≡ xs
unfolding where_true
where_true-all [] = refl
where_true-all (x ∷ xs) = ap (λ l. x ∷ l) (where_true-all xs)

-- The columns alive are those that all rows so far have.
abbrev pub IsLive : Matrix → Pass → Type 0
IsLive m p = p.live_cols ≡ where_true (in_all m p.order) (range_from 0 m.n_anchors)

pub blank-IsLive : (m : Matrix) → IsLive m (blank m)
unfolding blank in_all
blank-IsLive m = sym (where_true-all _)

live_after :
    (m : Matrix) (p : Pass) (r : ℕ)
    → IsLive m p
    → where_true (m.cell r) p.live_cols
      ≡ where_true (in_all m (p.order ++ (r ∷ []))) (range_from 0 m.n_anchors)
live_after m p r h = rw h (where_true-both _ _ _ (in_all-snoc m p.order r) _)

pub pick-IsLive : (m : Matrix) (p : Pass) (r : ℕ) → IsLive m p → IsLive m (pick m r p)
unfolding pick
pick-IsLive m p r h = live_after m p r h

pub kept-joint :
    (m : Matrix) (p : Pass) (r : ℕ) → IsLive m p → kept m p r ≡ joint m (p.order ++ (r ∷ []))
unfolding kept joint
kept-joint m p r h = ap length (live_after m p r h)

pub pick_all-order :
    (m : Matrix) (rows : List ℕ) (p : Pass) → (pick_all m rows p).order ≡ p.order ++ rows
unfolding pick_all pick
pick_all-order m [] p = sym (append_nil p.order)
pick_all-order m (r ∷ rs) p = pick_all-order m rs (pick m r p) ∙ append_assoc p.order (r ∷ []) rs

pub pick_all-IsLive :
    (m : Matrix) (rows : List ℕ) (p : Pass) → IsLive m p → IsLive m (pick_all m rows p)
unfolding pick_all
pick_all-IsLive m [] p h = h
pick_all-IsLive m (r ∷ rs) p h = pick_all-IsLive m rs (pick m r p) (pick-IsLive m p r h)

pub pick_all-counts :
    (m : Matrix) (rows : List ℕ) (p : Pass)
    → IsLive m p
    → (pick_all m rows p).counts ≡ p.counts ++ curve m p.order rows
unfolding pick_all curve pick joint where_true
pick_all-counts m [] p h = sym (append_nil p.counts)
pick_all-counts m (r ∷ rs) p h =
    pick_all-counts m rs (pick m r p) (pick-IsLive m p r h)
    ∙ append_assoc p.counts _ _
    ∙ ap (λ n. p.counts ++ (n ∷ curve m (p.order ++ (r ∷ [])) rs)) (ap length (live_after m p r h))

where_true-fewer :
    (p q : ℕ → Bool)
    → ((c : ℕ) → q c ≡ true → p c ≡ true)
    → (xs : List ℕ) → length (where_true q xs) ≤ length (where_true p xs)
unfolding where_true
where_true-fewer p q h [] = omega arith
where_true-fewer p q h (x ∷ xs) = ground (arith, where_true-fewer p q h xs, h x)

-- Another row costs columns or none.
pub joint-snoc : (m : Matrix) (rows : List ℕ) (r : ℕ) → joint m (rows ++ (r ∷ [])) ≤ joint m rows
unfolding joint
joint-snoc m rows r =
    where_true-fewer _ _ (λ c h. ground (arith, in_all-snoc m rows r c)) (range_from 0 m.n_anchors)
