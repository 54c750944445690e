-- ===== src/KpiCoverage/Greedy/Rows.antt =====
-- The rows of `_greedy_order`: every row that is left is picked exactly once.
use innovativeproject_pm_gen.Base.{
  ◌∙◌, inr, inl, Bool-cases, ℕ, zero, suc, ◌+◌, ◌≡◌, refl, true, false, not, ◌&&◌, ◌||◌, List, [],
  ◌∷◌, ◌++◌, length, arith, ltb, leb, eqb, ◌≤◌, ap,
}
use innovativeproject_pm_gen.Base.Sets.{has, Distinct}
use innovativeproject_pm_gen.KpiCoverage.Greedy.{
  discard, range_from, where_true, insert_down, sorted_down,
}

-- The rows are picked one after another from the set, which is empty after them.
unfoldable pub Exhausts : List ℕ → List ℕ → Type 0
Exhausts avail [] = avail ≡ []
Exhausts avail (r ∷ rs) = (has eqb r avail ≡ true) × Exhausts (discard r avail) rs

pub has-discard :
    (x r : ℕ) (xs : List ℕ) → has eqb x (discard r xs) ≡ (has eqb x xs && not (eqb x r))
unfolding discard where_true
has-discard x r [] = refl
has-discard x r (y ∷ xs) = ground (arith, has-discard x r xs)

length-discard : (r : ℕ) (xs : List ℕ) → length (discard r xs) ≤ length xs
unfolding discard where_true
length-discard r [] = omega arith
length-discard r (y ∷ xs) = ground (arith, length-discard r xs)

pub length-discard-has :
    (r : ℕ) (xs : List ℕ) → has eqb r xs ≡ true → suc (length (discard r xs)) ≤ length xs
unfolding discard where_true
length-discard-has r [] h = ground arith
length-discard-has r (y ∷ xs) h = ground (arith, length-discard-has r xs, length-discard r xs)

has-range_from : (x k n : ℕ) → has eqb x (range_from k n) ≡ (leb k x && ltb x (k + n))
unfolding range_from
has-range_from x k zero = ground arith
has-range_from x k (suc n) = ground (arith, has-range_from x (suc k) n)

pub has-range : (x n : ℕ) → has eqb x (range_from 0 n) ≡ ltb x n
has-range x n = ground (arith, has-range_from x 0 n)

pub length-range_from : (k n : ℕ) → length (range_from k n) ≡ n
unfolding range_from
length-range_from k zero = refl
length-range_from k (suc n) = ap suc (length-range_from (suc k) n)

-- Exactly the rows of the set are picked, and none twice.
pub Exhausts-has :
    (x : ℕ) (avail rows : List ℕ) → Exhausts avail rows → has eqb x rows ≡ has eqb x avail
unfolding Exhausts
Exhausts-has x avail [] h = rw h (refl)
Exhausts-has x avail (r ∷ rs) h =
    ground (arith, Exhausts-has x (discard r avail) rs h.1, has-discard x r avail, h.0)

pub Exhausts-Distinct : (avail rows : List ℕ) → Exhausts avail rows → Distinct eqb rows
unfolding Exhausts
Exhausts-Distinct avail [] h = tt
Exhausts-Distinct avail (r ∷ rs) h = (
  ground (arith, Exhausts-has r (discard r avail) rs h.1, has-discard r r avail),
  Exhausts-Distinct (discard r avail) rs h.1,
)

discard-absent : (r : ℕ) (xs : List ℕ) → has eqb r xs ≡ false → discard r xs ≡ xs
unfolding discard where_true
discard-absent r [] h = refl
discard-absent r (y ∷ xs) h = ground (arith, discard-absent r xs)

pub length-discard-Distinct :
    (r : ℕ) (xs : List ℕ)
    → Distinct eqb xs
    → has eqb r xs ≡ true
    → suc (length (discard r xs)) ≡ length xs
unfolding discard where_true
length-discard-Distinct r [] d h = ground arith
length-discard-Distinct r (y ∷ xs) d h =
    ground (arith, length-discard-Distinct r xs d.1, ap length (discard-absent y xs d.0))

pub discard-Distinct : (r : ℕ) (xs : List ℕ) → Distinct eqb xs → Distinct eqb (discard r xs)
unfolding discard where_true
discard-Distinct r [] d = tt
discard-Distinct r (y ∷ xs) d = elim (Bool-cases (eqb y r)) [
  | inl e ↦ rw e (discard-Distinct r xs d.1)
  | inr e ↦ rw e (ground (arith, has-discard y r xs, d.0), discard-Distinct r xs d.1)
]

pub range_from-Distinct : (k n : ℕ) → Distinct eqb (range_from k n)
unfolding range_from
range_from-Distinct k zero = tt
range_from-Distinct k (suc n) =
    (ground (arith, has-range_from k (suc k) n), range_from-Distinct (suc k) n)

pub Exhausts-length :
    (avail rows : List ℕ) → Exhausts avail rows → Distinct eqb avail → length rows ≡ length avail
unfolding Exhausts
Exhausts-length avail [] h d = rw h refl
Exhausts-length avail (r ∷ rs) h d =
    ap suc (Exhausts-length (discard r avail) rs h.1 (discard-Distinct r avail d))
    ∙ length-discard-Distinct r avail d h.0

has-insert_down :
    (key : ℕ → ℕ) (x r : ℕ) (rs : List ℕ)
    → has eqb x (insert_down key r rs) ≡ (eqb r x || has eqb x rs)
unfolding insert_down
has-insert_down key x r [] = ground arith
has-insert_down key x r (s ∷ rs) = ground (arith, has-insert_down key x r rs)

pub has-sorted_down :
    (key : ℕ → ℕ) (x : ℕ) (rs : List ℕ) → has eqb x (sorted_down key rs) ≡ has eqb x rs
unfolding sorted_down
has-sorted_down key x [] = refl
has-sorted_down key x (r ∷ rs) =
    ground (arith, has-insert_down key x r (sorted_down key rs), has-sorted_down key x rs)

insert_down-Distinct :
    (key : ℕ → ℕ) (r : ℕ) (rs : List ℕ)
    → has eqb r rs ≡ false
    → Distinct eqb rs
    → Distinct eqb (insert_down key r rs)
unfolding insert_down
insert_down-Distinct key r [] h d = (refl, tt)
insert_down-Distinct key r (s ∷ rs) h d = elim (Bool-cases (ltb (key r) (key s))) [
  | inl e ↦
      rw e (
        ground (arith, has-insert_down key s r rs),
        insert_down-Distinct key r rs (ground arith) d.1,
      )
  | inr e ↦ rw e (h, d)
]

pub sorted_down-Distinct :
    (key : ℕ → ℕ) (rs : List ℕ) → Distinct eqb rs → Distinct eqb (sorted_down key rs)
unfolding sorted_down
sorted_down-Distinct key [] d = tt
sorted_down-Distinct key (r ∷ rs) d =
    insert_down-Distinct key r (sorted_down key rs) (rw (has-sorted_down key r rs) d.0)
      (sorted_down-Distinct key rs d.1)

-- Rows of the set come before those that exhaust what they leave.
unfoldable pub discard_all : List ℕ → List ℕ → List ℕ
discard_all [] avail = avail
discard_all (r ∷ rs) avail = discard_all rs (discard r avail)

pub Exhausts-append :
    (first rest avail : List ℕ)
    → Distinct eqb first
    → ((x : ℕ) → has eqb x first ≡ true → has eqb x avail ≡ true)
    → Exhausts (discard_all first avail) rest
    → Exhausts avail (first ++ rest)
unfolding Exhausts discard_all
Exhausts-append [] rest avail d sub h = h
Exhausts-append (r ∷ rs) rest avail d sub h = (
  sub r (ground arith),
  Exhausts-append rs rest (discard r avail) d.1
      (λ x e. ground (arith, has-discard x r avail, sub x, d.0)) h,
)

pub length-discard_all : (rows avail : List ℕ) → length (discard_all rows avail) ≤ length avail
unfolding discard_all
length-discard_all [] avail = omega arith
length-discard_all (r ∷ rs) avail =
    omega (arith, length-discard_all rs (discard r avail), length-discard r avail)

length-insert_down :
    (key : ℕ → ℕ) (r : ℕ) (rs : List ℕ) → length (insert_down key r rs) ≡ suc (length rs)
unfolding insert_down
length-insert_down key r [] = refl
length-insert_down key r (s ∷ rs) = ground (arith, length-insert_down key r rs)

pub length-sorted_down : (key : ℕ → ℕ) (rs : List ℕ) → length (sorted_down key rs) ≡ length rs
unfolding sorted_down
length-sorted_down key [] = refl
length-sorted_down key (r ∷ rs) =
    length-insert_down key r (sorted_down key rs) ∙ ap suc (length-sorted_down key rs)
