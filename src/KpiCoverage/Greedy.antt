-- ===== src/KpiCoverage/Greedy.antt =====
-- apps/generator/genpm/preprocessing/logic/kpi_coverage.py, `_greedy_order`. Rows and columns are
-- indices; a set of rows is a list of them and `arrange` the order in which Python iterates it.
pub mod Joint
pub mod Rows
pub mod Choice
pub mod Order
use innovativeproject_pm_gen.Base.{
  ℕ, zero, suc, Bool, true, false, List, [], ◌∷◌, ◌++◌, length, ltb, eqb, if◌then◌else◌,
}
use innovativeproject_pm_gen.Base.Result.{Result, ok, err, ◌>>=◌}

-- A boolean array of shape (n_kpis, n_anchors).
pub record Matrix : Type 0 where
  pub n_kpis : ℕ
  pub n_anchors : ℕ
  pub cell : ℕ → ℕ → Bool

-- What numpy raises on an empty array, and what it raises on none: the fuel of the loop was short.
pub data Halt : Type 0 where
  empty_argmax empty_argmin empty_curve out_of_fuel : Halt

-- `range(n)`, counted from `k`.
unfoldable pub range_from : ℕ → ℕ → List ℕ
range_from k zero = []
range_from k (suc n) = k ∷ range_from (suc k) n

unfoldable pub where_true : (ℕ → Bool) → List ℕ → List ℕ
where_true p [] = []
where_true p (c ∷ cs) = let rest = where_true p cs in if p c then c ∷ rest else rest

-- `np.flatnonzero(M[row])`
unfoldable pub flatnonzero : Matrix → ℕ → List ℕ
flatnonzero m row = where_true (m.cell row) (range_from 0 m.n_anchors)

-- `xs.discard(row)`
unfoldable pub discard : ℕ → List ℕ → List ℕ
discard row xs = where_true (λ r. if eqb r row then false else true) xs

-- `sorted(rows, key=key, reverse=True)`, which keeps the order of rows with equal keys.
unfoldable pub insert_down : (ℕ → ℕ) → ℕ → List ℕ → List ℕ
insert_down key r [] = r ∷ []
insert_down key r (s ∷ ss) = if ltb (key r) (key s) then s ∷ insert_down key r ss else r ∷ s ∷ ss

unfoldable pub sorted_down : (ℕ → ℕ) → List ℕ → List ℕ
sorted_down key [] = []
sorted_down key (r ∷ rs) = insert_down key r (sorted_down key rs)

-- The first candidate with the greatest key, from a first one on.
unfoldable pub argmax_from : (ℕ → ℕ) → ℕ → List ℕ → ℕ
argmax_from key best [] = best
argmax_from key best (r ∷ rs) = argmax_from key (if ltb (key best) (key r) then r else best) rs

unfoldable pub argmax : (ℕ → ℕ) → List ℕ → Result Halt ℕ
argmax key [] = err empty_argmax
argmax key (r ∷ rs) = ok (argmax_from key r rs)

-- The variables of the function.
pub record Pass : Type 0 where
  pub order : List ℕ
  pub counts : List ℕ
  pub live_cols : List ℕ
  pub available : List ℕ

-- `_pick`, and the start of the lists with the seed.
unfoldable pub pick : Matrix → ℕ → Pass → Pass
pick m row p =
    let live = where_true (m.cell row) p.live_cols in
    record {
      order = p.order ++ (row ∷ []);
      counts = p.counts ++ (length live ∷ []);
      live_cols = live;
      available = discard row p.available;
    }

unfoldable pub seeded : Matrix → ℕ → Pass
seeded m seed = record {
  order = seed ∷ [];
  counts = length (flatnonzero m seed) ∷ [];
  live_cols = flatnonzero m seed;
  available = discard seed (range_from 0 m.n_kpis);
}

unfoldable pub pick_all : Matrix → List ℕ → Pass → Pass
pick_all m [] p = p
pick_all m (r ∷ rs) p = pick_all m rs (pick m r p)

unfoldable pub row_sum : Matrix → ℕ → ℕ
row_sum m row = length (flatnonzero m row)

unfoldable pub seed_pass : Matrix → List ℕ → Result Halt Pass
seed_pass m [] = argmax (row_sum m) (range_from 0 m.n_kpis) >>= λ seed. ok (seeded m seed)
seed_pass m (r ∷ rs) = ok (pick_all m rs (seeded m r))

-- The columns that stay when a row is added.
unfoldable pub kept : Matrix → Pass → ℕ → ℕ
kept m p row = length (where_true (m.cell row) p.live_cols)

-- `while available`
unfoldable pub is_left : List ℕ → Bool
is_left [] = false
is_left (r ∷ rs) = true

unfoldable pub greedy_fill : Matrix → (List ℕ → List ℕ) → ℕ → Pass → Result Halt Pass
greedy_fill m arrange zero p = if is_left p.available then err out_of_fuel else ok p
greedy_fill m arrange (suc fuel) p =
    if is_left p.available
    then (argmax (kept m p) (arrange p.available) >>= λ best.
        greedy_fill m arrange fuel (pick m best p))
    else ok p

unfoldable pub greedy_order : Matrix → (List ℕ → List ℕ) → List ℕ → Result Halt (List ℕ × List ℕ)
greedy_order m arrange forced_rows = seed_pass m (sorted_down (row_sum m) forced_rows) >>= λ p.
    greedy_fill m arrange m.n_kpis p >>= λ q. ok (q.order, q.counts)
