-- ===== src/KpiCoverage/Collect.antt =====
-- apps/generator/genpm/preprocessing/logic/kpi_coverage.py, `_collect_kpi_coverage` from the collected
-- rows on: a row is a KPI with anchors of one group, an anchor the group with the start time. The
-- order in which a set is iterated is that of its list.
pub mod Cells
pub mod Keys
pub mod Laws
use innovativeproject_pm_gen.Base.{
  ℕ, zero, suc, String, Bool, false, Option, none, some, List, [], ◌∷◌, length, ltb, eqb, map, ◌==◌,
  if◌then◌else◌,
}
use innovativeproject_pm_gen.Base.Sets.{has, add}
use innovativeproject_pm_gen.Base.Table.{member}
use innovativeproject_pm_gen.KpiCoverage.Greedy.{Matrix}

abbrev pub Entry : Type 0
Entry = String × List String

-- `xs.update(pairs)`
unfoldable pub add_pairs : List String → List String → List String
add_pairs [] xs = xs
add_pairs (p ∷ ps) xs = add_pairs ps (add ◌==◌ p xs)

-- `kpi_coverage.setdefault(kpi, set()).update(pairs)`
unfoldable pub cover : String → List String → List Entry → List Entry
cover kpi pairs [] = (kpi, add_pairs pairs []) ∷ []
cover kpi pairs ((j, qs) ∷ table) =
    let rest = cover kpi pairs table in
    if j == kpi then (j, add_pairs pairs qs) ∷ table else (j, qs) ∷ rest

unfoldable pub collect_rows : List String → List Entry → List Entry → List Entry
collect_rows candidates [] table = table
collect_rows candidates ((kpi, pairs) ∷ rows) table =
    collect_rows candidates rows (if member kpi candidates then cover kpi pairs table else table)

-- `sorted(kpi_coverage, key=…, reverse=True)`
unfoldable pub insert_entry : Entry → List Entry → List Entry
insert_entry (k, ps) [] = (k, ps) ∷ []
insert_entry (k, ps) ((j, qs) ∷ es) =
    let rest = insert_entry (k, ps) es in
    if ltb (length ps) (length qs) then (j, qs) ∷ rest else (k, ps) ∷ (j, qs) ∷ es

unfoldable pub sort_entries : List Entry → List Entry
sort_entries [] = []
sort_entries (e ∷ es) = insert_entry e (sort_entries es)

-- `anchor_index`: an anchor's index is its place in the list.
unfoldable pub all_anchors : List Entry → List String → List String
all_anchors [] seen = seen
all_anchors ((kpi, pairs) ∷ es) seen = all_anchors es (add_pairs pairs seen)

unfoldable pub index_of : String → List String → ℕ
index_of p [] = 0
index_of p (a ∷ anchors) = let rest = index_of p anchors in if a == p then 0 else suc rest

unfoldable pub entry_at : ℕ → List Entry → Option Entry
entry_at i [] = none
entry_at zero (e ∷ es) = some e
entry_at (suc i) (e ∷ es) = entry_at i es

unfoldable pub row_cell : List String → ℕ → Option Entry → Bool
row_cell anchors c none = false
row_cell anchors c (some (kpi, pairs)) = has eqb c (map (λ p. index_of p anchors) pairs)

unfoldable pub entries_of : List String → List Entry → List Entry
entries_of candidates rows = sort_entries (collect_rows candidates rows [])

-- The matrix `M`.
unfoldable pub collect_kpi_coverage : List String → List Entry → Matrix
collect_kpi_coverage candidates rows =
    let entries = entries_of candidates rows in
    let anchors = all_anchors entries [] in
    record {
      n_kpis = length entries;
      n_anchors = length anchors;
      cell = λ i c. row_cell anchors c (entry_at i entries);
    }
