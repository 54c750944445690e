-- ===== src/KpiCoverage/Collect/Keys.antt =====
-- A KPI has one row in the collected table, also after the rows are sorted.
use innovativeproject_pm_gen.Base.{
  String, Bool, true, false, List, [], ◌∷◌, ℕ, zero, suc, some, ltb, length, ◌==◌, ◌&&◌, ◌||◌, not,
  ◌≡◌, refl, arith, Bool-cases, inl, inr, eq_iff,
}
use innovativeproject_pm_gen.Base.Table.{member}
use innovativeproject_pm_gen.KpiCoverage.Collect.{
  cover, collect_rows, Entry, insert_entry, sort_entries, entry_at,
}
use innovativeproject_pm_gen.KpiCoverage.Collect.Laws.{covers}

unfoldable pub has_key : String → List Entry → Bool
has_key k [] = false
has_key k ((j, ps) ∷ t) = j == k || has_key k t

unfoldable pub distinct : List Entry → Bool
distinct [] = true
distinct ((j, ps) ∷ t) = not (has_key j t) && distinct t

has_key-cover :
    (k j : String) (ps : List String) (t : List Entry)
    → has_key k (cover j ps t) ≡ (has_key k t || j == k)
unfolding has_key cover
has_key-cover k j ps [] = ground arith
has_key-cover k j ps ((i, qs) ∷ t) =
    ground (arith, has_key-cover k j ps t, eq_iff i j, eq_iff i k, eq_iff j k)

distinct-cover :
    (j : String) (ps : List String) (t : List Entry)
    → distinct t ≡ true
    → distinct (cover j ps t) ≡ true
unfolding has_key distinct cover
distinct-cover j ps [] h = refl
distinct-cover j ps ((i, qs) ∷ t) h =
    ground (arith, distinct-cover j ps t, has_key-cover i j ps t, eq_iff i j, eq_iff j i)

pub distinct-collect :
    (candidates : List String) (rows t : List Entry)
    → distinct t ≡ true
    → distinct (collect_rows candidates rows t) ≡ true
unfolding collect_rows
distinct-collect candidates [] t h = h
distinct-collect candidates ((j, ps) ∷ rows) t h = elim (Bool-cases (member j candidates)) [
  | inl e ↦ rw e (distinct-collect candidates rows (cover j ps t) (distinct-cover j ps t h))
  | inr e ↦ rw e (distinct-collect candidates rows t h)
]

has_key-collect :
    (k : String) (candidates : List String) (rows t : List Entry)
    → member k candidates ≡ false
    → has_key k (collect_rows candidates rows t) ≡ has_key k t
unfolding collect_rows
has_key-collect k candidates [] t h = refl
has_key-collect k candidates ((j, ps) ∷ rows) t h = elim (Bool-cases (member j candidates)) [
  | inl e ↦ rw e (
      ground (
        arith,
        has_key-collect k candidates rows (cover j ps t) h,
        has_key-cover k j ps t,
        eq_iff j k,
        e,
        h,
      ))
  | inr e ↦ rw e (has_key-collect k candidates rows t h)
]

has_key-insert :
    (k j : String) (ps : List String) (es : List Entry)
    → has_key k (insert_entry (j, ps) es) ≡ (j == k || has_key k es)
unfolding has_key insert_entry
has_key-insert k j ps [] = refl
has_key-insert k j ps ((i, qs) ∷ es) = ground (arith, has_key-insert k j ps es)

distinct-insert :
    (j : String) (ps : List String) (es : List Entry)
    → has_key j es ≡ false
    → distinct es ≡ true
    → distinct (insert_entry (j, ps) es) ≡ true
unfolding has_key distinct insert_entry
distinct-insert j ps [] h d = refl
distinct-insert j ps ((i, qs) ∷ es) h d = elim (Bool-cases (ltb (length ps) (length qs))) [
  | inl e ↦ rw e (
      ground
        (arith, distinct-insert j ps es, has_key-insert i j ps es, eq_iff i j, eq_iff j i, h, d))
  | inr e ↦ rw e (ground (arith, h, d))
]

covers-insert :
    (k a j : String) (ps : List String) (es : List Entry)
    → has_key j es ≡ false
    → covers k a (insert_entry (j, ps) es) ≡ covers k a ((j, ps) ∷ es)
unfolding has_key covers insert_entry
covers-insert k a j ps [] h = refl
covers-insert k a j ps ((i, qs) ∷ es) h =
    ground (arith, covers-insert k a j ps es, eq_iff i k, eq_iff j k, eq_iff i j)

has_key-sort : (k : String) (es : List Entry) → has_key k (sort_entries es) ≡ has_key k es
unfolding has_key sort_entries
has_key-sort k [] = refl
has_key-sort k ((j, ps) ∷ es) =
    ground (arith, has_key-sort k es, has_key-insert k j ps (sort_entries es))

pub distinct-sort : (es : List Entry) → distinct es ≡ true → distinct (sort_entries es) ≡ true
unfolding distinct sort_entries
distinct-sort [] h = refl
distinct-sort ((j, ps) ∷ es) h =
    ground (arith, distinct-sort es, has_key-sort j es, distinct-insert j ps (sort_entries es))

pub covers-sort :
    (k a : String) (es : List Entry)
    → distinct es ≡ true
    → covers k a (sort_entries es) ≡ covers k a es
unfolding distinct sort_entries covers
covers-sort k a [] h = refl
covers-sort k a ((j, ps) ∷ es) h =
    ground (arith, covers-sort k a es, has_key-sort j es, covers-insert k a j ps (sort_entries es))

has_key-entry_at :
    (i : ℕ) (k : String) (ps : List String) (t : List Entry)
    → entry_at i t ≡ some (k, ps)
    → has_key k t ≡ true
unfolding entry_at has_key
has_key-entry_at i k ps [] h = ground arith
has_key-entry_at zero k ps ((j, qs) ∷ t) h = ground (arith, eq_iff j k)
has_key-entry_at (suc i) k ps ((j, qs) ∷ t) h = ground (arith, has_key-entry_at i k ps t h)

-- The row of a KPI is the set that its key has.
pub covers-entry_at :
    (a : String) (i : ℕ) (k : String) (ps : List String) (t : List Entry)
    → distinct t ≡ true
    → entry_at i t ≡ some (k, ps)
    → covers k a t ≡ member a ps
unfolding entry_at has_key distinct covers
covers-entry_at a i k ps [] d h = ground arith
covers-entry_at a zero k ps ((j, qs) ∷ t) d h = ground (arith, eq_iff j k)
covers-entry_at a (suc i) k ps ((j, qs) ∷ t) d h =
    ground (arith, covers-entry_at a i k ps t, has_key-entry_at i k ps t h, eq_iff j k)

-- Only the candidates have rows.
pub entry_at-member :
    (i : ℕ) (k : String) (ps candidates : List String) (rows : List Entry)
    → entry_at i (sort_entries (collect_rows candidates rows [])) ≡ some (k, ps)
    → member k candidates ≡ true
unfolding has_key
entry_at-member i k ps candidates rows h = ground (
  arith,
  has_key-entry_at i k ps (sort_entries (collect_rows candidates rows [])) h,
  has_key-sort k (collect_rows candidates rows []),
  has_key-collect k candidates rows [],
)
