-- ===== src/KpiCoverage/Collect/Laws.antt =====
-- The windows that the table of anchor sets keeps, and the column of an anchor.
use innovativeproject_pm_gen.Base.{
  String, Bool, true, false, List, [], ◌∷◌, eqb, ◌==◌, ◌&&◌, ◌||◌, ◌≡◌, refl, arith, Bool-cases,
  inl, inr, eq_iff, if◌then◌else◌, map,
}
use innovativeproject_pm_gen.Base.Sets.{has, add}
use innovativeproject_pm_gen.Base.Table.{member-add, member}
use innovativeproject_pm_gen.KpiCoverage.Collect.{index_of, cover, collect_rows, add_pairs, Entry}

-- Among the collected rows the KPI has a window at the anchor.
unfoldable pub has_window : String → String → List Entry → Bool
has_window k a [] = false
has_window k a ((j, ps) ∷ rows) = (j == k && member a ps) || has_window k a rows

-- The set of the KPI has the anchor.
unfoldable pub covers : String → String → List Entry → Bool
covers k a [] = false
covers k a ((j, qs) ∷ t) = if j == k then member a qs else covers k a t

member-add_pairs :
    (a : String) (ps xs : List String) → member a (add_pairs ps xs) ≡ (member a xs || member a ps)
unfolding add_pairs
member-add_pairs a [] xs = ground arith
member-add_pairs a (p ∷ ps) xs =
    ground (arith, member-add_pairs a ps (add ◌==◌ p xs), member-add a p xs)

covers-cover :
    (k a j : String) (ps : List String) (t : List Entry)
    → covers k a (cover j ps t) ≡ (covers k a t || (j == k && member a ps))
unfolding covers cover
covers-cover k a j ps [] = ground (arith, member-add_pairs a ps [])
covers-cover k a j ps ((i, qs) ∷ t) =
    ground
      (arith, covers-cover k a j ps t, member-add_pairs a ps qs, eq_iff i j, eq_iff i k, eq_iff j k)

pub covers-collect :
    (k a : String) (candidates : List String) (rows t : List Entry)
    → covers k a (collect_rows candidates rows t)
      ≡ (covers k a t || (member k candidates && has_window k a rows))
unfolding collect_rows has_window
covers-collect k a candidates [] t = ground arith
covers-collect k a candidates ((j, ps) ∷ rows) t = elim (Bool-cases (member j candidates)) [
  | inl e ↦ rw e (
      ground (
        arith,
        covers-collect k a candidates rows (cover j ps t),
        covers-cover k a j ps t,
        eq_iff j k,
        e,
      ))
  | inr e ↦ rw e (ground (arith, covers-collect k a candidates rows t, eq_iff j k, e))
]

index_of-injective :
    (a b : String) (xs : List String)
    → member a xs ≡ true
    → eqb (index_of b xs) (index_of a xs) ≡ (b == a)
unfolding index_of
index_of-injective a b [] h = ground arith
index_of-injective a b (x ∷ xs) h =
    ground (arith, index_of-injective a b xs, eq_iff x a, eq_iff x b, eq_iff b a)

pub has-index_of :
    (a : String) (xs ps : List String)
    → member a xs ≡ true
    → has eqb (index_of a xs) (map (λ p. index_of p xs) ps) ≡ member a ps
has-index_of a xs [] h = refl
has-index_of a xs (p ∷ ps) h = ground (arith, has-index_of a xs ps h, index_of-injective a p xs h)
