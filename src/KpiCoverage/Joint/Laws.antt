-- ===== src/KpiCoverage/Joint/Laws.antt =====
-- Which windows are left: those of selected KPIs at anchors where every selected KPI has one.
use innovativeproject_pm_gen.Base.{
  ◌∙◌, ap, sym, subst, eq_refl, ℕ, suc, String, Bool, true, false, List, [], ◌∷◌, length, eqb, ◌==◌,
  ◌&&◌, ◌≡◌, ◌≤◌, refl, arith, Bool-cases, inl, inr, eq_iff, if◌then◌else◌,
}
use innovativeproject_pm_gen.Base.Sets.{add, Distinct, Distinct-snoc}
use innovativeproject_pm_gen.Base.Table.{member-add, member, member_pair}
use innovativeproject_pm_gen.KpiCoverage.Joint.{
  selected_windows, kpis_at, join_anchors, is_complete, filter_joint_complete_windows,
}

-- How many of the texts are listed.
unfoldable listed_in : List String → List String → ℕ
listed_in xs [] = 0
listed_in xs (y ∷ ys) = let rest = listed_in xs ys in if member y xs then suc rest else rest

listed_in-le : (xs ys : List String) → listed_in xs ys ≤ length ys
unfolding listed_in
listed_in-le xs [] = omega arith
listed_in-le xs (y ∷ ys) = ground (arith, listed_in-le xs ys)

listed_in-absent :
    (x : String) (xs ys : List String)
    → member x ys ≡ false
    → listed_in (x ∷ xs) ys ≡ listed_in xs ys
unfolding listed_in
listed_in-absent x xs [] h = refl
listed_in-absent x xs (y ∷ ys) h = ground (arith, listed_in-absent x xs ys, eq_iff x y, eq_iff y x)

listed_in-new :
    (x : String) (xs ys : List String)
    → member x xs ≡ false
    → member x ys ≡ true
    → Distinct ◌==◌ ys
    → listed_in (x ∷ xs) ys ≡ suc (listed_in xs ys)
unfolding listed_in
listed_in-new x xs [] new h d = ground arith
listed_in-new x xs (y ∷ ys) new h d = elim (Bool-cases (x == y)) [
  | inl e ↦
      let same = (eq_iff x y).0 e in
      ground (
        arith,
        e,
        listed_in-absent x xs ys (subst (λ z. member z ys ≡ false) (sym same) d.0),
        subst (λ z. member z xs ≡ false) same new,
      )
  | inr e ↦ ground (arith, e, listed_in-new x xs ys new, eq_iff x y, eq_iff y x, d.1)
]

none_listed : (zs : List String) → listed_in [] zs ≡ 0
unfolding listed_in
none_listed [] = refl
none_listed (z ∷ zs) = none_listed zs

-- Distinct texts of a list of distinct texts: each is listed there once.
length-listed_in :
    (xs ys : List String)
    → Distinct ◌==◌ xs
    → Distinct ◌==◌ ys
    → ((x : String) → member x xs ≡ true → member x ys ≡ true)
    → length xs ≡ listed_in xs ys
length-listed_in [] ys d dy sub = sym (none_listed ys)
length-listed_in (x ∷ xs) ys d dy sub =
    ap suc (length-listed_in xs ys d.1 dy (λ z h. sub z (ground arith)))
    ∙ sym (listed_in-new x xs ys d.0 (sub x (ground (arith, eq_refl x))) dy)

-- Does the list have all the texts?
unfoldable pub has_all : (String → Bool) → List String → Bool
has_all p [] = true
has_all p (y ∷ ys) = p y && has_all p ys

listed_in-all :
    (xs ys : List String) → eqb (listed_in xs ys) (length ys) ≡ has_all (λ y. member y xs) ys
unfolding listed_in has_all
listed_in-all xs [] = ground arith
listed_in-all xs (y ∷ ys) = ground (arith, listed_in-all xs ys, listed_in-le xs ys)

add-Distinct : (x : String) (xs : List String) → Distinct ◌==◌ xs → Distinct ◌==◌ (add ◌==◌ x xs)
add-Distinct x xs d = elim (Bool-cases (member x xs)) [
  | inl e ↦ rw e d
  | inr e ↦ rw e (Distinct-snoc ◌==◌ eq_iff x xs e d)
]

kpis_at-has :
    (k a : String) (rows : List (String × String))
    → member k (kpis_at a rows) ≡ member_pair (k, a) rows
unfolding kpis_at
kpis_at-has k a [] = refl
kpis_at-has k a ((j, b) ∷ rows) =
    ground (arith, kpis_at-has k a rows, member-add k j (kpis_at a rows))

kpis_at-Distinct : (a : String) (rows : List (String × String)) → Distinct ◌==◌ (kpis_at a rows)
unfolding kpis_at
kpis_at-Distinct a [] = tt
kpis_at-Distinct a ((j, b) ∷ rows) = elim (Bool-cases (b == a)) [
  | inl e ↦ rw e (add-Distinct j (kpis_at a rows) (kpis_at-Distinct a rows))
  | inr e ↦ rw e (kpis_at-Distinct a rows)
]

selected_windows-has :
    (selected : List String) (k a : String) (rows : List (String × String))
    → member_pair (k, a) (selected_windows selected rows)
      ≡ (member_pair (k, a) rows && member k selected)
unfolding selected_windows
selected_windows-has selected k a [] = refl
selected_windows-has selected k a ((j, b) ∷ rows) =
    ground (arith, selected_windows-has selected k a rows, eq_iff j k)

join_anchors-has :
    (p : String → Bool) (k a : String) (rows : List (String × String))
    → member_pair (k, a) (join_anchors p rows) ≡ (member_pair (k, a) rows && p a)
unfolding join_anchors
join_anchors-has p k a [] = refl
join_anchors-has p k a ((j, b) ∷ rows) = ground (arith, join_anchors-has p k a rows, eq_iff b a)

has_all-cong :
    (p q : String → Bool) (ys : List String)
    → ((y : String) → member y ys ≡ true → p y ≡ q y)
    → has_all p ys ≡ has_all q ys
unfolding has_all
has_all-cong p q [] h = refl
has_all-cong p q (y ∷ ys) h =
    ground (arith, h y, eq_refl y, has_all-cong p q ys (λ z k. h z (ground arith)))

is_complete-has_all :
    (selected : List String) (good : List (String × String)) (a : String)
    → Distinct ◌==◌ selected
    → is_complete selected (selected_windows selected good) a
      ≡ has_all (λ y. member_pair (y, a) good) selected
unfolding is_complete
is_complete-has_all selected good a d =
    let kpis = kpis_at a (selected_windows selected good) in
    let at = λ (y : String).
      kpis_at-has y a (selected_windows selected good) ∙ selected_windows-has selected y a good in
    rw (length-listed_in kpis selected (kpis_at-Distinct a _) d (λ y h. ground (arith, at y)))
      (listed_in-all kpis selected ∙ has_all-cong _ _ selected (λ y h. ground (arith, at y)))

-- If no KPI is selected twice, then a window is left exactly if it is one of the good windows, its
-- KPI is selected, and every selected KPI has a good window at the same anchor.
pub filter_joint_complete_windows-has :
    (selected : List String) (good : List (String × String)) (k a : String)
    → Distinct ◌==◌ selected
    → member_pair (k, a) (filter_joint_complete_windows selected good) ≡ (
        member_pair (k, a) good
        && (member k selected && has_all (λ y. member_pair (y, a) good) selected))
unfolding filter_joint_complete_windows
filter_joint_complete_windows-has selected good k a d =
    let rows = selected_windows selected good in
    join_anchors-has (is_complete selected rows) k a rows
    ∙ ground (arith, selected_windows-has selected k a good, is_complete-has_all selected good a d)
