-- ===== src/Store/Ids.antt =====
-- Ids of datasets: each names one row, and a row that an id names stays when others come or go.
use innovativeproject_pm_gen.Base.{
  ℕ, ◌+◌, ◌<◌, String, ◌≡◌, refl, true, false, some, List, [], ◌∷◌, ◌++◌, map, eqb, arith, All,
  Bool-cases, inl, inr,
}
use innovativeproject_pm_gen.Base.Sets.{Distinct, has}
use innovativeproject_pm_gen.Schemas.{Dataset, DatasetType}
use innovativeproject_pm_gen.Store.{find_by_id, find_by_key, key_of, same_key, remove_dataset}

abbrev pub ids_of : List Dataset → List ℕ
ids_of = map (λ (d : Dataset). d.id)

abbrev pub AllBelow : ℕ → List Dataset → Type 0
AllBelow n = All (λ (d : Dataset). d.id < n)

pub find_by_id-append :
    (i : ℕ) (ds es : List Dataset) {d : Dataset}
    → find_by_id i ds ≡ some d
    → find_by_id i (ds ++ es) ≡ some d
unfolding find_by_id
find_by_id-append i [] es h = cc
find_by_id-append i (e ∷ ds) es {d} h = ground (arith, find_by_id-append i ds es {d = d})

has-find_by_id :
    (i : ℕ) (ds : List Dataset) {d : Dataset}
    → find_by_id i ds ≡ some d
    → has eqb i (ids_of ds) ≡ true
unfolding find_by_id
has-find_by_id i [] h = cc
has-find_by_id i (e ∷ ds) {d} h = ground (arith, has-find_by_id i ds {d = d})

-- The row that a key finds is the one that its id finds.
pub find_by_id-key :
    (k : String × DatasetType) (ds : List Dataset) {d : Dataset}
    → Distinct eqb (ids_of ds)
    → find_by_key k ds ≡ some d
    → find_by_id d.id ds ≡ some d
unfolding find_by_id find_by_key
find_by_id-key k [] u h = cc
find_by_id-key k (e ∷ ds) {d} u h = elim (Bool-cases (same_key (key_of e) k)) [
  | inl same ↦ ground (arith, same)
  | inr other ↦
      ground (arith, other, find_by_id-key k ds {d = d} u.1, has-find_by_id d.id ds {d = d})
]

pub has-below : (n : ℕ) (ds : List Dataset) → AllBelow n ds → has eqb n (ids_of ds) ≡ false
has-below n [] h = refl
has-below n (d ∷ ds) h = ground (arith, has-below n ds h.1)

pub find_by_id-snoc :
    (d : Dataset) (ds : List Dataset) → AllBelow d.id ds → find_by_id d.id (ds ++ (d ∷ [])) ≡ some d
unfolding find_by_id
find_by_id-snoc d [] h = ground arith
find_by_id-snoc d (e ∷ ds) h = ground (arith, find_by_id-snoc d ds h.1)

pub AllBelow-suc : (n : ℕ) (ds : List Dataset) → AllBelow n ds → AllBelow (n + 1) ds
AllBelow-suc n [] h = tt
AllBelow-suc n (d ∷ ds) h = (omega arith, AllBelow-suc n ds h.1)

-- A dataset that goes takes no other with it.
pub find_by_id-remove :
    (i j : ℕ) (ds : List Dataset)
    → eqb j i ≡ false
    → find_by_id j (remove_dataset i ds) ≡ find_by_id j ds
unfolding find_by_id remove_dataset
find_by_id-remove i j [] h = refl
find_by_id-remove i j (d ∷ ds) h = ground (arith, find_by_id-remove i j ds h)

has-remove :
    (i j : ℕ) (ds : List Dataset)
    → has eqb j (ids_of ds) ≡ false
    → has eqb j (ids_of (remove_dataset i ds)) ≡ false
unfolding remove_dataset
has-remove i j [] h = refl
has-remove i j (d ∷ ds) h = ground (arith, has-remove i j ds)

pub Distinct-remove :
    (i : ℕ) (ds : List Dataset)
    → Distinct eqb (ids_of ds)
    → Distinct eqb (ids_of (remove_dataset i ds))
unfolding remove_dataset
Distinct-remove i [] u = tt
Distinct-remove i (d ∷ ds) u = elim (Bool-cases (eqb d.id i)) [
  | inl e ↦ rw e (Distinct-remove i ds u.1)
  | inr e ↦ rw e (has-remove i d.id ds u.0, Distinct-remove i ds u.1)
]

pub All-remove :
    (P : Dataset → Type 0) (i : ℕ) (ds : List Dataset) → All P ds → All P (remove_dataset i ds)
unfolding remove_dataset
All-remove P i [] h = tt
All-remove P i (d ∷ ds) h = elim (Bool-cases (eqb d.id i)) [
  | inl e ↦ rw e (All-remove P i ds h.1)
  | inr e ↦ rw e (h.0, All-remove P i ds h.1)
]

pub id-find_by_id : (i : ℕ) (ds : List Dataset) {d : Dataset} → find_by_id i ds ≡ some d → d.id ≡ i
unfolding find_by_id
id-find_by_id i [] h = cc
id-find_by_id i (e ∷ ds) {d} h = ground (arith, id-find_by_id i ds {d = d})
