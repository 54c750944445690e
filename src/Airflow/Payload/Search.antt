-- ===== src/Airflow/Payload/Search.antt =====
-- What the search for a run in a listing finds.
use innovativeproject_pm_gen.Base.{
  ap, String, ◌≡◌, refl, Bool, true, false, Option, none, some, List, [], ◌∷◌, ◌++◌, All,
}
use innovativeproject_pm_gen.Base.Result.{Ensures-bind, Ensures-ok, Ensures, ok}
use innovativeproject_pm_gen.Base.Value.{Value}
use innovativeproject_pm_gen.Airflow.Payload.{found_or, matches, scan}

abbrev pub IsFirst : List String → List Value → Option Value → Type 0
IsFirst ids vs none = All (λ v. matches ids v ≡ ok false) vs
IsFirst ids vs (some v) =
    (before : List Value) × (after : List Value) × (vs ≡ before ++ v ∷ after)
    × (matches ids v ≡ ok true)
    × All (λ u. matches ids u ≡ ok false) before

-- The search gives the first payload that matches, and nothing only where none matches.
scan-IsFirst : (ids : List String) (vs : List Value) → Ensures (IsFirst ids vs) (scan ids vs)
unfolding scan found_or
scan-IsFirst ids [] = Ensures-ok none tt
scan-IsFirst ids (v ∷ vs) = Ensures-bind _ _ (λ b m. step b m (scan-IsFirst ids vs))
  where
    grow : (o : Option Value) → matches ids v ≡ ok false → IsFirst ids vs o → IsFirst ids (v ∷ vs) o
    grow none m h = (m, h)
    grow (some u) m (before, after, split, hit, misses) =
        (v ∷ before, after, ap (λ r. v ∷ r) split, hit, (m, misses))

    step :
        (b : Bool)
        → matches ids v ≡ ok b
        → Ensures (IsFirst ids vs) (scan ids vs)
        → Ensures (IsFirst ids (v ∷ vs)) (found_or b v (scan ids vs))
    step true m rest = Ensures-ok (some v) ([], vs, refl, m, tt)
    step false m rest = record { at = λ o e. grow o m (rest.at o e) }
