-- ===== src/Imputing/Rows.antt =====
-- What `impute` makes of each row, in terms of the rows around it.
use innovativeproject_pm_gen.Base.{
  ℕ, zero, suc, ◌+◌, ◌-◌, ◌≤◌, ◌<◌, ◌≡◌, refl, ◌⊎◌, inl, inr, Option, none, some, List, [], ◌∷◌,
  ◌++◌, take, arith, ltb, if◌then◌else◌, Option-cases, ap,
}
use innovativeproject_pm_gen.Imputing.Classify.{AggMethod, when_chained}
use innovativeproject_pm_gen.Imputing.Gaps.{ahead, streak_around, detect_gap_runs-streaks}
use innovativeproject_pm_gen.Imputing.{
  Point, Spark, Imputed, missing, values, nearest, value_at, interp, interp_or_null, imputed_value,
  imputed, impute_rows, impute, is_none,
}

-- The length of the streak of nulls of a null row, by the rows before it, the last one first, and
-- those after.
unfoldable pub streak_length : {F : Type 0} → List (Point F) → List (Point F) → ℕ
streak_length before after = suc (ahead (missing before)) + ahead (missing after)

module _ {F : Type 0} (spark : Spark F) (max_imputable_gap : ℕ) (method : Option AggMethod) where
  -- The value between two others on a line.
  abbrev pub on_line : ℕ → ℕ → ℕ → F → F → F
  on_line prev_ts ts next_ts a b =
      spark.add
        (spark.multiply (spark.quotient (ts - prev_ts) (next_ts - prev_ts)) (spark.subtract b a)) a

  abbrev pub IsShort : List (Point F) → List (Point F) → Type 0
  IsShort before after = streak_length before after ≤ max_imputable_gap

  pub record IsImputed (median_value : Option F) (before : List (Point F)) (p : Point F)
      (after : List (Point F)) (out : Imputed F) : Type 0 where
    pub kept : (x : F) → p.value ≡ some x → (out.value ≡ some x) × (out.imputed_flag ≡ 0)
    pub flagged :
        p.value ≡ none
        → ((out.value ≡ none) × (out.imputed_flag ≡ 0))
          ⊎ ((x : F) × (out.value ≡ some x) × (out.imputed_flag ≡ 1))
    pub left : p.value ≡ none → max_imputable_gap < streak_length before after → out.value ≡ none
    pub unclassified : p.value ≡ none → method ≡ none → out.value ≡ none
    pub carried :
        p.value ≡ none
        → method ≡ some AggMethod.sum
        → IsShort before after
        → streak_length before after ≤ 2
        → out.value ≡ value_at (nearest before)
    pub typical :
        p.value ≡ none
        → method ≡ some AggMethod.sum
        → IsShort before after
        → 2 < streak_length before after
        → out.value ≡ median_value
    pub interpolated :
        (prev next : Point F) (a b : F)
        → p.value ≡ none
        → method ≡ some AggMethod.avg
        → IsShort before after
        → nearest before ≡ some prev
        → nearest after ≡ some next
        → prev.value ≡ some a
        → next.value ≡ some b
        → out.value
          ≡ (if ltb prev.ts next.ts then some (on_line prev.ts p.ts next.ts a b) else none)
    pub at_an_end :
        p.value ≡ none
        → method ≡ some AggMethod.avg
        → (nearest before ≡ none) ⊎ (nearest after ≡ none)
        → out.value ≡ none
    pub highest :
        p.value ≡ none
        → method ≡ some AggMethod.max
        → IsShort before after
        → out.value ≡ spark.max (values (take 4 before ++ take 4 after))
    pub lowest :
        p.value ≡ none
        → method ≡ some AggMethod.min
        → IsShort before after
        → out.value ≡ spark.min (values (take 4 before ++ take 4 after))

  -- Each row of a series has its result.
  unfoldable pub EachIsImputed :
      Option F → List (Point F) → List (Point F) → List (Imputed F) → Type 0
  EachIsImputed median_value before [] [] = Unit
  EachIsImputed median_value before (p ∷ after) (out ∷ outs) =
      IsImputed median_value before p after out × EachIsImputed median_value (p ∷ before) after outs
  EachIsImputed median_value before [] (out ∷ outs) = zero ≡ suc zero
  EachIsImputed median_value before (p ∷ after) [] = zero ≡ suc zero

  values-skip :
      (xs : List (Point F)) (p : Point F) (ys : List (Point F))
      → p.value ≡ none
      → values (xs ++ p ∷ ys) ≡ values (xs ++ ys)
  values-skip [] p ys e = rw e refl
  values-skip (x ∷ xs) p ys e = rw (values-skip xs p ys e) refl

  -- The flag of a row that was null.
  Flagged : Imputed F → Type 0
  Flagged out =
      ((out.value ≡ none) × (out.imputed_flag ≡ 0))
      ⊎ ((x : F) × (out.value ≡ some x) × (out.imputed_flag ≡ 1))

  imputed-Flagged : (v : Option F) → Flagged (imputed spark max_imputable_gap method none v)
  unfolding imputed Flagged
  imputed-Flagged none = inl (refl, refl)
  imputed-Flagged (some x) = inr (x, refl, refl)

  null-IsImputed :
      (median_value : Option F) (before : List (Point F)) (p : Point F) (after : List (Point F))
      → p.value ≡ none
      → IsImputed median_value before p after (
          imputed spark max_imputable_gap method p.value (
            imputed_value spark max_imputable_gap method median_value
              (streak_length before after)
              before
              p
              after))
  unfolding imputed imputed_value when_chained interp_or_null interp Flagged
  null-IsImputed med before p after e = record {
    kept = λ x h. ground arith;
    flagged = λ h. rw e (imputed-Flagged _);
    left = λ h long. rw e (ground arith);
    unclassified = λ h m. rw (e, m) (ground arith);
    carried = λ h m short two. rw (e, m) (ground arith);
    typical = λ h m short two. rw (e, m) (ground arith);
    interpolated =
        λ prev next a b h m short back on va vb. rw (e, m, back, on, va, vb) (ground arith);
    at_an_end = λ h m ends. elim ends [
      | inl back ↦ rw (e, m, back) (ground arith)
      | inr on ↦ rw (e, m, on) (ground (arith, Option-cases (nearest before)))
    ];
    highest = λ h m short. rw (values-skip (take 4 before) p (take 4 after) e, e, m) (ground arith);
    lowest = λ h m short. rw (values-skip (take 4 before) p (take 4 after) e, e, m) (ground arith);
  }

  kept-IsImputed :
      (median_value : Option F) (gap : ℕ) (before : List (Point F)) (p : Point F)
      (after : List (Point F)) (x : F)
      → p.value ≡ some x
      → IsImputed median_value before p after (
          imputed spark max_imputable_gap method p.value
            (imputed_value spark max_imputable_gap method median_value gap before p after))
  unfolding imputed imputed_value when_chained
  kept-IsImputed med gap before p after x e = record {
    kept = λ y h. rw e (ground (arith, h, e));
    flagged = λ h. ground arith;
    left = λ h long. ground arith;
    unclassified = λ h m. ground arith;
    carried = λ h m short two. ground arith;
    typical = λ h m short two. ground arith;
    interpolated = λ prev next a b h m short back on va vb. ground arith;
    at_an_end = λ h m ends. ground arith;
    highest = λ h m short. ground arith;
    lowest = λ h m short. ground arith;
  }

  rows-AreImputed :
      (median_value : Option F) (last : ℕ) (before series : List (Point F))
      → EachIsImputed median_value before series (
          impute_rows spark max_imputable_gap method median_value before series
            (streak_around last (ahead (missing before)) (missing series)))
  unfolding EachIsImputed impute_rows streak_around ahead streak_length
  rows-AreImputed med last before [] = tt
  rows-AreImputed med last before (p ∷ after) = elim (Option-cases p.value) [
    | inl e ↦
        let null = ap is_none e in
        let gap = streak_length before after in
        let later = rows-AreImputed med gap (p ∷ before) after in
        rw null (null-IsImputed med before p after e, rw null at later)
    | inr (x, e) ↦
        let known = ap is_none e in
        let later = rows-AreImputed med last (p ∷ before) after in
        rw known (kept-IsImputed med last before p after x e, rw known at later)
  ]

  -- In the order of time each row of a series has its result: a value is kept, with the flag 0; a null
  -- is filled exactly if its flag is 1; it stays null if its streak of nulls is longer than the bound
  -- or the series has no method; and in a shorter streak, a sum takes the last value before it if the
  -- streak is at most two rows long and else the median of the series, an average the value on the line between the values around it,
  -- or null if there is none on one side or their times are not in order, and a maximum or minimum that of the values at most four
  -- rows away.
  pub impute-EachIsImputed :
      (series : List (Point F))
      → EachIsImputed
          (spark.median (values series))
          []
          series
          (impute spark max_imputable_gap method series)
  unfolding impute ahead
  impute-EachIsImputed series =
      rw (detect_gap_runs-streaks (missing series))
        (rows-AreImputed (spark.median (values series)) 0 [] series)
