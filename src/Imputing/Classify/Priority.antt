-- ===== src/Imputing/Classify/Priority.antt =====
-- The classes of KPIs in the order in which the code asks for them.
use innovativeproject_pm_gen.Base.{
  if◌then◌else◌, ◌≡◌, refl, ◌↔◌, ◌⊎◌, Bool, true, false, List, String, arith, inl, inr,
}
use innovativeproject_pm_gen.Imputing.Classify.{
  Engine, KpiStats, AggMethod, Character, classify_kpis, categorize_kpi, names_one, unit_in,
  method_of, is_max, is_min, is_known, value_range, when_chained, averaged, mean_like_units,
  volume_units, min_keywords, max_keywords, avg_keywords, ratio_keywords, mean_like_keywords,
  volume_keywords,
}

-- What the method is, by the names and units that are asked for first.
pub record IsRanked (names_avg names_max names_min : Bool) (method : AggMethod) : Type 0 where
  pub averages : names_avg ≡ true → method ≡ AggMethod.avg
  pub is_max : (method ≡ AggMethod.max) ↔ ((names_avg ≡ false) × (names_max ≡ true))
  pub is_min :
      (method ≡ AggMethod.min) ↔ ((names_avg ≡ false) × (names_max ≡ false) × (names_min ≡ true))

-- Neither a maximum nor a minimum.
record IsPlain (c : Character) : Type 0 where
  not_max : is_max c ≡ false
  not_min : is_min c ≡ false

IsPlain-if : (b : Bool) (c d : Character) → IsPlain c → IsPlain d → IsPlain (if b then c else d)
IsPlain-if true c d p q = p
IsPlain-if false c d p q = q

plain : (c : Character) → is_max c ≡ false → is_min c ≡ false → IsPlain c
plain c p q = record { not_max = p; not_min = q }

-- The classes that are asked for in turn, and the last one.
asked-IsPlain :
    (b1 b2 b3 : Bool) (c1 c2 c3 rest : Character)
    → IsPlain c1
    → IsPlain c2
    → IsPlain c3
    → IsPlain rest
    → IsPlain (if b1 then c1 else if b2 then c2 else if b3 then c3 else rest)
asked-IsPlain b1 b2 b3 c1 c2 c3 rest p q r h =
    IsPlain-if b1 c1 _ p (IsPlain-if b2 c2 _ q (IsPlain-if b3 c3 rest r h))

abbrev stat_of : Bool → Bool → Bool → Character
stat_of a mx mn =
    if a
    then Character.avg
    else if mx
    then Character.max
    else if mn
    then Character.min
    else Character.unknown

abbrev character_of : Character → Character → Character
character_of stat c = if is_known stat then stat else c

Plain-method :
    (c : Character) → IsPlain c → (method_of c ≡ AggMethod.avg) ⊎ (method_of c ≡ AggMethod.sum)
unfolding when_chained averaged
Plain-method Character.unknown p = inr refl
Plain-method Character.avg p = inl refl
Plain-method Character.max p = ground (arith, p.not_max)
Plain-method Character.min p = ground (arith, p.not_min)
Plain-method Character.mean_like p = inl refl
Plain-method Character.volume p = inr refl
Plain-method Character.ratio p = inl refl

-- A method that is an average or a sum.
IsRanked-rest :
    (m : AggMethod) → (m ≡ AggMethod.avg) ⊎ (m ≡ AggMethod.sum) → IsRanked false false false m
IsRanked-rest m h = record { averages = ground arith; is_max = ground arith; is_min = ground arith }

ranked :
    (a mx mn : Bool) (c : Character)
    → IsPlain c
    → IsRanked a mx mn (method_of (character_of (stat_of a mx mn) c))
unfolding when_chained averaged
ranked true mx mn c p = record {
  averages = λ h. refl;
  is_max = ground arith;
  is_min = ground arith;
}
ranked false true mn c p = record {
  averages = ground arith;
  is_max = ground arith;
  is_min = ground arith;
}
ranked false false true c p = record {
  averages = ground arith;
  is_max = ground arith;
  is_min = ground arith;
}
ranked false false false c p = IsRanked-rest _ (Plain-method c p)

module _ {F : Type 0} (e : Engine F) where
  value_range-IsPlain : (k : KpiStats F) → IsPlain (value_range e k)
  unfolding value_range when_chained
  value_range-IsPlain k =
      IsPlain-if _ Character.mean_like _ (plain _ refl refl)
        (IsPlain-if _ Character.ratio Character.unknown (plain _ refl refl) (plain _ refl refl))

  classify_kpis-IsRanked :
      (a mx mn ml r v mlu vu : List String) (k : KpiStats F)
      → IsRanked
          (names_one e a k)
          (names_one e mx k)
          (names_one e mn k)
          (classify_kpis e a mx mn ml r v mlu vu k).agg_method
  unfolding classify_kpis when_chained
  classify_kpis-IsRanked a mx mn ml r v mlu vu k =
      ranked (names_one e a k) (names_one e mx k) (names_one e mn k) _ (
        IsPlain-if _ _ _
          (IsPlain-if (unit_in e mlu "mean_like" k) Character.mean_like _ (plain _ refl refl) (
            IsPlain-if (unit_in e vu "volume" k) Character.volume Character.unknown
              (plain _ refl refl) (plain _ refl refl)))
          (IsPlain-if _ _ _
            (asked-IsPlain (names_one e r k) (names_one e ml k) (names_one e v k) Character.ratio
              Character.mean_like Character.volume Character.unknown (plain _ refl refl)
              (plain _ refl refl) (plain _ refl refl) (plain _ refl refl))
            (value_range-IsPlain k)))

  -- In the job, a KPI is imputed as an average if its name has one of the mean-like units as a
  -- word; it has the method max exactly if its name has none of those but one of the volume units,
  -- and the method min exactly if its name has a word of neither list but one of the words for a
  -- minimum.
  pub categorize_kpi-IsRanked :
      (k : KpiStats F)
      → IsRanked
          (names_one e mean_like_units k)
          (names_one e volume_units k)
          (names_one e min_keywords k)
          (categorize_kpi e k)
  unfolding categorize_kpi
  categorize_kpi-IsRanked k =
      classify_kpis-IsRanked mean_like_units volume_units min_keywords max_keywords avg_keywords
        ratio_keywords mean_like_keywords volume_keywords k
