-- ===== src/KpiCoverage/Prefilter.antt =====
-- apps/generator/genpm/preprocessing/logic/kpi_coverage.py, `prefilter_kpis`. The floats are a type
-- with `<`; Spark's quantile and the quotient that is compared with `max_drop_frac` are arguments.
use innovativeproject_pm_gen.Base.{
  refl, eq_refl, ◌++◌, ℕ, ◌-◌, ◌≡◌, String, Bool, true, false, Option, none, some, List, [], ◌∷◌,
  length, arith, if◌then◌else◌, ◌==◌,
}
use innovativeproject_pm_gen.Base.Result.{Result, ok, err, ◌>>=◌}
use innovativeproject_pm_gen.Base.Sets.{has}

-- `approxQuantile(...)[0]` on no rows.
pub data NoQuantile : Type 0 where
  index_error : NoQuantile

module _ {ℓ} {F : Type ℓ} (lt : F → F → Bool) where
  -- Python's `min` and `max`, which keep the first of equal values.
  unfoldable pub min_of : F → F → F
  min_of a b = if lt b a then b else a

  unfoldable pub max_of : F → F → F
  max_of a b = if lt a b then b else a

  unfoldable pub cut_at : F → F → F
  cut_at threshold min_breadth_floor =
      let first =
        if lt threshold min_breadth_floor
        then min_of threshold (max_of threshold min_breadth_floor)
        else min_of threshold min_breadth_floor in
      if lt min_breadth_floor first then min_of first min_breadth_floor else first

  unfoldable pub survivors : F → List (String × F) → List String
  survivors threshold [] = []
  survivors threshold ((kpi_id, breadth) ∷ r) =
      let rest = survivors threshold r in if lt breadth threshold then rest else kpi_id ∷ rest

  unfoldable pub all_ids : List (String × F) → List String
  all_ids [] = []
  all_ids ((kpi_id, breadth) ∷ r) = kpi_id ∷ all_ids r

  unfoldable pub cut : (ℕ → ℕ → Bool) → F → List (String × F) → List String
  cut drops_too_many threshold stats =
      let kept = survivors threshold stats in
      if drops_too_many (length stats - length kept) (length stats) then all_ids stats else kept

  unfoldable pub first_quantile : Option F → Result NoQuantile F
  first_quantile none = err index_error
  first_quantile (some t) = ok t

  unfoldable pub prefilter_kpis :
      (List (String × F) → Option F)
      → (ℕ → ℕ → Bool)
      → F
      → List (String × F)
      → Result NoQuantile (List String)
  prefilter_kpis quantile drops_too_many min_breadth_floor stats =
      first_quantile (quantile stats) >>= λ threshold.
      ok (cut drops_too_many (cut_at threshold min_breadth_floor) stats)

  -- `<` on floats that are numbers.
  pub record IsStrictOrder : Type ℓ where
    pub asymmetric : (a b : F) → lt a b ≡ true → lt b a ≡ false
    pub before_upper : (a b c : F) → lt a b ≡ true → lt c b ≡ false → lt a c ≡ true

  cut_at-below : IsStrictOrder → (t floor : F) → cut_at t floor ≡ (if lt floor t then floor else t)
  unfolding cut_at min_of max_of
  cut_at-below o t floor = ground (
    arith,
    o.asymmetric t floor,
    o.asymmetric floor t,
    o.asymmetric t t,
    o.asymmetric floor floor,
  )

  has-survivors :
      (kpi_id : String) (breadth threshold : F) (before after : List (String × F))
      → lt breadth threshold ≡ false
      → has ◌==◌ kpi_id (survivors threshold (before ++ (kpi_id, breadth) ∷ after)) ≡ true
  unfolding survivors
  has-survivors kpi_id breadth threshold [] after h = ground (arith, eq_refl kpi_id)
  has-survivors kpi_id breadth threshold ((k, b) ∷ before) after h =
      ground (arith, has-survivors kpi_id breadth threshold before after)

  has-all_ids :
      (kpi_id : String) (breadth : F) (before after : List (String × F))
      → has ◌==◌ kpi_id (all_ids (before ++ (kpi_id, breadth) ∷ after)) ≡ true
  unfolding all_ids
  has-all_ids kpi_id breadth [] after = ground (arith, eq_refl kpi_id)
  has-all_ids kpi_id breadth ((k, b) ∷ before) after =
      ground (arith, has-all_ids kpi_id breadth before after)

  -- Wherever the quantile falls and whatever share of the KPIs may be dropped, a KPI whose breadth
  -- is not below the floor is among those that are returned, if there is a quantile at all.
  pub prefilter_kpis-keeps :
      IsStrictOrder
      → (quantile : List (String × F) → Option F) (drops_too_many : ℕ → ℕ → Bool)
        (min_breadth_floor : F) (kpi_id : String) (breadth : F) (before after : List (String × F))
        {t : F}
      → quantile (before ++ (kpi_id, breadth) ∷ after) ≡ some t
      → lt breadth min_breadth_floor ≡ false
      → (kpis : List String) × (prefilter_kpis quantile drops_too_many min_breadth_floor
            (before ++ (kpi_id, breadth) ∷ after)
          ≡ ok kpis)
        × (has ◌==◌ kpi_id kpis ≡ true)
  unfolding prefilter_kpis cut first_quantile ◌>>=◌
  prefilter_kpis-keeps o quantile drops floor kpi_id breadth before after {t} e h =
      let stats = before ++ (kpi_id, breadth) ∷ after in
      (
        cut drops (cut_at t floor) stats,
        rw e refl,
        ground (
          arith,
          has-all_ids kpi_id breadth before after,
          has-survivors kpi_id breadth (cut_at t floor) before after,
          cut_at-below o t floor,
          o.before_upper breadth t floor,
        ),
      )
