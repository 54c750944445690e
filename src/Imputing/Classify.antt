-- ===== src/Imputing/Classify.antt =====
-- apps/generator/genpm/preprocessing/logic/kpi_grouping_defs.py, and its call in imputing.py. A
-- column of SQL is an optional value; a condition on a null does not hold.
pub mod Priority
use innovativeproject_pm_gen.Base.{
  String, ◌<>◌, ◌==◌, Bool, true, false, not, ◌&&◌, ◌||◌, Option, none, some, List, [], ◌∷◌, ◌++◌,
  any, map, if◌then◌else◌,
}

-- What the columns hold that classify a KPI.
pub data Character : Type 0 where
  unknown : Character
  avg : Character
  max : Character
  min : Character
  mean_like : Character
  volume : Character
  ratio : Character

pub data AggMethod : Type 0 where
  avg : AggMethod
  sum : AggMethod
  max : AggMethod
  min : AggMethod

pub data ClassificationSource : Type 0 where
  stat_keyword : ClassificationSource
  unit : ClassificationSource
  keyword : ClassificationSource
  value_range_fallback : ClassificationSource

-- `when_chained`: the value of the first condition that holds.
unfoldable pub when_chained {ℓ} : {A : Type ℓ} → List (Bool × A) → A → A
when_chained [] otherwise = otherwise
when_chained ((cond, val) ∷ conditions) otherwise =
    let rest = when_chained conditions otherwise in if cond then val else rest

-- Regular expressions, and the tests of a float.
pub record Engine (F : Type 0) : Type 0 where
  pub rlike : String → String → Bool
  pub escape : String → String
  pub is_positive : F → Bool
  pub is_nonnegative : F → Bool
  pub is_at_most_100 : F → Bool

pub record KpiStats (F : Type 0) : Type 0 where
  pub kpi_name : Option String
  pub unit : Option String
  pub kpi_min : Option F
  pub kpi_max : Option F

pub record Classified : Type 0 where
  pub stat_keyword_match : Character
  pub unit_match : Character
  pub kpi_character : Character
  pub classification_source : ClassificationSource
  pub agg_method : AggMethod

unfoldable pub join_bars : List String → String
join_bars [] = ""
join_bars (w ∷ []) = w
join_bars (w ∷ v ∷ ws) = w <> ("|" <> join_bars (v ∷ ws))

abbrev pub is_known : Character → Bool
is_known Character.unknown = false
is_known c = true

unfoldable pub from_unit : Character → Bool
from_unit Character.mean_like = true
from_unit Character.volume = true
from_unit c = false

unfoldable pub averaged : Character → Bool
averaged Character.mean_like = true
averaged Character.ratio = true
averaged Character.avg = true
averaged c = false

abbrev pub is_max : Character → Bool
is_max Character.max = true
is_max c = false

abbrev pub is_min : Character → Bool
is_min Character.min = true
is_min c = false

unfoldable pub holds {ℓ} : {A : Type ℓ} → (A → Bool) → Option A → Bool
holds p none = false
holds p (some a) = p a

abbrev pub method_of : Character → AggMethod
unfolding averaged when_chained
method_of c =
    when_chained
      ((averaged c, AggMethod.avg) ∷ (is_max c, AggMethod.max) ∷ (is_min c, AggMethod.min) ∷ [])
      AggMethod.sum

module _ {F : Type 0} (e : Engine F) where
  unfoldable pub make_pattern : List String → String
  make_pattern words = "(?i)(^|[^a-z0-9])(" <> (join_bars (map e.escape words) <> ")([^a-z0-9]|$)")

  -- `f.col("kpi_name").rlike(make_pattern(words))`
  unfoldable pub names_one : List String → KpiStats F → Bool
  names_one words k = holds (e.rlike (make_pattern words)) k.kpi_name

  -- `f.col("unit").isin(*units, extra)`
  unfoldable pub unit_in : List String → String → KpiStats F → Bool
  unit_in units extra k = holds (λ u. any (λ v. u == v) (units ++ (extra ∷ []))) k.unit

  unfoldable pub value_range : KpiStats F → Character
  value_range k =
      when_chained
        ((holds e.is_positive k.kpi_min, Character.mean_like)
          ∷ (holds e.is_nonnegative k.kpi_min && holds e.is_at_most_100 k.kpi_max, Character.ratio)
          ∷ [])
        Character.unknown

  unfoldable pub classify_kpis :
      (avg_keywords max_keywords min_keywords mean_like_keywords : List String)
      → (ratio_keywords volume_keywords mean_like_units volume_units : List String) → KpiStats F
      → Classified
  unfolding value_range
  classify_kpis avg_keywords max_keywords min_keywords mean_like_keywords ratio_keywords
        volume_keywords mean_like_units volume_units k =
      let stat_keyword_match =
        when_chained
          ((names_one avg_keywords k, Character.avg)
            ∷ (names_one max_keywords k, Character.max)
            ∷ (names_one min_keywords k, Character.min)
            ∷ [])
          Character.unknown in
      let unit_match =
        when_chained
          ((unit_in mean_like_units "mean_like" k, Character.mean_like)
            ∷ (unit_in volume_units "volume" k, Character.volume)
            ∷ [])
          Character.unknown in
      let keyword_match =
        when_chained
          ((names_one ratio_keywords k, Character.ratio)
            ∷ (names_one mean_like_keywords k, Character.mean_like)
            ∷ (names_one volume_keywords k, Character.volume)
            ∷ [])
          Character.unknown in
      let kpi_character =
        when_chained
          ((is_known stat_keyword_match, stat_keyword_match)
            ∷ (is_known unit_match, unit_match)
            ∷ (is_known keyword_match, keyword_match)
            ∷ [])
          (value_range k) in
      record {
        stat_keyword_match = stat_keyword_match;
        unit_match = unit_match;
        kpi_character = kpi_character;
        classification_source =
            when_chained
              ((is_known stat_keyword_match, stat_keyword)
                ∷ (from_unit unit_match, unit)
                ∷ (is_known keyword_match, keyword)
                ∷ [])
              value_range_fallback;
        agg_method = method_of kpi_character;
      }

-- `genpm/utils/consts.py`
abbrev pub mean_like_units : List String
mean_like_units = "%" ∷ "bit/s" ∷ "kbit/s" ∷ "Mbit/s" ∷ "ms" ∷ "#/s" ∷ "#/h" ∷ []

abbrev pub volume_units : List String
volume_units = "#" ∷ []

abbrev pub min_keywords : List String
min_keywords = "min" ∷ "minimal" ∷ "minimum" ∷ []

abbrev pub max_keywords : List String
max_keywords = "max" ∷ "maximal" ∷ "maximum" ∷ []

abbrev pub avg_keywords : List String
avg_keywords = "avg" ∷ "average" ∷ []

abbrev pub ratio_keywords : List String
ratio_keywords =
    "cssr" ∷ "hosr" ∷ "asr" ∷ "ccr" ∷ "dcr" ∷ "bler" ∷ "fer" ∷ "per" ∷ "availability"
    ∷ "accessibility" ∷ "retainability" ∷ "integrity" ∷ "utilization" ∷ "Average Time"
    ∷ "Average Duration" ∷ []

abbrev pub mean_like_keywords : List String
mean_like_keywords =
    "throughput" ∷ "latency" ∷ "jitter" ∷ "rtt" ∷ "rssi" ∷ "rsrp" ∷ "rsrq" ∷ "sinr" ∷ "snr" ∷ "mos"
    ∷ []

abbrev pub volume_keywords : List String
volume_keywords =
    "erlang" ∷ "mou" ∷ "bytes" ∷ "octets" ∷ "attempts" ∷ "packets" ∷ "Total Time" ∷ "Total Duration"
    ∷ "volume" ∷ []

-- The call of `categorize_kpi_with_definitions`, whose arguments are positional.
unfoldable pub categorize_kpi : {F : Type 0} → Engine F → KpiStats F → AggMethod
categorize_kpi e k =
    (classify_kpis e mean_like_units volume_units min_keywords max_keywords avg_keywords
      ratio_keywords mean_like_keywords volume_keywords k).agg_method
