-- ===== src/Autofill/Kinds.antt =====
-- What the descriptions of `_FIELD_SPECS` say of the value of each field.
use innovativeproject_pm_gen.Base.{
  ℕ, suc, String, Bool, true, false, List, [], ◌∷◌, ◌≡◌, ◌⊎◌, Option, none, some,
}
use innovativeproject_pm_gen.Base.Value.{nil, cons, ℤ, pos, Value, null, bool, int, str, arr, Items}
use innovativeproject_pm_gen.Autofill.{has_id, Numbers}
use innovativeproject_pm_gen.Base.Table.{member, lookup}
use innovativeproject_pm_gen.Base.Text.{strip, is_empty}

pub data FieldKind : Type 0 where
  a_dataset a_model a_dataset_or_none text texts boolean positive positive_or_none : FieldKind
  one_of : List String → FieldKind
  between : String → String → FieldKind
  at_least : String → FieldKind

unfoldable pub kinds : List (String × FieldKind)
kinds =
    ("dataset_id", a_dataset)
    ∷ ("dataset_type", one_of ("working_days" ∷ "weekends" ∷ []))
    ∷ ("kpi_min_global_density", between "0" "1")
    ∷ ("kpi_global_min_frac_cells_passing", between "0" "1")
    ∷ ("kpi_window_coverage_frac", between "0" "1")
    ∷ ("min_imputable_gap_frac", between "0" "1")
    ∷ ("kpi_min_std_val", at_least "0")
    ∷ ("max_zero_frac", between "0" "1")
    ∷ ("window_width_hours", positive)
    ∷ ("stride_hours", positive)
    ∷ ("max_gap_hours", positive)
    ∷ ("min_joint_windows_abs", positive_or_none)
    ∷ ("impute", boolean)
    ∷ ("test_size", between "0.05" "0.5")
    ∷ ("random_seed", positive)
    ∷ ("shuffle", boolean)
    ∷ ("stratify", boolean)
    ∷ ("model_id", a_model)
    ∷ ("comparison_dataset_id", a_dataset_or_none)
    ∷ ("selected_kpis", texts)
    ∷ []

unfoldable pub kind_or_text : Option FieldKind → FieldKind
kind_or_text none = text
kind_or_text (some k) = k

unfoldable pub kind_of : String → FieldKind
unfolding kinds
kind_of key = kind_or_text (lookup key kinds)

-- Texts that are not blank.
unfoldable pub AreTexts : Items → Type 0
AreTexts nil = Unit
AreTexts (cons (str s) r) = (is_empty (strip s) ≡ false) × AreTexts r
AreTexts (cons _ r) = ⊥

module _ (n : Numbers) (ids : List ℤ) (model_ids : List String) where
  unfoldable pub IsListed : Value → Type 0
  IsListed v = (i : ℤ) × (v ≡ int i) × (has_id n i ids ≡ true)

  unfoldable pub IsPositive : Value → Type 0
  IsPositive v = (m : ℕ) × (v ≡ int (pos (suc m)))

  -- The value is of the kind.
  unfoldable pub Fits : FieldKind → Value → Type 0
  Fits a_dataset v = IsListed v
  Fits a_model v = (s : String) × (v ≡ str s) × (member s model_ids ≡ true)
  Fits a_dataset_or_none v = (v ≡ str "") ⊎ IsListed v
  Fits text v = (s : String) × (v ≡ str s)
  Fits texts v = (xs : Items) × (v ≡ arr xs) × AreTexts xs
  Fits boolean v = (b : Bool) × (v ≡ bool b)
  Fits positive v = IsPositive v
  Fits positive_or_none v = (v ≡ null) ⊎ IsPositive v
  Fits (one_of choices) v = (s : String) × (v ≡ str s) × (member s choices ≡ true)
  Fits (between lo hi) v =
      (x : n.F) × (v ≡ n.value_of x)
      × (n.lt x (n.literal lo) ≡ false)
      × (n.lt (n.literal hi) x ≡ false)
  Fits (at_least lo) v = (x : n.F) × (v ≡ n.value_of x) × (n.lt x (n.literal lo) ≡ false)
