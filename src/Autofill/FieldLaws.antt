-- ===== src/Autofill/FieldLaws.antt =====
-- The kinds of the values that the fields get.
use innovativeproject_pm_gen.Base.{
  Bool-cases, ℕ, String, Bool, true, false, List, [], ◌∷◌, ◌≡◌, refl, ◌⊎◌, inl, inr, Option, none,
  some,
}
use innovativeproject_pm_gen.Base.Value.{
  obj, float, nil, cons, ℤ, Value, null, bool, int, str, arr, Items, Fields, get_value,
}
use innovativeproject_pm_gen.Base.Result.{
  Ensures-if, Result, ok, err, Ensures, Ensures-ok, Ensures-err, Ensures-bind,
}
use innovativeproject_pm_gen.Autofill.{
  overflow_error, value_error, type_error, NumberError, at_least_one, coerce_optional_int, caught,
  is_blank, pick_enum, coerce_int, coerce_float, Failure, Numbers,
}
use innovativeproject_pm_gen.Autofill.Laws.{clipped, raised, clamped, OnSome, IsComparison}
use innovativeproject_pm_gen.Autofill.Fields.{
  optional_value, optional_default, named_kpis, bound, text_field, split_date_field,
  selected_kpis_field, required_text, joint_windows_field, int_field, float_field,
  dataset_type_field, bool_field,
}
use innovativeproject_pm_gen.Autofill.Kinds.{
  AreTexts, FieldKind, positive, one_of, texts, text, positive_or_none, boolean, between, at_least,
  IsPositive, Fits,
}
use innovativeproject_pm_gen.Base.Table.{member}
use innovativeproject_pm_gen.Base.Text.{strip, is_empty}

module _ (n : Numbers) (c : IsComparison n) (ids : List ℤ) (model_ids : List String)
    (current : Fields) where
  -- The value that is computed, if any, is of the kind.
  abbrev pub Makes : FieldKind → Result Failure (Option Value) → Type 0
  Makes k = Ensures (OnSome (Fits n ids model_ids k))

  pub float_field-between :
      (key fallback lo hi : String)
      → n.lt (n.literal hi) (n.literal lo) ≡ false
      → (v : Value)
      → Makes (between lo hi) (float_field n current key fallback (some lo) (some hi) v)
  unfolding float_field coerce_float bound OnSome
  float_field-between key fallback lo hi h v = Ensures-bind _ _ λ d _. Ensures-bind _ _ λ x e.
      Ensures-ok _ (
        (Ensures-bind {P = λ x. Fits n ids model_ids (between lo hi) (n.value_of x)} _ _
            (λ num _. Ensures-ok _ (clamped n c ids model_ids current lo hi num h))).at
          x e)

  pub float_field-at_least :
      (key fallback lo : String) (v : Value)
      → Makes (at_least lo) (float_field n current key fallback (some lo) none v)
  unfolding float_field coerce_float bound OnSome
  float_field-at_least key fallback lo v = Ensures-bind _ _ λ d _. Ensures-bind _ _ λ x e.
      Ensures-ok _ (
        (Ensures-bind {P = λ x. Fits n ids model_ids (at_least lo) (n.value_of x)} _ _
            (λ num _. Ensures-ok _ (raised n c ids model_ids current lo num))).at
          x e)

  pub int_field-positive :
      (key : String) (fallback : ℕ) (v : Value)
      → Makes positive (int_field n current key fallback v)
  unfolding int_field coerce_int OnSome Fits IsPositive
  int_field-positive key fallback v = Ensures-bind _ _ λ d _. Ensures-bind _ _ λ x e. Ensures-ok _ (
      (Ensures-bind {P = λ x. IsPositive n ids model_ids (int x)} _ _
          (λ num _. Ensures-ok _ (clipped n c ids model_ids current num))).at
        x e)

  a_text : (s : String) → Makes text (ok (some (str s)))
  unfolding OnSome Fits
  a_text s = Ensures-ok _ (s, refl)

  pub text_field-text : (key : String) (v : Value) → Makes text (text_field n current key v)
  unfolding text_field
  text_field-text key v = a_text _

  pub bool_field-boolean :
      (key : String) (fallback : Bool) (v : Value)
      → Makes boolean (bool_field n current key fallback v)
  unfolding bool_field OnSome Fits
  bool_field-boolean key fallback v = Ensures-ok _ (_, refl)

  pub required_text-text :
      (message : String) (v : Value) → Makes text (required_text n current message v)
  unfolding required_text OnSome Fits
  required_text-text message (str s) =
      Ensures-if (is_empty (strip s)) (λ _. Ensures-err _) (λ _. a_text (strip s))
  required_text-text message _ = Ensures-err _

  pub split_date-text : (v : Value) → Makes text (split_date_field n current v)
  unfolding split_date_field OnSome Fits
  split_date-text v = Ensures-if (is_blank v) (λ _. a_text "") (λ _. a_text _)

  named_kpis-AreTexts : (xs : Items) → AreTexts (named_kpis n current xs)
  unfolding named_kpis AreTexts
  named_kpis-AreTexts nil = tt
  named_kpis-AreTexts (cons (str s) r) = elim (Bool-cases (is_empty (strip s))) [
    | inl e ↦ rw e (named_kpis-AreTexts r)
    | inr e ↦ rw e (e, named_kpis-AreTexts r)
  ]
  named_kpis-AreTexts (cons _ r) = named_kpis-AreTexts r

  pub selected_kpis-texts : (v : Value) → Makes texts (selected_kpis_field n current v)
  unfolding selected_kpis_field OnSome Fits
  selected_kpis-texts (arr xs) =
      Ensures-ok _ (named_kpis n current xs, refl, named_kpis-AreTexts xs)
  selected_kpis-texts _ = Ensures-ok _ tt

  pick_enum-member :
      (v : Value) (allowed : List String) (default : String)
      → member default allowed ≡ true
      → member (pick_enum v allowed default) allowed ≡ true
  unfolding pick_enum
  pick_enum-member (str s) allowed default h = elim (Bool-cases (member s allowed)) [
    | inl e ↦ rw e e
    | inr e ↦ rw e h
  ]
  pick_enum-member _ allowed default h = h

  pub dataset_type-one_of :
      (v : Value)
      → Makes (one_of ("working_days" ∷ "weekends" ∷ [])) (dataset_type_field n current v)
  unfolding dataset_type_field OnSome Fits
  dataset_type-one_of v =
      let allowed = "working_days" ∷ "weekends" ∷ [] in
      Ensures-ok _ (
        _,
        refl,
        pick_enum-member v allowed _
            (pick_enum-member (get_value current "dataset_type") allowed "working_days" refl),
      )

  -- An optional number that is absent or at least one.
  Positive : Option ℤ → Type 0
  Positive none = Unit
  Positive (some i) = IsPositive n ids model_ids (int i)

  caught-Positive :
      (d : Option ℤ) (r : Result NumberError ℤ)
      → Positive d
      → Ensures Positive (caught d (at_least_one n r))
  unfolding caught at_least_one Positive
  caught-Positive d (ok i) h = Ensures-ok _ (clipped n c ids model_ids current i)
  caught-Positive d (err type_error) h = Ensures-ok d h
  caught-Positive d (err value_error) h = Ensures-ok d h
  caught-Positive d (err overflow_error) h = Ensures-err _

  coerce_optional-Positive :
      (v : Value) (d : Option ℤ) → Positive d → Ensures Positive (coerce_optional_int n v d)
  unfolding coerce_optional_int
  coerce_optional-Positive v d h =
      Ensures-if (is_blank v) (λ _. Ensures-ok d h) (λ _. caught-Positive d (n.int_of v) h)

  default-Positive : (v : Value) → Ensures Positive (optional_default n current v)
  unfolding optional_default Positive
  default-Positive null = Ensures-ok none tt
  default-Positive (str s) =
      Ensures-if (is_empty s) (λ _. Ensures-ok none tt)
        (λ _. coerce_optional-Positive (str s) none tt)
  default-Positive (bool b) = coerce_optional-Positive (bool b) none tt
  default-Positive (int i) = coerce_optional-Positive (int i) none tt
  default-Positive (float x) = coerce_optional-Positive (float x) none tt
  default-Positive (obj x) = coerce_optional-Positive (obj x) none tt
  default-Positive (arr x) = coerce_optional-Positive (arr x) none tt

  optional-Positive :
      (o : Option ℤ)
      → Positive o
      → (optional_value n current o ≡ null)
        ⊎ IsPositive n ids model_ids (optional_value n current o)
  unfolding optional_value Positive
  optional-Positive none h = inl refl
  optional-Positive (some i) h = inr h

  pub joint_windows-positive :
      (v : Value) → Makes positive_or_none (joint_windows_field n current v)
  unfolding joint_windows_field OnSome Fits
  joint_windows-positive v = Ensures-bind _ _ λ d first. Ensures-bind _ _ λ o second. Ensures-ok _ (
      optional-Positive o (
        (coerce_optional-Positive v d
            ((default-Positive (get_value current "min_joint_windows_abs")).at d first)).at
          o second))
