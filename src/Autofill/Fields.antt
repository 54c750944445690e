-- ===== src/Autofill/Fields.antt =====
-- apps/backend/app/services/llm/autofill.py, `_normalize`: the value of each field of the forms, from
-- the one proposed and the current values.
use innovativeproject_pm_gen.Base.{
  ℕ, String, Bool, Option, none, some, List, [], ◌∷◌, if◌then◌else◌,
}
use innovativeproject_pm_gen.Base.Value.{
  ℤ, pos, Value, null, bool, int, str, arr, nil, cons, Items, Fields, get, get_value,
}
use innovativeproject_pm_gen.Base.Text.{strip, is_empty, text_take}
use innovativeproject_pm_gen.Base.Table.{member}
use innovativeproject_pm_gen.Base.Result.{Result, ok, err, ◌>>=◌}
use innovativeproject_pm_gen.Autofill.{
  coerce_int, coerce_float, caught, resolve_dataset_id, pick_enum, llm, is_blank, has_id,
  current_int, current_float, coerce_str, coerce_optional_int, coerce_bool, NumberError, Numbers,
  Failure,
}

unfoldable pub bound : (n : Numbers) → Option String → Option n.F
bound n none = none
bound n (some s) = some (n.literal s)

module _ (n : Numbers) (current : Fields) where
  unfoldable pub current_of {ℓ} :
      {A : Type ℓ} → (Value → Result Failure A) → A → Option Value → Result Failure A
  current_of read fallback none = ok fallback
  current_of read fallback (some raw) = read raw

  unfoldable pub float_field :
      String → String → Option String → Option String → Value → Result Failure (Option Value)
  float_field key fallback lo hi value =
      current_of (λ raw. current_float n raw (n.literal fallback)) (n.literal fallback)
        (get current key)
      >>= λ default.
          coerce_float n value default (bound n lo) (bound n hi) >>= λ x. ok (some (n.value_of x))

  unfoldable pub int_field : String → ℕ → Value → Result Failure (Option Value)
  int_field key fallback value =
      current_of (λ raw. current_int n raw (pos fallback)) (pos fallback) (get current key)
      >>= λ default. coerce_int n value default >>= λ i. ok (some (int i))

  unfoldable pub text_field : String → Value → Result Failure (Option Value)
  text_field key value = ok (some (str (coerce_str value (coerce_str (get_value current key) ""))))

  unfoldable pub bool_field : String → Bool → Value → Result Failure (Option Value)
  bool_field key fallback value =
      ok (some (bool (coerce_bool value (coerce_bool (get_value current key) fallback))))

  unfoldable pub required_text : String → Value → Result Failure (Option Value)
  required_text message (str s) =
      if is_empty (strip s) then err (llm message 422) else ok (some (str (strip s)))
  required_text message _ = err (llm message 422)

  unfoldable pub dataset_id_field : List ℤ → Value → Result Failure (Option Value)
  dataset_id_field ids value =
      resolve_dataset_id n value ids (get_value current "dataset_id") >>= λ i. ok (some (int i))

  unfoldable pub dataset_type_field : Value → Result Failure (Option Value)
  dataset_type_field value =
      let allowed = "working_days" ∷ "weekends" ∷ [] in
      ok (
        some (
          str (
            pick_enum value allowed
              (pick_enum (get_value current "dataset_type") allowed "working_days"))))

  -- `None if current_optional in (None, "") else …`
  unfoldable pub optional_default : Value → Result Failure (Option ℤ)
  optional_default null = ok none
  optional_default (str s) = if is_empty s then ok none else coerce_optional_int n (str s) none
  optional_default v = coerce_optional_int n v none

  unfoldable pub optional_value : Option ℤ → Value
  optional_value none = null
  optional_value (some i) = int i

  unfoldable pub joint_windows_field : Value → Result Failure (Option Value)
  joint_windows_field value =
      optional_default (get_value current "min_joint_windows_abs") >>= λ default.
      coerce_optional_int n value default >>= λ i. ok (some (optional_value i))

  unfoldable pub split_date_field : Value → Result Failure (Option Value)
  split_date_field value =
      if is_blank value
      then ok (some (str ""))
      else ok (
          some (
            str (text_take 10 (coerce_str value (coerce_str (get_value current "split_date") "")))))

  -- The model that is proposed, else the current one, else the first.
  unfoldable pub known_model : List String → Value → Option String
  known_model ids (str s) = if member s ids then some s else none
  known_model ids _ = none

  unfoldable pub first_or : Option String → List String → Option String
  first_or none_known [] = none_known
  first_or none_known (i ∷ ids) = some i

  unfoldable pub or_first : List String → Option String → Option String
  or_first ids none = first_or none ids
  or_first ids (some i) = if is_empty i then first_or (some i) ids else some i

  unfoldable pub or_current : List String → Option String → Option String
  or_current ids (some i) = some i
  or_current ids none = or_first ids (known_model ids (get_value current "model_id"))

  unfoldable pub model_found : Option String → Result Failure (Option Value)
  model_found none = err (llm "No trained models available to select." 409)
  model_found (some i) =
      if is_empty i
      then err (llm "No trained models available to select." 409)
      else ok (some (str i))

  unfoldable pub model_id_field : List String → Value → Result Failure (Option Value)
  model_id_field ids value = model_found (or_current ids (known_model ids value))

  unfoldable pub comparison_id : List ℤ → Option ℤ → Value
  comparison_id ids none = str ""
  comparison_id ids (some i) = if has_id n i ids then int i else str ""

  unfoldable pub read_id : Result NumberError ℤ → Result NumberError (Option ℤ)
  read_id (ok i) = ok (some i)
  read_id (err e) = err e

  unfoldable pub comparison_field : List ℤ → Value → Result Failure (Option Value)
  comparison_field ids value =
      if is_blank value
      then ok (some (str ""))
      else (caught none (read_id (n.int_of value)) >>= λ i. ok (some (comparison_id ids i)))

  unfoldable pub named_kpis : Items → Items
  named_kpis nil = nil
  named_kpis (cons (str s) r) =
      let rest = named_kpis r in if is_empty (strip s) then rest else cons (str s) rest
  named_kpis (cons _ r) = named_kpis r

  unfoldable pub selected_kpis_field : Value → Result Failure (Option Value)
  selected_kpis_field (arr xs) = ok (some (arr (named_kpis xs)))
  selected_kpis_field _ = ok none
