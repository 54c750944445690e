-- ===== src/Autofill.antt =====
-- apps/backend/app/services/llm/autofill.py: the values that a language model proposes for a form,
-- and how each is brought into the range of its field. Floats, and what `int` and `float` make of a
-- value, are a record of Python's operations.
pub mod Fields
pub mod Form
pub mod Kinds
pub mod Laws
pub mod FieldLaws
pub mod IdLaws
pub mod FormLaws
pub mod Request
use innovativeproject_pm_gen.Base.{
  ℕ, suc, String, Bool, true, false, ◌||◌, ◌&&◌, Option, none, some, List, [], ◌∷◌, ◌==◌, eqb,
  if◌then◌else◌,
}
use innovativeproject_pm_gen.Base.Value.{
  ℤ, pos, negsuc, Value, null, bool, int, float, str, obj, arr,
}
use innovativeproject_pm_gen.Base.Int.{ltb_ℤ}
use innovativeproject_pm_gen.Base.Text.{strip, lower, is_empty}
use innovativeproject_pm_gen.Base.Table.{member}
use innovativeproject_pm_gen.Base.Result.{Result, ok, err, ◌>>=◌}

-- What `int` and `float` raise.
pub data NumberError : Type 0 where
  type_error value_error overflow_error : NumberError

pub record Numbers : Type 1 where
  pub F : Type 0
  pub lt : F → F → Bool
  pub literal : String → F
  pub value_of : F → Value
  pub float_of : Value → Result NumberError F
  pub int_of : Value → Result NumberError ℤ
  pub is_digits : String → Bool

-- `LlmAutofillError`, or an exception that nothing in the module catches.
pub data Failure : Type 0 where
  llm : String → ℕ → Failure
  uncaught : NumberError → Failure

-- `except (TypeError, ValueError)`
unfoldable pub caught {ℓ} : {A : Type ℓ} → A → Result NumberError A → Result Failure A
caught default (ok a) = ok a
caught default (err type_error) = ok default
caught default (err value_error) = ok default
caught default (err overflow_error) = err (uncaught overflow_error)

unfoldable pub not_caught {ℓ} : {A : Type ℓ} → Result NumberError A → Result Failure A
not_caught (ok a) = ok a
not_caught (err e) = err (uncaught e)

unfoldable pub coerce_bool : Value → Bool → Bool
coerce_bool (bool b) default = b
coerce_bool (str s) default =
    if member (lower (strip s)) ("true" ∷ "1" ∷ "yes" ∷ [])
    then true
    else if member (lower (strip s)) ("false" ∷ "0" ∷ "no" ∷ [])
    then false
    else default
coerce_bool _ default = default

unfoldable pub coerce_str : Value → String → String
coerce_str (str s) default = strip s
coerce_str _ default = default

unfoldable pub pick_enum : Value → List String → String → String
pick_enum (str s) allowed default = if member s allowed then s else default
pick_enum _ allowed default = default

-- `value in (None, "", "null")`
unfoldable pub is_blank : Value → Bool
is_blank null = true
is_blank (str s) = is_empty s || s == "null"
is_blank _ = false

unfoldable pub same_int : ℤ → ℤ → Bool
same_int (pos a) (pos b) = eqb a b
same_int (negsuc a) (negsuc b) = eqb a b
same_int _ _ = false

-- `max(lo, num)` on integers.
unfoldable pub max_int : ℤ → ℤ → ℤ
max_int lo num = if ltb_ℤ lo num then num else lo

module _ (n : Numbers) where
  -- The two clamps; `max` and `min` keep the bound unless the number is strictly inside.
  unfoldable pub raise_to : Option n.F → n.F → n.F
  raise_to none num = num
  raise_to (some lo) num = if n.lt lo num then num else lo

  unfoldable pub lower_to : Option n.F → n.F → n.F
  lower_to none num = num
  lower_to (some hi) num = if n.lt num hi then num else hi

  unfoldable pub coerce_float : Value → n.F → Option n.F → Option n.F → Result Failure n.F
  coerce_float value default lo hi =
      caught default (n.float_of value) >>= λ num. ok (lower_to hi (raise_to lo num))

  unfoldable pub coerce_int : Value → ℤ → Result Failure ℤ
  coerce_int value default = caught default (n.int_of value) >>= λ num. ok (max_int (pos 1) num)

  unfoldable pub at_least_one : Result NumberError ℤ → Result NumberError (Option ℤ)
  at_least_one (ok num) = ok (some (max_int (pos 1) num))
  at_least_one (err e) = err e

  unfoldable pub coerce_optional_int : Value → Option ℤ → Result Failure (Option ℤ)
  coerce_optional_int value default =
      if is_blank value then ok default else caught default (at_least_one (n.int_of value))

  unfoldable pub current_float : Value → n.F → Result Failure n.F
  current_float raw fallback = caught fallback (n.float_of raw)

  unfoldable pub current_int : Value → ℤ → Result Failure ℤ
  current_int raw fallback = caught fallback (n.int_of raw)

  unfoldable pub has_id : ℤ → List ℤ → Bool
  has_id i [] = false
  has_id i (j ∷ js) = same_int i j || has_id i js

  -- A text of digits is read; `int(v) in dataset_ids` of a number.
  unfoldable pub digits_read : Value → Result Failure Value
  digits_read (str s) =
      if n.is_digits s then (not_caught (n.int_of (str s)) >>= λ i. ok (int i)) else ok (str s)
  digits_read v = ok v

  unfoldable pub is_number : Value → Bool
  is_number (bool b) = true
  is_number (int i) = true
  is_number (float f) = true
  is_number _ = false

  unfoldable pub known_id : List ℤ → Value → Result Failure (Option ℤ)
  known_id ids v =
      if is_number v
      then (not_caught (n.int_of v) >>= λ i. ok (if has_id i ids then some i else none))
      else ok none

  unfoldable pub first_id : List ℤ → Result Failure ℤ
  first_id [] = err (llm "No completed datasets available." 409)
  first_id (i ∷ ids) = ok i

  unfoldable pub else_first : List ℤ → Option ℤ → Result Failure ℤ
  else_first ids (some i) = ok i
  else_first ids none = first_id ids

  -- `current is not None`: a null is no number, and falls through.
  unfoldable pub else_current : List ℤ → Value → Option ℤ → Result Failure ℤ
  else_current ids current (some i) = ok i
  else_current ids current none =
      digits_read current >>= λ v. known_id ids v >>= λ found. else_first ids found

  unfoldable pub resolve_dataset_id : Value → List ℤ → Value → Result Failure ℤ
  resolve_dataset_id value ids current =
      digits_read value >>= λ v. known_id ids v >>= λ found. else_current ids current found
