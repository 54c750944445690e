-- ===== src/Tests/Autofill.antt =====
-- Replies of a language model, read into forms, and the note of a run.
use Prim.Native.Char.{Char, code}
use innovativeproject_pm_gen.Base.{
  leb, ◌&&◌, Bool, if◌then◌else◌, ℕ, String, false, [], ◌∷◌, ◌≡◌, refl, Option, some, ltb, arith,
  ◌==◌,
}
use innovativeproject_pm_gen.Base.Value.{
  put, ℤ, pos, Value, null, int, str, arr, obj, nil, cons, Fields, field, end, get, float,
}
use innovativeproject_pm_gen.Base.Result.{◌>>=◌, Result, ok, err}
use innovativeproject_pm_gen.Autofill.Laws.{IsComparison}
use innovativeproject_pm_gen.Autofill.{
  uncaught, max_int, lower_to, raise_to, caught, coerce_int, coerce_float, type_error,
  overflow_error, Numbers, NumberError,
}
use innovativeproject_pm_gen.Autofill.Request.{
  first_item, subscript, content_of, parsed, reply, as_object, read_reply, autofill_modeling_form,
}
use innovativeproject_pm_gen.Dags.Parse.{parse_triggered_by, drop_prefix, name_prefix}
use innovativeproject_pm_gen.Autofill.Form.{
  put_value, apply_rule, fill, training_rules, dataset_rules, rules_of, training_dataset,
  field_specs, patch_of, normalize_patch, normalize,
}
use innovativeproject_pm_gen.Airflow.Payload.Note.{compose_note-parse, is_some, mentions, IsPlain}
use innovativeproject_pm_gen.Autofill.FormLaws.{IsFormValue}
use innovativeproject_pm_gen.Autofill.Request.Laws.{autofill-IsFormValue}
use innovativeproject_pm_gen.Base.Text.{strip}
use innovativeproject_pm_gen.Airflow.Payload.{compose_note}
use innovativeproject_pm_gen.Autofill.Fields.{current_of, bound, int_field, float_field}

-- Floats are hundredths here; the literals that stand for none of them are 50.
abbrev hundredths : String → ℕ
hundredths s = if s == "0" then 0 else if s == "1" then 100 else if s == "0.05" then 5 else 50

abbrev read_number : Value → Result NumberError ℤ
read_number (int i) = ok i
read_number (float x) = err overflow_error
read_number _ = err type_error

abbrev read_share : Value → Result NumberError ℕ
read_share (int (pos m)) = ok m
read_share _ = err type_error

abbrev whole : Numbers
whole = record {
  F = ℕ;
  lt = ltb;
  literal = hundredths;
  value_of = λ x. int (pos x);
  float_of = read_share;
  int_of = read_number;
  is_digits = λ s. false;
}

whole-IsComparison : IsComparison whole
whole-IsComparison = record { asymmetric = λ a b h. ground arith; unit = refl; test_share = refl }

-- The reply proposes a share of 170 hundredths, a window of no hours, and a field of no form.
abbrev proposed : Fields
proposed =
    field "test_size" (int (pos 170)) (field "random_seed" (int (pos 0)) (field "other" null end))

abbrev body : Value
body = obj (
    field "choices"
      (arr (cons (obj (field "message" (obj (field "content" (str "{…}") end)) end)) nil)) end)

abbrev filled : Fields
filled = field "test_size" (int (pos 50)) (field "random_seed" (int (pos 1)) end)

abbrev loads : String → Option Value
loads s = some (obj proposed)

autofilled :
    autofill_modeling_form whole loads
      (some "key")
      (reply 200 (some body))
      training_dataset
      end
      (pos 7 ∷ [])
      []
    ≡ ok filled
unfolding autofill_modeling_form read_reply as_object parsed content_of subscript first_item
    normalize normalize_patch patch_of field_specs rules_of dataset_rules training_rules fill
    apply_rule put_value put get float_field int_field bound current_of coerce_float coerce_int
    caught raise_to lower_to max_int ◌>>=◌
autofilled = refl

-- A number that `int` cannot hold, such as JSON's 1e999, is not caught.
overflow_test :
    normalize whole end training_dataset (field "random_seed" (float "inf") end) [] []
    ≡ err (uncaught overflow_error)
unfolding normalize normalize_patch patch_of field_specs rules_of dataset_rules training_rules fill
    apply_rule put_value put get float_field int_field bound current_of coerce_float coerce_int
    caught raise_to lower_to max_int ◌>>=◌
overflow_test = refl

autofill-IsFormValue_example :
    (key : String) × (raw : Fields) × (◌≡◌ {A = Option String} (some "key") (some key))
    × (read_reply loads (reply 200 (some body)) ≡ ok raw)
    × ((k : String) (w : Value)
        → get filled k ≡ some w
        → IsFormValue whole whole-IsComparison (pos 7 ∷ []) [] end training_dataset raw k w)
autofill-IsFormValue_example =
    autofill-IsFormValue whole whole-IsComparison loads (some "key") (reply 200 (some body))
      training_dataset end (pos 7 ∷ []) [] autofilled

-- Small letters as the word characters.
abbrev letters : Char → Bool
letters c = leb 97 (code c) && leb (code c) 122

compose_note-parse_example :
    (text : String) × (compose_note (some "Stopped via GenPM") (some "ann.b@c") ≡ some text)
    × (parse_triggered_by letters (str text) ≡ some (name_prefix letters "ann.b@c"))
unfolding name_prefix IsPlain mentions drop_prefix is_some strip
compose_note-parse_example =
    compose_note-parse letters (some "Stopped via GenPM") "ann.b@c" refl refl
