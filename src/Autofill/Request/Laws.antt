-- ===== src/Autofill/Request/Laws.antt =====
-- What a form is filled with, whatever the language model answers.
use innovativeproject_pm_gen.Base.{refl, String, List, ◌≡◌, Option, none, some}
use innovativeproject_pm_gen.Base.Value.{ℤ, Value, Fields, get}
use innovativeproject_pm_gen.Base.Result.{>>=-eq-ok, ok}
use innovativeproject_pm_gen.Autofill.Request.{read_reply, Post, autofill_modeling_form}
use innovativeproject_pm_gen.Autofill.{Numbers}
use innovativeproject_pm_gen.Autofill.Laws.{IsComparison}
use innovativeproject_pm_gen.Autofill.Form.{normalize, ProcessType}
use innovativeproject_pm_gen.Autofill.FormLaws.{normalize-IsFormValue, IsFormValue}

-- If the autofill of a form returns, then the API key is set, the model's reply was read as an
-- object, and each field of the result is one of the form's fields, is a key of that object, and
-- has a value of the field's kind: a listed dataset or model, or for the comparison dataset also the
-- empty text; a number within the field's bounds; a positive whole number, or for
-- min_joint_windows_abs also null; one of the two dataset types; a truth value; a list of texts that
-- are not blank; and for every other field some text, of whatever form.
pub autofill-IsFormValue :
    (n : Numbers) (c : IsComparison n)
    → (json_loads : String → Option Value) (api_key : Option String) (post : Post) (p : ProcessType)
      (current : Fields) (ids : List ℤ) (model_ids : List String) {result : Fields}
    → autofill_modeling_form n json_loads api_key post p current ids model_ids ≡ ok result
    → (key : String) × (raw : Fields) × (api_key ≡ some key)
      × (read_reply json_loads post ≡ ok raw)
      × ((k : String) (w : Value)
          → get result k ≡ some w
          → IsFormValue n c ids model_ids current p raw k w)
unfolding autofill_modeling_form
autofill-IsFormValue n c json_loads none post p current ids model_ids e = cc
autofill-IsFormValue n c json_loads (some key) post p current ids model_ids {result} e =
    let (raw, first, second) =
      >>=-eq-ok (read_reply json_loads post) (λ raw. normalize n current p raw ids model_ids) e in
    (
      key,
      raw,
      refl,
      first,
      (normalize-IsFormValue n c ids model_ids current p raw).at result second,
    )
