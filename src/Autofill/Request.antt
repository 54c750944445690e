-- ===== src/Autofill/Request.antt =====
-- apps/backend/app/services/llm/autofill.py, `autofill_modeling_form`. What the HTTP client does is
-- its outcome; `json.loads` is an argument. The texts of the prompt are not modelled.
pub mod Laws
use innovativeproject_pm_gen.Base.{
  ℕ, String, List, [], ◌∷◌, ◌<>◌, Option, none, some, leb, if◌then◌else◌,
}
use innovativeproject_pm_gen.Base.Value.{
  ℤ, Value, null, str, obj, arr, nil, cons, Fields, get, decimal,
}
use innovativeproject_pm_gen.Base.Result.{Result, ok, err, ◌>>=◌}
use innovativeproject_pm_gen.Autofill.{llm, Numbers, Failure}
use innovativeproject_pm_gen.Autofill.Form.{normalize, ProcessType}

-- A response comes with its status and its body, if that is JSON.
pub data Post : Type 0 where
  timed_out http_error : Post
  reply : ℕ → Option Value → Post

unfoldable pub subscript : String → Option Value → Option Value
subscript key (some (obj d)) = get d key
subscript key _ = none

unfoldable pub first_item : Option Value → Option Value
first_item (some (arr (cons v r))) = some v
first_item _ = none

-- `json.loads(body["choices"][0]["message"]["content"])`; every exception of it is caught alike. A
-- text for the list of choices gives a text as its first item, which has no "message" either.
unfoldable pub content_of : (String → Option Value) → Option Value → Option Value
content_of json_loads (some (str s)) = json_loads s
content_of json_loads _ = none

unfoldable pub parsed : (String → Option Value) → Option Value → Option Value
parsed json_loads body =
    content_of json_loads
      (subscript "content" (subscript "message" (first_item (subscript "choices" body))))

unfoldable pub as_object : Option Value → Result Failure Fields
as_object none = err (llm "LLM returned an invalid JSON response." 502)
as_object (some (obj d)) = ok d
as_object (some _) = err (llm "LLM response must be a JSON object." 502)

unfoldable pub read_reply : (String → Option Value) → Post → Result Failure Fields
read_reply json_loads timed_out = err (llm "LLM request timed out." 504)
read_reply json_loads http_error = err (llm "Failed to reach the LLM API." 502)
read_reply json_loads (reply status body) =
    if leb 400 status
    then err (llm ("LLM API returned status " <> (decimal status <> ".")) 502)
    else as_object (parsed json_loads body)

unfoldable pub autofill_modeling_form :
    Numbers
    → (String → Option Value)
    → Option String
    → Post
    → ProcessType
    → Fields
    → List ℤ
    → List String
    → Result Failure Fields
autofill_modeling_form n json_loads none post process_type current ids model_ids =
    err (llm "LLM autofill is not configured. Set LLM_API_KEY in the backend environment." 503)
autofill_modeling_form n json_loads (some api_key) post process_type current ids model_ids =
    read_reply json_loads post >>= λ raw. normalize n current process_type raw ids model_ids
