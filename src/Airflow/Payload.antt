-- ===== src/Airflow/Payload.antt =====
-- apps/backend/app/services/airflow/service.py: the payloads of runs: their ids, their notes, and the
-- search for a run in a listing.
pub mod Search
pub mod Note
use innovativeproject_pm_gen.Base.{
  ◌||◌, ◌&&◌, not, ◌++◌, if◌then◌else◌, String, ◌<>◌, Bool, true, false, Option, none, some, List,
  [], ◌∷◌,
}
use innovativeproject_pm_gen.Base.Value.{
  nil, arr, get_default, or_value, iterate, Builtins, as_dict, Fault, str, obj, get_value, Value,
  Fields,
}
use innovativeproject_pm_gen.Base.Text.{strip, is_empty, join}
use innovativeproject_pm_gen.Base.Result.{◌>>=◌, ok, Result}
use innovativeproject_pm_gen.Base.Table.{member}

-- `_run_id_from_payload`
abbrev pub text_of : Value → String
text_of (str s) = s
text_of _ = ""

unfoldable pub run_id_from_payload : Fields → String
run_id_from_payload d = text_of (get_value d "dag_run_id")

-- `_compose_note`
unfoldable pub note_parts : Option String → List String
note_parts none = []
note_parts (some note) = if is_empty note then [] else strip note ∷ []

unfoldable pub user_parts : Option String → List String
user_parts none = []
user_parts (some user) = if is_empty user then [] else ("triggered_by=" <> user) ∷ []

unfoldable pub joined : List String → Option String
joined [] = none
joined (p ∷ ps) = some (join " | " (p ∷ ps))

unfoldable pub compose_note : Option String → Option String → Option String
unfolding note_parts user_parts joined
compose_note note triggered_by = joined (note_parts note ++ user_parts triggered_by)

-- Is this payload of a run one that is looked for, by its own id or by the id in its configuration?
conf_matches : List String → Value → Bool
conf_matches ids (obj conf) = elim (get_value conf "genpm_run_id") [
  | str s ↦ member s ids
  | _ ↦ false
]
conf_matches ids _ = false

unfoldable pub dict_matches : List String → Fields → Bool
unfolding conf_matches
dict_matches ids d =
    (not (is_empty (run_id_from_payload d)) && member (run_id_from_payload d) ids)
    || conf_matches ids (get_value d "conf")

unfoldable pub matches : List String → Value → Result Fault Bool
matches ids v = as_dict v >>= λ d. ok (dict_matches ids d)

unfoldable pub found_or : Bool → Value → Result Fault (Option Value) → Result Fault (Option Value)
found_or true v rest = ok (some v)
found_or false v rest = rest

-- `for item in raw_list.get("dag_runs", []) or []`
unfoldable pub scan : List String → List Value → Result Fault (Option Value)
scan ids [] = ok none
scan ids (v ∷ vs) = matches ids v >>= λ b. found_or b v (scan ids vs)

abbrev pub present : String → List String
present s = if is_empty s then [] else s ∷ []

-- `{value for value in (run_id, genpm_run_id) if value}`
unfoldable pub lookup_ids : String → Option String → List String
lookup_ids run_id none = present run_id
lookup_ids run_id (some genpm) = present run_id ++ present genpm

-- The runs of a listing, `raw.get("dag_runs", []) or []`, and the first that is looked for.
unfoldable pub listed : Builtins → Value → Result Fault (List Value)
listed b raw =
    as_dict raw >>= λ d. iterate (or_value b (get_default d "dag_runs" (arr nil)) (arr nil))

unfoldable pub find_listed : Builtins → List String → Value → Result Fault (Option Value)
find_listed b ids raw = listed b raw >>= scan ids
