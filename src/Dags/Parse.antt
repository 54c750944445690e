-- ===== src/Dags/Parse.antt =====
-- apps/backend/app/models/dags.py: the validators of single fields.
use Prim.Native.Char.{Char, code}
use innovativeproject_pm_gen.Base.{
  ℕ, ◌*◌, String, ◌≡◌, refl, Bool, true, false, ◌&&◌, ◌||◌, Option, none, some, List, [], ◌∷◌, ◌==◌,
  eqb, leb, if◌then◌else◌,
}
use innovativeproject_pm_gen.Base.Text.{lower, is_empty}
use innovativeproject_pm_gen.Base.Table.{lookup}
use innovativeproject_pm_gen.Base.Value.{
  Value, null, bool, int, float, str, arr, obj, Items, nil, cons, Fields, end, field, pos, Builtins,
  get, get_value, str_of, or_value,
}
use innovativeproject_pm_gen.Schemas.{TaskStatus, DagRunStatus, RunType}

abbrev task_status_map : List (String × TaskStatus)
task_status_map =
    ("success", TaskStatus.success)
    ∷ ("running", TaskStatus.running)
    ∷ ("failed", TaskStatus.failed)
    ∷ ("upstream_failed", TaskStatus.failed)
    ∷ ("up_for_retry", TaskStatus.up_for_retry)
    ∷ ("up_for_reschedule", TaskStatus.up_for_retry)
    ∷ ("restarting", TaskStatus.up_for_retry)
    ∷ ("queued", TaskStatus.queued)
    ∷ ("scheduled", TaskStatus.queued)
    ∷ ("deferred", TaskStatus.queued)
    ∷ ("skipped", TaskStatus.skipped)
    ∷ ("removed", TaskStatus.none_status)
    ∷ ("none", TaskStatus.none_status)
    ∷ []

abbrev dag_run_status_map : List (String × DagRunStatus)
dag_run_status_map =
    ("success", DagRunStatus.success)
    ∷ ("running", DagRunStatus.running)
    ∷ ("failed", DagRunStatus.failed)
    ∷ ("queued", DagRunStatus.queued)
    ∷ ("scheduled", DagRunStatus.queued)
    ∷ ("up_for_retry", DagRunStatus.running)
    ∷ ("restarting", DagRunStatus.running)
    ∷ []

-- `table.get(k, default)`
abbrev or_else {ℓ} : {A : Type ℓ} → Option A → A → A
or_else none d = d
or_else (some a) d = a

unfoldable pub parse_task_status : Value → TaskStatus
unfolding lookup lower
parse_task_status (str s) = or_else (lookup (lower s) task_status_map) TaskStatus.none_status
parse_task_status _ = TaskStatus.none_status

unfoldable pub parse_dag_run_status : Value → DagRunStatus
unfolding lookup lower
parse_dag_run_status (str s) = or_else (lookup (lower s) dag_run_status_map) DagRunStatus.queued
parse_dag_run_status _ = DagRunStatus.queued

-- `int(v * 1000)` of a number that is not negative; a `bool` is an `int`.
unfoldable pub parse_duration : Builtins → Value → Option ℕ
parse_duration b (bool true) = some 1000
parse_duration b (bool false) = some 0
parse_duration b (int (pos n)) = some (n * 1000)
parse_duration b (float f) = b.float_ms f
parse_duration b _ = none

unfoldable run_type_of : String → RunType
run_type_of s =
    if s == "manual"
    then RunType.manual
    else if s == "scheduled"
    then RunType.scheduled
    else if s == "backfill"
    then RunType.backfill
    else if s == "asset_triggered"
    then RunType.asset_triggered
    else if s == "dataset_triggered"
    then RunType.asset_triggered
    else RunType.manual

unfoldable pub parse_run_type : Value → RunType
unfolding run_type_of
parse_run_type (str s) = run_type_of s
parse_run_type _ = RunType.manual

-- `[\w.\-]` on an ASCII character.
abbrev pub is_name_char : Char → Bool
is_name_char c =
    (leb 48 (code c) && leb (code c) 57)
    || (leb 65 (code c) && leb (code c) 90)
    || (leb 97 (code c) && leb (code c) 122)
    || eqb (code c) 95
    || eqb (code c) 46
    || eqb (code c) 45

-- What follows a prefix.
unfoldable pub drop_prefix : String → String → Option String
drop_prefix String.[] s = some s
drop_prefix (String.◌∷◌ c p) String.[] = none
drop_prefix (String.◌∷◌ c p) (String.◌∷◌ d s) =
    if eqb (code c) (code d) then drop_prefix p s else none

abbrev pub nonempty : String → Option String
nonempty s = if is_empty s then none else some s

unfoldable pub first_match : Option String → Option String → Option String
first_match (some m) later = some m
first_match none later = later

-- `is_word` is the `\w` of Python's `re`, which has the letters and digits of all scripts.
module _ (is_word : Char → Bool) where
  -- The longest run of `[\w.\-]` at the front.
  unfoldable pub name_prefix : String → String
  name_prefix String.[] = String.[]
  name_prefix (String.◌∷◌ c s) =
      if is_word c || eqb (code c) 46 || eqb (code c) 45
      then String.◌∷◌ c (name_prefix s)
      else String.[]

  -- The group of a match of `triggered_by=([\w.\-]+)` at the front.
  unfoldable pub group_of : Option String → Option String
  unfolding name_prefix
  group_of none = none
  group_of (some r) = nonempty (name_prefix r)

  unfoldable pub match_here : String → Option String
  unfolding drop_prefix group_of
  match_here s = group_of (drop_prefix "triggered_by=" s)

  -- `re.search`: the leftmost match.
  unfoldable pub search_triggered_by : String → Option String
  unfolding match_here first_match
  search_triggered_by String.[] = none
  search_triggered_by (String.◌∷◌ c s) =
      first_match (match_here (String.◌∷◌ c s)) (search_triggered_by s)

  unfoldable pub parse_triggered_by : Value → Option String
  unfolding search_triggered_by
  parse_triggered_by (str s) = search_triggered_by s
  parse_triggered_by _ = none

texts_of : Builtins → Items → List String
texts_of b nil = []
texts_of b (cons v r) = str_of b v ∷ texts_of b r

unfoldable pub parse_owners : Builtins → Value → List String
unfolding texts_of str_of
parse_owners b (arr xs) = texts_of b xs
parse_owners b _ = []

-- One round of the loop of `parse_tags`.
tag_text : Builtins → Value → List String
tag_text b (str s) = s ∷ []
tag_text b (obj d) = elim (get d "name") [ none ↦ [] | some v ↦ str_of b v ∷ [] ]
tag_text b _ = []

tag_loop : Builtins → Items → List String → List String
tag_loop b nil out = out
tag_loop b (cons v r) out = tag_loop b r (innovativeproject_pm_gen.Base.◌++◌ out (tag_text b v))

unfoldable pub parse_tags : Builtins → Value → List String
unfolding tag_loop tag_text str_of get
parse_tags b (arr xs) = tag_loop b xs []
parse_tags b _ = []

-- `v.get("value") or v.get("expression")` may be any value.
unfoldable pub parse_schedule : Builtins → Value → Value
unfolding str_of or_value get_value
parse_schedule b null = null
parse_schedule b (str s) = str s
parse_schedule b (obj d) = or_value b (get_value d "value") (get_value d "expression")
parse_schedule b v = str (str_of b v)

-- `json.loads` is handed in: a parsed value, or `none` where it raises.
unfoldable pub parse_executor_config : (String → Option Value) → Value → Fields
parse_executor_config loads null = end
parse_executor_config loads (obj d) = d
parse_executor_config loads (str s) = if is_empty s then end else elim (loads s) [
  | none ↦ field "raw" (str s) end
  | some (obj d) ↦ d
  | _ ↦ field "raw" (str s) end
]
parse_executor_config loads _ = end

unfoldable pub parse_raw_state : Builtins → Value → String
unfolding str_of or_value
parse_raw_state b v = str_of b (or_value b v (str "queued"))

unfoldable pub parse_task_raw_state : Builtins → Value → String
unfolding str_of or_value
parse_task_raw_state b v = str_of b (or_value b v (str "none"))

status_test : parse_task_status (str "UPSTREAM_FAILED") ≡ TaskStatus.failed
unfolding parse_task_status
status_test = refl

triggered_test : parse_triggered_by is_name_char (str "x | triggered_by=ann.b@c") ≡ some "ann.b"
unfolding parse_triggered_by
triggered_test = refl
