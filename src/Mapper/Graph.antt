-- ===== src/Mapper/Graph.antt =====
-- apps/backend/app/services/airflow/mapper.py: `map_dag_graph`, with its helpers and the fallback to
-- the local DAG file. The two `seen` sets are kept beside the lists, as in the code.
pub mod Shape
pub mod Complete
pub mod Fallback
use innovativeproject_pm_gen.Base.{
  String, ◌≡◌, refl, Bool, true, false, not, ◌&&◌, ◌||◌, Option, none, some, List, [], ◌∷◌, ◌++◌,
  map, if◌then◌else◌,
}
use innovativeproject_pm_gen.Base.Text.{is_empty}
use innovativeproject_pm_gen.Base.Table.{lookup, member, member_pair}
use innovativeproject_pm_gen.Base.Result.{Result, ok, err, ◌>>=◌, fold_ok}
use innovativeproject_pm_gen.Base.Value.{
  Value, null, bool, int, str, arr, obj, nil, Fields, ℤ, pos, Fault, Builtins, get_value,
  get_default, str_of, truthy, or_value, int_of, iterate, as_dict,
}
use innovativeproject_pm_gen.Mapper.Shift.{Task, Tasks}

pub record TaskNode : Type 0 where
  pub task_id : String
  pub label : String
  pub operator : String
  pub is_group : Bool
  pub trigger_rule : String
  pub retries_max : ℤ
  pub depends_on_past : Bool

pub record TaskEdge : Type 0 where
  pub source : String
  pub target : String

pub record DagGraph : Type 0 where
  pub nodes : List TaskNode
  pub edges : List TaskEdge

pub record State : Type 0 where
  pub nodes : List TaskNode
  pub edges : List TaskEdge
  pub seen_nodes : List String
  pub seen_edges : List (String × String)

abbrev pub start : State
start = record { nodes = []; edges = []; seen_nodes = []; seen_edges = [] }

-- The node has its label already: `label or task_id` is `with_label`.
abbrev with_label : TaskNode → TaskNode
with_label n = record n { label = if is_empty n.label then n.task_id else n.label }

unfoldable pub append_node : TaskNode → State → State
append_node n st = if member n.task_id st.seen_nodes then st else record st {
  nodes = st.nodes ++ (with_label n ∷ []);
  seen_nodes = st.seen_nodes ++ (n.task_id ∷ []);
}

unfoldable pub append_edge : String → String → State → State
append_edge s t st =
    if is_empty s || is_empty t
    then st
    else if member_pair (s, t) st.seen_edges
    then st
    else record st {
      edges = st.edges ++ (record { source = s; target = t } ∷ []);
      seen_edges = st.seen_edges ++ ((s, t) ∷ []);
    }

-- The two loops over neighbours, and the loop over the dependencies of a local file.
unfoldable pub append_edges : List (String × String) → State → State
append_edges [] st = st
append_edges ((s, t) ∷ r) st = append_edges r (append_edge s t st)

unfoldable operator_from_class_ref : Value → Value
operator_from_class_ref (obj d) = get_value d "class_name"
operator_from_class_ref _ = null

module _ (b : Builtins) where
  -- `str(d.get(k) or default)`
  unfoldable pub text_or : Fields → String → String → String
  unfolding str_of or_value get_value
  text_or d k default = str_of b (or_value b (get_value d k) (str default))

  -- `d.get(k, []) or []`, as what a loop goes through.
  unfoldable pub list_or_nil : Fields → String → Result Fault (List Value)
  unfolding iterate or_value get_default
  list_or_nil d k = iterate (or_value b (get_default d k (arr nil)) (arr nil))

  operator_name : Fields → String
  operator_name d = str_of b (
      or_value b
        (or_value b (get_value d "operator_name")
          (operator_from_class_ref (get_value d "class_ref")))
        (str "Operator"))

  unfoldable pub node_of : Fields → String → ℤ → TaskNode
  unfolding operator_name operator_from_class_ref text_or truthy get_default
  node_of d task_id retries = record {
    task_id = task_id;
    label = text_or d "task_display_name" task_id;
    operator = operator_name d;
    is_group = truthy b (get_default d "is_mapped" (bool false));
    trigger_rule = text_or d "trigger_rule" "all_success";
    retries_max = retries;
    depends_on_past = truthy b (get_default d "depends_on_past" (bool false));
  }

  abbrev pub downstream : String → List Value → List (String × String)
  downstream task_id vs = map (λ v. (task_id, str_of b v)) vs

  abbrev pub upstream : String → List Value → List (String × String)
  upstream task_id vs = map (λ v. (str_of b v, task_id)) vs

  -- The round of the loop for a task that has an id.
  unfoldable pub add_task : Fields → String → State → Result Fault State
  unfolding int_of append_node append_edges
  add_task d task_id st = do
    retries ← int_of b (or_value b (get_value d "retries") (int (pos 0)))
    let noded = append_node (node_of d task_id retries) st
    downs ← list_or_nil d "downstream_task_ids"
    let after = append_edges (downstream task_id downs) noded
    ups ← list_or_nil d "upstream_task_ids"
    ok (append_edges (upstream task_id ups) after)

  unfoldable pub map_task : State → Value → Result Fault State
  unfolding as_dict
  map_task st task = do
    d ← as_dict task
    let task_id = text_or d "task_id" ""
    if is_empty task_id then ok st else add_task d task_id st

-- `str(task.get("task_id") or variable_name)`
unfoldable pub local_id : String × Task → String
local_id (var, t) = if is_empty t.task_id then var else t.task_id

local_node : String × Task → TaskNode
local_node (var, t) = record {
  task_id = local_id (var, t);
  label = local_id (var, t);
  operator = if is_empty t.operator then "Operator" else t.operator;
  is_group = false;
  trigger_rule = "all_success";
  retries_max = pos 0;
  depends_on_past = false;
}

unfoldable pub append_local_nodes : Tasks → State → State
unfolding local_node local_id append_node
append_local_nodes [] st = st
append_local_nodes (t ∷ r) st = append_local_nodes r (append_node (local_node t) st)

-- `str(tasks.get(var, {}).get("task_id") or var)`
unfoldable pub resolve : Tasks → String → String
unfolding lookup local_id
resolve tasks var = elim (lookup var tasks) [ none ↦ var | some t ↦ local_id (var, t) ]

abbrev pub resolve_pair : Tasks → String × String → String × String
resolve_pair tasks (s, t) = (resolve tasks s, resolve tasks t)

abbrev pub some_missing : List String → List String → Bool
some_missing [] seen = false
some_missing (x ∷ xs) seen = not (member x seen) || some_missing xs seen

abbrev pub is_nil {ℓ} : {A : Type ℓ} → List A → Bool
is_nil [] = true
is_nil (x ∷ xs) = false

-- Edges that do not run between two tasks of the local file.
unfoldable pub airflow_only : List String → List TaskEdge → List TaskEdge
airflow_only ids [] = []
airflow_only ids (e ∷ r) =
    let rest = airflow_only ids r in
    if not (member e.source ids) || not (member e.target ids) then e ∷ rest else rest

abbrev pub edge_key : TaskEdge → String × String
edge_key e = (e.source, e.target)

unfoldable pub drop_local_edges : List String → State → State
unfolding airflow_only
drop_local_edges ids st =
    let kept = airflow_only ids st.edges in
    record st { edges = kept; seen_edges = map edge_key kept }

unfoldable pub apply_local_dag_file_fallback :
    Option (Tasks × List (String × String)) → State → State
unfolding drop_local_edges append_local_nodes append_edges resolve
apply_local_dag_file_fallback none st = st
apply_local_dag_file_fallback (some (tasks, deps)) st =
    let ids = map local_id tasks in
    let refreshed =
      if some_missing ids st.seen_nodes && not (is_nil deps) then drop_local_edges ids st else st in
    append_edges (map (resolve_pair tasks) deps) (append_local_nodes tasks refreshed)

-- `if dag_id:`; the local file is what `_parse_local_dag_file` gives for the id.
with_fallback : (String → Option (Tasks × List (String × String))) → Option String → State → State
with_fallback parse none st = st
with_fallback parse (some dag_id) st =
    if is_empty dag_id then st else apply_local_dag_file_fallback (parse dag_id) st

unfoldable pub map_dag_graph :
    Builtins
    → (String → Option (Tasks × List (String × String)))
    → Fields
    → Option String
    → Result Fault DagGraph
unfolding with_fallback fold_ok map_task list_or_nil
map_dag_graph b parse raw dag_id = do
  tasks ← list_or_nil b raw "tasks"
  st ← fold_ok (map_task b) start tasks
  let final = with_fallback parse dag_id st
  ok (record { nodes = final.nodes; edges = final.edges })
