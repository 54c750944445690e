-- ===== src/Mapper/Graph/Shape.antt =====
-- Every graph that `map_dag_graph` returns has distinct nodes, distinct edges and no empty endpoint.
use innovativeproject_pm_gen.Base.{
  true, false, none, some, subst, some, refl, if◌then◌else◌, Option, Bool, String, ◌≡◌, ap, false,
  ◌||◌, List, [], ◌∷◌, ◌++◌, map, arith, eq_iff, ◌==◌, All, All-append, Bool-cases, inl, inr,
}
use mathlib.Core.List.{map-append}
use innovativeproject_pm_gen.Base.Text.{is_empty}
use innovativeproject_pm_gen.Base.Sets.{Distinct, Distinct-snoc}
use innovativeproject_pm_gen.Base.Table.{same_pair, same_pair_iff, member, member_pair}
use innovativeproject_pm_gen.Mapper.Shift.{Tasks}
use innovativeproject_pm_gen.Mapper.Graph.{
  upstream, local_id, downstream, text_or, resolve_pair, node_of, list_or_nil, ok, DagGraph,
  with_fallback, start, map_task, map_dag_graph, drop_local_edges, apply_local_dag_file_fallback,
  airflow_only, add_task, TaskNode, TaskEdge, State, append_node, append_edge, append_edges,
  append_local_nodes, edge_key, local_node,
}
use innovativeproject_pm_gen.Base.Value.{Value, Fields, Builtins}
use innovativeproject_pm_gen.Base.Result.{
  Ensures-ok, Ensures-if, Ensures-bind, Ensures, ok-injective, fold_ok-inv, >>=-eq-ok, fold_ok,
}

abbrev pub node_ids : List TaskNode → List String
node_ids = map (λ n. n.task_id)

abbrev pub edge_keys : List TaskEdge → List (String × String)
edge_keys = map edge_key

-- An edge with two ends.
abbrev pub HasEnds : TaskEdge → Type 0
HasEnds e = (is_empty e.source ≡ false) × (is_empty e.target ≡ false)

-- A graph with distinct node ids, distinct edges and no empty endpoint.
pub record IsGraph (nodes : List TaskNode) (edges : List TaskEdge) : Type 0 where
  pub ids : Distinct ◌==◌ (node_ids nodes)
  pub keys : Distinct same_pair (edge_keys edges)
  pub ends : All HasEnds edges

-- The invariant of the loops: the `seen` sets hold exactly what the lists hold.
pub record IsMapped (st : State) : Type 0 where
  pub nodes_seen : node_ids st.nodes ≡ st.seen_nodes
  pub edges_seen : edge_keys st.edges ≡ st.seen_edges
  pub ids : Distinct ◌==◌ st.seen_nodes
  pub keys : Distinct same_pair st.seen_edges
  pub ends : All HasEnds st.edges

pub append_node-IsMapped : (n : TaskNode) {st : State} → IsMapped st → IsMapped (append_node n st)
unfolding append_node
append_node-IsMapped n {st} h = elim (Bool-cases (member n.task_id st.seen_nodes)) [
  | inl old ↦ rw old h
  | inr new ↦ rw new (record {
    nodes_seen = rw map-append (ap (λ xs. xs ++ (n.task_id ∷ [])) h.nodes_seen);
    edges_seen = h.edges_seen;
    ids = Distinct-snoc ◌==◌ eq_iff n.task_id st.seen_nodes new h.ids;
    keys = h.keys;
    ends = h.ends;
  })
]

pub append_edge-IsMapped : (s t : String) {st : State} → IsMapped st → IsMapped (append_edge s t st)
unfolding append_edge
append_edge-IsMapped s t {st} h = elim (Bool-cases (is_empty s || is_empty t)) [
  | inl e ↦ rw e h
  | inr ends ↦ rw ends (elim (Bool-cases (member_pair (s, t) st.seen_edges)) [
    | inl old ↦ rw old h
    | inr new ↦ rw new (record {
      nodes_seen = h.nodes_seen;
      edges_seen = rw map-append (ap (λ xs. xs ++ ((s, t) ∷ [])) h.edges_seen);
      ids = h.ids;
      keys = Distinct-snoc same_pair same_pair_iff (s, t) st.seen_edges new h.keys;
      ends = All-append HasEnds st.edges _ h.ends (ground arith);
    })
  ])
]

pub append_edges-IsMapped :
    (ps : List (String × String)) {st : State} → IsMapped st → IsMapped (append_edges ps st)
unfolding append_edges
append_edges-IsMapped [] h = h
append_edges-IsMapped ((s, t) ∷ r) h = append_edges-IsMapped r (append_edge-IsMapped s t h)

if-IsMapped : (c : Bool) {s t : State} → IsMapped s → IsMapped t → IsMapped (if c then s else t)
if-IsMapped true h k = h
if-IsMapped false h k = k

append_local_nodes-IsMapped :
    (ts : Tasks) {st : State} → IsMapped st → IsMapped (append_local_nodes ts st)
unfolding append_local_nodes
append_local_nodes-IsMapped [] h = h
append_local_nodes-IsMapped (t ∷ r) h =
    append_local_nodes-IsMapped r (append_node-IsMapped (local_node t) h)

add_task-IsMapped :
    (b : Builtins) (d : Fields) (task_id : String) {st : State}
    → IsMapped st
    → Ensures IsMapped (add_task b d task_id st)
unfolding add_task
add_task-IsMapped b d task_id h = Ensures-bind _ _ λ retries _. Ensures-bind _ _ λ downs _.
    Ensures-bind _ _ λ ups _. Ensures-ok _ (
      append_edges-IsMapped (upstream b task_id ups) (
        append_edges-IsMapped (downstream b task_id downs)
          (append_node-IsMapped (node_of b d task_id retries) h)))

map_task-IsMapped :
    (b : Builtins) (st : State) (task : Value) → IsMapped st → Ensures IsMapped (map_task b st task)
unfolding map_task
map_task-IsMapped b st task h = Ensures-bind _ _ λ d _.
    Ensures-if (is_empty (text_or b d "task_id" "")) (λ _. Ensures-ok st h)
      (λ _. add_task-IsMapped b d (text_or b d "task_id" "") h)

module _ (ids : List String) where
  airflow_only-absent :
      (k : String × String) (es : List TaskEdge)
      → member_pair k (edge_keys es) ≡ false
      → member_pair k (edge_keys (airflow_only ids es)) ≡ false
  unfolding airflow_only
  airflow_only-absent k [] h = refl
  airflow_only-absent k (e ∷ r) h = ground (arith, airflow_only-absent k r)

  airflow_only-Distinct :
      (es : List TaskEdge)
      → Distinct same_pair (edge_keys es)
      → Distinct same_pair (edge_keys (airflow_only ids es))
  unfolding airflow_only
  airflow_only-Distinct [] h = tt
  airflow_only-Distinct (e ∷ r) h =
      ground (arith, airflow_only-Distinct r h.1, airflow_only-absent (edge_key e) r h.0)

  airflow_only-ends : (es : List TaskEdge) → All HasEnds es → All HasEnds (airflow_only ids es)
  unfolding airflow_only
  airflow_only-ends [] h = tt
  airflow_only-ends (e ∷ r) h = ground (arith, airflow_only-ends r h.1)

  drop_local_edges-IsMapped : {st : State} → IsMapped st → IsMapped (drop_local_edges ids st)
  unfolding drop_local_edges
  drop_local_edges-IsMapped {st} h = record {
    nodes_seen = h.nodes_seen;
    edges_seen = refl;
    ids = h.ids;
    keys = airflow_only-Distinct st.edges (rw h.edges_seen h.keys);
    ends = airflow_only-ends st.edges h.ends;
  }

pub fallback-IsMapped :
    (parsed : Option (Tasks × List (String × String))) {st : State}
    → IsMapped st
    → IsMapped (apply_local_dag_file_fallback parsed st)
unfolding apply_local_dag_file_fallback
fallback-IsMapped none h = h
fallback-IsMapped (some (tasks, deps)) {st} h =
    append_edges-IsMapped (map (resolve_pair tasks) deps) (
      append_local_nodes-IsMapped tasks
        (if-IsMapped _ (drop_local_edges-IsMapped (map local_id tasks) h) h))

with_fallback-IsMapped :
    (parse : String → Option (Tasks × List (String × String))) (dag_id : Option String) {st : State}
    → IsMapped st
    → IsMapped (with_fallback parse dag_id st)
unfolding with_fallback
with_fallback-IsMapped parse none h = h
with_fallback-IsMapped parse (some dag_id) h =
    if-IsMapped (is_empty dag_id) h (fallback-IsMapped (parse dag_id) h)

pub start-IsMapped : IsMapped start
start-IsMapped = record { nodes_seen = refl; edges_seen = refl; ids = tt; keys = tt; ends = tt }

-- The tasks of the payload, mapped with no fallback, keep the invariant.
pub fold_tasks-IsMapped :
    (b : Builtins) (tasks : List Value) {st : State}
    → fold_ok (map_task b) start tasks ≡ ok st
    → IsMapped st
fold_tasks-IsMapped b tasks e =
    fold_ok-inv (map_task b) IsMapped (λ s x t h. (map_task-IsMapped b s x h).at t) start tasks
      start-IsMapped e

-- For every payload, DAG id and local file: if `map_dag_graph` returns a graph, then no task id
-- stands at two nodes, no edge stands twice, and no edge has an empty end.
pub map_dag_graph-IsGraph :
    (b : Builtins) (parse : String → Option (Tasks × List (String × String))) (raw : Fields)
    (dag_id : Option String) {g : DagGraph}
    → map_dag_graph b parse raw dag_id ≡ ok g
    → IsGraph g.nodes g.edges
unfolding map_dag_graph
map_dag_graph-IsGraph b parse raw dag_id {g} e =
    let (tasks, _, e₁) = >>=-eq-ok (list_or_nil b raw "tasks") _ e in
    let (st, mapped, e₂) = >>=-eq-ok (fold_ok (map_task b) start tasks) _ e₁ in
    let h = with_fallback-IsMapped parse dag_id (fold_tasks-IsMapped b tasks mapped) in
    subst (λ (x : DagGraph). IsGraph x.nodes x.edges) (ok-injective e₂)
      (record { ids = rw h.nodes_seen h.ids; keys = rw h.edges_seen h.keys; ends = h.ends })
