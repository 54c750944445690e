-- ===== src/Mapper/Graph/Complete.antt =====
-- Exactly the tasks of the payload become nodes, and exactly their neighbours become edges.
use innovativeproject_pm_gen.Base.{
  String, ◌≡◌, refl, ◌∙◌, Bool, false, not, ◌&&◌, ◌||◌, Option, none, List, [], ◌∷◌, arith, eq_iff,
  ◌==◌, any, Bool-cases, inl, inr,
}
use innovativeproject_pm_gen.Mapper.Graph.Shape.{node_ids, edge_keys, fold_tasks-IsMapped}
use innovativeproject_pm_gen.Base.Value.{obj, Value, Fields, Builtins}
use innovativeproject_pm_gen.Mapper.Graph.{
  start, DagGraph, map_dag_graph, map_task, node_of, upstream, downstream, add_task, text_or,
  list_or_nil, TaskNode, State, append_node, append_edges, append_edge,
}
use innovativeproject_pm_gen.Base.Text.{is_empty}
use innovativeproject_pm_gen.Base.Table.{same_pair_iff, member_pair, member, same_pair}
use innovativeproject_pm_gen.Base.Sets.{has-snoc}
use innovativeproject_pm_gen.Base.Result.{
  fold_ok-any, Ensures-err, ◌>>=◌, values_of_ok, values_of, Ensures-ok, Ensures-bind, Ensures, ok,
}
use innovativeproject_pm_gen.Mapper.Shift.{Tasks}

module _ (p : String × String) where
  -- The pair is listed, and both its ends are there.
  abbrev pub listed : List (String × String) → Bool
  listed [] = false
  listed ((s, t) ∷ r) = (not (is_empty s || is_empty t) && same_pair (s, t) p) || listed r

  append_edge-has :
      (s t : String) (st : State)
      → member_pair p (append_edge s t st).seen_edges
        ≡ (member_pair p st.seen_edges || (not (is_empty s || is_empty t) && same_pair (s, t) p))
  unfolding append_edge
  append_edge-has s t st = elim (Bool-cases (is_empty s || is_empty t)) [
    | inl e ↦ rw e (ground arith)
    | inr ends ↦ rw ends (elim (Bool-cases (member_pair (s, t) st.seen_edges)) [
      | inl old ↦ rw old (ground (arith, same_pair_iff (s, t) p))
      | inr new ↦ rw new (has-snoc same_pair p (s, t) st.seen_edges)
    ])
  ]

  pub append_edges-has :
      (ps : List (String × String)) (st : State)
      → member_pair p (append_edges ps st).seen_edges ≡ (member_pair p st.seen_edges || listed ps)
  unfolding append_edges
  append_edges-has [] st = ground arith
  append_edges-has ((s, t) ∷ r) st =
      ground (arith, append_edges-has r (append_edge s t st), append_edge-has s t st)

pub append_edge-seen_nodes :
    (s t : String) (st : State) → (append_edge s t st).seen_nodes ≡ st.seen_nodes
unfolding append_edge
append_edge-seen_nodes s t st = ground arith

pub append_edges-seen_nodes :
    (ps : List (String × String)) (st : State) → (append_edges ps st).seen_nodes ≡ st.seen_nodes
unfolding append_edges
append_edges-seen_nodes [] st = refl
append_edges-seen_nodes ((s, t) ∷ r) st =
    append_edges-seen_nodes r (append_edge s t st) ∙ append_edge-seen_nodes s t st

pub append_node-seen_edges :
    (n : TaskNode) (st : State) → (append_node n st).seen_edges ≡ st.seen_edges
unfolding append_node
append_node-seen_edges n st = ground arith

pub append_node-has :
    (k : String) (n : TaskNode) (st : State)
    → member k (append_node n st).seen_nodes ≡ (member k st.seen_nodes || n.task_id == k)
unfolding append_node
append_node-has k n st = elim (Bool-cases (member n.task_id st.seen_nodes)) [
  | inl old ↦ rw old (ground (arith, eq_iff n.task_id k))
  | inr new ↦ rw new (has-snoc ◌==◌ k n.task_id st.seen_nodes)
]

module _ (b : Builtins) where
  -- The id of a task of the payload; empty if it has none.
  abbrev pub id_of : Fields → String
  id_of d = text_or b d "task_id" ""

  abbrev pub names : String → Value → Bool
  names k (obj d) = not (is_empty (id_of d)) && id_of d == k
  names k _ = false

  abbrev pub neighbours : Fields → String → List Value
  neighbours d key = values_of (list_or_nil b d key)

  -- The edges that a task asks for.
  abbrev pub links : String × String → Value → Bool
  links p (obj d) =
      not (is_empty (id_of d))
      && (listed p (downstream b (id_of d) (neighbours d "downstream_task_ids"))
          || listed p (upstream b (id_of d) (neighbours d "upstream_task_ids")))
  links p _ = false

  add_task-has :
      (k : String) (p : String × String) (d : Fields) (st : State)
      → Ensures
          (λ t.
            (member k t.seen_nodes ≡ (member k st.seen_nodes || id_of d == k))
            × (member_pair p t.seen_edges ≡ (
                member_pair p st.seen_edges
                || (listed p (downstream b (id_of d) (neighbours d "downstream_task_ids"))
                    || listed p (upstream b (id_of d) (neighbours d "upstream_task_ids"))))))
          (add_task b d (id_of d) st)
  unfolding add_task
  add_task-has k p d st = Ensures-bind _ _ λ retries _. Ensures-bind _ _ λ downs ds.
      Ensures-bind _ _ λ ups us.
        let n = node_of b d (id_of d) retries in
        let down = downstream b (id_of d) downs in
        let noded = append_node n st in
        Ensures-ok _ (
          rw (append_edges-seen_nodes, append_edges-seen_nodes)
              (unfold node_of in append_node-has k n st),
          rw (values_of_ok ds, values_of_ok us)
              (ground (
                arith,
                append_edges-has p (upstream b (id_of d) ups) (append_edges down noded),
                append_edges-has p down noded,
                append_node-seen_edges n st,
              )),
        )

  map_task-has :
      (k : String) (p : String × String) (st : State) (task : Value)
      → Ensures
          (λ t.
            (member k t.seen_nodes ≡ (member k st.seen_nodes || names k task))
            × (member_pair p t.seen_edges ≡ (member_pair p st.seen_edges || links p task)))
          (map_task b st task)
  unfolding map_task ◌>>=◌
  map_task-has k p st (obj d) = elim (Bool-cases (is_empty (id_of d))) [
    | inl skip ↦ rw skip (Ensures-ok st (ground arith, ground arith))
    | inr use_it ↦ rw use_it (add_task-has k p d st)
  ]
  map_task-has k p st _ = Ensures-err _

-- If `map_dag_graph` returns a graph with no DAG id given, then a text is the id of a node exactly
-- if it is the non-empty id of some task of the payload, and a pair is an edge exactly if both its
-- ends are non-empty and some task with an id lists it, downstream or upstream.
pub map_dag_graph-exact :
    (b : Builtins) (parse : String → Option (Tasks × List (String × String))) (raw : Fields)
    {g : DagGraph}
    → map_dag_graph b parse raw none ≡ ok g
    → let tasks = neighbours b raw "tasks" in
      ((k : String) → member k (node_ids g.nodes) ≡ any (names b k) tasks)
      × ((p : String × String) → member_pair p (edge_keys g.edges) ≡ any (links b p) tasks)
unfolding map_dag_graph
map_dag_graph-exact b parse raw e =
    (Ensures-bind
        {P = λ (g : DagGraph).
          let tasks = neighbours b raw "tasks" in
          ((k : String) → member k (node_ids g.nodes) ≡ any (names b k) tasks)
          × ((p : String × String) → member_pair p (edge_keys g.edges) ≡ any (links b p) tasks)}
        _ _
        λ tasks ts. Ensures-bind _ _ λ st mapped. Ensures-ok _ (
          let h = fold_tasks-IsMapped b tasks mapped in
          rw (values_of_ok ts) (
            λ k. rw h.nodes_seen (
                (fold_ok-any (map_task b) (λ s. member k s.seen_nodes) (names b k)
                    (λ s x. record { at = λ t q. ((map_task-has b k ("", "") s x).at t q).0 }) start
                    tasks).at
                  st mapped),
            λ p. rw h.edges_seen (
                (fold_ok-any (map_task b) (λ s. member_pair p s.seen_edges) (links b p)
                    (λ s x. record { at = λ t q. ((map_task-has b "" p s x).at t q).1 }) start
                    tasks).at
                  st mapped),
          ))).at
      _ e
