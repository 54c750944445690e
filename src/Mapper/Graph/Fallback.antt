-- ===== src/Mapper/Graph/Fallback.antt =====
-- What the fallback to the local DAG file adds to a graph and takes from it.
use innovativeproject_pm_gen.Base.{
  ap, String, ◌≡◌, refl, ◌∙◌, Bool, not, ◌&&◌, ◌||◌, some, List, [], ◌∷◌, map, arith, Bool-cases,
  inl, inr,
}
use innovativeproject_pm_gen.Mapper.Graph.Shape.{IsMapped, edge_keys, node_ids, fallback-IsMapped}
use innovativeproject_pm_gen.Mapper.Graph.Complete.{
  append_node-seen_edges, listed, append_edges-has, append_edges-seen_nodes, append_node-has,
}
use innovativeproject_pm_gen.Mapper.Shift.{Tasks}
use innovativeproject_pm_gen.Mapper.Graph.{
  edge_key, drop_local_edges, resolve_pair, local_node, is_nil, some_missing, local_id, append_node,
  TaskEdge, State, apply_local_dag_file_fallback, append_local_nodes, airflow_only,
}
use innovativeproject_pm_gen.Base.Table.{same_pair_iff, member_pair, member}

-- Both ends are tasks of the local file.
abbrev pub both_local : List String → String × String → Bool
both_local ids (s, t) = member s ids && member t ids

-- The edges among local tasks are read anew: a local task is new, and the file has dependencies.
abbrev pub refreshes : Tasks → List (String × String) → State → Bool
refreshes tasks deps st = some_missing (map local_id tasks) st.seen_nodes && not (is_nil deps)

airflow_only-has :
    (ids : List String) (p : String × String) (es : List TaskEdge)
    → member_pair p (edge_keys (airflow_only ids es))
      ≡ (member_pair p (edge_keys es) && not (both_local ids p))
unfolding airflow_only
airflow_only-has ids p [] = refl
airflow_only-has ids p (e ∷ r) =
    ground (arith, airflow_only-has ids p r, same_pair_iff (edge_key e) p)

append_local_nodes-has :
    (k : String) (ts : Tasks) (st : State)
    → member k (append_local_nodes ts st).seen_nodes
      ≡ (member k st.seen_nodes || member k (map local_id ts))
unfolding append_local_nodes
append_local_nodes-has k [] st = ground arith
append_local_nodes-has k (t ∷ r) st = ground (
  arith,
  append_local_nodes-has k r (append_node (local_node t) st),
  append_node-has k (local_node t) st,
)

append_local_nodes-seen_edges :
    (ts : Tasks) (st : State) → (append_local_nodes ts st).seen_edges ≡ st.seen_edges
unfolding append_local_nodes
append_local_nodes-seen_edges [] st = refl
append_local_nodes-seen_edges (t ∷ r) st =
    append_local_nodes-seen_edges r (append_node (local_node t) st)
    ∙ append_node-seen_edges (local_node t) st

-- The same of the bookkeeping sets.
fallback-seen :
    (tasks : Tasks) (deps : List (String × String)) {st : State}
    → IsMapped st
    → let after = apply_local_dag_file_fallback (some (tasks, deps)) st in
      let ids = map local_id tasks in
      ((k : String) → member k after.seen_nodes ≡ (member k st.seen_nodes || member k ids))
      × ((p : String × String)
          → member_pair p after.seen_edges ≡ (
              (member_pair p st.seen_edges && not (refreshes tasks deps st && both_local ids p))
              || listed p (map (resolve_pair tasks) deps)))
unfolding apply_local_dag_file_fallback
fallback-seen tasks deps {st} h = elim (Bool-cases (refreshes tasks deps st)) [
  | inl anew ↦ rw anew (
    λ k.
        rw append_edges-seen_nodes
          (append_local_nodes-has k tasks (drop_local_edges (map local_id tasks) st)),
    λ p.
        rw (append_edges-has, append_local_nodes-seen_edges, ← h.edges_seen)
          (ap (λ x. x || listed p (map (resolve_pair tasks) deps))
            (airflow_only-has (map local_id tasks) p st.edges)),
  )
  | inr keep ↦ rw keep (
    λ k. rw append_edges-seen_nodes (append_local_nodes-has k tasks st),
    λ p. rw (append_edges-has, append_local_nodes-seen_edges) (ground arith),
  )
]

-- After the fallback a text is the id of a node of the graph exactly if it was one or names a task of the local file.
-- A pair is an edge exactly if it is a dependency of the file, its variables replaced by task ids
-- and with no empty end, or was an edge before; an old edge between two local tasks stays only if
-- the file names no new task or has no dependency.
pub fallback-exact :
    (tasks : Tasks) (deps : List (String × String)) {st : State}
    → IsMapped st
    → let after = apply_local_dag_file_fallback (some (tasks, deps)) st in
      let ids = map local_id tasks in
      ((k : String)
        → member k (node_ids after.nodes) ≡ (member k (node_ids st.nodes) || member k ids))
      × ((p : String × String)
          → member_pair p (edge_keys after.edges) ≡ (
              (member_pair p (edge_keys st.edges)
                && not (refreshes tasks deps st && both_local ids p))
              || listed p (map (resolve_pair tasks) deps)))
fallback-exact tasks deps {st} h =
    let mapped = fallback-IsMapped (some (tasks, deps)) h in
    let (nodes, edges) = fallback-seen tasks deps h in
    (
      λ k. rw (mapped.nodes_seen, h.nodes_seen) (nodes k),
      λ p. rw (mapped.edges_seen, h.edges_seen) (edges p),
    )
