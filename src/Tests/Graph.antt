-- ===== src/Tests/Graph.antt =====
-- The graph of a DAG at concrete inputs.
use innovativeproject_pm_gen.Base.Result.{◌>>=◌}
use innovativeproject_pm_gen.Base.{
  not, ◌&&◌, map, ◌||◌, any, Option, String, ◌≡◌, refl, false, none, some, List, [], ◌∷◌,
}
use innovativeproject_pm_gen.Mapper.Graph.{
  State, node_of, append_edge, add_task, text_or, resolve_pair, local_id, start, map_dag_graph,
  apply_local_dag_file_fallback, TaskNode, DagGraph,
}
use innovativeproject_pm_gen.Base.Value.{
  end, nil, str, obj, cons, arr, pos, plain_builtins, field, Fields,
}
use innovativeproject_pm_gen.Mapper.Graph.Shape.{
  edge_keys, node_ids, IsMapped, map_dag_graph-IsGraph, IsGraph,
}
use innovativeproject_pm_gen.Mapper.Shift.{
  product, dependency_terms, name, extract_shift_dependencies, Tasks,
}
use innovativeproject_pm_gen.Base.Table.{member_pair, member}
use innovativeproject_pm_gen.Mapper.Shift.Chain.{extract-chain, chain}
use innovativeproject_pm_gen.Mapper.Graph.Complete.{
  listed, map_dag_graph-exact, neighbours, links, names,
}
use innovativeproject_pm_gen.Base.Result.{ok}
use innovativeproject_pm_gen.Mapper.Graph.Fallback.{fallback-exact, both_local, refreshes}

abbrev no_file : String → Option (Tasks × List (String × String))
no_file dag_id = none

abbrev payload : Fields
payload =
    field "tasks"
      (arr (
        cons
          (obj (
            field "task_id" (str "a") (field "downstream_task_ids" (arr (cons (str "b") nil)) end)))
          (cons (obj (field "task_id" (str "b") end)) nil)))
      end

abbrev node : String → TaskNode
node t = record {
  task_id = t;
  label = t;
  operator = "Operator";
  is_group = false;
  trigger_rule = "all_success";
  retries_max = pos 0;
  depends_on_past = false;
}

abbrev graph : DagGraph
graph = record {
  nodes = node "a" ∷ node "b" ∷ [];
  edges = record { source = "a"; target = "b" } ∷ [];
}

payload-graph : map_dag_graph plain_builtins no_file payload none ≡ ok graph
unfolding map_dag_graph ◌>>=◌ text_or add_task append_edge node_of
payload-graph = refl

map_dag_graph-exact_example :
    ((k : String)
      → member k ("a" ∷ "b" ∷ [])
        ≡ any (names plain_builtins k) (neighbours plain_builtins payload "tasks"))
    × ((p : String × String)
        → member_pair p (("a", "b") ∷ [])
          ≡ any (links plain_builtins p) (neighbours plain_builtins payload "tasks"))
map_dag_graph-exact_example = map_dag_graph-exact plain_builtins no_file payload payload-graph

map_dag_graph-IsGraph_example : IsGraph graph.nodes graph.edges
map_dag_graph-IsGraph_example =
    map_dag_graph-IsGraph plain_builtins no_file payload none payload-graph

abbrev tasks : Tasks
tasks = ("x", record { task_id = "b"; operator = "PythonOperator" }) ∷ []

abbrev deps : List (String × String)
deps = ("x", "y") ∷ []

-- Airflow's graph has an edge from b to y, and the file reads b anew.
abbrev mapped : State
mapped = append_edge "b" "y" start

mapped-IsMapped : IsMapped mapped
unfolding append_edge
mapped-IsMapped = record {
  nodes_seen = refl;
  edges_seen = refl;
  ids = tt;
  keys = (refl, tt);
  ends = ((refl, refl), tt);
}

fallback-exact_example :
    let after = apply_local_dag_file_fallback (some (tasks, deps)) mapped in
    ((k : String)
      → member k (node_ids after.nodes)
        ≡ (member k (node_ids mapped.nodes) || member k (map local_id tasks)))
    × ((p : String × String)
        → member_pair p (edge_keys after.edges) ≡ (
            (member_pair p (edge_keys mapped.edges)
              && not (refreshes tasks deps mapped && both_local (map local_id tasks) p))
            || listed p (map (resolve_pair tasks) deps)))
fallback-exact_example = fallback-exact tasks deps mapped-IsMapped

extract-chain_example :
    extract_shift_dependencies (chain (name "a") (name "b" ∷ name "c" ∷ []))
    ≡ ("b", "c") ∷ ("a", "b") ∷ []
unfolding extract_shift_dependencies product dependency_terms
extract-chain_example = extract-chain (name "a") (name "b" ∷ name "c" ∷ []) refl (refl, (refl, tt))
