-- ===== src/Orchestration/Resolver.antt =====
-- backend/app/orchestration/dependency_resolver.py. A loop that changes the graph returns it.
use ai_employee_os.Common.{
  String, Bool, true, false, Option, none, some, List, [], ◌∷◌, if◌then◌else◌, contains, string_eq,
  all, any, ◌==◌,
}
use ai_employee_os.Orchestration.Models.{
  Uuid, NodeStatus, ExecutionGraphNode, Nodes, ExecutionGraph, is_completed, is_failed_or_cancelled,
  is_terminal, is_waiting_or_ready, ids_with, with_status,
}

-- `node.error or "Dependency failed"`
abbrev pub error_or : Option String → String → String
error_or none other = other
error_or (some e) other = let empty = e == "" in if empty then other else e

abbrev pub dependency_failed : ExecutionGraphNode → ExecutionGraphNode
dependency_failed node = record node {
  status = NodeStatus.failed;
  error = some (error_or node.error "Dependency failed");
}

-- What the loop makes of a node, given the ids that are completed and those failed or cancelled.
unfoldable pub resolve_node : List Uuid → List Uuid → ExecutionGraphNode → ExecutionGraphNode
resolve_node completed broken node =
    if is_waiting_or_ready node.status
    then (if any (contains broken) node.dependencies
        then dependency_failed node
        else (if all (contains completed) node.dependencies
            then with_status NodeStatus.ready node
            else with_status NodeStatus.waiting node))
    else node

pub record Resolved : Type 0 where
  pub ready : List ExecutionGraphNode
  pub waiting : List ExecutionGraphNode
  pub nodes : Nodes

-- Where `ready.append(node)` and `waiting.append(node)` put the node that the loop has changed
abbrev pub place : NodeStatus → ExecutionGraphNode → Resolved → Resolved
place NodeStatus.ready node r = record r { ready = node ∷ r.ready }
place NodeStatus.waiting node r = record r { waiting = node ∷ r.waiting }
place _ node r = r

unfoldable pub resolve_nodes : List Uuid → List Uuid → Nodes → Resolved
resolve_nodes completed broken [] = record { ready = []; waiting = []; nodes = [] }
resolve_nodes completed broken ((node_id, node) ∷ nodes) =
    let rest = resolve_nodes completed broken nodes in
    let next = resolve_node completed broken node in
    place next.status next (record rest { nodes = (node_id, next) ∷ rest.nodes })

unfoldable pub resolve :
    ExecutionGraph → List ExecutionGraphNode × List ExecutionGraphNode × ExecutionGraph
resolve graph =
    let completed_ids = ids_with is_completed graph.nodes in
    let failed_or_cancelled = ids_with is_failed_or_cancelled graph.nodes in
    let r = resolve_nodes completed_ids failed_or_cancelled graph.nodes in
    (r.ready, r.waiting, record graph { nodes = r.nodes })

unfoldable pub get_ready_nodes : ExecutionGraph → List ExecutionGraphNode × ExecutionGraph
get_ready_nodes graph = let (ready, _, graph') = resolve graph in (ready, graph')

unfoldable pub get_waiting_nodes : ExecutionGraph → List ExecutionGraphNode × ExecutionGraph
get_waiting_nodes graph = let (_, waiting, graph') = resolve graph in (waiting, graph')

unfoldable pub is_complete : ExecutionGraph → Bool
is_complete graph = all (λ (_, node). is_terminal node.status) graph.nodes

abbrev is_nonempty : List ExecutionGraphNode → Bool
is_nonempty [] = false
is_nonempty (_ ∷ _) = true

unfoldable pub has_runnable_nodes : ExecutionGraph → Bool × ExecutionGraph
has_runnable_nodes graph = let (ready, _, graph') = resolve graph in (is_nonempty ready, graph')
