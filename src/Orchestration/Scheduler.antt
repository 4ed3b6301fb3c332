-- ===== src/Orchestration/Scheduler.antt =====
-- backend/app/orchestration/scheduler.py. `graph.nodes[node_id]` without such a node raises
-- KeyError, here `none`.
use ai_employee_os.Common.{
  String, Bool, Option, none, some, List, [], ◌∷◌, if◌then◌else◌, string_eq,
}
use ai_employee_os.Common.Dict.{lookup, insert}
use ai_employee_os.Common.Json.{Fields}
use ai_employee_os.Orchestration.Models.{
  Uuid, NodeStatus, ExecutionGraphNode, Nodes, ExecutionGraph, is_open, is_waiting_or_ready,
  is_paused, ids_with, each_node, with_status,
}

unfoldable pub mark_running_in : Nodes → List ExecutionGraphNode → List Uuid × Nodes
mark_running_in nodes [] = ([], nodes)
mark_running_in nodes (node ∷ rest) = elim (lookup node.id nodes) [
  | none ↦ mark_running_in nodes rest
  | some stored ↦
      let (running_ids, nodes') =
        mark_running_in (insert node.id (with_status NodeStatus.running stored) nodes) rest in
      (node.id ∷ running_ids, nodes')
]

unfoldable pub mark_running : ExecutionGraph → List ExecutionGraphNode → List Uuid × ExecutionGraph
mark_running graph nodes =
    let (running_ids, nodes') = mark_running_in graph.nodes nodes in
    (running_ids, record graph { nodes = nodes' })

unfoldable pub mark_completed : ExecutionGraph → Uuid → Option Fields → Option ExecutionGraph
mark_completed graph node_id result = elim (lookup node_id graph.nodes) [
  | none ↦ none
  | some node ↦ some (record graph {
    nodes =
        insert node_id
          (record node { status = NodeStatus.completed; result = result; error = none })
          graph.nodes;
  })
]

unfoldable pub mark_failed : ExecutionGraph → Uuid → String → Option ExecutionGraph
mark_failed graph node_id error = elim (lookup node_id graph.nodes) [
  | none ↦ none
  | some node ↦ some (record graph {
    nodes =
        insert node_id (record node { status = NodeStatus.failed; error = some error }) graph.nodes;
  })
]

abbrev pub mark_where :
    (NodeStatus → Bool) → NodeStatus → ExecutionGraph → List Uuid × ExecutionGraph
mark_where test status graph = (
  ids_with test graph.nodes,
  record graph {
    nodes =
        each_node (λ node. if test node.status then with_status status node else node) graph.nodes;
  },
)

unfoldable pub mark_cancelled : ExecutionGraph → List Uuid × ExecutionGraph
mark_cancelled = mark_where is_open NodeStatus.cancelled

unfoldable pub mark_paused : ExecutionGraph → List Uuid × ExecutionGraph
mark_paused = mark_where is_waiting_or_ready NodeStatus.paused

unfoldable pub resume_paused : ExecutionGraph → ExecutionGraph
resume_paused graph = (mark_where is_paused NodeStatus.waiting graph).1
