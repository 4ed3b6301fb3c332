-- ===== src/Orchestration/Graph.antt =====
-- backend/app/orchestration/execution_graph.py. A node stands under its own id, `str(step.id)`.
use ai_employee_os.Common.{String, Option, none, some, List, [], ◌∷◌, ◌++◌, map, string_eq}
use ai_employee_os.Common.Dict.{lookup, insert}
use ai_employee_os.Common.Json.{Fields, end, field, Json}
use ai_employee_os.Planning.Models.{PlanStep, TaskPlan}
use ai_employee_os.Planning.Ordering.{order}
use ai_employee_os.Orchestration.Models.{Uuid, NodeStatus, ExecutionGraphNode, ExecutionGraph}

unfoldable pub node_of : PlanStep → ExecutionGraphNode
node_of step = record {
  id = step.id;
  capability = step.capability;
  description = step.description;
  status = NodeStatus.waiting;
  dependencies = step.dependencies;
  result = none;
  metadata = field "plan_step_id" (Json.string step.id) end;
  error = none;
  retry_count = 0;
}

unfoldable pub add_step : ExecutionGraph → PlanStep → ExecutionGraph
add_step graph step = record graph {
  nodes = insert step.id (node_of step) graph.nodes;
  edges = graph.edges ++ map (λ dep_id. (dep_id, step.id)) step.dependencies;
}

unfoldable pub add_steps : ExecutionGraph → List PlanStep → ExecutionGraph
add_steps graph [] = graph
add_steps graph (step ∷ steps) = add_steps (add_step graph step) steps

-- The loop of `_topological_order`, over the entries of `graph.nodes` in place of their keys
unfoldable pub topological_order : ExecutionGraph → List Uuid
topological_order graph =
    map (λ (node_id, _). node_id)
      (order (λ (node_id, _). node_id) (λ (_, node). node.dependencies) graph.nodes)

-- `graph_id` is what `uuid4` gives.
unfoldable pub build_execution_graph : Uuid → TaskPlan → ExecutionGraph
build_execution_graph graph_id plan =
    let graph =
      add_steps
        (record {
          id = graph_id;
          plan_id = plan.id;
          goal = plan.goal;
          nodes = [];
          edges = [];
          execution_order = [];
        })
        plan.steps in
    record graph { execution_order = topological_order graph }

abbrev or_else : Option Fields → Option Fields → Option Fields
or_else none old = old
or_else (some new) old = some new

abbrev or_else_text : Option String → Option String → Option String
or_else_text none old = old
or_else_text (some new) old = some new

abbrev synced : NodeStatus → Option Fields → Option String → ExecutionGraphNode → ExecutionGraphNode
synced status result error node = record node {
  status = status;
  result = or_else result node.result;
  error = or_else_text error node.error;
}

unfoldable pub sync_node_from_plan_step :
    ExecutionGraph → Uuid → NodeStatus → Option Fields → Option String → ExecutionGraph
sync_node_from_plan_step graph step_id status result error = elim (lookup step_id graph.nodes) [
  | none ↦ graph
  | some node ↦ record graph {
    nodes = insert step_id (synced status result error node) graph.nodes;
  }
]
