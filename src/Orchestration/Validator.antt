-- ===== src/Orchestration/Validator.antt =====
-- backend/app/orchestration/validators/execution_validator.py. `visit` goes one level down for
-- each node that it adds to `visited`, so that fuel for one level more than there are nodes is
-- enough; `stack` is passed down in place of being added to and taken from.
pub mod Accepted
pub mod Acyclic
use ai_employee_os.Common.{
  ℕ, zero, suc, String, ◌<>◌, Bool, true, false, Option, none, some, List, [], ◌∷◌, length,
  contains, string_eq, ◌==◌, if◌then◌else◌,
}
use ai_employee_os.Common.Dict.{lookup, keys}
use ai_employee_os.Orchestration.Models.{
  Uuid, NodeStatus, ExecutionGraphNode, Nodes, ExecutionGraph,
}

-- The text of the ExecutionValidationError, if there is one
unfoldable pub check_dependencies : List Uuid → Uuid → List Uuid → Option String
check_dependencies node_ids node_id [] = none
check_dependencies node_ids node_id (dep_id ∷ deps) =
    let rest = check_dependencies node_ids node_id deps in
    if contains node_ids dep_id
    then (if dep_id == node_id
        then some ("Node " <> node_id <> " cannot depend on itself")
        else rest)
    else some ("Node " <> node_id <> " depends on unknown node " <> dep_id)

abbrev pub first_error : Option String → Option String → Option String
first_error none next = next
first_error (some e) next = some e

unfoldable pub check_nodes : List Uuid → Nodes → Option String
check_nodes node_ids [] = none
check_nodes node_ids ((node_id, node) ∷ nodes) =
    first_error (check_dependencies node_ids node_id node.dependencies) (check_nodes node_ids nodes)

abbrev pub dependencies_of : Option ExecutionGraphNode → List Uuid
dependencies_of none = []
dependencies_of (some node) = node.dependencies

-- `for dep in …: if visit(str(dep)): return True`, given `visit`
unfoldable pub visit_all :
    (List Uuid → Uuid → Bool × List Uuid) → List Uuid → List Uuid → Bool × List Uuid
visit_all visit visited [] = (false, visited)
visit_all visit visited (dep_id ∷ deps) =
    let (cycle, visited') = visit visited dep_id in
    let rest = visit_all visit visited' deps in if cycle then (true, visited') else rest

unfoldable pub visit : ℕ → Nodes → List Uuid → List Uuid → Uuid → Bool × List Uuid
visit zero nodes stack visited node_id = (true, visited)
visit (suc fuel) nodes stack visited node_id =
    let below =
      visit_all (visit fuel nodes (node_id ∷ stack)) (node_id ∷ visited)
        (dependencies_of (lookup node_id nodes)) in
    if contains stack node_id
    then (true, visited)
    else (if contains visited node_id then (false, visited) else below)

unfoldable pub has_cycle : Nodes → Bool
has_cycle nodes = (visit_all (visit (suc (length nodes)) nodes []) [] (keys nodes)).0

abbrev pub or_cycle : Option String → Bool → Option String
or_cycle (some e) cycle = some e
or_cycle none true = some "Execution graph contains a dependency cycle"
or_cycle none false = none

unfoldable pub validate_graph : ExecutionGraph → Option String
validate_graph graph = or_cycle (check_nodes (keys graph.nodes) graph.nodes) (has_cycle graph.nodes)

unfoldable pub validate_node_status_transition : NodeStatus → NodeStatus → Bool
validate_node_status_transition NodeStatus.waiting NodeStatus.running = false
validate_node_status_transition NodeStatus.waiting NodeStatus.completed = false
validate_node_status_transition NodeStatus.waiting _ = true
validate_node_status_transition NodeStatus.ready NodeStatus.running = true
validate_node_status_transition NodeStatus.ready NodeStatus.paused = true
validate_node_status_transition NodeStatus.ready NodeStatus.cancelled = true
validate_node_status_transition NodeStatus.ready NodeStatus.failed = true
validate_node_status_transition NodeStatus.running NodeStatus.completed = true
validate_node_status_transition NodeStatus.running NodeStatus.failed = true
validate_node_status_transition NodeStatus.running NodeStatus.cancelled = true
validate_node_status_transition NodeStatus.paused NodeStatus.waiting = true
validate_node_status_transition NodeStatus.paused NodeStatus.cancelled = true
validate_node_status_transition _ _ = false
