-- ===== src/Orchestration/Policy.antt =====
-- backend/app/orchestration/policies/execution_policy.py
use ai_employee_os.Common.{Bool, true, false, [], ◌∷◌, ◌||◌, not, if◌then◌else◌, all, any}
use ai_employee_os.Orchestration.Models.{
  ExecutionGraph, ExecutionState, Nodes, is_terminal, is_failed,
}
use ai_employee_os.Orchestration.StateManager.{is_paused_control, is_running_control}

abbrev pub some_pending : Nodes → Bool
some_pending nodes = any (λ (_, node). not (is_terminal node.status)) nodes

unfoldable pub should_continue_execution : ExecutionState → ExecutionGraph → Bool
should_continue_execution state graph =
    if is_running_control state.control_status then some_pending graph.nodes else false

abbrev is_empty : Nodes → Bool
is_empty [] = true
is_empty (_ ∷ _) = false

unfoldable pub should_fail_execution : ExecutionState → ExecutionGraph → Bool
should_fail_execution state graph =
    if is_empty graph.nodes
    then false
    else (if all (λ (_, node). is_terminal node.status) graph.nodes
        then any (λ (_, node). is_failed node.status) graph.nodes
        else false)

unfoldable pub can_resume : ExecutionState → Bool
can_resume state = is_paused_control state.control_status

unfoldable pub can_pause : ExecutionState → Bool
can_pause state = is_running_control state.control_status

unfoldable pub can_cancel : ExecutionState → Bool
can_cancel state = is_running_control state.control_status || is_paused_control state.control_status
