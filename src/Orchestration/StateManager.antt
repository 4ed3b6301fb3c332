-- ===== src/Orchestration/StateManager.antt =====
-- backend/app/orchestration/state_manager.py, less `updated_at`.
use ai_employee_os.Common.{String, Bool, true, false, Option, none, [], if◌then◌else◌}
use ai_employee_os.Orchestration.Models.{
  ExecutionControlStatus, ExecutionGraph, ExecutionState, is_running, is_completed, is_failed,
  is_open, is_waiting_or_ready, ids_with,
}

abbrev pub is_paused_control : ExecutionControlStatus → Bool
is_paused_control ExecutionControlStatus.paused = true
is_paused_control _ = false

abbrev pub is_cancelled_control : ExecutionControlStatus → Bool
is_cancelled_control ExecutionControlStatus.cancelled = true
is_cancelled_control _ = false

abbrev pub is_running_control : ExecutionControlStatus → Bool
is_running_control ExecutionControlStatus.running = true
is_running_control _ = false

unfoldable pub create_state : String → ExecutionGraph → ExecutionState
create_state execution_id graph = record {
  execution_id = execution_id;
  graph_id = graph.id;
  control_status = ExecutionControlStatus.running;
  current_nodes = [];
  completed_nodes = [];
  failed_nodes = [];
  waiting_nodes = ids_with is_waiting_or_ready graph.nodes;
  progress = record { done = 0; total = 1 };
  failure_reason = none;
}

unfoldable pub refresh : ExecutionState → ExecutionGraph → ExecutionState
refresh state graph = record state {
  current_nodes = ids_with is_running graph.nodes;
  completed_nodes = ids_with is_completed graph.nodes;
  failed_nodes = ids_with is_failed graph.nodes;
  waiting_nodes = ids_with is_open graph.nodes;
}

unfoldable pub pause : ExecutionState → ExecutionState
pause state = record state { control_status = ExecutionControlStatus.paused }

unfoldable pub resume : ExecutionState → ExecutionState
resume state =
    if is_paused_control state.control_status
    then record state { control_status = ExecutionControlStatus.running }
    else state

unfoldable pub cancel : ExecutionState → Option String → ExecutionState
cancel state reason = record state {
  control_status = ExecutionControlStatus.cancelled;
  failure_reason = reason;
}

unfoldable pub complete : ExecutionState → ExecutionState
complete state = record state {
  control_status = ExecutionControlStatus.completed;
  current_nodes = [];
}

unfoldable pub fail : ExecutionState → Option String → ExecutionState
fail state reason = record state {
  control_status = ExecutionControlStatus.failed;
  failure_reason = reason;
  current_nodes = [];
}
