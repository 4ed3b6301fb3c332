-- ===== src/Orchestration/Progress.antt =====
-- backend/app/orchestration/progress_tracker.py
use ai_employee_os.Common.{
  ℕ, String, Option, none, some, List, [], ◌∷◌, length, string_eq, ◌==◌, if◌then◌else◌,
}
use ai_employee_os.Common.Dict.{lookup}
use ai_employee_os.Orchestration.Models.{
  Uuid, NodeStatus, ExecutionGraphNode, ExecutionGraph, Nodes, Progress, TelegramProgressLine,
  TelegramProgressMessage, is_completed, ids_with,
}

abbrev pub percentage : ℕ → Nodes → Progress
percentage completed [] = record { done = 1; total = 1 }
percentage completed (node ∷ nodes) = record { done = completed; total = length (node ∷ nodes) }

unfoldable pub calculate_progress : ExecutionGraph → Progress
calculate_progress graph = percentage (length (ids_with is_completed graph.nodes)) graph.nodes

abbrev pub status_icon_of : NodeStatus → String × String
status_icon_of NodeStatus.completed = ("✅", "выполнено")
status_icon_of NodeStatus.running = ("⏳", "выполняется")
status_icon_of NodeStatus.waiting = ("⌛", "ожидает")
status_icon_of NodeStatus.ready = ("⌛", "ожидает")
status_icon_of NodeStatus.paused = ("⏸", "приостановлено")
status_icon_of NodeStatus.failed = ("❌", "ошибка")
status_icon_of NodeStatus.cancelled = ("🚫", "отменено")

unfoldable pub progress_line : ExecutionGraphNode → TelegramProgressLine
progress_line node =
    let (icon, label) = status_icon_of node.status in
    record {
      title = if node.description == "" then node.capability else node.description;
      status_icon = icon;
      status_label = label;
    }

-- `none` is the KeyError of an id in the order that has no node.
abbrev cons_line :
    Option ExecutionGraphNode
    → Option (List TelegramProgressLine)
    → Option (List TelegramProgressLine)
cons_line none lines = none
cons_line (some node) none = none
cons_line (some node) (some lines) = some (progress_line node ∷ lines)

unfoldable pub progress_lines : Nodes → List Uuid → Option (List TelegramProgressLine)
progress_lines nodes [] = some []
progress_lines nodes (node_id ∷ order) =
    cons_line (lookup node_id nodes) (progress_lines nodes order)

abbrev message_of :
    String → Progress → Option (List TelegramProgressLine) → Option TelegramProgressMessage
message_of execution_id progress none = none
message_of execution_id progress (some lines) =
    some (record { execution_id = execution_id; progress = progress; lines = lines })

unfoldable pub build_telegram_progress :
    String → ExecutionGraph → Progress → Option TelegramProgressMessage
build_telegram_progress execution_id graph progress =
    message_of execution_id progress (progress_lines graph.nodes graph.execution_order)
