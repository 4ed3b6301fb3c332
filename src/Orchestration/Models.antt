-- ===== src/Orchestration/Models.antt =====
-- backend/app/orchestration/models.py, less the timestamps. The source's progress is the rounded
-- percentage of a number of nodes in a number of nodes; the model keeps the two numbers.
use ai_employee_os.Common.{ℕ, String, Bool, true, false, Option, List, [], ◌∷◌, if◌then◌else◌}
use ai_employee_os.Common.Dict.{Dict}
use ai_employee_os.Common.Json.{Fields}
pub use ai_employee_os.Common.Json.{Uuid}
use ai_employee_os.Planning.Models.{TaskPlan, TaskExecution}

pub data NodeStatus : Type 0 where
  waiting ready running completed failed cancelled paused : NodeStatus

pub data ExecutionControlStatus : Type 0 where
  running paused cancelled completed failed : ExecutionControlStatus

pub record ExecutionGraphNode : Type 0 where
  pub id : Uuid
  pub capability : String
  pub description : String
  pub status : NodeStatus
  pub dependencies : List Uuid
  pub result : Option Fields
  pub metadata : Fields
  pub error : Option String
  pub retry_count : ℕ

abbrev pub Nodes : Type 0
Nodes = Dict Uuid ExecutionGraphNode

pub record ExecutionGraph : Type 0 where
  pub id : Uuid
  pub plan_id : Uuid
  pub goal : String
  pub nodes : Nodes
  pub edges : List (Uuid × Uuid)
  pub execution_order : List Uuid

pub record Progress : Type 0 where
  pub done : ℕ
  pub total : ℕ

pub record ExecutionState : Type 0 where
  pub execution_id : String
  pub graph_id : Uuid
  pub control_status : ExecutionControlStatus
  pub current_nodes : List Uuid
  pub completed_nodes : List Uuid
  pub failed_nodes : List Uuid
  pub waiting_nodes : List Uuid
  pub progress : Progress
  pub failure_reason : Option String

pub record TelegramProgressLine : Type 0 where
  pub title : String
  pub status_icon : String
  pub status_label : String

pub record TelegramProgressMessage : Type 0 where
  pub execution_id : String
  pub progress : Progress
  pub lines : List TelegramProgressLine

pub record ExecutionRecord : Type 0 where
  pub execution_id : String
  pub trace_id : String
  pub graph : ExecutionGraph
  pub state : ExecutionState
  pub task_plan : Option TaskPlan
  pub task_execution : Option TaskExecution
  pub telegram_progress : Option TelegramProgressMessage

-- Tests of a status
abbrev pub is_running : NodeStatus → Bool
is_running NodeStatus.running = true
is_running _ = false

abbrev pub is_completed : NodeStatus → Bool
is_completed NodeStatus.completed = true
is_completed _ = false

abbrev pub is_failed : NodeStatus → Bool
is_failed NodeStatus.failed = true
is_failed _ = false

abbrev pub is_paused : NodeStatus → Bool
is_paused NodeStatus.paused = true
is_paused _ = false

abbrev pub is_failed_or_cancelled : NodeStatus → Bool
is_failed_or_cancelled NodeStatus.failed = true
is_failed_or_cancelled NodeStatus.cancelled = true
is_failed_or_cancelled _ = false

abbrev pub is_terminal : NodeStatus → Bool
is_terminal NodeStatus.completed = true
is_terminal NodeStatus.failed = true
is_terminal NodeStatus.cancelled = true
is_terminal _ = false

abbrev pub is_waiting_or_ready : NodeStatus → Bool
is_waiting_or_ready NodeStatus.waiting = true
is_waiting_or_ready NodeStatus.ready = true
is_waiting_or_ready _ = false

abbrev pub is_open : NodeStatus → Bool
is_open NodeStatus.waiting = true
is_open NodeStatus.ready = true
is_open NodeStatus.paused = true
is_open _ = false

-- `[node_id for node_id, node in graph.nodes.items() if test(node.status)]`
unfoldable pub ids_with : (NodeStatus → Bool) → Nodes → List Uuid
ids_with test [] = []
ids_with test ((node_id, node) ∷ nodes) =
    let rest = ids_with test nodes in if test node.status then node_id ∷ rest else rest

-- A loop over the nodes that changes each.
unfoldable pub each_node : (ExecutionGraphNode → ExecutionGraphNode) → Nodes → Nodes
each_node change [] = []
each_node change ((node_id, node) ∷ nodes) = (node_id, change node) ∷ each_node change nodes

abbrev pub with_status : NodeStatus → ExecutionGraphNode → ExecutionGraphNode
with_status status node = record node { status = status }
