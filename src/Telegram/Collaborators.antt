-- ===== src/Telegram/Collaborators.antt =====
-- What backend/app/adapters/telegram/flow.py calls: the agent's runtime, the executive agent, the
-- resolver of business clients, the continuation and the delivery of artifacts are parameters.
use ai_employee_os.Common.{ℕ, String, Option, List}
use ai_employee_os.Common.Json.{Json, Fields}
use ai_employee_os.Telegram.Models.{TelegramId}
use ai_employee_os.Telegram.Progress.{Outcome, Telegram}
use ai_employee_os.Telegram.Clarification.{Classification}

-- `GraphExecutionError`, or the text of any other exception
pub data RunError : Type 0 where
  graph_error : (message : String) (trace_id execution_id : Option String) → RunError
  other_error : (message : String) → RunError

-- The events of `runtime.stream`, and the exception that it ends with, if any
pub record Run : Type 0 where
  pub events : List Json
  pub failure : Option RunError

pub data Executed : Type 0 where
  ended : Fields → Executed
  broken : RunError → Executed

-- The keys of a workspace's snapshot that the flow reads
pub record Snapshot : Type 0 where
  pub client_id : String
  pub workspace_id : String
  pub active_project_id : Option String
  pub active_session_id : Option String
  pub active_artifact_id : Option String

pub record BusinessClient : Type 0 where
  pub client_id : String
  pub name : String
  pub project_id : Option String

-- A collaborator that may be None is optional.
pub record Collaborators : Type 0 where
  pub telegram : Telegram
  pub now : ℕ
  pub resolve_session : TelegramId → Snapshot
  pub analyze : Option (String → Fields → Fields → Outcome Classification)
  pub resolve_client : Option (String → String → Outcome (Option BusinessClient))
  pub stream : String → Fields → Fields → Run
  pub execute : String → Fields → Fields → Executed
  pub collect_artifacts : Fields → Outcome (List Fields)
  pub download : Fields → Outcome (Option String)
  pub continue_revision : Option (Fields → String → Outcome Fields)
