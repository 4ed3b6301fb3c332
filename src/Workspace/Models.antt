-- ===== src/Workspace/Models.antt =====
-- backend/app/workspace/models.py, and the results of the manager's coroutines.
use ai_employee_os.Common.{ℕ, String, Option, List}
use ai_employee_os.Common.Json.{Fields}
pub use ai_employee_os.Common.Json.{Uuid}

pub data WorkspaceSessionStatus : Type 0 where
  active finished : WorkspaceSessionStatus

pub record Workspace : Type 0 where
  pub id : Uuid
  pub client_id : Uuid
  pub active_project_id : Option Uuid
  pub active_session_id : Option Uuid
  pub active_task_id : Option Uuid
  pub active_artifact_id : Option Uuid
  pub active_background_tasks : List Uuid
  pub metadata : Fields
  pub created_at : ℕ
  pub updated_at : ℕ

pub record WorkspaceSession : Type 0 where
  pub id : Uuid
  pub workspace_id : Uuid
  pub status : WorkspaceSessionStatus
  pub started_at : ℕ
  pub finished_at : Option ℕ
  pub metadata : Fields

pub record Conversation : Type 0 where
  pub id : Uuid
  pub session_id : Uuid
  pub messages : List Fields
  pub summary : Option String
  pub metadata : Fields
  pub created_at : ℕ
  pub updated_at : ℕ

-- What a coroutine returns, or the text of its ValueError.
pub data Result (A : Type 0) : Type 0 where
  returned : A → Result A
  value_error : String → Result A
