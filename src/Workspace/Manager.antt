-- ===== src/Workspace/Manager.antt =====
-- WorkspaceManager, backend/app/workspace/manager.py, and policies/workspace_policy.py. The clock
-- and the fresh ids are arguments. A workspace always has a client, so `can_open_session` holds.
use ai_employee_os.Common.{
  ℕ, ◌<>◌, Bool, true, false, not, Option, none, some, [], ◌∷◌, ◌++◌, select, contains,
  if◌then◌else◌, string_eq, ◌==◌,
}
use ai_employee_os.Common.Json.{Fields, end, update_fields}
use ai_employee_os.Workspace.Models.{
  Uuid, Workspace, WorkspaceSession, WorkspaceSessionStatus, Conversation, Result, returned,
  value_error,
}
use ai_employee_os.Workspace.Repository.{
  WorkspaceStore, save_workspace, get_workspace, get_workspace_by_client, save_session, get_session,
  save_conversation, get_conversation, get_conversation_by_session,
}

abbrev or_keep : Option Uuid → Option Uuid → Option Uuid
or_keep none old = old
or_keep (some new) old = some new

abbrev pub return_saved : {A : Type 0} → A × WorkspaceStore → Result A × WorkspaceStore
return_saved (a, s) = (returned a, s)

abbrev pub new_workspace : ℕ → Uuid → Uuid → Option Uuid → Fields → Workspace
new_workspace now id client_id project_id metadata = record {
  id = id;
  client_id = client_id;
  active_project_id = project_id;
  active_session_id = none;
  active_task_id = none;
  active_artifact_id = none;
  active_background_tasks = [];
  metadata = metadata;
  created_at = now;
  updated_at = now;
}

abbrev pub reopened : Option Uuid → Fields → Workspace → Workspace
reopened project_id metadata existing = record existing {
  active_project_id = or_keep project_id existing.active_project_id;
  metadata = update_fields existing.metadata metadata;
}

-- Metadata of None is the empty dict.
unfoldable pub open_workspace :
    ℕ → Uuid → Uuid → Option Uuid → Fields → WorkspaceStore → Workspace × WorkspaceStore
open_workspace now id client_id project_id metadata s = elim (get_workspace_by_client client_id s) [
  | some existing ↦ save_workspace now (reopened project_id metadata existing) s
  | none ↦ save_workspace now (new_workspace now id client_id project_id metadata) s
]

abbrev new_session : ℕ → Uuid → Uuid → Fields → WorkspaceSession
new_session now id workspace_id metadata = record {
  id = id;
  workspace_id = workspace_id;
  status = WorkspaceSessionStatus.active;
  started_at = now;
  finished_at = none;
  metadata = metadata;
}

unfoldable pub open_session :
    ℕ → Uuid → Uuid → Fields → WorkspaceStore → Result WorkspaceSession × WorkspaceStore
open_session now id workspace_id metadata s = elim (get_workspace workspace_id s) [
  | none ↦ (value_error ("Workspace not found: " <> workspace_id), s)
  | some workspace ↦
      let (saved, s1) = save_session (new_session now id workspace_id metadata) s in
      let (_, s2) =
        save_workspace now (record workspace { active_session_id = some saved.id }) s1 in
      (returned saved, s2)
]

unfoldable pub finish_session : ℕ → Uuid → WorkspaceStore → Result WorkspaceSession × WorkspaceStore
finish_session now session_id s = elim (get_session session_id s) [
  | none ↦ (value_error ("Session not found: " <> session_id), s)
  | some session ↦ return_saved (
      save_session
        (record session { status = WorkspaceSessionStatus.finished; finished_at = some now }) s)
]

unfoldable pub get_active_session : Workspace → WorkspaceStore → Option WorkspaceSession
get_active_session workspace s = elim workspace.active_session_id [
  | none ↦ none
  | some session_id ↦ get_session session_id s
]

unfoldable pub get_active_conversation : Workspace → WorkspaceStore → Option Conversation
get_active_conversation workspace s = elim workspace.active_session_id [
  | none ↦ none
  | some session_id ↦ get_conversation_by_session session_id s
]

abbrev is_none : Option ℕ → Bool
is_none none = true
is_none (some _) = false

abbrev pub is_session_active : WorkspaceSession → Bool
is_session_active session = elim session.status [
  | WorkspaceSessionStatus.active ↦ is_none session.finished_at
  | WorkspaceSessionStatus.finished ↦ false
]

abbrev pub new_conversation : ℕ → Uuid → Uuid → Conversation
new_conversation now id session_id = record {
  id = id;
  session_id = session_id;
  messages = [];
  summary = none;
  metadata = end;
  created_at = now;
  updated_at = now;
}

abbrev pub attach :
    ℕ → Uuid → Uuid → WorkspaceStore → Option Conversation → Result Conversation × WorkspaceStore
attach now id session_id s (some existing) = (returned existing, s)
attach now id session_id s none =
    return_saved (save_conversation now (new_conversation now id session_id) s)

unfoldable pub ensure_conversation :
    ℕ → Uuid → Uuid → WorkspaceStore → Result Conversation × WorkspaceStore
ensure_conversation now id session_id s = elim (get_session session_id s) [
  | none ↦ (value_error ("Session not found: " <> session_id), s)
  | some session ↦
      if is_session_active session
      then attach now id session_id s (get_conversation_by_session session_id s)
      else (value_error "Conversation requires an active session", s)
]

-- The methods that change a workspace which they require
unfoldable pub update_workspace :
    ℕ → Uuid → (Workspace → Workspace) → WorkspaceStore → Result Workspace × WorkspaceStore
update_workspace now workspace_id change s = elim (get_workspace workspace_id s) [
  | none ↦ (value_error ("Workspace not found: " <> workspace_id), s)
  | some workspace ↦ return_saved (save_workspace now (change workspace) s)
]

abbrev pub set_project : Option Uuid → Workspace → Workspace
set_project project_id workspace = record workspace { active_project_id = project_id }

abbrev pub set_task : Option Uuid → Workspace → Workspace
set_task task_id workspace = record workspace { active_task_id = task_id }

abbrev pub set_artifact : Option Uuid → Workspace → Workspace
set_artifact artifact_id workspace = record workspace { active_artifact_id = artifact_id }

abbrev pub track : Uuid → Workspace → Workspace
track task_id workspace =
    if contains workspace.active_background_tasks task_id then workspace else record workspace {
      active_background_tasks = workspace.active_background_tasks ++ (task_id ∷ []);
    }

abbrev pub untrack : Uuid → Workspace → Workspace
untrack task_id workspace = record workspace {
  active_background_tasks =
      select (λ item. not (item == task_id)) workspace.active_background_tasks;
}

unfoldable pub set_active_project :
    ℕ → Uuid → Option Uuid → WorkspaceStore → Result Workspace × WorkspaceStore
set_active_project now workspace_id project_id =
    update_workspace now workspace_id (set_project project_id)

unfoldable pub set_active_task :
    ℕ → Uuid → Option Uuid → WorkspaceStore → Result Workspace × WorkspaceStore
set_active_task now workspace_id task_id = update_workspace now workspace_id (set_task task_id)

unfoldable pub set_active_artifact :
    ℕ → Uuid → Option Uuid → WorkspaceStore → Result Workspace × WorkspaceStore
set_active_artifact now workspace_id artifact_id =
    update_workspace now workspace_id (set_artifact artifact_id)

unfoldable pub track_background_task :
    ℕ → Uuid → Uuid → WorkspaceStore → Result Workspace × WorkspaceStore
track_background_task now workspace_id task_id = update_workspace now workspace_id (track task_id)

unfoldable pub untrack_background_task :
    ℕ → Uuid → Uuid → WorkspaceStore → Result Workspace × WorkspaceStore
untrack_background_task now workspace_id task_id =
    update_workspace now workspace_id (untrack task_id)

unfoldable pub append_message :
    ℕ → Uuid → Fields → WorkspaceStore → Result Conversation × WorkspaceStore
append_message now conversation_id message s = elim (get_conversation conversation_id s) [
  | none ↦ (value_error ("Conversation not found: " <> conversation_id), s)
  | some conversation ↦ return_saved (
      save_conversation now
        (record conversation { messages = conversation.messages ++ (message ∷ []) }) s)
]
