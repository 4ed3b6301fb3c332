-- ===== src/Workspace/Repository.antt =====
-- InMemoryWorkspaceRepository, backend/app/workspace/repositories/workspace_repository.py. The
-- clock is an argument of what reads it.
use ai_employee_os.Common.{ℕ, Option, none, some, string_eq}
use ai_employee_os.Common.Dict.{Dict, lookup, insert}
use ai_employee_os.Workspace.Models.{Uuid, Workspace, WorkspaceSession, Conversation}

pub record WorkspaceStore : Type 0 where
  pub workspaces : Dict Uuid Workspace
  pub sessions : Dict Uuid WorkspaceSession
  pub conversations : Dict Uuid Conversation
  pub client_index : Dict Uuid Uuid
  pub session_conversation : Dict Uuid Uuid

unfoldable pub save_workspace : ℕ → Workspace → WorkspaceStore → Workspace × WorkspaceStore
save_workspace now workspace s =
    let saved = record workspace { updated_at = now } in
    (
      saved,
      record s {
        workspaces = insert workspace.id saved s.workspaces;
        client_index = insert workspace.client_id workspace.id s.client_index;
      },
    )

unfoldable pub get_workspace : Uuid → WorkspaceStore → Option Workspace
get_workspace workspace_id s = lookup workspace_id s.workspaces

unfoldable pub get_workspace_by_client : Uuid → WorkspaceStore → Option Workspace
get_workspace_by_client client_id s = elim (lookup client_id s.client_index) [
  | none ↦ none
  | some workspace_id ↦ lookup workspace_id s.workspaces
]

unfoldable pub save_session : WorkspaceSession → WorkspaceStore → WorkspaceSession × WorkspaceStore
save_session session s = (session, record s { sessions = insert session.id session s.sessions })

unfoldable pub get_session : Uuid → WorkspaceStore → Option WorkspaceSession
get_session session_id s = lookup session_id s.sessions

unfoldable pub save_conversation : ℕ → Conversation → WorkspaceStore → Conversation × WorkspaceStore
save_conversation now conversation s =
    let saved = record conversation { updated_at = now } in
    (
      saved,
      record s {
        conversations = insert conversation.id saved s.conversations;
        session_conversation =
            insert conversation.session_id conversation.id s.session_conversation;
      },
    )

unfoldable pub get_conversation : Uuid → WorkspaceStore → Option Conversation
get_conversation conversation_id s = lookup conversation_id s.conversations

unfoldable pub get_conversation_by_session : Uuid → WorkspaceStore → Option Conversation
get_conversation_by_session session_id s = elim (lookup session_id s.session_conversation) [
  | none ↦ none
  | some conversation_id ↦ lookup conversation_id s.conversations
]
