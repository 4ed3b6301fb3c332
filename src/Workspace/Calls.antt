-- ===== src/Workspace/Calls.antt =====
-- The calls of the workspace manager, one after another.
use ai_employee_os.Common.{
  ℕ, ◌≡◌, refl, inl, inr, Option, none, List, [], ◌∷◌, contains, string_eq, Bool-cases,
}
use ai_employee_os.Common.Dict.{lookup}
use ai_employee_os.Common.Json.{Fields}
use ai_employee_os.Workspace.Models.{Uuid, Workspace}
use ai_employee_os.Workspace.Repository.{WorkspaceStore}
use ai_employee_os.Workspace.Manager.{
  open_workspace, open_session, finish_session, ensure_conversation, set_active_project,
  set_active_task, set_active_artifact, track_background_task, untrack_background_task,
  append_message, track, set_project, set_task, set_artifact, untrack,
}
use ai_employee_os.Workspace.Invariant.{IsValid, update_workspace-IsValid}
use ai_employee_os.Workspace.Preservation.{
  open_workspace-IsValid, open_session-IsValid, finish_session-IsValid, ensure_conversation-IsValid,
  append_message-IsValid,
}

pub data Call : Type 0 where
  opens_workspace : (id client_id : Uuid) → Option Uuid → Fields → Call
  opens_session : (id workspace_id : Uuid) → Fields → Call
  finishes_session : (session_id : Uuid) → Call
  ensures_conversation : (id session_id : Uuid) → Call
  appends : (conversation_id : Uuid) → Fields → Call
  sets_project sets_task sets_artifact : (workspace_id : Uuid) → Option Uuid → Call
  tracks untracks : (workspace_id task_id : Uuid) → Call

unfoldable pub perform : ℕ → Call → WorkspaceStore → WorkspaceStore
perform now (Call.opens_workspace id client_id project_id metadata) s =
    (open_workspace now id client_id project_id metadata s).1
perform now (Call.opens_session id workspace_id metadata) s =
    (open_session now id workspace_id metadata s).1
perform now (Call.finishes_session session_id) s = (finish_session now session_id s).1
perform now (Call.ensures_conversation id session_id) s =
    (ensure_conversation now id session_id s).1
perform now (Call.appends conversation_id message) s =
    (append_message now conversation_id message s).1
perform now (Call.sets_project workspace_id project_id) s =
    (set_active_project now workspace_id project_id s).1
perform now (Call.sets_task workspace_id task_id) s = (set_active_task now workspace_id task_id s).1
perform now (Call.sets_artifact workspace_id artifact_id) s =
    (set_active_artifact now workspace_id artifact_id s).1
perform now (Call.tracks workspace_id task_id) s =
    (track_background_task now workspace_id task_id s).1
perform now (Call.untracks workspace_id task_id) s =
    (untrack_background_task now workspace_id task_id s).1

-- The id that a call makes up is new.
abbrev pub IsFresh : Call → WorkspaceStore → Type 0
IsFresh (Call.opens_workspace id client_id project_id metadata) s = lookup id s.workspaces ≡ none
IsFresh (Call.ensures_conversation id session_id) s = lookup id s.conversations ≡ none
IsFresh _ s = Unit

unfoldable pub after_calls : List (ℕ × Call) → WorkspaceStore → WorkspaceStore
after_calls [] s = s
after_calls ((now, call) ∷ calls) s = after_calls calls (perform now call s)

abbrev pub AllFresh : List (ℕ × Call) → WorkspaceStore → Type 0
AllFresh [] s = Unit
AllFresh ((now, call) ∷ calls) s = IsFresh call s × AllFresh calls (perform now call s)

track-keeps :
    (task_id : Uuid) (w : Workspace)
    → ((track task_id w).id ≡ w.id) × ((track task_id w).client_id ≡ w.client_id)
track-keeps task_id w = elim (Bool-cases (contains w.active_background_tasks task_id)) [
  | inl known ↦ rw known (refl, refl)
  | inr new ↦ rw new (refl, refl)
]

perform-IsValid :
    (now : ℕ) (call : Call) (s : WorkspaceStore)
    → IsFresh call s
    → IsValid s
    → IsValid (perform now call s)
unfolding perform set_active_project set_active_task set_active_artifact track_background_task
    untrack_background_task
perform-IsValid now (Call.opens_workspace id client_id project_id metadata) s fresh valid =
    open_workspace-IsValid now id client_id project_id metadata s fresh valid
perform-IsValid now (Call.opens_session id workspace_id metadata) s fresh valid =
    open_session-IsValid now id workspace_id metadata s valid
perform-IsValid now (Call.finishes_session session_id) s fresh valid =
    finish_session-IsValid now session_id s valid
perform-IsValid now (Call.ensures_conversation id session_id) s fresh valid =
    ensure_conversation-IsValid now id session_id s fresh valid
perform-IsValid now (Call.appends conversation_id message) s fresh valid =
    append_message-IsValid now conversation_id message s valid
perform-IsValid now (Call.sets_project workspace_id project_id) s fresh valid =
    update_workspace-IsValid now workspace_id (set_project project_id) s (λ w. (refl, refl)) valid
perform-IsValid now (Call.sets_task workspace_id task_id) s fresh valid =
    update_workspace-IsValid now workspace_id (set_task task_id) s (λ w. (refl, refl)) valid
perform-IsValid now (Call.sets_artifact workspace_id artifact_id) s fresh valid =
    update_workspace-IsValid now workspace_id (set_artifact artifact_id) s (λ w. (refl, refl)) valid
perform-IsValid now (Call.tracks workspace_id task_id) s fresh valid =
    update_workspace-IsValid now workspace_id (track task_id) s (track-keeps task_id) valid
perform-IsValid now (Call.untracks workspace_id task_id) s fresh valid =
    update_workspace-IsValid now workspace_id (untrack task_id) s (λ w. (refl, refl)) valid

-- Whatever is asked of the manager, as long as the ids that it makes up are new, each workspace
-- and each conversation of a valid store stands under its own id, the index of clients leads to
-- workspaces of those clients, and that of sessions to conversations of those sessions.
pub after_calls-IsValid :
    (calls : List (ℕ × Call)) (s : WorkspaceStore)
    → AllFresh calls s
    → IsValid s
    → IsValid (after_calls calls s)
unfolding after_calls
after_calls-IsValid [] s fresh valid = valid
after_calls-IsValid ((now, call) ∷ calls) s fresh valid =
    after_calls-IsValid calls (perform now call s) fresh.1
      (perform-IsValid now call s fresh.0 valid)
