-- ===== src/Workspace/Tests.antt =====
-- A client's workspace, from its opening to a finished session.
use ai_employee_os.Common.{ℕ, ◌≡◌, refl, none, some, List, [], ◌∷◌, string_eq}
use ai_employee_os.Common.Dict.{lookup, insert}
use ai_employee_os.Common.Json.{end, update_fields}
use ai_employee_os.Workspace.Models.{value_error}
use ai_employee_os.Workspace.Repository.{
  WorkspaceStore, save_workspace, get_workspace, get_workspace_by_client, save_session, get_session,
  save_conversation, get_conversation, get_conversation_by_session,
}
use ai_employee_os.Workspace.Manager.{
  open_workspace, open_session, finish_session, ensure_conversation, update_workspace,
  set_active_project, set_active_task, set_active_artifact, track_background_task,
  untrack_background_task, append_message,
}
use ai_employee_os.Workspace.Invariant.{IsValid}
use ai_employee_os.Workspace.Calls.{Call, perform, after_calls, after_calls-IsValid}
use ai_employee_os.Workspace.Reopening.{open_workspace-again}

abbrev nothing : WorkspaceStore
nothing = record {
  workspaces = [];
  sessions = [];
  conversations = [];
  client_index = [];
  session_conversation = [];
}

abbrev calls : List (ℕ × Call)
calls =
    (1, Call.opens_workspace "w" "c" none end)
    ∷ (2, Call.opens_session "s" "w" end)
    ∷ (3, Call.ensures_conversation "t" "s")
    ∷ (4, Call.tracks "w" "j")
    ∷ (5, Call.finishes_session "s")
    ∷ []

unfoldable program : Unit {0}
unfolding save_workspace get_workspace get_workspace_by_client save_session get_session
    save_conversation get_conversation get_conversation_by_session open_workspace open_session
    finish_session ensure_conversation update_workspace set_active_project set_active_task
    set_active_artifact track_background_task untrack_background_task append_message perform
    after_calls string_eq lookup insert update_fields
program = tt

nothing-IsValid : IsValid nothing
nothing-IsValid = record { workspace_ids = tt; conversation_ids = tt; clients = tt; talks = tt }

no_conversation_after :
    (ensure_conversation 6 "u" "s" (after_calls calls nothing)).0
    ≡ value_error "Conversation requires an active session"
unfolding program
no_conversation_after = refl

after_calls-IsValid_example : IsValid (after_calls calls nothing)
unfolding program
after_calls-IsValid_example =
    after_calls-IsValid calls nothing (refl, (tt, (refl, (tt, (tt, tt))))) nothing-IsValid

open_workspace-again_example :
    let (w, s1) = open_workspace 1 "w" "c" none end nothing in
    (w.client_id ≡ "c")
    × (get_workspace_by_client "c" s1 ≡ some w)
    × ((open_workspace 2 "v" "c" (some "p") end s1).0.id ≡ w.id)
open_workspace-again_example =
    open_workspace-again 1 2 "w" "v" "c" none (some "p") end end nothing nothing-IsValid
