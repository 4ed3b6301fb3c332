-- ===== src/Workspace/Preservation.antt =====
-- Each method of the workspace manager keeps the indexes.
use ai_employee_os.Common.{
  ℕ, ◌≡◌, refl, sym, ap, subst, ◌∙◌, inl, inr, Option, none, some, string_eq, Bool-cases,
  Option-cases,
}
use ai_employee_os.Common.Dict.{lookup, All-lookup}
use ai_employee_os.Common.Json.{Fields}
use ai_employee_os.Workspace.Models.{Uuid, Workspace}
use ai_employee_os.Workspace.Repository.{
  WorkspaceStore, get_workspace, get_workspace_by_client, save_session, get_session,
  get_conversation, get_conversation_by_session,
}
use ai_employee_os.Workspace.Manager.{
  open_workspace, open_session, finish_session, ensure_conversation, append_message, reopened,
  new_workspace, is_session_active, new_conversation,
}
use ai_employee_os.Workspace.Invariant.{
  Leads, client_of, session_of, IsValid, save_workspace-IsValid, save_session-IsValid,
  save_conversation-IsValid, save_changed-IsValid, option-eq,
}

-- What a client's entry in the index leads to
pub client-stored :
    (client_id : Uuid) (s : WorkspaceStore) (w : Workspace)
    → IsValid s
    → get_workspace_by_client client_id s ≡ some w
    → (lookup w.id s.workspaces ≡ some w) × (w.client_id ≡ client_id)
unfolding get_workspace_by_client
client-stored client_id s w valid found = elim (Option-cases (lookup client_id s.client_index)) [
  | inl absent ↦ let bad : none ≡ some w = rw (absent, get_workspace_by_client) at found in cc
  | inr (id, there) ↦
      let stored : lookup id s.workspaces ≡ some w = rw (there, get_workspace_by_client) at found in
      let (a, at, owned) =
        All-lookup (Leads client_of s.workspaces) client_id id s.client_index valid.clients there in
      let same_id = All-lookup (λ e. e.1.id ≡ e.0) id w s.workspaces valid.workspace_ids stored in
      (
        subst (λ k. lookup k s.workspaces ≡ some w) (sym same_id) stored,
        ap client_of (option-eq stored at) ∙ owned,
      )
]

pub open_workspace-IsValid :
    (now : ℕ) (id client_id : Uuid) (project_id : Option Uuid) (metadata : Fields)
    (s : WorkspaceStore)
    → lookup id s.workspaces ≡ none
    → IsValid s
    → IsValid (open_workspace now id client_id project_id metadata s).1
unfolding open_workspace
open_workspace-IsValid now id client_id project_id metadata s fresh valid =
    elim (Option-cases (get_workspace_by_client client_id s)) [
      | inl absent ↦
          rw (absent, open_workspace)
            (save_workspace-IsValid now (new_workspace now id client_id project_id metadata) s
              (λ old at. cc) valid)
      | inr (w, there) ↦
          rw (there, open_workspace)
            (save_changed-IsValid now w.id w (reopened project_id metadata w) s
              (client-stored client_id s w valid there).0 refl refl valid)
    ]

pub open_session-IsValid :
    (now : ℕ) (id workspace_id : Uuid) (metadata : Fields) (s : WorkspaceStore)
    → IsValid s
    → IsValid (open_session now id workspace_id metadata s).1
unfolding open_session get_workspace save_session
open_session-IsValid now id workspace_id metadata s valid =
    elim (Option-cases (lookup workspace_id s.workspaces)) [
      | inl absent ↦ rw (absent, open_session) valid
      | inr (w, there) ↦
          rw (there, open_session)
            (save_changed-IsValid now workspace_id w _ _ there refl refl
              (save_session-IsValid _ s valid))
    ]

pub finish_session-IsValid :
    (now : ℕ) (session_id : Uuid) (s : WorkspaceStore)
    → IsValid s
    → IsValid (finish_session now session_id s).1
unfolding finish_session
finish_session-IsValid now session_id s valid = elim (Option-cases (get_session session_id s)) [
  | inl absent ↦ rw (absent, finish_session) valid
  | inr (session, there) ↦ rw (there, finish_session) (save_session-IsValid _ s valid)
]

pub ensure_conversation-IsValid :
    (now : ℕ) (id session_id : Uuid) (s : WorkspaceStore)
    → lookup id s.conversations ≡ none
    → IsValid s
    → IsValid (ensure_conversation now id session_id s).1
unfolding ensure_conversation
ensure_conversation-IsValid now id session_id s fresh valid =
    elim (Option-cases (get_session session_id s)) [
      | inl absent ↦ rw (absent, ensure_conversation) valid
      | inr (session, there) ↦ elim (Bool-cases (is_session_active session)) [
        | inr over ↦ rw (there, ensure_conversation) (rw over valid)
        | inl live ↦ elim (Option-cases (get_conversation_by_session session_id s)) [
          | inr (c, known) ↦ rw (there, ensure_conversation) (rw (live, known) valid)
          | inl new ↦
              rw (there, ensure_conversation)
                (rw (live, new)
                  (save_conversation-IsValid now (new_conversation now id session_id) s
                    (λ old at. cc) valid))
        ]
      ]
    ]

pub append_message-IsValid :
    (now : ℕ) (id : Uuid) (message : Fields) (s : WorkspaceStore)
    → IsValid s
    → IsValid (append_message now id message s).1
unfolding append_message get_conversation
append_message-IsValid now id message s valid = elim (Option-cases (lookup id s.conversations)) [
  | inl absent ↦ rw (absent, append_message) valid
  | inr (c, there) ↦
      let own = All-lookup (λ e. e.1.id ≡ e.0) id c s.conversations valid.conversation_ids there in
      rw (there, append_message)
        (save_conversation-IsValid now _ s
          (λ old at.
            ap session_of
              (option-eq (subst (λ k. lookup k s.conversations ≡ some old) own at) there))
          valid)
]
