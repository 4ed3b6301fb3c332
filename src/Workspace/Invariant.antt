-- ===== src/Workspace/Invariant.antt =====
-- The indexes of the repository lead to what they promise, whatever the manager is asked to do.
use ai_employee_os.Common.{
  ℕ, ◌≡◌, refl, sym, ap, subst, ◌∙◌, inl, inr, Option, some, arith, string_eq, ◌==◌, ==→eq,
  Bool-cases, Option-cases, All, All-map,
}
use ai_employee_os.Common.Dict.{
  Dict, lookup, insert, lookup-insert, lookup-insert_self, All-insert, All-lookup,
}
use ai_employee_os.Workspace.Models.{Uuid, Workspace, WorkspaceSession, Conversation}
use ai_employee_os.Workspace.Repository.{
  WorkspaceStore, save_workspace, get_workspace, save_session, save_conversation,
}
use ai_employee_os.Workspace.Manager.{update_workspace}

-- An entry of an index of `things` by a field of theirs
abbrev pub Leads : {A : Type 0} → (A → Uuid) → Dict Uuid A → Uuid × Uuid → Type 0
Leads {A} owner things e = (a : A) × (lookup e.1 things ≡ some a) × (owner a ≡ e.0)

abbrev pub client_of : Workspace → Uuid
client_of workspace = workspace.client_id

abbrev pub session_of : Conversation → Uuid
session_of conversation = conversation.session_id

pub record IsValid (s : WorkspaceStore) : Type 0 where
  pub workspace_ids : All (λ e. e.1.id ≡ e.0) s.workspaces
  pub conversation_ids : All (λ e. e.1.id ≡ e.0) s.conversations
  pub clients : All (Leads client_of s.workspaces) s.client_index
  pub talks : All (Leads session_of s.conversations) s.session_conversation

-- A write keeps an index if it does not change the owner of a thing.
insert-Leads :
    {A : Type 0} (owner : A → Uuid) (id : Uuid) (new : A) (things : Dict Uuid A)
    (index : Dict Uuid Uuid)
    → ((old : A) → lookup id things ≡ some old → owner old ≡ owner new)
    → All (Leads owner things) index
    → All (Leads owner (insert id new things)) (insert (owner new) id index)
insert-Leads owner id new things index same h =
    All-insert (Leads owner (insert id new things)) (owner new) id index
      (new, lookup-insert_self id new things, refl)
      (All-map
        (λ e (a, there, owned). elim (Bool-cases (e.1 == id)) [
          | inl hit ↦ (
            new,
            rw (lookup-insert e.1 id new things, hit) refl,
            sym (same a (subst (λ k. lookup k things ≡ some a) (==→eq e.1 id hit) there)) ∙ owned,
          )
          | inr miss ↦ (a, rw (lookup-insert e.1 id new things, miss) there, owned)
        ])
        index h)

pub save_workspace-IsValid :
    (now : ℕ) (w : Workspace) (s : WorkspaceStore)
    → ((old : Workspace) → lookup w.id s.workspaces ≡ some old → old.client_id ≡ w.client_id)
    → IsValid s
    → IsValid (save_workspace now w s).1
unfolding save_workspace
save_workspace-IsValid now w s same valid = record {
  workspace_ids = All-insert (λ e. e.1.id ≡ e.0) w.id _ s.workspaces refl valid.workspace_ids;
  conversation_ids = valid.conversation_ids;
  clients = insert-Leads client_of w.id _ s.workspaces s.client_index same valid.clients;
  talks = valid.talks;
}

pub save_session-IsValid :
    (session : WorkspaceSession) (s : WorkspaceStore)
    → IsValid s
    → IsValid (save_session session s).1
unfolding save_session
save_session-IsValid session s valid = record {
  workspace_ids = valid.workspace_ids;
  conversation_ids = valid.conversation_ids;
  clients = valid.clients;
  talks = valid.talks;
}

pub save_conversation-IsValid :
    (now : ℕ) (c : Conversation) (s : WorkspaceStore)
    → ((old : Conversation)
        → lookup c.id s.conversations ≡ some old
        → old.session_id ≡ c.session_id)
    → IsValid s
    → IsValid (save_conversation now c s).1
unfolding save_conversation
save_conversation-IsValid now c s same valid = record {
  workspace_ids = valid.workspace_ids;
  conversation_ids =
      All-insert (λ e. e.1.id ≡ e.0) c.id _ s.conversations refl valid.conversation_ids;
  clients = valid.clients;
  talks = insert-Leads session_of c.id _ s.conversations s.session_conversation same valid.talks;
}

pub option-eq : {A : Type 0} {o : Option A} {a b : A} → o ≡ some a → o ≡ some b → a ≡ b
option-eq p q = ground (arith, p, q)

-- A change of a stored workspace that keeps its id and its client
pub save_changed-IsValid :
    (now : ℕ) (id : Uuid) (old new : Workspace) (s : WorkspaceStore)
    → lookup id s.workspaces ≡ some old
    → new.id ≡ old.id
    → new.client_id ≡ old.client_id
    → IsValid s
    → IsValid (save_workspace now new s).1
save_changed-IsValid now id old new s there same_id same_client valid =
    save_workspace-IsValid now new s
      (λ other at.
        let own =
          same_id ∙ All-lookup (λ e. e.1.id ≡ e.0) id old s.workspaces valid.workspace_ids there in
        let at' : lookup id s.workspaces ≡ some other =
          subst (λ k. lookup k s.workspaces ≡ some other) own at in
        ap client_of (option-eq at' there) ∙ sym same_client)
      valid

pub update_workspace-IsValid :
    (now : ℕ) (id : Uuid) (change : Workspace → Workspace) (s : WorkspaceStore)
    → ((w : Workspace) → ((change w).id ≡ w.id) × ((change w).client_id ≡ w.client_id))
    → IsValid s
    → IsValid (update_workspace now id change s).1
unfolding update_workspace get_workspace
update_workspace-IsValid now id change s keeps valid =
    elim (Option-cases (lookup id s.workspaces)) [
      | inl absent ↦ rw (absent, update_workspace) valid
      | inr (w, there) ↦
          rw (there, update_workspace)
            (save_changed-IsValid now id w (change w) s there (keeps w).0 (keeps w).1 valid)
    ]
