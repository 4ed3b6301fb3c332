-- ===== src/Workspace/Reopening.antt =====
-- A client has one workspace, however often it is opened.
use ai_employee_os.Common.{ℕ, ◌≡◌, refl, subst, inl, inr, Option, some, string_eq, Option-cases}
use ai_employee_os.Common.Dict.{lookup-insert_self}
use ai_employee_os.Common.Json.{Fields}
use ai_employee_os.Workspace.Models.{Uuid, Workspace}
use ai_employee_os.Workspace.Repository.{WorkspaceStore, save_workspace, get_workspace_by_client}
use ai_employee_os.Workspace.Manager.{open_workspace, reopened, new_workspace}
use ai_employee_os.Workspace.Invariant.{IsValid}
use ai_employee_os.Workspace.Preservation.{client-stored}

-- What a save leaves for the client
save_workspace-client :
    (now : ℕ) (w : Workspace) (s : WorkspaceStore)
    → get_workspace_by_client w.client_id (save_workspace now w s).1
      ≡ some (record w { updated_at = now })
unfolding save_workspace get_workspace_by_client
save_workspace-client now w s =
    rw (lookup-insert_self w.client_id w.id s.client_index, get_workspace_by_client)
      (lookup-insert_self w.id (record w { updated_at = now }) s.workspaces)

open_workspace-client :
    (now : ℕ) (id client_id : Uuid) (project_id : Option Uuid) (metadata : Fields)
    (s : WorkspaceStore)
    → IsValid s
    → let (w, s1) = open_workspace now id client_id project_id metadata s in
      (w.client_id ≡ client_id) × (get_workspace_by_client client_id s1 ≡ some w)
unfolding open_workspace save_workspace
open_workspace-client now id client_id project_id metadata s valid =
    elim (Option-cases (get_workspace_by_client client_id s)) [
      | inl absent ↦
          rw (absent, open_workspace)
            (refl, save_workspace-client now (new_workspace now id client_id project_id metadata) s)
      | inr (w, there) ↦
          let owned = (client-stored client_id s w valid there).1 in
          rw (there, open_workspace)
            (
              owned,
              subst
                  (λ c.
                    get_workspace_by_client c
                      (save_workspace now (reopened project_id metadata w) s).1
                    ≡ some (record (reopened project_id metadata w) { updated_at = now }))
                  owned (save_workspace-client now (reopened project_id metadata w) s),
            )
    ]

open_workspace-id :
    (now : ℕ) (id client_id : Uuid) (project_id : Option Uuid) (metadata : Fields)
    (s : WorkspaceStore) (w : Workspace)
    → get_workspace_by_client client_id s ≡ some w
    → (open_workspace now id client_id project_id metadata s).0.id ≡ w.id
unfolding open_workspace save_workspace
open_workspace-id now id client_id project_id metadata s w there = rw (there, open_workspace) refl

-- On a valid store open_workspace returns a workspace of the client, the one that the client is
-- then found by, and opened again it is the same one.
pub open_workspace-again :
    (now later : ℕ) (id other client_id : Uuid) (project_id new_project : Option Uuid)
    (metadata more : Fields) (s : WorkspaceStore)
    → IsValid s
    → let (w, s1) = open_workspace now id client_id project_id metadata s in
      (w.client_id ≡ client_id)
      × (get_workspace_by_client client_id s1 ≡ some w)
      × ((open_workspace later other client_id new_project more s1).0.id ≡ w.id)
open_workspace-again now later id other client_id project_id new_project metadata more s valid =
    let (owned, found) = open_workspace-client now id client_id project_id metadata s valid in
    (owned, found, open_workspace-id later other client_id new_project more _ _ found)
