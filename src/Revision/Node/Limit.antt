-- ===== src/Revision/Node/Limit.antt =====
-- A user's feedback behind the limit of automatic revisions.
use ai_employee_os.Common.{
  ℕ, suc, ◌≡◌, refl, ap, ◌∙◌, String, true, false, Option, none, some, if-by, if-both, ◌==◌,
  string_eq, arith, ==_refl,
}
use ai_employee_os.Common.Json.{Json, truthy}
use ai_employee_os.Revision.Models.{
  RevisionStatus, RevisionRequest, RevisionResult, can_auto_revise, should_wait_for_user,
}
use ai_employee_os.Revision.Parser.{build_revision_request_from_review}
use ai_employee_os.Revision.Manager.{Tools, apply_revision, ast_or}
use ai_employee_os.Revision.Node.{
  RevisionState, Reviser, QualityUpdate, revision_node, wait_for_user, request_for, revision_skill,
  apply_user_revision, continue_revision,
}

ast_or-same : (ast : Option Json) → ast_or ast ast ≡ ast
ast_or-same none = refl
ast_or-same (some ast) = if-both (λ (x : Option Json). x ≡ some ast) (truthy ast) refl refl

apply_revision-limit :
    (tools : Tools) (request : RevisionRequest) (ast : Option Json) (n : ℕ)
    → request.revision_count ≡ suc n
    → let result = apply_revision tools request ast in
      (result.status ≡ RevisionStatus.waiting_user) × (result.document_ast ≡ ast)
unfolding apply_revision
apply_revision-limit tools request ast n limit =
    if-by
      (λ (r : RevisionResult). (r.status ≡ RevisionStatus.waiting_user) × (r.document_ast ≡ ast))
      (should_wait_for_user request.revision_count) (λ _. (refl, refl)) (λ h. absurd (ground arith))

-- The state has the same document, and a last result that waits for the user.
abbrev pub IsUnheard : Option Json → RevisionState → Type 0
IsUnheard ast state =
    (state.document_ast ≡ ast)
    × (result : RevisionResult) × (state.revision_result ≡ some result)
    × (result.status ≡ RevisionStatus.waiting_user)

apply_user_revision-IsUnheard :
    (reviser : Reviser) (feedback : String) (n : ℕ) (state : RevisionState)
    → state.revision_count ≡ suc n
    → IsUnheard state.document_ast (apply_user_revision reviser feedback (wait_for_user state))
unfolding apply_user_revision wait_for_user revision_skill request_for
    build_revision_request_from_review
apply_user_revision-IsUnheard Reviser.nobody feedback n state limit = (refl, _, refl, refl)
apply_user_revision-IsUnheard (Reviser.manager tools) feedback n state limit =
    (refl, _, refl, (apply_revision-limit tools _ state.document_ast n limit).0)
apply_user_revision-IsUnheard (Reviser.skill tools) feedback n state limit =
    let (waits, same) = apply_revision-limit tools _ state.document_ast n limit in
    (
      ap (λ ast. ast_or ast state.document_ast) same ∙ ast_or-same state.document_ast,
      _,
      refl,
      waits,
    )

status-wait_for_user :
    (state : RevisionState) → ((wait_for_user state).status == "waiting_user_revision") ≡ true
unfolding wait_for_user
status-wait_for_user state = ==_refl {A = String} "waiting_user_revision"

-- A document that has been revised once is not revised for its user: whoever applies the user's
-- revision, and whatever the feedback, it stays as it is, and the last result waits for the user.
pub continue_revision-IsUnheard :
    (tools : Tools) (reviser : Reviser) (quality_gate : RevisionState → QualityUpdate)
    (prior : RevisionState) (feedback : String) (n : ℕ)
    → prior.revision_count ≡ suc n
    → let new = continue_revision tools reviser quality_gate prior feedback in
      (new.document_ast ≡ prior.document_ast)
      × (result : RevisionResult) × (new.revision_result ≡ some result)
      × (result.status ≡ RevisionStatus.waiting_user)
unfolding continue_revision revision_node
continue_revision-IsUnheard tools reviser quality_gate prior feedback n limit =
    let asked = record prior { user_feedback = some feedback } in
    let not_allowed : can_auto_revise prior.revision_count ≡ false = ground arith in
    rw (not_allowed, status-wait_for_user asked)
      (apply_user_revision-IsUnheard reviser feedback n asked limit)
