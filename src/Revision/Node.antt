-- ===== src/Revision/Node.antt =====
-- `RevisionNode` of backend/app/revision/nodes/revision_node.py, `RevisionSkill` of
-- backend/app/skills/builtin/revision_skill.py and `TelegramGraphContinuation` of
-- backend/app/adapters/telegram/continuation.py, which bring a user's feedback to a document. Of the
-- state there are the keys that they read and write; the quality gate is a parameter.
pub mod Limit
use ai_employee_os.Common.{
  ℕ, String, Bool, true, false, Option, none, some, List, [], ◌∷◌, if◌then◌else◌, ◌==◌, string_eq,
}
use ai_employee_os.Common.Json.{Json, Fields, end, field, truthy, set_field}
use ai_employee_os.Revision.Models.{
  QualityIssue, RevisionStatus, RevisionRequest, RevisionResult, can_auto_revise,
  next_revision_count,
}
use ai_employee_os.Revision.Parser.{build_revision_request_from_review}
use ai_employee_os.Revision.Manager.{Tools, apply_revision, ast_or}

pub record RevisionState : Type 0 where
  pub status : String
  pub revision_count : ℕ
  pub revision_request : Option RevisionRequest
  pub review_issues : List QualityIssue
  pub review_recommendations : List String
  pub revision_result : Option RevisionResult
  pub document_ast : Option Json
  pub artifact_id : Option String
  pub user_feedback : Option String

-- `a or b`, of a list, of a text that may be missing, and of a key of the stored request
abbrev or_list {ℓ} : {A : Type ℓ} → List A → List A → List A
or_list [] other = other
or_list (x ∷ xs) other = x ∷ xs

abbrev or_text : Option String → Option String → Option String
or_text none other = other
or_text (some s) other = if s == "" then other else some s

abbrev of_request {ℓ} : {A : Type ℓ} → A → (RevisionRequest → A) → Option RevisionRequest → A
of_request default key none = default
of_request default key (some request) = key request

unfoldable pub request_for : RevisionState → RevisionRequest
request_for state =
    build_revision_request_from_review
      (or_list (of_request [] (λ r. r.issues) state.revision_request) state.review_issues)
      (or_list (of_request [] (λ r. r.suggested_changes) state.revision_request)
        state.review_recommendations)
      (or_text (of_request none (λ r. r.source_artifact_id) state.revision_request)
        state.artifact_id)
      (or_text state.user_feedback (of_request none (λ r. r.user_feedback) state.revision_request))
      state.revision_count (field "from_quality_gate" (Json.boolean true) end)

abbrev waiting_result : RevisionRequest → RevisionResult
waiting_result request = record {
  artifact_id = request.source_artifact_id;
  version_id = none;
  changes_applied = [];
  summary = "Automatic revision limit reached";
  status = RevisionStatus.waiting_user;
  document_ast = none;
  metadata = end;
}

-- What the node writes where a revision would be one too many
unfoldable pub wait_for_user : RevisionState → RevisionState
wait_for_user state =
    let request = request_for state in
    record state {
      status = "waiting_user_revision";
      revision_request = some (record request {
        metadata = set_field "waiting_user" (Json.boolean true) request.metadata;
      });
      revision_result = some (waiting_result request);
    }

abbrev status_of : RevisionStatus → String
status_of RevisionStatus.completed = "revised"
status_of RevisionStatus.failed = "failed"
status_of RevisionStatus.waiting_user = "waiting_user"

unfoldable pub revise_once : Tools → RevisionState → RevisionState
revise_once tools state =
    let request = request_for state in
    let result = apply_revision tools request state.document_ast in
    let new_count = next_revision_count state.revision_count in
    record state {
      status = status_of result.status;
      revision_request = some (record request { revision_count = new_count });
      revision_result = some result;
      revision_count = new_count;
      document_ast = ast_or result.document_ast state.document_ast;
      artifact_id = or_text result.artifact_id state.artifact_id;
    }

unfoldable pub revision_node : Tools → RevisionState → RevisionState
revision_node tools state =
    if can_auto_revise state.revision_count then revise_once tools state else wait_for_user state

-- `RevisionSkill.execute`, on the payload that the continuation makes
unfoldable pub revision_skill :
    Tools → Option String → Option RevisionRequest → Option String → Option Json → RevisionResult
revision_skill tools feedback request artifact_id document_ast =
    apply_revision tools
      (build_revision_request_from_review (of_request [] (λ r. r.issues) request)
        (of_request [] (λ r. r.suggested_changes) request)
        (or_text (of_request none (λ r. r.source_artifact_id) request) artifact_id)
        (or_text feedback (of_request none (λ r. r.user_feedback) request))
        (of_request 0 (λ r. r.revision_count) request) (of_request end (λ r. r.metadata) request))
      document_ast

-- Who applies a user's revision: the skill of the registry, the manager, or nobody
pub data Reviser : Type 0 where
  skill : Tools → Reviser
  manager : Tools → Reviser
  nobody : Reviser

abbrev is_completed : RevisionStatus → Bool
is_completed RevisionStatus.completed = true
is_completed _ = false

unfoldable pub apply_user_revision : Reviser → String → RevisionState → RevisionState
apply_user_revision Reviser.nobody feedback state = state
apply_user_revision (Reviser.skill tools) feedback state =
    let result =
      revision_skill tools (some feedback) state.revision_request state.artifact_id
        state.document_ast in
    record state {
      revision_result = some result;
      document_ast = ast_or result.document_ast state.document_ast;
      status = "revised";
    }
apply_user_revision (Reviser.manager tools) feedback state =
    let request =
      build_revision_request_from_review
        (or_list (of_request [] (λ r. r.issues) state.revision_request) state.review_issues)
        (of_request [] (λ r. r.suggested_changes) state.revision_request) state.artifact_id
        (some feedback) state.revision_count end in
    let result = apply_revision tools request state.document_ast in
    record state {
      revision_result = some result;
      status = if is_completed result.status then "revised" else state.status;
    }

-- The gate writes a status and a review, and no document.
pub record QualityUpdate : Type 0 where
  pub status : String
  pub revision_request : Option RevisionRequest
  pub review_issues : List QualityIssue
  pub review_recommendations : List String

abbrev gated : QualityUpdate → RevisionState → RevisionState
gated update state = record state {
  status = update.status;
  revision_request = update.revision_request;
  review_issues = update.review_issues;
  review_recommendations = update.review_recommendations;
}

unfoldable pub continue_revision :
    Tools → Reviser → (RevisionState → QualityUpdate) → RevisionState → String → RevisionState
continue_revision tools reviser quality_gate prior feedback =
    let revised = revision_node tools (record prior { user_feedback = some feedback }) in
    let merged =
      if revised.status == "waiting_user_revision"
      then apply_user_revision reviser feedback revised
      else revised in
    gated (quality_gate merged) merged
