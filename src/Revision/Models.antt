-- ===== src/Revision/Models.antt =====
-- backend/app/revision/models.py and backend/app/revision/policies/revision_policy.py.
use ai_employee_os.Common.{ℕ, suc, String, Bool, Option, List, ltb, leb}
use ai_employee_os.Common.Json.{Json, Fields}

pub data IssueSeverity : Type 0 where
  info : IssueSeverity
  minor : IssueSeverity
  major : IssueSeverity
  critical : IssueSeverity

pub record QualityIssue : Type 0 where
  pub category : String
  pub description : String
  pub severity : IssueSeverity
  pub location : Option String

pub data RevisionStatus : Type 0 where
  completed : RevisionStatus
  failed : RevisionStatus
  waiting_user : RevisionStatus

pub record RevisionRequest : Type 0 where
  pub source_artifact_id : Option String
  pub issues : List QualityIssue
  pub suggested_changes : List String
  pub user_feedback : Option String
  pub revision_count : ℕ
  pub metadata : Fields

pub record RevisionResult : Type 0 where
  pub artifact_id : Option String
  pub version_id : Option String
  pub changes_applied : List String
  pub summary : String
  pub status : RevisionStatus
  pub document_ast : Option Json
  pub metadata : Fields

abbrev pub max_automatic_revisions : ℕ
max_automatic_revisions = 1

abbrev pub can_auto_revise : ℕ → Bool
can_auto_revise revision_count = ltb revision_count max_automatic_revisions

abbrev pub should_wait_for_user : ℕ → Bool
should_wait_for_user revision_count = leb max_automatic_revisions revision_count

abbrev pub next_revision_count : ℕ → ℕ
next_revision_count current = suc current
