-- ===== src/Revision/Tests.antt =====
-- A document that has been revised once, and its user's feedback.
use ai_employee_os.Common.{◌≡◌, refl, none, some, []}
use ai_employee_os.Common.Json.{Json, end}
use ai_employee_os.Revision.Models.{RevisionStatus, RevisionResult}
use ai_employee_os.Revision.Manager.{Tools}
use ai_employee_os.Revision.Node.{RevisionState, Reviser, QualityUpdate, continue_revision}
use ai_employee_os.Revision.Node.Limit.{continue_revision-IsUnheard}

abbrev tools : Tools
tools = record {
  revise = λ request ast. record {
    artifact_id = none;
    version_id = none;
    changes_applied = [];
    summary = "shorter";
    status = RevisionStatus.completed;
    document_ast = some (Json.string "short");
    metadata = end;
  };
  store_revision = λ _ _. record { artifact_id = some "a"; version_id = some "2"; dump = end };
}

abbrev prior : RevisionState
prior = record {
  status = "completed";
  revision_count = 1;
  revision_request = none;
  review_issues = [];
  review_recommendations = [];
  revision_result = none;
  document_ast = some (Json.string "long");
  artifact_id = some "a";
  user_feedback = none;
}

abbrev gate : RevisionState → QualityUpdate
gate state = record {
  status = "completed";
  revision_request = none;
  review_issues = [];
  review_recommendations = [];
}

continue_revision-IsUnheard_example :
    let new = continue_revision tools (Reviser.manager tools) gate prior "shorter, please" in
    (new.document_ast ≡ some (Json.string "long"))
    × (result : RevisionResult) × (new.revision_result ≡ some result)
    × (result.status ≡ RevisionStatus.waiting_user)
continue_revision-IsUnheard_example =
    continue_revision-IsUnheard tools (Reviser.manager tools) gate prior "shorter, please" 0 refl
