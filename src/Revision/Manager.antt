-- ===== src/Revision/Manager.antt =====
-- `RevisionManager.apply_revision` of backend/app/revision/manager.py. The agent, which asks a
-- language model, and the rendering and storing of a document are parameters.
use ai_employee_os.Common.{
  String, Bool, true, false, Option, none, some, [], if◌then◌else◌, ◌==◌, string_eq,
}
use ai_employee_os.Common.Json.{Json, Fields, end, field, get_field, set_field, truthy, str}
use ai_employee_os.Revision.Models.{
  RevisionStatus, RevisionRequest, RevisionResult, can_auto_revise, should_wait_for_user,
  next_revision_count,
}

-- What is left of a rendered document: its artifact, its version and the dump of the result
pub record Rendered : Type 0 where
  pub artifact_id : Option String
  pub version_id : Option String
  pub dump : Fields

pub record Tools : Type 0 where
  pub revise : RevisionRequest → Option Json → RevisionResult
  pub store_revision : RevisionRequest → Json → Rendered

abbrev waiting : String → Fields → RevisionRequest → Option Json → RevisionResult
waiting summary metadata request document_ast = record {
  artifact_id = request.source_artifact_id;
  version_id = none;
  changes_applied = [];
  summary = summary;
  status = RevisionStatus.waiting_user;
  document_ast = document_ast;
  metadata = metadata;
}

-- `planned.document_ast or document_ast`
abbrev pub ast_or : Option Json → Option Json → Option Json
ast_or none old = old
ast_or (some ast) old = if truthy ast then some ast else old

abbrev artifact_or : Option String → Option String → Option String
artifact_or none old = old
artifact_or (some id) old = if id == "" then old else some id

abbrev needs_render : Fields → Bool
needs_render metadata = elim (get_field "needs_render" metadata) [
  | none ↦ true
  | some value ↦ truthy value
]

abbrev is_failed : RevisionStatus → Bool
is_failed RevisionStatus.failed = true
is_failed _ = false

abbrev unrendered : RevisionResult → RevisionResult
unrendered planned = record planned {
  status = RevisionStatus.completed;
  summary = if planned.summary == "" then "AST updated without re-render" else planned.summary;
}

module _ (tools : Tools) where
  abbrev rendered : RevisionRequest → RevisionResult → Json → RevisionResult
  rendered working planned ast =
      let result = tools.store_revision working ast in
      record planned {
        artifact_id = artifact_or result.artifact_id working.source_artifact_id;
        version_id = result.version_id;
        status = RevisionStatus.completed;
        document_ast = some ast;
        metadata =
            set_field "revision_count" (Json.number (str working.revision_count))
              (set_field "render_result" (Json.object result.dump) planned.metadata);
      }

  abbrev finish_plan : RevisionRequest → RevisionResult → Option Json → RevisionResult
  finish_plan working planned none = unrendered planned
  finish_plan working planned (some ast) =
      if needs_render planned.metadata then rendered working planned ast else unrendered planned

  unfoldable pub carry_out : RevisionRequest → Option Json → RevisionResult
  carry_out request document_ast =
      let working = record request {
        revision_count = next_revision_count request.revision_count;
      } in
      let planned = tools.revise working document_ast in
      if is_failed planned.status
      then planned
      else finish_plan working planned (ast_or planned.document_ast document_ast)

  unfoldable pub apply_revision : RevisionRequest → Option Json → RevisionResult
  apply_revision request document_ast =
      if should_wait_for_user request.revision_count
      then waiting "Automatic revision limit reached — waiting for user decision"
          (field "revision_count" (Json.number (str request.revision_count)) end) request
          document_ast
      else if can_auto_revise request.revision_count
      then carry_out request document_ast
      else waiting "Revision not allowed by policy" end request document_ast
