-- ===== src/Orchestration/Payload.antt =====
-- The payload that `Orchestrator._execute_step` gives to a skill: `_merge_attachment_fields` and
-- `_enrich_payload_from_plan`, backend/app/orchestration/orchestrator.py.
pub mod Merge
use ai_employee_os.Common.{
  String, Bool, true, false, ◌&&◌, not, Option, none, some, List, [], ◌∷◌, if◌then◌else◌, contains,
  string_eq, ◌==◌,
}
use ai_employee_os.Common.Dict.{Dict, lookup, insert}
use ai_employee_os.Common.Json.{
  get_field, set_field, update_fields, is_truthy, value_or_null, Json, Fields, Items, end, field,
}
use ai_employee_os.Planning.Models.{PlanStep, TaskPlan, is_completed}
use ai_employee_os.Orchestration.Models.{Uuid}

-- `value is not None`, of `fields.get(key)` as of `fields[key]`
abbrev pub present : Option Json → Option Json
present none = none
present (some Json.null) = none
present (some v) = some v

unfoldable pub user_goal : Fields → Json
user_goal context =
    if is_truthy (get_field "user_goal" context)
    then value_or_null (get_field "user_goal" context)
    else value_or_null (get_field "user_input" context)

unfoldable pub base_payload : PlanStep → Fields → String → Fields
base_payload step context trace_id =
    update_fields
      (field "step_id" (Json.string step.id) (
        field "description" (Json.string step.description) (
          field "capability" (Json.string step.capability) (
            field "goal" (user_goal context) (
              field "user_goal" (user_goal context) (
                field "context" (Json.object context)
                  (field "trace_id" (Json.string trace_id) end)))))))
      context

abbrev attachment_keys : List String
attachment_keys =
    "extracted_content" ∷ "file_bytes" ∷ "filename" ∷ "brand_profile" ∷ "artifact_id" ∷ "client_id"
    ∷ "project_id" ∷ []

-- `if key not in payload and source.get(key) is not None: payload[key] = source[key]`
abbrev attach : Option Json → Option Json → String → Fields → Fields
attach none (some v) key payload = set_field key v payload
attach _ _ key payload = payload

unfoldable pub merge_source : Fields → List String → Fields → Fields
merge_source source [] payload = payload
merge_source source (key ∷ keys) payload =
    merge_source source keys
      (attach (get_field key payload) (present (get_field key source)) key payload)

-- A source that is no dict is passed over.
abbrev as_source : Option Json → Fields
as_source (some (Json.object fields)) = fields
as_source _ = end

unfoldable pub merge_attachment_fields : Fields → Fields → Fields
merge_attachment_fields context payload =
    let own = merge_source context attachment_keys payload in
    let metadata = merge_source (as_source (get_field "metadata" context)) attachment_keys own in
    merge_source (as_source (get_field "extensions" context)) attachment_keys metadata

-- The results of the completed steps that have one
abbrev note_result : Uuid → Option Fields → Dict Uuid Fields → Dict Uuid Fields
note_result id none completed = completed
note_result id (some end) completed = completed
note_result id (some (field k v rest)) completed = insert id (field k v rest) completed

unfoldable pub completed_results : List PlanStep → Dict Uuid Fields → Dict Uuid Fields
completed_results [] completed = completed
completed_results (step ∷ steps) completed =
    completed_results steps
      (if is_completed step.status then note_result step.id step.result completed else completed)

abbrev pub merge_keys : List String
merge_keys =
    "document_ast" ∷ "brand_profile" ∷ "extracted_content" ∷ "representation"
    ∷ "document_representation" ∷ "research_result" ∷ "strategy_result" ∷ "presentation_plan"
    ∷ "render_result" ∷ "file_bytes" ∷ "filename" ∷ "artifact_id" ∷ "source_artifact_id"
    ∷ "knowledge_result" ∷ "client_intelligence_result" ∷ "analytics_result" ∷ "learning_rules" ∷ []

-- `if key in result and result[key] is not None: payload[key] = result[key]`
abbrev pub take_key : Option Json → String → Fields → Fields
take_key none key payload = payload
take_key (some v) key payload = set_field key v payload

unfoldable pub take_keys : Fields → List String → Fields → Fields
take_keys result [] payload = payload
take_keys result (key ∷ keys) payload =
    take_keys result keys (take_key (present (get_field key result)) key payload)

-- `result["representation"]` stands in for a document representation that is missing or None.
abbrev pub fill_representation : Option Json → Option Json → Fields → Fields
fill_representation (some representation) none payload =
    set_field "document_representation" representation payload
fill_representation _ _ payload = payload

unfoldable pub take_result : Option Fields → Fields → Fields
take_result none payload = payload
take_result (some result) payload =
    let merged = take_keys result merge_keys payload in
    fill_representation (get_field "representation" result)
      (present (get_field "document_representation" merged)) merged

unfoldable pub take_results : Dict Uuid Fields → List Uuid → Fields → Fields
take_results completed [] payload = payload
take_results completed (dep_id ∷ deps) payload =
    take_results completed deps (take_result (lookup dep_id completed) payload)

abbrev store_for : PlanStep → Fields → Fields
store_for step payload =
    let stored =
      if step.capability == "document_rendering"
      then set_field "store_artifact" (Json.boolean true) payload
      else payload in
    if step.capability == "presentation_design"
      && not (is_truthy (get_field "output_format" stored))
    then set_field "output_format" (Json.string "pptx") stored
    else stored

unfoldable pub enrich_payload_from_plan : PlanStep → TaskPlan → Fields → Fields
enrich_payload_from_plan step plan payload =
    let merged = take_results (completed_results plan.steps []) step.dependencies payload in
    if is_truthy (get_field "client_id" merged) && is_truthy (get_field "project_id" merged)
    then store_for step merged
    else merged

-- What `execute_step` of the orchestrator is given
unfoldable pub payload_for : Fields → String → PlanStep → TaskPlan → Fields
payload_for context trace_id step plan =
    enrich_payload_from_plan step plan
      (merge_attachment_fields context (base_payload step context trace_id))
