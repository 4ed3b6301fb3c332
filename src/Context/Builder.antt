-- ===== src/Context/Builder.antt =====
-- `ContextBuilder` and its node, backend/app/context/builder.py. A provider is its name and what its
-- `fetch` returns, none where it raises.
pub mod Lost
pub mod Merge
use ai_employee_os.Common.{
  String, Bool, true, false, Option, none, some, List, [], ◌∷◌, if◌then◌else◌, ◌==◌, string_eq,
}
use ai_employee_os.Common.Json.{
  Json, Items, Fields, Uuid, end, field, get_field, set_field, update_fields, truthy, is_truthy,
  fields_of, value_or_null, from_text,
}
use ai_employee_os.Context.Priority.{ExecutionContext, build_prioritized_context}

pub record ContextRequest : Type 0 where
  pub user_input : String
  pub client_id : Option Uuid
  pub project_id : Option Uuid
  pub session_id : Option String
  pub current_task : Json
  pub preferences : Json
  pub metadata : Json
  pub trace_id : String

pub record ContextProvider : Type 0 where
  pub name : String
  pub fetch : ContextRequest → Option Fields

unfoldable pub fetch_provider_safe : ContextProvider → ContextRequest → Fields
fetch_provider_safe provider request = elim (provider.fetch request) [
  | none ↦ end
  | some fragment ↦ fragment
]

abbrev is_extension : String → Json → Bool
is_extension key (Json.object fields) = key == "extensions"
is_extension key _ = false

-- `elif value is not None: merged[key] = value`
abbrev merge_value : String → Json → Fields → Fields
merge_value key Json.null merged = merged
merge_value key value merged = set_field key value merged

unfoldable pub merge_entry : String → Json → Fields → Fields
merge_entry key value merged =
    if is_extension key value
    then set_field "extensions"
        (Json.object
          (update_fields (fields_of (get_field "extensions" merged)) (fields_of (some value))))
        merged
    else merge_value key value merged

abbrev pub merge_fragment : Fields → Fields → Fields
merge_fragment end merged = merged
merge_fragment (field key value rest) merged = merge_fragment rest (merge_entry key value merged)

abbrev pub merge_from : List Fields → Fields → Fields
merge_from [] merged = merged
merge_from (fragment ∷ fragments) merged = merge_from fragments (merge_fragment fragment merged)

unfoldable pub merge_fragments : List Fields → Fields
merge_fragments fragments = merge_from fragments end

-- `merged.get(key, default)` and `value or other`
abbrev get_or : String → Json → Fields → Json
get_or key default merged = elim (get_field key merged) [ none ↦ default | some value ↦ value ]

abbrev or_json : Json → Json → Json
or_json value other = if truthy value then value else other

abbrev nothing_of : Json
nothing_of = Json.array Items.nil

abbrev empty_object : Json
empty_object = Json.object end

abbrev learning_extension : Fields → Fields
learning_extension merged =
    let rules = get_field "learning_rules" merged in
    if is_truthy rules then field "learning_rules" (value_or_null rules) end else end

abbrev fetch_all : List ContextProvider → ContextRequest → List Fields
fetch_all [] request = []
fetch_all (provider ∷ providers) request =
    fetch_provider_safe provider request ∷ fetch_all providers request

unfoldable pub assemble : ContextRequest → Fields → ExecutionContext
assemble request merged = record {
  user_input = request.user_input;
  current_task = or_json request.current_task (get_or "current_task" Json.null merged);
  client_context = get_or "client_context" Json.null merged;
  project_context = get_or "project_context" Json.null merged;
  artifact_context = get_or "artifact_context" nothing_of merged;
  conversation_history = get_or "conversation_history" nothing_of merged;
  memory_context = get_or "memory_context" nothing_of merged;
  knowledge_context = get_or "knowledge_context" nothing_of merged;
  research_context = get_or "research_context" Json.null merged;
  client_intelligence_context = get_or "client_intelligence_context" Json.null merged;
  learning_context =
      or_json (get_or "learning_context" Json.null merged)
        (or_json (get_or "learning_rules" Json.null merged) nothing_of);
  workspace_context = get_or "workspace_context" Json.null merged;
  preferences = or_json request.preferences (get_or "preferences" empty_object merged);
  metadata = or_json request.metadata empty_object;
  extensions = Json.object (
      update_fields (update_fields end (fields_of (get_field "extensions" merged)))
        (learning_extension merged));
}

unfoldable pub build : List ContextProvider → ContextRequest → ExecutionContext
build providers request = assemble request (merge_fragments (fetch_all providers request))

-- A key of the state that is a text
abbrev text_in : Option Json → Option String
text_in (some (Json.string s)) = some s
text_in _ = none

abbrev text_or : String → Option Json → String
text_or default (some (Json.string s)) = s
text_or default _ = default

-- The state's keys that the node reads. `parse_uuid` is `UUID(str(value))`, none for another text.
abbrev request_of : (Json → Option Uuid) → Fields → ContextRequest
request_of parse_uuid state =
    let hints = fields_of (get_field "context" state) in
    let metadata = fields_of (get_field "metadata" state) in
    record {
      user_input = text_or "" (get_field "user_input" state);
      client_id = parse_uuid (value_or_null (get_field "client_id" hints));
      project_id = parse_uuid (value_or_null (get_field "project_id" hints));
      session_id = text_in (get_field "session_id" metadata);
      current_task = value_or_null (get_field "current_task" hints);
      preferences = or_json (value_or_null (get_field "preferences" hints)) empty_object;
      metadata = Json.object metadata;
      trace_id = text_or "-" (get_field "trace_id" state);
    }

-- `context.model_dump()`
unfoldable pub model_dump : ExecutionContext → Fields
model_dump c = field "user_input" (Json.string c.user_input) (
    field "current_task" c.current_task (
      field "client_context" c.client_context (
        field "project_context" c.project_context (
          field "artifact_context" c.artifact_context (
            field "conversation_history" c.conversation_history (
              field "memory_context" c.memory_context (
                field "knowledge_context" c.knowledge_context (
                  field "research_context" c.research_context (
                    field "client_intelligence_context" c.client_intelligence_context (
                      field "learning_context" c.learning_context (
                        field "workspace_context" c.workspace_context (
                          field "preferences" c.preferences (
                            field "metadata" c.metadata
                              (field "extensions" c.extensions end))))))))))))))

-- `ContextBuilderNode.__call__`: what it writes to the state
unfoldable pub call : (Json → Option Uuid) → List ContextProvider → Fields → Fields
call parse_uuid providers state =
    let context = build providers (request_of parse_uuid state) in
    field "current_step" (Json.string "context_builder") (
      field "execution_context" (Json.object (model_dump context)) (
        field "context" (Json.object (build_prioritized_context context))
          (field "status" (Json.string "context_ready") end)))

abbrev context_field_of : String → Option String
context_field_of name =
    if name == "client"
    then some "client_context"
    else if name == "project"
    then some "project_context"
    else if name == "artifact"
    then some "artifact_context"
    else if name == "history"
    then some "conversation_history"
    else if name == "memory"
    then some "memory_context"
    else if name == "knowledge"
    then some "knowledge_context"
    else if name == "research"
    then some "research_context"
    else if name == "client_intelligence"
    then some "client_intelligence_context"
    else if name == "learning"
    then some "learning_context"
    else if name == "workspace"
    then some "workspace_context"
    else none

unfoldable pub provider_contributed : String → Fields → Bool
provider_contributed name merged = elim (context_field_of name) [
  | none ↦ false
  | some key ↦ is_truthy (get_field key merged)
]
