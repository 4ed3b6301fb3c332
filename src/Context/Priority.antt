-- ===== src/Context/Priority.antt =====
-- The context as the agents downstream see it: backend/app/context/models.py and priority.py. A
-- value that is None is `null`.
pub mod Keys
use ai_employee_os.Common.{
  ℕ, suc, String, Bool, true, false, not, Option, none, some, List, [], ◌∷◌, if◌then◌else◌, leb,
  length, ◌==◌, string_eq,
}
use ai_employee_os.Common.Sorting.{sort}
use ai_employee_os.Common.Json.{Json, Items, Fields, end, field, get_field, set_field, truthy}

pub record ExecutionContext : Type 0 where
  pub user_input : String
  pub current_task : Json
  pub client_context : Json
  pub project_context : Json
  pub artifact_context : Json
  pub conversation_history : Json
  pub memory_context : Json
  pub knowledge_context : Json
  pub research_context : Json
  pub client_intelligence_context : Json
  pub learning_context : Json
  pub workspace_context : Json
  pub preferences : Json
  pub metadata : Json
  pub extensions : Json

abbrev pub context_priority : List String
context_priority =
    "user_input" ∷ "current_task" ∷ "project_context" ∷ "client_context" ∷ "artifact_context"
    ∷ "knowledge_context" ∷ "research_context" ∷ "client_intelligence_context" ∷ "learning_context"
    ∷ "preferences" ∷ "conversation_history" ∷ []

-- `raw[key] = value`, if the value is not empty
abbrev pub with_truthy : String → Json → Fields → Fields
with_truthy key value raw = if truthy value then set_field key value raw else raw

unfoldable pub raw_context : ExecutionContext → Fields
raw_context c = with_truthy "workspace_context" c.workspace_context (
    with_truthy "memory_context" c.memory_context (
      with_truthy "extensions" c.extensions (
        field "user_input" (Json.string c.user_input) (
          field "current_task" c.current_task (
            field "project_context" c.project_context (
              field "client_context" c.client_context (
                field "artifact_context" c.artifact_context (
                  field "knowledge_context" c.knowledge_context (
                    field "research_context" c.research_context (
                      field "client_intelligence_context" c.client_intelligence_context (
                        field "learning_context" c.learning_context (
                          field "preferences" c.preferences (
                            field "conversation_history" c.conversation_history
                              (field "metadata" c.metadata end))))))))))))))

abbrev pub has_value : Option Json → Bool
has_value none = false
has_value (some Json.null) = false
has_value (some (Json.array Items.nil)) = false
has_value (some (Json.object end)) = false
has_value (some value) = true

abbrev pub keep : String → Option Json → Fields → Fields
keep key none kept = kept
keep key (some value) kept = if has_value (some value) then set_field key value kept else kept

-- `{key: raw[key] for key in keys if _has_value(raw.get(key))}`, after what is kept already
abbrev pub keep_keys : List String → Fields → Fields → Fields
keep_keys [] raw kept = kept
keep_keys (key ∷ keys) raw kept = keep_keys keys raw (keep key (get_field key raw) kept)

unfoldable pub build_prioritized_context : ExecutionContext → Fields
build_prioritized_context c =
    with_truthy "workspace_context" c.workspace_context (
      with_truthy "memory_context" c.memory_context
        (keep_keys context_priority (raw_context c) end))

-- `priority_index.get(key, len(CONTEXT_PRIORITY))`
abbrev index_of : List String → String → ℕ
index_of [] key = 0
index_of (name ∷ names) key = let rest = index_of names key in if key == name then 0 else suc rest

unfoldable pub sort_context_keys : List String → List String
sort_context_keys = sort (λ a b. leb (index_of context_priority a) (index_of context_priority b))
