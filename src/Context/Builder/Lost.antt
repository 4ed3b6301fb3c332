-- ===== src/Context/Builder/Lost.antt =====
-- What the node leaves of the ids that a run was given.
use ai_employee_os.Common.{◌≡◌, refl, Option, none, some, List, String, string_eq}
use ai_employee_os.Common.Json.{Json, Fields, Uuid, get_field, get_field-set_field, update_fields}
use ai_employee_os.Context.Priority.{build_prioritized_context}
use ai_employee_os.Context.Priority.Keys.{get_field-build_prioritized_context}
use ai_employee_os.Context.Builder.{ContextProvider, call, build, request_of, model_dump}

-- The state has this object under the key, and the object has neither id.
abbrev pub HasNoIds : String → Fields → Type 0
HasNoIds key state =
    (fields : Fields) × (get_field key state ≡ some (Json.object fields))
    × (get_field "project_id" fields ≡ none)
    × (get_field "client_id" fields ≡ none)

-- Whatever the state and the providers, the node writes a context and an execution context, and the
-- state that has its keys, the new values over the old, has neither a project_id nor a client_id in
-- them.
pub call-no_ids :
    (parse_uuid : Json → Option Uuid) (providers : List ContextProvider) (state : Fields)
    → let new = update_fields state (call parse_uuid providers state) in
      HasNoIds "context" new × HasNoIds "execution_context" new
unfolding call get_field update_fields model_dump string_eq
call-no_ids parse_uuid providers state =
    let context = build providers (request_of parse_uuid state) in
    (
      (
        build_prioritized_context context,
        rw (get_field-set_field "context" "status", get_field-set_field "context" "context") refl,
        get_field-build_prioritized_context "project_id" context refl,
        get_field-build_prioritized_context "client_id" context refl,
      ),
      (
        model_dump context,
        rw
            (
              get_field-set_field "execution_context" "status",
              get_field-set_field "execution_context" "context",
              get_field-set_field "execution_context" "execution_context",
            )
            refl,
        refl,
        refl,
      ),
    )
