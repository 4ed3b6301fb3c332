-- ===== src/Context/Priority/Keys.antt =====
-- The keys and values of the prioritized context.
use ai_employee_os.Common.{
  ◌≡◌, refl, ◌∙◌, String, false, Option, none, some, List, [], ◌∷◌, arith, contains, if-by, ◌==◌,
  string_eq,
}
use ai_employee_os.Common.Json.{Json, Fields, end, get_field, get_field-set_field, truthy}
use ai_employee_os.Context.Priority.{
  ExecutionContext, context_priority, with_truthy, raw_context, has_value, keep, keep_keys,
  build_prioritized_context,
}

get_field-with_truthy :
    (key other : String) (value : Json) (raw : Fields)
    → (key == other) ≡ false
    → get_field key (with_truthy other value raw) ≡ get_field key raw
get_field-with_truthy key other value raw differ =
    if-by (λ (x : Fields). get_field key x ≡ get_field key raw) (truthy value)
      (λ _. ground (arith, get_field-set_field key other value raw)) (λ _. refl)

get_field-keep :
    (key other : String) (o : Option Json) (kept : Fields)
    → (key == other) ≡ false
    → get_field key (keep other o kept) ≡ get_field key kept
get_field-keep key other none kept differ = refl
get_field-keep key other (some value) kept differ =
    if-by (λ (x : Fields). get_field key x ≡ get_field key kept) (has_value (some value))
      (λ _. ground (arith, get_field-set_field key other value kept)) (λ _. refl)

get_field-keep_keys :
    (key : String) (keys : List String) (raw kept : Fields)
    → contains keys key ≡ false
    → get_field key (keep_keys keys raw kept) ≡ get_field key kept
get_field-keep_keys key [] raw kept absent = refl
get_field-keep_keys key (other ∷ keys) raw kept absent =
    get_field-keep_keys key keys raw _ (ground arith)
    ∙ get_field-keep key other (get_field other raw) kept (ground arith)

get_field-end : (key : String) → get_field key end ≡ none
unfolding get_field
get_field-end key = refl

-- A key that is none of the priority order, nor memory_context or workspace_context, is not in the
-- prioritized context.
pub get_field-build_prioritized_context :
    (key : String) (c : ExecutionContext)
    → contains ("workspace_context" ∷ "memory_context" ∷ context_priority) key ≡ false
    → get_field key (build_prioritized_context c) ≡ none
unfolding build_prioritized_context
get_field-build_prioritized_context key c absent =
    let not_workspace : (key == "workspace_context") ≡ false = ground arith in
    let not_memory : (key == "memory_context") ≡ false = ground arith in
    let not_kept : contains context_priority key ≡ false = ground arith in
    get_field-with_truthy key "workspace_context" c.workspace_context _ not_workspace
    ∙ (get_field-with_truthy key "memory_context" c.memory_context _ not_memory
        ∙ (get_field-keep_keys key context_priority (raw_context c) end not_kept
            ∙ get_field-end key))
