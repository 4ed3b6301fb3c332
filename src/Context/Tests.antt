-- ===== src/Context/Tests.antt =====
-- A run for a project, and two providers of which the later one wins.
use ai_employee_os.Common.{◌≡◌, refl, none, some, List, [], ◌∷◌, string_eq}
use ai_employee_os.Common.Json.{Json, Fields, end, field, get_field, update_fields}
use ai_employee_os.Context.Builder.{ContextProvider, call, merge_fragments}
use ai_employee_os.Context.Builder.Lost.{HasNoIds, call-no_ids}
use ai_employee_os.Context.Builder.Merge.{latest, get_field-merge_fragments}

abbrev client : ContextProvider
client = record {
  name = "client";
  fetch = λ _. some (field "client_context" (Json.string "old") end);
}

abbrev state : Fields
state = field "context" (Json.object (field "project_id" (Json.string "p") end)) end

call-no_ids_example :
    let new = update_fields state (call (λ _. some "p") (client ∷ []) state) in
    HasNoIds "context" new × HasNoIds "execution_context" new
call-no_ids_example = call-no_ids (λ _. some "p") (client ∷ []) state

abbrev fragments : List Fields
fragments =
    field "preferences" (Json.string "old") end
    ∷ field "preferences" (Json.string "new") end
    ∷ field "preferences" Json.null end
    ∷ []

get_field-merge_fragments_example :
    get_field "preferences" (merge_fragments fragments) ≡ latest "preferences" fragments none
unfolding string_eq
get_field-merge_fragments_example = get_field-merge_fragments "preferences" fragments refl
