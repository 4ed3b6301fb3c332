-- ===== src/Revision/Parser.antt =====
-- backend/app/revision/parsers/feedback_parser.py. The issues are those of the quality gate already,
-- not their dumps.
use ai_employee_os.Common.{
  ℕ, String, Bool, true, false, ◌&&◌, Option, none, some, List, [], ◌∷◌, ◌++◌, map, any,
  if◌then◌else◌, ◌==◌, string_eq, eqb,
}
use ai_employee_os.Common.Text.{strip, any_occurs_in, codes, lower_code}
use ai_employee_os.Common.Json.{Fields}
use ai_employee_os.Revision.Models.{QualityIssue, RevisionRequest}

abbrev same_codes : List ℕ → List ℕ → Bool
same_codes [] [] = true
same_codes (a ∷ left) (b ∷ right) = eqb a b && same_codes left right
same_codes _ _ = false

-- `a.lower() == b.lower()`
unfoldable pub same_lower : String → String → Bool
same_lower a b = same_codes (map lower_code (codes a)) (map lower_code (codes b))

abbrev hint : Bool → String → List String
hint true suggestion = suggestion ∷ []
hint false suggestion = []

-- The first of the items that are the same but for their case
abbrev unique : List String → List String → List String
unique seen [] = []
unique seen (item ∷ items) =
    if any (same_lower item) seen then unique seen items else item ∷ unique (item ∷ seen) items

abbrev suggestions_of : String → List String
suggestions_of text = unique [] (
    (text ∷ [])
    ++ hint (any_occurs_in ("меньше" ∷ "короче" ∷ "shorter" ∷ "less text" ∷ "brief" ∷ []) text)
        "Reduce text volume and keep content concise"
    ++ hint (any_occurs_in ("больше" ∷ "детал" ∷ "more detail" ∷ "expand" ∷ "подробн" ∷ []) text)
        "Add more detail to incomplete sections"
    ++ hint (any_occurs_in ("визуал" ∷ "visual" ∷ "image" ∷ "таблиц" ∷ "table" ∷ []) text)
        "Increase visual or tabular elements where appropriate")

unfoldable pub parse_user_feedback : Option String → List String
parse_user_feedback none = []
parse_user_feedback (some feedback) =
    let text = strip feedback in if text == "" then [] else suggestions_of text

unfoldable pub build_revision_request_from_review :
    List QualityIssue → List String → Option String → Option String → ℕ → Fields → RevisionRequest
build_revision_request_from_review issues suggested artifact_id feedback revision_count metadata =
    record {
      source_artifact_id = artifact_id;
      issues = issues;
      suggested_changes = suggested ++ parse_user_feedback feedback;
      user_feedback = feedback;
      revision_count = revision_count;
      metadata = metadata;
    }
