-- ===== src/Telegram/Clarification.antt =====
-- A question that the bot has asked and the answer to it, and the words that ask for a revision:
-- backend/app/adapters/telegram/clarification.py and revision.py, with the decisions of
-- backend/app/agents/decision/models.py and backend/app/agents/intent/policy.py.
use ai_employee_os.Common.{
  ℕ, String, ◌<>◌, Bool, true, false, Option, none, some, List, [], ◌∷◌, if◌then◌else◌, ltb, ◌==◌,
  string_eq,
}
use ai_employee_os.Common.Text.{strip, len_chars, any_occurs_in}
use ai_employee_os.Common.Json.{Json, Fields, text_of}
use ai_employee_os.Telegram.Models.{PendingClarification}
use ai_employee_os.Telegram.Mapper.{first_truthy}

pub data DecisionType : Type 0 where
  respond : DecisionType
  ask_clarification : DecisionType
  create_plan : DecisionType
  execute : DecisionType

abbrev pub value_of : DecisionType → String
value_of DecisionType.respond = "RESPOND"
value_of DecisionType.ask_clarification = "ASK_CLARIFICATION"
value_of DecisionType.create_plan = "CREATE_PLAN"
value_of DecisionType.execute = "EXECUTE"

abbrev pub is_chat_decision : DecisionType → Bool
is_chat_decision DecisionType.respond = true
is_chat_decision DecisionType.ask_clarification = true
is_chat_decision DecisionType.create_plan = false
is_chat_decision DecisionType.execute = false

abbrev pub is_task_decision : DecisionType → Bool
is_task_decision DecisionType.respond = false
is_task_decision DecisionType.ask_clarification = false
is_task_decision DecisionType.create_plan = true
is_task_decision DecisionType.execute = true

-- What the executive agent makes of a message, the decision and the understanding dumped
pub record Classification : Type 0 where
  pub action : DecisionType
  pub decision : Fields
  pub goal : String
  pub missing_information : List String
  pub understanding : Fields

unfoldable pub extract_chat_reply : (Json → String) → Fields → Option String
extract_chat_reply repr decision =
    elim (first_truthy ("response_message" ∷ "clarification_question" ∷ []) decision) [
      | none ↦ none
      | some value ↦ some (text_of repr value)
    ]

unfoldable pub build_pending_clarification : ℕ → String → Classification → PendingClarification
build_pending_clarification now user_input classification = record {
  pending_task = true;
  original_goal = if classification.goal == "" then user_input else classification.goal;
  original_user_input = user_input;
  intent = value_of classification.action;
  missing_information = classification.missing_information;
  understanding = classification.understanding;
  created_at = now;
}

unfoldable pub merge_clarification_answer : PendingClarification → String → String
merge_clarification_answer pending user_answer =
    let goal =
      if pending.original_goal == "" then pending.original_user_input else pending.original_goal in
    let answer = strip user_answer in
    if answer == "" then goal else goal <> ". Уточнение: " <> answer

abbrev pub revision_hints : List String
revision_hints =
    "сделай" ∷ "измени" ∷ "добавь" ∷ "убери" ∷ "короче" ∷ "длиннее" ∷ "переделай" ∷ "исправь"
    ∷ "стиль" ∷ "структур" ∷ "раздел" ∷ "объем" ∷ "объём" ∷ "таблиц" ∷ []

unfoldable pub is_contextual_revision_message : String → Bool
is_contextual_revision_message text =
    let normalized = strip text in
    if ltb (len_chars normalized) 4 then false else any_occurs_in revision_hints normalized
