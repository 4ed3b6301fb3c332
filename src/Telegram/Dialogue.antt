-- ===== src/Telegram/Dialogue.antt =====
-- The handlers of backend/app/adapters/telegram/flow.py that answer a message without a run: small
-- talk, a question to the user, the user's answer to it, and a revision of a result.
use ai_employee_os.Common.{
  String, Bool, true, false, Option, none, some, List, [], ◌∷◌, if◌then◌else◌, ◌==◌, string_eq,
}
use ai_employee_os.Common.Json.{Json, Fields, end, field, set_field, from_text, truthy}
use ai_employee_os.Telegram.Models.{
  TelegramFlowMode, PendingClarification, TelegramConversationState, TelegramExecutionRequest,
}
use ai_employee_os.Telegram.Store.{touched}
use ai_employee_os.Telegram.Mapper.{retry_keyboard, revision_keyboard}
use ai_employee_os.Telegram.Presenter.{
  format_completion_message, format_delivery_summary, format_error_message,
}
use ai_employee_os.Telegram.Progress.{Outcome, returned, raised, map_outcome, Transport}
use ai_employee_os.Telegram.Clarification.{
  DecisionType, Classification, extract_chat_reply, build_pending_clarification,
  merge_clarification_answer,
}
use ai_employee_os.Telegram.Collaborators.{Snapshot, Collaborators}
use ai_employee_os.Telegram.Execution.{Handled}
use ai_employee_os.Telegram.Delivery.{tell, send_artifact_files, run_execution}

abbrev or_default : String → Option String → String
or_default default none = default
or_default default (some text) = if text == "" then default else text

-- `if not convo.last_agent_state`
abbrev has_state : Option Fields → Bool
has_state none = false
has_state (some state) = truthy (Json.object state)

abbrev pub no_result_text : String
no_result_text = "Сначала нужно получить результат, прежде чем вносить правки."

module _ (c : Collaborators) where
  -- The reply to a question or to small talk
  abbrev chat_reply :
      String
      → String
      → Classification
      → TelegramExecutionRequest
      → TelegramConversationState
      → Transport
      → Handled
  chat_reply status default classification request convo t =
      let text = or_default default (extract_chat_reply c.telegram.repr classification.decision) in
      let (result, sent) =
        tell c request.telegram_chat_id text request.telegram_message_id none t in
      (
        map_outcome
            (λ answer. field "status" (Json.string status) (
              field "intent" (Json.string "chat") (
                field "reply" (Json.string text) (
                  field "decision" (Json.object classification.decision) (
                    field "workspace_id" (from_text convo.workspace_id)
                      (field "send_result" (Json.object answer) end))))))
            result,
        convo,
        sent,
      )

  abbrev talked :
      TelegramFlowMode
      → Option PendingClarification
      → String
      → TelegramConversationState
      → TelegramConversationState
  talked mode pending input convo = touched c.now (record convo {
    flow_mode = mode;
    pending_clarification = pending;
    last_user_input = some input;
    last_execution_id = none;
    last_agent_state = none;
  })

  abbrev pub answer_chat :
      DecisionType
      → Classification
      → TelegramExecutionRequest
      → TelegramConversationState
      → Transport
      → Handled
  answer_chat DecisionType.ask_clarification classification request convo t =
      chat_reply "clarification" "Уточните, пожалуйста, детали задачи." classification request
        (talked TelegramFlowMode.pending_clarification
          (some (build_pending_clarification c.now request.user_input classification))
          request.user_input convo)
        t
  answer_chat _ classification request convo t =
      chat_reply "completed" "Привет! Я NOVA — AI-сотрудник агентства." classification request
        (talked TelegramFlowMode.completed none request.user_input convo) t

  unfoldable pub handle_chat_response :
      TelegramExecutionRequest → TelegramConversationState → Classification → Transport → Handled
  handle_chat_response request convo classification t =
      answer_chat classification.action classification request convo t

  abbrev pub as_resumed : String → Fields → Fields
  as_resumed merged reply =
      set_field "merged_input" (Json.string merged)
        (set_field "resumed_from_clarification" (Json.boolean true) reply)

  abbrev resumed : String → Handled → Handled
  resumed merged (reply, convo, t) = (map_outcome (as_resumed merged) reply, convo, t)

  unfoldable pub resume_pending_clarification :
      TelegramExecutionRequest
      → TelegramConversationState
      → Snapshot
      → PendingClarification
      → Transport
      → Handled
  resume_pending_clarification request convo snapshot pending t =
      let merged = merge_clarification_answer pending request.user_input in
      let freed =
        touched c.now
          (record convo { pending_clarification = none; flow_mode = TelegramFlowMode.idle }) in
      resumed merged (run_execution c (record request { user_input = merged }) freed snapshot t)

  abbrev pub simple_reply : String → String → Fields → Fields
  simple_reply status text result =
      field "status" (Json.string status)
        (field "reply" (Json.string text) (field "send_result" (Json.object result) end))

  abbrev unavailable : TelegramExecutionRequest → TelegramConversationState → Transport → Handled
  unavailable request convo t =
      let (result, sent) = tell c request.telegram_chat_id no_result_text none none t in
      (map_outcome (simple_reply "revision_unavailable" no_result_text) result, convo, sent)

  abbrev revision_text : List Fields → Fields → String
  revision_text [] state = format_completion_message c.telegram.repr c.telegram.two_decimals state
  revision_text (artifact ∷ artifacts) state =
      format_delivery_summary c.telegram.repr c.telegram.two_decimals (artifact ∷ artifacts) state

  abbrev pub close_revision :
      Bool
      → TelegramExecutionRequest
      → TelegramConversationState
      → List Fields
      → Fields
      → Outcome (Unit {0}) × Transport
      → Handled
  close_revision contextual request revised artifacts state (raised e, t) = (raised e, revised, t)
  close_revision contextual request revised artifacts state (returned filed, t) =
      let text = revision_text artifacts state in
      let (result, sent) = tell c request.telegram_chat_id text none (some revision_keyboard) t in
      (
        map_outcome
            (λ answer. field "status" (Json.string "revised") (
              field "contextual" (Json.boolean contextual)
                (field "reply" (Json.string text) (field "send_result" (Json.object answer) end))))
            result,
        revised,
        sent,
      )

  abbrev pub deliver_revised :
      Bool
      → TelegramExecutionRequest
      → TelegramConversationState
      → Fields
      → Outcome (List Fields)
      → Transport
      → Handled
  deliver_revised contextual request revised state (raised e) t = (raised e, revised, t)
  deliver_revised contextual request revised state (returned artifacts) t =
      close_revision contextual request revised artifacts state
        (send_artifact_files c request.telegram_chat_id artifacts t)

  abbrev pub deliver_revision :
      Bool
      → TelegramExecutionRequest
      → TelegramConversationState
      → Outcome Fields
      → Transport
      → Handled
  deliver_revision contextual request convo (raised message) t =
      let text = format_error_message (some message) in
      let (result, sent) = tell c request.telegram_chat_id text none (some retry_keyboard) t in
      (map_outcome (simple_reply "revision_failed" text) result, convo, sent)
  deliver_revision contextual request convo (returned state) t =
      let revised = touched c.now (record convo {
        last_agent_state = some state;
        flow_mode = TelegramFlowMode.completed;
        revision_prompted_at = none;
      }) in
      deliver_revised contextual request revised state (c.collect_artifacts state) t

  unfoldable pub handle_revision_feedback :
      Bool → TelegramExecutionRequest → TelegramConversationState → Transport → Handled
  handle_revision_feedback contextual request convo t = elim c.continue_revision [
    | none ↦ unavailable request convo t
    | some continue ↦ elim convo.last_agent_state [
      | none ↦ unavailable request convo t
      | some state ↦
          if has_state (some state)
          then deliver_revision contextual request convo (continue state request.user_input) t
          else unavailable request convo t
    ]
  ]
