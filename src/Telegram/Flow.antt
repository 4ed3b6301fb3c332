-- ===== src/Telegram/Flow.antt =====
-- `TelegramProductFlow` of backend/app/adapters/telegram/flow.py: what a message and a press of a
-- button do to the conversation, to the executions under way and to the chat.
pub mod Keeping
pub mod Found
pub mod Question
pub mod Buttons
pub mod Stuck
use ai_employee_os.Common.{
  String, Bool, true, false, ◌&&◌, Option, none, some, if◌then◌else◌, ◌==◌, string_eq,
}
use ai_employee_os.Common.Json.{Json, Fields, end, field, set_field}
use ai_employee_os.Orchestration.Controls.{
  ExecutionStore, ControlResult, key_error, cancel_execution,
}
use ai_employee_os.Telegram.Models.{
  TelegramFlowMode, PendingClarification, TelegramConversationState, TelegramExecutionRequest,
  TelegramCallbackRequest,
}
use ai_employee_os.Telegram.Store.{ConversationStore, get_or_create, touched, write_back}
use ai_employee_os.Telegram.Presenter.{format_revision_prompt}
use ai_employee_os.Telegram.Progress.{Outcome, returned, raised, map_outcome, Transport}
use ai_employee_os.Telegram.Clarification.{
  Classification, is_chat_decision, is_contextual_revision_message,
}
use ai_employee_os.Telegram.Collaborators.{Snapshot, Collaborators}
use ai_employee_os.Telegram.Execution.{nonempty, Handled, build_runtime_payload}
use ai_employee_os.Telegram.Delivery.{tell, run_execution}
use ai_employee_os.Telegram.Dialogue.{
  handle_chat_response, resume_pending_clarification, handle_revision_feedback, simple_reply,
}

-- The stores that a handler writes, and what has been sent
pub record FlowState : Type 0 where
  pub conversations : ConversationStore
  pub executions : ExecutionStore
  pub transport : Transport

-- A handler's reply, or the exception that leaves it
abbrev pub Reply : Type 0
Reply = Outcome Fields

abbrev nothing_text : String
nothing_text = "Сейчас нет плана, ожидающего подтверждения."

abbrev is_prompted : TelegramFlowMode → Bool
is_prompted TelegramFlowMode.revision_prompted = true
is_prompted _ = false

abbrev is_done : TelegramFlowMode → Bool
is_done TelegramFlowMode.completed = true
is_done _ = false

abbrev is_waiting : TelegramFlowMode → Bool
is_waiting TelegramFlowMode.waiting_approval = true
is_waiting _ = false

module _ (c : Collaborators) where
  abbrev act_on :
      Outcome Classification
      → TelegramExecutionRequest
      → TelegramConversationState
      → Snapshot
      → Transport
      → Handled
  act_on (raised message) request convo snapshot t = (raised message, convo, t)
  act_on (returned classification) request convo snapshot t =
      if is_chat_decision classification.action
      then handle_chat_response c request convo classification t
      else run_execution c request convo snapshot t

  -- `_classify_intent` and what follows from it
  unfoldable pub handle_new_message :
      TelegramExecutionRequest → TelegramConversationState → Snapshot → Transport → Handled
  handle_new_message request convo snapshot t =
      let (context, metadata) = build_runtime_payload request snapshot in
      elim c.analyze [
        | none ↦ run_execution c request convo snapshot t
        | some analyze ↦
            act_on
              (analyze request.user_input context
                (set_field "intent_classification" (Json.boolean true) metadata))
              request convo snapshot t
      ]

  abbrev pub resume_or_begin :
      Option PendingClarification
      → TelegramExecutionRequest
      → TelegramConversationState
      → Snapshot
      → Transport
      → Handled
  resume_or_begin none request convo snapshot t = handle_new_message request convo snapshot t
  resume_or_begin (some pending) request convo snapshot t =
      resume_pending_clarification c request convo snapshot pending t

  unfoldable pub handle_in :
      TelegramExecutionRequest → TelegramConversationState → Snapshot → Transport → Handled
  handle_in request convo snapshot t =
      if is_prompted convo.flow_mode
      then handle_revision_feedback c false request convo t
      else if is_done convo.flow_mode && is_contextual_revision_message request.user_input
      then handle_revision_feedback c true request convo t
      else resume_or_begin convo.pending_clarification request convo snapshot t

  -- The conversation that a message finds: the store holds it itself, so that what a handler does
  -- to it is stored.
  unfoldable pub handle_message : TelegramExecutionRequest → FlowState → Reply × FlowState
  handle_message request s =
      let (convo, conversations) =
        get_or_create c.now request.telegram_user_id request.telegram_chat_id s.conversations in
      let snapshot = c.resolve_session request.telegram_user_id in
      let bound = record convo {
        workspace_id = some snapshot.workspace_id;
        session_id = snapshot.active_session_id;
      } in
      let (reply, new, t) = handle_in request bound snapshot s.transport in
      (
        reply,
        record s {
          conversations = write_back request.telegram_user_id new conversations;
          transport = t;
        },
      )

  -- What a press of a button does, to the executions too
  abbrev Pressed : Type 0
  Pressed = Reply × TelegramConversationState × ExecutionStore × Transport

  abbrev pressed : Handled → ExecutionStore → Pressed
  pressed (reply, convo, t) executions = (reply, convo, executions, t)

  abbrev say : String → String → TelegramConversationState → Transport → Handled
  say status text convo t =
      let (result, sent) = tell c convo.telegram_chat_id text none none t in
      (map_outcome (simple_reply c status text) result, convo, sent)

  -- The request that a button makes of the last input
  abbrev again : TelegramConversationState → String → Fields → TelegramExecutionRequest
  again convo input metadata = record {
    user_input = input;
    telegram_user_id = convo.telegram_user_id;
    telegram_chat_id = convo.telegram_chat_id;
    telegram_message_id = none;
    telegram_username = none;
    metadata = metadata;
    context = field "channel" (Json.string "telegram") end;
  }

  abbrev nothing_to_approve : TelegramConversationState → Transport → Handled
  nothing_to_approve = say "noop" nothing_text

  unfoldable pub handle_approval_resume : TelegramConversationState → Snapshot → Transport → Handled
  handle_approval_resume convo snapshot t = elim (nonempty convo.last_user_input) [
    | none ↦ nothing_to_approve convo t
    | some input ↦
        if is_waiting convo.flow_mode
        then run_execution c
            (again convo input (
              field "auto_approve" (Json.boolean true)
                (field "source" (Json.string "telegram") end)))
            convo snapshot t
        else nothing_to_approve convo t
  ]

  abbrev after_cancel :
      TelegramConversationState → ControlResult × ExecutionStore → Transport → Pressed
  after_cancel convo (key_error, executions) t = (raised "KeyError", convo, executions, t)
  after_cancel convo (_, executions) t =
      pressed
        (say "cancelled" "Выполнение отменено."
          (touched c.now (record convo { flow_mode = TelegramFlowMode.cancelled })) t)
        executions

  unfoldable pub handle_cancel : TelegramConversationState → ExecutionStore → Transport → Pressed
  handle_cancel convo executions t = elim (nonempty convo.last_execution_id) [
    | none ↦ after_cancel convo (ControlResult.returned none, executions) t
    | some id ↦ after_cancel convo (cancel_execution id executions) t
  ]

  unfoldable pub handle_revise_prompt : TelegramConversationState → Transport → Handled
  handle_revise_prompt convo t =
      say "revision_prompted" format_revision_prompt
        (touched c.now (record convo {
          flow_mode = TelegramFlowMode.revision_prompted;
          revision_prompted_at = some c.now;
        }))
        t

  unfoldable pub handle_retry : TelegramConversationState → Snapshot → Transport → Handled
  handle_retry convo snapshot t = elim (nonempty convo.last_user_input) [
    | none ↦ say "noop" "Нечего повторить. Опишите задачу текстом." convo t
    | some input ↦
        run_execution c
          (again convo input (
            field "source" (Json.string "telegram")
              (field "telegram_retry" (Json.boolean true) end)))
          convo snapshot t
  ]

  unfoldable pub press :
      TelegramCallbackRequest
      → TelegramConversationState
      → Snapshot
      → ExecutionStore
      → Transport
      → Pressed
  press request convo snapshot executions t =
      if request.action == "approve"
      then pressed (handle_approval_resume convo snapshot t) executions
      else if request.action == "cancel"
      then handle_cancel convo executions t
      else if request.action == "revise"
      then pressed (handle_revise_prompt convo t) executions
      else if request.action == "retry"
      then pressed (handle_retry convo snapshot t) executions
      else (
        returned (
            field "status" (Json.string "ignored")
              (field "action" (Json.string request.action) end)),
        convo,
        executions,
        t,
      )

  unfoldable pub handle_callback : TelegramCallbackRequest → FlowState → Reply × FlowState
  handle_callback request s =
      let (convo, conversations) =
        get_or_create c.now request.telegram_user_id request.telegram_chat_id s.conversations in
      let snapshot = c.resolve_session request.telegram_user_id in
      let (reply, new, executions, t) = press request convo snapshot s.executions s.transport in
      (
        reply,
        record {
          conversations = write_back request.telegram_user_id new conversations;
          executions = executions;
          transport = t;
        },
      )
