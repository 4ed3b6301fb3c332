-- ===== src/Telegram/Delivery.antt =====
-- What a run ends in: `_deliver_outcome`, `_handle_execution_failure`, `_send_artifact_files` and
-- `_run_execution` of backend/app/adapters/telegram/flow.py.
use ai_employee_os.Common.{
  String, ◌||◌, Option, none, some, List, [], ◌∷◌, if◌then◌else◌, ◌==◌, string_eq,
}
use ai_employee_os.Common.Text.{ends_with}
use ai_employee_os.Common.Json.{
  Json, Fields, end, field, get_field, is_truthy, value_or_null, from_text, text_of,
}
use ai_employee_os.Telegram.Models.{
  TelegramId, TelegramFlowMode, TelegramConversationState, TelegramExecutionRequest,
}
use ai_employee_os.Telegram.Store.{touched}
use ai_employee_os.Telegram.Mapper.{
  Keyboard, approval_keyboard, retry_keyboard, revision_keyboard, extract_reply_text, number_of,
}
use ai_employee_os.Telegram.Presenter.{
  extract_failure_reason, format_approval_message, format_completion_message,
  format_delivery_summary, format_error_message, format_runtime_error_message,
}
use ai_employee_os.Telegram.Progress.{
  Outcome, returned, raised, map_outcome, Sent, Transport, ask, start, dismiss,
}
use ai_employee_os.Telegram.Collaborators.{
  RunError, Executed, ended, broken, Snapshot, Collaborators,
}
use ai_employee_os.Telegram.Execution.{
  nonempty, Handled, safe_error_reason, build_runtime_payload, attach_business_client,
  execute_with_progress, message_of, trace_id_of, execution_id_of,
}

-- What the status of a run means to the dialogue
pub data Ending : Type 0 where
  waits : Ending
  fails : Ending
  completes : Ending

unfoldable pub ending_of : String → Ending
ending_of status =
    if status == "waiting_approval"
    then Ending.waits
    else if status == "execution_failed" || status == "failed" || ends_with status "_failed"
    then Ending.fails
    else Ending.completes

module _ (c : Collaborators) where
  -- `state.get(key)` of a text, and `str(state.get("status") or "")`
  abbrev pub text_at : String → Fields → Option String
  text_at key state = elim (get_field key state) [
    | some (Json.string s) ↦ some s
    | some _ ↦ none
    | none ↦ none
  ]

  unfoldable pub status_of : Fields → String
  status_of state =
      let status = get_field "status" state in
      if is_truthy status then text_of c.telegram.repr (value_or_null status) else ""

  abbrev pub tell :
      TelegramId
      → String
      → Option TelegramId
      → Option Keyboard
      → Transport
      → Outcome Fields × Transport
  tell chat_id text reply_to keyboard t =
      ask c.telegram (Sent.message chat_id text reply_to keyboard) t

  abbrev filename_of : Fields → String
  filename_of artifact =
      let name = get_field "name" artifact in
      if is_truthy name then text_of c.telegram.repr (value_or_null name) else "artifact.bin"

  -- The file of one artifact, unless there is none
  abbrev send_file :
      TelegramId → Fields → Outcome (Option String) → Transport → Outcome (Unit {0}) × Transport
  send_file chat_id artifact (raised e) t = (raised e, t)
  send_file chat_id artifact (returned file) t = elim (nonempty file) [
    | none ↦ (returned tt, t)
    | some bytes ↦
        let (result, sent) =
          ask c.telegram
            (Sent.document chat_id (filename_of artifact) bytes (get_field "mime_type" artifact))
            t in
        (map_outcome (λ _. tt) result, sent)
  ]

  abbrev and_then :
      Outcome (Unit {0}) × Transport
      → (Transport → Outcome (Unit {0}) × Transport)
      → Outcome (Unit {0}) × Transport
  and_then (raised e, t) next = (raised e, t)
  and_then (returned done, t) next = next t

  unfoldable pub send_artifact_files :
      TelegramId → List Fields → Transport → Outcome (Unit {0}) × Transport
  send_artifact_files chat_id [] t = (returned tt, t)
  send_artifact_files chat_id (artifact ∷ artifacts) t =
      and_then (send_file chat_id artifact (c.download artifact) t)
        (λ after. send_artifact_files chat_id artifacts after)

  -- `[item.get("id") for item in artifacts if item.get("id")]`
  unfoldable pub ids_of : List Fields → List String
  ids_of [] = []
  ids_of (artifact ∷ artifacts) =
      let rest = ids_of artifacts in
      let id = get_field "id" artifact in
      if is_truthy id then text_of c.telegram.repr (value_or_null id) ∷ rest else rest

  unfoldable pub handle_execution_failure :
      TelegramExecutionRequest
      → TelegramConversationState
      → Option TelegramId
      → RunError
      → Transport
      → Handled
  handle_execution_failure request convo progress_id error t =
      let failed = touched c.now (record convo { flow_mode = TelegramFlowMode.failed }) in
      let text =
        format_runtime_error_message (trace_id_of error) (execution_id_of error)
          (safe_error_reason (message_of error)) in
      let (result, sent) =
        tell request.telegram_chat_id text none (some retry_keyboard)
          (dismiss c.telegram request.telegram_chat_id progress_id t) in
      (
        map_outcome
            (λ answer. field "status" (Json.string "failed") (
              field "error" (Json.string "execution_failed") (
                field "trace_id" (from_text (trace_id_of error)) (
                  field "execution_id" (from_text (execution_id_of error))
                    (field "send_result" (Json.object answer) end)))))
            result,
        failed,
        sent,
      )

  -- The reply of a run that waits or has failed
  abbrev short_reply : Fields → String → String → Fields → Fields
  short_reply state status text result =
      field "execution_id" (value_or_null (get_field "execution_id" state)) (
        field "status" (Json.string status)
          (field "reply" (Json.string text) (field "send_result" (Json.object result) end)))

  abbrev settled_in : TelegramFlowMode → TelegramConversationState → TelegramConversationState
  settled_in mode convo = touched c.now (record convo { flow_mode = mode })

  abbrev deliver_waiting :
      TelegramExecutionRequest → TelegramConversationState → Fields → String → Transport → Handled
  deliver_waiting request convo state status t =
      let text = format_approval_message c.telegram.repr (get_field "task_plan" state) in
      let (result, sent) = tell request.telegram_chat_id text none (some approval_keyboard) t in
      (
        map_outcome (short_reply state status text) result,
        settled_in TelegramFlowMode.waiting_approval convo,
        sent,
      )

  abbrev deliver_failed :
      TelegramExecutionRequest → TelegramConversationState → Fields → String → Transport → Handled
  deliver_failed request convo state status t =
      let text = format_error_message (extract_failure_reason c.telegram.repr state) in
      let (result, sent) = tell request.telegram_chat_id text none (some retry_keyboard) t in
      (
        map_outcome (short_reply state status text) result,
        settled_in TelegramFlowMode.failed convo,
        sent,
      )

  -- The text of the last message and its buttons
  abbrev pub closing : List Fields → Fields → String → String × Option Keyboard
  closing (artifact ∷ artifacts) state status = (
    format_delivery_summary c.telegram.repr c.telegram.two_decimals (artifact ∷ artifacts) state,
    some revision_keyboard,
  )
  closing [] state status =
      if status == "completed"
      then (
        format_completion_message c.telegram.repr c.telegram.two_decimals state,
        some revision_keyboard,
      )
      else (extract_reply_text c.telegram.repr state, none)

  -- The last message, unless a file could not be sent
  abbrev pub close :
      TelegramExecutionRequest
      → TelegramConversationState
      → List Fields
      → Fields
      → String
      → Option TelegramId
      → Outcome (Unit {0}) × Transport
      → Handled
  close request done artifacts state status progress_id (raised e, t) = (raised e, done, t)
  close request done artifacts state status progress_id (returned filed, t) =
      let (text, keyboard) = closing artifacts state status in
      let (result, sent) = tell request.telegram_chat_id text none keyboard t in
      (
        map_outcome
            (λ answer. field "execution_id" (value_or_null (get_field "execution_id" state)) (
              field "trace_id" (value_or_null (get_field "trace_id" state)) (
                field "status" (Json.string status) (
                  field "reply" (Json.string text) (
                    field "workspace_id" (from_text done.workspace_id) (
                      field "send_result" (Json.object answer)
                        (field "progress_message_id" (number_of progress_id) end)))))))
            result,
        done,
        sent,
      )

  -- The conversation is COMPLETED before the artifacts are collected, and saved after.
  abbrev pub deliver_collected :
      TelegramExecutionRequest
      → TelegramConversationState
      → Fields
      → String
      → Option TelegramId
      → Outcome (List Fields)
      → Transport
      → Handled
  deliver_collected request convo state status progress_id (raised e) t =
      (raised e, record convo { flow_mode = TelegramFlowMode.completed }, t)
  deliver_collected request convo state status progress_id (returned artifacts) t =
      close request
        (settled_in TelegramFlowMode.completed (record convo { artifact_ids = ids_of artifacts }))
        artifacts state status progress_id
        (send_artifact_files request.telegram_chat_id artifacts t)

  unfoldable pub deliver_completed :
      TelegramExecutionRequest
      → TelegramConversationState
      → Fields
      → String
      → Option TelegramId
      → Transport
      → Handled
  deliver_completed request convo state status progress_id t =
      deliver_collected request convo state status progress_id (c.collect_artifacts state) t

  abbrev pub deliver :
      Ending
      → TelegramExecutionRequest
      → TelegramConversationState
      → Fields
      → String
      → Option TelegramId
      → Transport
      → Handled
  deliver Ending.waits request convo state status progress_id t =
      deliver_waiting request convo state status t
  deliver Ending.fails request convo state status progress_id t =
      deliver_failed request convo state status t
  deliver Ending.completes request convo state status progress_id t =
      deliver_completed request convo state status progress_id t

  unfoldable pub deliver_outcome :
      TelegramExecutionRequest
      → TelegramConversationState
      → Fields
      → Option TelegramId
      → Transport
      → Handled
  deliver_outcome request convo state progress_id t =
      let noted = record convo {
        last_execution_id = text_at "execution_id" state;
        last_agent_state = some state;
      } in
      let status = status_of state in
      deliver (ending_of status) request noted state status progress_id t

  abbrev pub settle :
      Executed
      → TelegramExecutionRequest
      → TelegramConversationState
      → Option TelegramId
      → Transport
      → Handled
  settle (broken error) request convo progress_id t =
      handle_execution_failure request convo progress_id error t
  settle (ended state) request convo progress_id t =
      deliver_outcome request convo state progress_id t

  -- The run, unless the progress message could not be sent: then the conversation stays RUNNING.
  abbrev pub run_started :
      TelegramExecutionRequest
      → TelegramConversationState
      → Fields
      → Fields
      → Outcome (Option TelegramId) × Transport
      → Handled
  run_started request running context metadata (raised e, t) = (raised e, running, t)
  run_started request running context metadata (returned progress_id, t) =
      let (executed, after) =
        execute_with_progress c request.user_input request.telegram_chat_id progress_id context
          metadata t in
      settle executed request (touched c.now (record running { progress_message_id = progress_id }))
        progress_id after

  unfoldable pub run_execution :
      TelegramExecutionRequest → TelegramConversationState → Snapshot → Transport → Handled
  run_execution request convo snapshot t =
      let (context, metadata) = build_runtime_payload request snapshot in
      let (named, routed) = attach_business_client c request convo context in
      let running = touched c.now (record named {
        flow_mode = TelegramFlowMode.running;
        last_user_input = some request.user_input;
      }) in
      run_started request running routed metadata
        (start c.telegram request.telegram_chat_id request.telegram_message_id t)
