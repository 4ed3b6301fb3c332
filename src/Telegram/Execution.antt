-- ===== src/Telegram/Execution.antt =====
-- A run of the agent for a user: `_run_execution` of backend/app/adapters/telegram/flow.py with what
-- it calls. The conversation is the stored object, so each handler returns what becomes of it.
use text.Mathlib.Text.{starts_with}
use ai_employee_os.Common.{
  String, false, Option, none, some, List, [], ◌∷◌, if◌then◌else◌, ◌==◌, string_eq,
}
use ai_employee_os.Common.Text.{occurs_in, after_mark}
use ai_employee_os.Common.Json.{
  Json, Fields, end, field, get_field, set_field, update_fields, is_truthy, value_or_null,
  from_text, text_of,
}
use ai_employee_os.Telegram.Models.{TelegramId, TelegramConversationState, TelegramExecutionRequest}
use ai_employee_os.Telegram.Progress.{
  Outcome, returned, raised, map_outcome, Transport, maybe_update, finalize,
}
use ai_employee_os.Telegram.Collaborators.{
  RunError, graph_error, other_error, Executed, ended, broken, Snapshot, BusinessClient,
  Collaborators,
}

-- `if item:` of a text
abbrev pub nonempty : Option String → Option String
nonempty none = none
nonempty (some s) = if s == "" then none else some s

-- `str(exc)` and the ids of an exception, as `_run_execution` passes them on
abbrev pub message_of : RunError → String
message_of (graph_error message trace_id execution_id) = message
message_of (other_error message) = message

abbrev pub trace_id_of : RunError → Option String
trace_id_of (graph_error message trace_id execution_id) = trace_id
trace_id_of (other_error message) = none

abbrev pub execution_id_of : RunError → Option String
execution_id_of (graph_error message trace_id execution_id) = execution_id
execution_id_of (other_error message) = none

-- The reply to the caller or the exception that leaves the handler, the conversation and what has
-- been sent
abbrev pub Handled : Type 0
Handled = Outcome Fields × TelegramConversationState × Transport

unfoldable pub safe_error_reason : String → Option String
safe_error_reason message =
    let tail = after_mark ": " message in
    if message == ""
    then none
    else if occurs_in "traceback" message
    then none
    else if starts_with message "Workflow "
    then (if tail == "" then some message else some tail)
    else some message

unfoldable pub merge_state : Option Fields → Fields → Fields
merge_state none update = update_fields end update
merge_state (some current) update = update_fields current update

-- `metadata["active_artifact_id"] = …`, if there is one
abbrev with_artifact : Option String → Fields → Fields
with_artifact none metadata = metadata
with_artifact (some id) metadata = set_field "active_artifact_id" (Json.string id) metadata

unfoldable pub build_runtime_payload : TelegramExecutionRequest → Snapshot → Fields × Fields
build_runtime_payload request snapshot = (
  update_fields request.context (
      field "client_id" (Json.string snapshot.client_id) (
        field "workspace_id" (Json.string snapshot.workspace_id) (
          field "project_id" (from_text snapshot.active_project_id)
            (field "channel" (Json.string "telegram") end)))),
  with_artifact (nonempty snapshot.active_artifact_id) (
      update_fields request.metadata (
        field "client_id" (Json.string snapshot.client_id) (
          field "workspace_id" (Json.string snapshot.workspace_id) (
            field "session_id" (from_text snapshot.active_session_id)
              (field "source" (Json.string "telegram") end))))),
)

abbrev with_project : Option String → Fields → Fields
with_project none context = context
with_project (some id) context = set_field "project_id" (Json.string id) context

-- The run is for the business client, and the conversation names it.
unfoldable pub attach :
    BusinessClient → TelegramConversationState → Fields → TelegramConversationState × Fields
attach resolved convo context = (
  record convo {
    business_client_id = some resolved.client_id;
    business_client_name = some resolved.name;
  },
  with_project resolved.project_id (
      set_field "client_name" (Json.string resolved.name) (
        set_field "business_client_id" (Json.string resolved.client_id)
          (set_field "client_id" (Json.string resolved.client_id) context))),
)

module _ (c : Collaborators) where
  abbrev repr : Json → String
  repr = c.telegram.repr

  abbrev attach_resolved :
      Outcome (Option BusinessClient)
      → TelegramConversationState
      → Fields
      → TelegramConversationState × Fields
  attach_resolved (returned (some resolved)) convo context = attach resolved convo context
  attach_resolved _ convo context = (convo, context)

  abbrev trace_of : Fields → String
  trace_of metadata =
      let value = get_field "trace_id" metadata in
      if is_truthy value then text_of repr (value_or_null value) else "-"

  unfoldable pub attach_business_client :
      TelegramExecutionRequest
      → TelegramConversationState
      → Fields
      → TelegramConversationState × Fields
  attach_business_client request convo context = elim c.resolve_client [
    | none ↦ (convo, context)
    | some resolve ↦
        attach_resolved (resolve request.user_input (trace_of request.metadata)) convo context
  ]

  -- What the loop over the events carries along: the id of the progress message, the last progress
  -- and the state merged so far, or the exception of an edit that ends the loop
  abbrev pub Streaming : Type 0
  Streaming = Outcome (Option TelegramId × Option Json × Option Fields) × Transport

  unfoldable pub take_update : TelegramId → Json → Streaming → Streaming
  take_update chat_id (Json.object update) (returned (id, last, state), t) =
      let progress = get_field "telegram_progress" update in
      let (new_id, sent) = maybe_update c.telegram chat_id id progress false t in
      if is_truthy progress
      then (map_outcome (λ new. (new, progress, some (merge_state state update))) new_id, sent)
      else (returned (id, last, some (merge_state state update)), t)
  take_update chat_id _ streaming = streaming

  abbrev pub take_updates : TelegramId → Fields → Streaming → Streaming
  take_updates chat_id end streaming = streaming
  take_updates chat_id (field node update rest) streaming =
      take_updates chat_id rest (take_update chat_id update streaming)

  abbrev pub take_events : TelegramId → List Json → Streaming → Streaming
  take_events chat_id [] streaming = streaming
  take_events chat_id (Json.object updates ∷ events) streaming =
      take_events chat_id events (take_updates chat_id updates streaming)
  take_events chat_id (_ ∷ events) streaming = take_events chat_id events streaming

  -- An exception of the last edit ends the run too.
  abbrev pub finalized : Fields → Outcome (Unit {0}) × Transport → Executed × Transport
  finalized state (returned done, t) = (ended state, t)
  finalized state (raised e, t) = (broken (other_error e), t)

  abbrev pub finish_executed :
      TelegramId → Option TelegramId → Executed → Transport → Executed × Transport
  finish_executed chat_id id (broken error) t = (broken error, t)
  finish_executed chat_id id (ended state) t =
      finalized state (finalize c.telegram chat_id id (get_field "telegram_progress" state) t)

  -- The end of the stream: its exception, the state that the events add up to, or a run without a
  -- stream
  unfoldable pub finish_stream :
      TelegramId → String → Fields → Fields → Option RunError → Streaming → Executed × Transport
  finish_stream chat_id input context metadata failure (raised e, t) = (broken (other_error e), t)
  finish_stream chat_id input context metadata (some error) (returned (id, last, state), t) =
      (broken error, t)
  finish_stream chat_id input context metadata none (returned (id, last, some state), t) =
      finalized state (finalize c.telegram chat_id id last t)
  finish_stream chat_id input context metadata none (returned (id, last, none), t) =
      finish_executed chat_id id (c.execute input context metadata) t

  unfoldable pub execute_with_progress :
      String → TelegramId → Option TelegramId → Fields → Fields → Transport → Executed × Transport
  execute_with_progress input chat_id id context metadata t =
      let run = c.stream input context metadata in
      finish_stream chat_id input context metadata run.failure
        (take_events chat_id run.events (returned (id, none, none), t))
