-- ===== src/Telegram/Flow/Found.antt =====
-- What a message and a press do to a conversation that is stored already.
use ai_employee_os.Common.{
  ℕ, ◌≡◌, refl, Option, none, some, string_eq, arith, String, ◌⊎◌, inl, inr,
}
use ai_employee_os.Common.Dict.{lookup, insert, lookup-insert, lookup-insert_self}
use ai_employee_os.Common.Json.{Json, Fields, get_field}
use ai_employee_os.Telegram.Models.{
  TelegramId, TelegramConversationState, TelegramExecutionRequest, TelegramCallbackRequest,
}
use ai_employee_os.Telegram.Store.{ConversationStore, get_or_create, write_back}
use ai_employee_os.Telegram.Progress.{Outcome, returned, raised, map_outcome, Telegram}
use ai_employee_os.Telegram.Agent.{Refused}
use ai_employee_os.Telegram.Dialogue.{simple_reply}
use ai_employee_os.Telegram.Collaborators.{Snapshot, Collaborators}
use ai_employee_os.Telegram.Flow.{
  FlowState, Reply, handle_in, handle_message, press, handle_callback,
}

-- The status of a reply
unfoldable pub reply_status : Reply → Option Json
reply_status (returned fields) = get_field "status" fields
reply_status (raised message) = none

-- The reply has the status, or the sender has raised an exception, which leaves the handler.
abbrev pub Says : Telegram → String → Reply → Type 0
Says telegram status reply =
    (reply_status reply ≡ some (Json.string status))
    ⊎ ((e : String) × Refused telegram e × (reply ≡ raised e))

pub simple_reply-Says :
    (c : Collaborators) (status text : String) (o : Outcome Fields)
    → ((e : String) → o ≡ raised e → Refused c.telegram e)
    → Says c.telegram status (map_outcome (simple_reply c status text) o)
unfolding reply_status get_field string_eq
simple_reply-Says c status text (returned result) h = inl refl
simple_reply-Says c status text (raised e) h = inr (e, h e refl, refl)

lookup-write_back :
    (user_id : TelegramId) (convo : TelegramConversationState) (states : ConversationStore)
    → lookup user_id (write_back user_id convo states) ≡ some convo
lookup-write_back user_id convo states = ground (
  arith,
  lookup-insert user_id convo.telegram_user_id convo (insert user_id convo states),
  lookup-insert_self user_id convo states,
)

pub get_or_create-found :
    (now : ℕ) (user_id chat_id : TelegramId) (states : ConversationStore)
    (convo : TelegramConversationState)
    → lookup user_id states ≡ some convo
    → get_or_create now user_id chat_id states ≡ (convo, states)
unfolding get_or_create
get_or_create-found now user_id chat_id states convo found = rw (found, get_or_create) refl

-- The conversation as a message finds it, with the session that the user has now
abbrev pub bound : Snapshot → TelegramConversationState → TelegramConversationState
bound snapshot convo = record convo {
  workspace_id = some snapshot.workspace_id;
  session_id = snapshot.active_session_id;
}

module _ (c : Collaborators) where
  pub lookup-handle_message :
      (request : TelegramExecutionRequest) (convo : TelegramConversationState) (s : FlowState)
      → lookup request.telegram_user_id s.conversations ≡ some convo
      → let snapshot = c.resolve_session request.telegram_user_id in
        let handled = handle_in c request (bound snapshot convo) snapshot s.transport in
        (lookup request.telegram_user_id (handle_message c request s).1.conversations
          ≡ some handled.1)
        × ((handle_message c request s).0 ≡ handled.0)
        × ((handle_message c request s).1.transport ≡ handled.2)
  unfolding handle_message
  lookup-handle_message request convo s found =
      rw
        (
          get_or_create-found c.now request.telegram_user_id request.telegram_chat_id
              s.conversations convo found,
          handle_message,
        )
        (lookup-write_back request.telegram_user_id _ s.conversations, refl, refl)

  pub lookup-handle_callback :
      (request : TelegramCallbackRequest) (convo : TelegramConversationState) (s : FlowState)
      → lookup request.telegram_user_id s.conversations ≡ some convo
      → let snapshot = c.resolve_session request.telegram_user_id in
        let pressed = press c request convo snapshot s.executions s.transport in
        (lookup request.telegram_user_id (handle_callback c request s).1.conversations
          ≡ some pressed.1)
        × ((handle_callback c request s).0 ≡ pressed.0)
        × ((handle_callback c request s).1.executions ≡ pressed.2)
        × ((handle_callback c request s).1.transport ≡ pressed.3)
  unfolding handle_callback
  lookup-handle_callback request convo s found =
      rw
        (
          get_or_create-found c.now request.telegram_user_id request.telegram_chat_id
              s.conversations convo found,
          handle_callback,
        )
        (lookup-write_back request.telegram_user_id _ s.conversations, refl, refl, refl)
