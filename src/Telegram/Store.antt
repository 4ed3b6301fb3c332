-- ===== src/Telegram/Store.antt =====
-- `TelegramConversationStore` of backend/app/adapters/telegram/conversation_store.py.
use ai_employee_os.Common.{ℕ, Option, none, some, string_eq}
use ai_employee_os.Common.Dict.{Dict, lookup, insert}
use ai_employee_os.Telegram.Models.{
  TelegramId, TelegramFlowMode, TelegramConversationState, new_conversation,
}

abbrev pub ConversationStore : Type 0
ConversationStore = Dict TelegramId TelegramConversationState

unfoldable pub get : TelegramId → ConversationStore → Option TelegramConversationState
get user_id states = lookup user_id states

unfoldable pub get_or_create :
    ℕ → TelegramId → TelegramId → ConversationStore → TelegramConversationState × ConversationStore
get_or_create now user_id chat_id states = elim (lookup user_id states) [
  | some existing ↦ (existing, states)
  | none ↦ let state = new_conversation now user_id chat_id in (state, insert user_id state states)
]

-- What `save` does to the state, which is the stored one
abbrev pub touched : ℕ → TelegramConversationState → TelegramConversationState
touched now state = record state { updated_at = now }

unfoldable pub save : ℕ → TelegramConversationState → ConversationStore → ConversationStore
save now state states = insert state.telegram_user_id (touched now state) states

-- What a handler leaves: it has changed the object that is stored under the key, and saved it under
-- the user's id that the object itself has.
abbrev pub write_back :
    TelegramId → TelegramConversationState → ConversationStore → ConversationStore
write_back user_id new states = insert new.telegram_user_id new (insert user_id new states)

unfoldable pub clear_flow : ℕ → TelegramId → ConversationStore → ConversationStore
clear_flow now user_id states = elim (lookup user_id states) [
  | none ↦ states
  | some state ↦
      save now
        (record state {
          flow_mode = TelegramFlowMode.idle;
          progress_message_id = none;
          revision_prompted_at = none;
        })
        states
]
