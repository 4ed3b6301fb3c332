-- ===== src/Telegram/Dispatcher/Isolation.antt =====
-- An update is felt by the conversation of its own user alone.
use ai_employee_os.Common.{
  ◌≡◌, refl, ◌∙◌, sym, subst, false, Option, none, some, List, [], ◌∷◌, All, arith, ◌==◌, string_eq,
  ℕ, option-by, option-both,
}
use ai_employee_os.Common.Dict.{lookup, insert, lookup-insert}
use ai_employee_os.Telegram.Models.{
  TelegramId, TelegramConversationState, TelegramUpdate, TelegramMessage, TelegramCallbackQuery,
  TelegramExecutionRequest, TelegramCallbackRequest,
}
use ai_employee_os.Telegram.Store.{ConversationStore, get_or_create, write_back}
use ai_employee_os.Telegram.Mapper.{nonempty, parse_callback_action, map_callback, map_update}
use ai_employee_os.Telegram.Collaborators.{Collaborators}
use ai_employee_os.Telegram.Flow.{FlowState, handle_callback, handle_message}
use ai_employee_os.Telegram.Flow.Keeping.{bound-Promises, handle_in-Keeps, press-Keeps}
use ai_employee_os.Telegram.Dispatcher.{dispatch, dispatch_either, after_updates}
use ai_employee_os.Telegram.Dispatcher.Conversations.{
  AllKept, get_or_create-IsKept, dispatch_either-AllKept,
}

abbrev pub IsOther : TelegramId → TelegramId → Type 0
IsOther user_id other = (user_id == other) ≡ false

-- Who wrote a message, which of a channel has no author but the chat, and who pressed a button
abbrev pub IsWrittenByOther : TelegramId → Option TelegramMessage → Type 0
IsWrittenByOther user_id none = Unit
IsWrittenByOther user_id (some message) =
    IsOther user_id (elim message.from_user [ none ↦ message.chat.id | some user ↦ user.id ])

abbrev pub IsPressedByOther : TelegramId → Option TelegramCallbackQuery → Type 0
IsPressedByOther user_id none = Unit
IsPressedByOther user_id (some callback) = IsOther user_id callback.from_user.id

data IsRequestOfOther (user_id : TelegramId) : Option TelegramExecutionRequest → Type 0 where
  no_request : IsRequestOfOther user_id none
  request_of_other :
      {request : TelegramExecutionRequest}
      → IsOther user_id request.telegram_user_id
      → IsRequestOfOther user_id (some request)

data IsCallbackOfOther (user_id : TelegramId) : Option TelegramCallbackRequest → Type 0 where
  no_callback : IsCallbackOfOther user_id none
  callback_of_other :
      {request : TelegramCallbackRequest}
      → IsOther user_id request.telegram_user_id
      → IsCallbackOfOther user_id (some request)

map_update-IsRequestOfOther :
    (user_id : TelegramId) (update : TelegramUpdate)
    → IsWrittenByOther user_id update.message
    → IsRequestOfOther user_id (map_update update)
unfolding map_update
map_update-IsRequestOfOther user_id update h =
    option-by (IsRequestOfOther user_id) update.message (λ _. no_request)
      (λ message given.
        option-both (IsRequestOfOther user_id) _ no_request
          (λ text. request_of_other (subst (λ m. IsWrittenByOther user_id m) given h)))

map_callback-IsCallbackOfOther :
    (user_id : TelegramId) (update : TelegramUpdate)
    → IsPressedByOther user_id update.callback_query
    → IsCallbackOfOther user_id (map_callback update)
unfolding map_callback
map_callback-IsCallbackOfOther user_id update h =
    option-by (IsCallbackOfOther user_id) update.callback_query (λ _. no_callback)
      (λ callback given.
        option-both (λ o. IsCallbackOfOther user_id o) (nonempty callback.payload) no_callback
          (λ raw.
            option-both (λ o. IsCallbackOfOther user_id o) (parse_callback_action raw) no_callback
              (λ action. callback_of_other (subst (λ q. IsPressedByOther user_id q) given h))))

lookup-insert_other :
    (user_id other : TelegramId) (convo : TelegramConversationState) (states : ConversationStore)
    → IsOther user_id other
    → lookup user_id (insert other convo states) ≡ lookup user_id states
lookup-insert_other user_id other convo states h =
    ground (arith, lookup-insert user_id other convo states)

lookup-get_or_create :
    (now : ℕ) (user_id other chat_id : TelegramId) (states : ConversationStore)
    → IsOther user_id other
    → lookup user_id (get_or_create now other chat_id states).1 ≡ lookup user_id states
unfolding get_or_create
lookup-get_or_create now user_id other chat_id states h =
    option-by
      (λ (x : TelegramConversationState × ConversationStore).
        lookup user_id x.1 ≡ lookup user_id states)
      (lookup other states) (λ _. lookup-insert_other user_id other _ states h) (λ convo _. refl)

-- What is written back of another user's conversation, which has that user's id
lookup-write_back_other :
    (user_id other : TelegramId) (convo : TelegramConversationState) (states : ConversationStore)
    → IsOther user_id other
    → convo.telegram_user_id ≡ other
    → lookup user_id (write_back other convo states) ≡ lookup user_id states
lookup-write_back_other user_id other convo states h mine =
    lookup-insert_other user_id convo.telegram_user_id convo _
      (subst (λ k. IsOther user_id k) (sym mine) h)
    ∙ lookup-insert_other user_id other convo states h

abbrev IsWhole : FlowState → Type 0
IsWhole s = AllKept (Unit {0}) s

handle_message-other :
    (c : Collaborators) (user_id : TelegramId) (request : TelegramExecutionRequest) (s : FlowState)
    → IsWhole s
    → IsOther user_id request.telegram_user_id
    → lookup user_id (handle_message c request s).1.conversations ≡ lookup user_id s.conversations
unfolding handle_message
handle_message-other c user_id request s whole h =
    let found =
      (get_or_create c.now request.telegram_user_id request.telegram_chat_id s.conversations).0 in
    let ((mine, rest), stored) =
      get_or_create-IsKept (Unit {0}) c.now request.telegram_user_id request.telegram_chat_id
        s.conversations whole in
    let snapshot = c.resolve_session request.telegram_user_id in
    let (user, still) =
      handle_in-Keeps (Unit {0}) c (λ _. tt) request _ snapshot s.transport
        (bound-Promises (Unit {0}) found.flow_mode found (some snapshot.workspace_id)
          snapshot.active_session_id rest) in
    lookup-write_back_other user_id request.telegram_user_id _ _ h (user ∙ mine)
    ∙ lookup-get_or_create c.now user_id _ request.telegram_chat_id s.conversations h

handle_callback-other :
    (c : Collaborators) (user_id : TelegramId) (request : TelegramCallbackRequest) (s : FlowState)
    → IsWhole s
    → IsOther user_id request.telegram_user_id
    → lookup user_id (handle_callback c request s).1.conversations ≡ lookup user_id s.conversations
unfolding handle_callback
handle_callback-other c user_id request s whole h =
    let ((mine, rest), stored) =
      get_or_create-IsKept (Unit {0}) c.now request.telegram_user_id request.telegram_chat_id
        s.conversations whole in
    let (user, still) =
      press-Keeps (Unit {0}) c (λ _. tt) request _ (c.resolve_session request.telegram_user_id)
        s.executions s.transport rest in
    lookup-write_back_other user_id request.telegram_user_id _ _ h (user ∙ mine)
    ∙ lookup-get_or_create c.now user_id _ request.telegram_chat_id s.conversations h

dispatch_either-other :
    (c : Collaborators) (user_id : TelegramId) (callback : Option TelegramCallbackRequest)
    (message : Option TelegramExecutionRequest) (s : FlowState)
    → IsWhole s
    → IsCallbackOfOther user_id callback
    → IsRequestOfOther user_id message
    → lookup user_id (dispatch_either c callback message s).1.conversations
      ≡ lookup user_id s.conversations
dispatch_either-other c user_id none none s whole h g = refl
dispatch_either-other c user_id none (some request) s whole h (request_of_other g) =
    handle_message-other c user_id request s whole g
dispatch_either-other c user_id (some callback) message s whole (callback_of_other h) g =
    handle_callback-other c user_id callback s whole h

-- Where each stored conversation is its user's and keeps the promise of its mode, updates in which
-- no message is written and no button pressed by a user leave the user's conversation as it is. The
-- author of a message without one is its chat.
pub lookup-after_updates :
    (user_id : TelegramId) (updates : List (Collaborators × TelegramUpdate)) (s : FlowState)
    → AllKept (Unit {0}) s
    → All
        (λ (_, update).
          IsWrittenByOther user_id update.message × IsPressedByOther user_id update.callback_query)
        updates
    → lookup user_id (after_updates updates s).conversations ≡ lookup user_id s.conversations
unfolding after_updates dispatch
lookup-after_updates user_id [] s whole own = refl
lookup-after_updates user_id ((c, update) ∷ updates) s whole ((written, pressed), others) =
    lookup-after_updates user_id updates _
      (dispatch_either-AllKept (Unit {0}) c (λ _. tt) (map_callback update) (map_update update) s
        whole)
      others
    ∙ dispatch_either-other c user_id (map_callback update) (map_update update) s whole
        (map_callback-IsCallbackOfOther user_id update pressed)
        (map_update-IsRequestOfOther user_id update written)
