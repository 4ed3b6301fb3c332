-- ===== src/Telegram/Dispatcher/Conversations.antt =====
-- Whatever updates come in: each stored conversation is its user's and at rest, and an update is
-- felt by its own user's conversation alone.
use ai_employee_os.Common.{
  ◌≡◌, refl, ◌∙◌, Option, none, some, List, [], ◌∷◌, All, Option-cases, inl, inr, string_eq, ℕ,
}
use ai_employee_os.Common.Dict.{lookup, All-insert, All-lookup}
use ai_employee_os.Telegram.Models.{
  TelegramId, TelegramConversationState, TelegramUpdate, TelegramExecutionRequest,
  TelegramCallbackRequest,
}
use ai_employee_os.Telegram.Store.{ConversationStore, get_or_create, write_back}
use ai_employee_os.Telegram.Mapper.{map_callback, map_update}
use ai_employee_os.Telegram.Collaborators.{Collaborators}
use ai_employee_os.Telegram.Promises.{IsAtRest, HasRefused}
use ai_employee_os.Telegram.Flow.{FlowState, handle_callback, handle_message}
use ai_employee_os.Telegram.Dispatcher.{dispatch, dispatch_either, after_updates}
use ai_employee_os.Telegram.Flow.Keeping.{bound-Promises, handle_in-Keeps, press-Keeps}

abbrev pub IsKept : Type 0 → TelegramId × TelegramConversationState → Type 0
IsKept R (user_id, convo) = (convo.telegram_user_id ≡ user_id) × IsAtRest R convo

abbrev pub AllKept : Type 0 → FlowState → Type 0
AllKept R s = All (IsKept R) s.conversations

-- The conversation that a handler gets, and the store that it is in
pub get_or_create-IsKept :
    (R : Type 0) (now : ℕ) (user_id chat_id : TelegramId) (states : ConversationStore)
    → All (IsKept R) states
    → IsKept R (user_id, (get_or_create now user_id chat_id states).0)
      × All (IsKept R) (get_or_create now user_id chat_id states).1
unfolding get_or_create
get_or_create-IsKept R now user_id chat_id states h = elim (Option-cases (lookup user_id states)) [
  | inl missing ↦
      rw (missing, get_or_create) ((refl, tt), All-insert (IsKept R) user_id _ states (refl, tt) h)
  | inr (convo, found) ↦
      rw (found, get_or_create) (All-lookup (IsKept R) user_id convo states h found, h)
]

write_back-AllKept :
    (R : Type 0) (user_id : TelegramId) (convo : TelegramConversationState)
    (states : ConversationStore)
    → IsKept R (user_id, convo)
    → All (IsKept R) states
    → All (IsKept R) (write_back user_id convo states)
write_back-AllKept R user_id convo states (mine, rest) h =
    All-insert (IsKept R) convo.telegram_user_id convo _ (refl, rest)
      (All-insert (IsKept R) user_id convo states (mine, rest) h)

pub handle_message-AllKept :
    (R : Type 0) (c : Collaborators) (why : HasRefused c.telegram → R)
    (request : TelegramExecutionRequest) (s : FlowState)
    → AllKept R s
    → AllKept R (handle_message c request s).1
unfolding handle_message
handle_message-AllKept R c why request s h =
    let found =
      (get_or_create c.now request.telegram_user_id request.telegram_chat_id s.conversations).0 in
    let ((mine, rest), stored) =
      get_or_create-IsKept R c.now request.telegram_user_id request.telegram_chat_id s.conversations
        h in
    let snapshot = c.resolve_session request.telegram_user_id in
    let (user, still) = handle_in-Keeps R c why request _ snapshot s.transport (
      bound-Promises R found.flow_mode found (some snapshot.workspace_id) snapshot.active_session_id
        rest) in
    write_back-AllKept R request.telegram_user_id _ _ (user ∙ mine, still) stored

pub handle_callback-AllKept :
    (R : Type 0) (c : Collaborators) (why : HasRefused c.telegram → R)
    (request : TelegramCallbackRequest) (s : FlowState)
    → AllKept R s
    → AllKept R (handle_callback c request s).1
unfolding handle_callback
handle_callback-AllKept R c why request s h =
    let ((mine, rest), stored) =
      get_or_create-IsKept R c.now request.telegram_user_id request.telegram_chat_id s.conversations
        h in
    let (user, still) =
      press-Keeps R c why request _ (c.resolve_session request.telegram_user_id) s.executions
        s.transport rest in
    write_back-AllKept R request.telegram_user_id _ _ (user ∙ mine, still) stored

pub dispatch_either-AllKept :
    (R : Type 0) (c : Collaborators) (why : HasRefused c.telegram → R)
    (callback : Option TelegramCallbackRequest) (message : Option TelegramExecutionRequest)
    (s : FlowState)
    → AllKept R s
    → AllKept R (dispatch_either c callback message s).1
dispatch_either-AllKept R c why none none s h = h
dispatch_either-AllKept R c why none (some request) s h = handle_message-AllKept R c why request s h
dispatch_either-AllKept R c why (some callback) message s h =
    handle_callback-AllKept R c why callback s h

-- After any updates on a store in which each conversation is kept under its user's id and keeps the
-- promise of its mode, each does so again: where it waits for an approval it has a result and the
-- input to run again; where a revision is prompted it says since when; where a question is pending
-- it has the question and no result; and where it is RUNNING it has the input to run again, and the
-- sender has raised an exception, which is what R follows from: none is RUNNING otherwise.
pub after_updates-AllKept :
    (R : Type 0) (updates : List (Collaborators × TelegramUpdate)) (s : FlowState)
    → All (λ (c, _). HasRefused c.telegram → R) updates
    → AllKept R s
    → AllKept R (after_updates updates s)
unfolding after_updates dispatch
after_updates-AllKept R [] s why h = h
after_updates-AllKept R ((c, update) ∷ updates) s (why, others) h =
    after_updates-AllKept R updates _ others
      (dispatch_either-AllKept R c why (map_callback update) (map_update update) s h)
