-- ===== src/Telegram/Promises.antt =====
-- What a stored conversation of backend/app/adapters/telegram/conversation_store.py satisfies between
-- two updates.
use ai_employee_os.Common.{◌≡◌, sym, subst, String, Option, none, some, List, ◌∷◌, ◌⊎◌}
use ai_employee_os.Common.Json.{Fields}
use ai_employee_os.Telegram.Models.{TelegramFlowMode, TelegramConversationState}
use ai_employee_os.Telegram.Mapper.{Keyboard, approval_keyboard, retry_keyboard, revision_keyboard}
use ai_employee_os.Telegram.Progress.{Outcome, returned, raised, map_outcome, Sent, Telegram}
use ai_employee_os.Telegram.Execution.{Handled}
use ai_employee_os.Telegram.Agent.{Refused}

abbrev pub IsSome {ℓ} : {A : Type ℓ} → Option A → Type 0
IsSome none = ⊥
IsSome (some a) = Unit

abbrev pub IsNone {ℓ} : {A : Type ℓ} → Option A → Type 0
IsNone none = Unit
IsNone (some a) = ⊥

-- What a mode promises, where `R` is why a conversation may be RUNNING with no run under way
abbrev pub Promises : Type 0 → TelegramFlowMode → TelegramConversationState → Type 0
Promises R TelegramFlowMode.running convo = R × IsSome convo.last_user_input
Promises R TelegramFlowMode.waiting_approval convo =
    IsSome convo.last_agent_state × IsSome convo.last_user_input
Promises R TelegramFlowMode.revision_prompted convo = IsSome convo.revision_prompted_at
Promises R TelegramFlowMode.pending_clarification convo =
    IsSome convo.pending_clarification × IsNone convo.last_agent_state
Promises R _ convo = Unit

abbrev pub IsAtRest : Type 0 → TelegramConversationState → Type 0
IsAtRest R convo = Promises R convo.flow_mode convo

pub Promises-map :
    {R S : Type 0}
    → (R → S)
    → (mode : TelegramFlowMode) (convo : TelegramConversationState) → Promises R mode convo
    → Promises S mode convo
Promises-map f TelegramFlowMode.idle convo h = h
Promises-map f TelegramFlowMode.running convo (why, input) = (f why, input)
Promises-map f TelegramFlowMode.waiting_approval convo h = h
Promises-map f TelegramFlowMode.revision_prompted convo h = h
Promises-map f TelegramFlowMode.pending_clarification convo h = h
Promises-map f TelegramFlowMode.completed convo h = h
Promises-map f TelegramFlowMode.failed convo h = h
Promises-map f TelegramFlowMode.cancelled convo h = h

-- The sender has raised an exception.
abbrev pub HasRefused : Telegram → Type 0
HasRefused telegram = (e : String) × Refused telegram e

-- The buttons of the newest message
abbrev pub offered : List Sent → Option Keyboard
offered (Sent.message chat_id text reply_to keyboard ∷ sent) = keyboard
offered _ = none

-- The buttons that fit the mode that a run ends in
abbrev pub Fits : TelegramFlowMode → Option Keyboard → Type 0
Fits TelegramFlowMode.waiting_approval keyboard = keyboard ≡ some approval_keyboard
Fits TelegramFlowMode.failed keyboard = keyboard ≡ some retry_keyboard
Fits TelegramFlowMode.completed keyboard = (keyboard ≡ some revision_keyboard) ⊎ (keyboard ≡ none)
Fits _ keyboard = ⊥

-- The buttons of a handler that has returned
abbrev pub FitsReply : Outcome Fields → TelegramFlowMode → Option Keyboard → Type 0
FitsReply (raised e) mode keyboard = Unit
FitsReply (returned reply) mode keyboard = Fits mode keyboard

pub map_outcome-FitsReply {ℓ} :
    {A : Type ℓ} (f : A → Fields) (o : Outcome A) (mode : TelegramFlowMode)
    (keyboard : Option Keyboard)
    → Fits mode keyboard
    → FitsReply (map_outcome f o) mode keyboard
map_outcome-FitsReply f (returned a) mode keyboard h = h
map_outcome-FitsReply f (raised e) mode keyboard h = tt

-- What a run leaves, whatever Telegram answers: whose conversation it is, the input, and where it
-- returns, the buttons that fit the mode
pub record Settles (telegram : Telegram) (before : TelegramConversationState) (input : String)
    (h : Handled) : Type 0 where
  pub user : h.1.telegram_user_id ≡ before.telegram_user_id
  pub input_kept : h.1.last_user_input ≡ some input
  pub pending : h.1.pending_clarification ≡ before.pending_clarification
  pub rest : IsAtRest (HasRefused telegram) h.1
  pub fits : FitsReply h.0 h.1.flow_mode (offered h.2.sent)

pub IsSome-eq {ℓ} : {A : Type ℓ} {o : Option A} {a : A} → o ≡ some a → IsSome o
IsSome-eq h = subst (λ o. IsSome o) (sym h) tt
