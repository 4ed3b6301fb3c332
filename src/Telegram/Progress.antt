-- ===== src/Telegram/Progress.antt =====
-- `TelegramProgressMessenger` of backend/app/adapters/telegram/progress.py, over what the bot has
-- sent. `answer` is what the sender returns for a message after those before it, or the exception that
-- it raises where Telegram refuses it or is not reached; `monotonic` the n-th reading of the clock
-- and `min_interval` the seconds of the throttle in the clock's unit.
pub mod Throttle
use ai_employee_os.Common.{
  ℕ, suc, ◌-◌, String, Bool, true, not, ◌&&◌, Option, none, some, List, ◌∷◌, if◌then◌else◌, ltb,
  string_eq,
}
use ai_employee_os.Common.Dict.{Dict, lookup, insert}
use ai_employee_os.Common.Json.{Json, Fields, get_field, fields_of, text_of}
use ai_employee_os.Telegram.Models.{TelegramId}
use ai_employee_os.Telegram.Mapper.{Keyboard}
use ai_employee_os.Telegram.Presenter.{format_progress_header, format_telegram_progress}

-- A call's value, or the text of the exception that it raises
pub data Outcome {ℓ} (A : Type ℓ) : Type ℓ where
  returned : A → Outcome A
  raised : String → Outcome A

abbrev pub map_outcome {ℓ κ} : {A : Type ℓ} {B : Type κ} → (A → B) → Outcome A → Outcome B
map_outcome f (returned a) = returned (f a)
map_outcome f (raised e) = raised e

-- What the bot asks of Telegram
pub data Sent : Type 0 where
  message :
      (chat_id : TelegramId) (text : String) (reply_to : Option TelegramId)
      (reply_markup : Option Keyboard)
      → Sent
  edit : (chat_id : TelegramId) (message_id : TelegramId) (text : String) → Sent
  document :
      (chat_id : TelegramId) (filename : String) (file : String) (mime_type : Option Json) → Sent

-- The newest message first, the refused ones too; the edits of the progress messages, and the clock's readings so far.
pub record Transport : Type 0 where
  pub sent : List Sent
  pub last_sent_at : Dict TelegramId ℕ
  pub readings : ℕ

pub record Telegram : Type 0 where
  pub answer : List Sent → Sent → Outcome Fields
  pub monotonic : ℕ → ℕ
  pub min_interval : ℕ
  pub repr : Json → String
  pub two_decimals : Json → String

abbrev given : Option Json → Option Json
given none = none
given (some Json.null) = none
given (some value) = some value

-- `int(value)` of an id, which is a number
unfoldable pub extract_message_id : (Json → String) → Fields → Option TelegramId
extract_message_id repr result =
    elim (given (get_field "message_id" (fields_of (get_field "result" result)))) [
      | some id ↦ some (text_of repr id)
      | none ↦ elim (given (get_field "message_id" result)) [
        | some id ↦ some (text_of repr id)
        | none ↦ none
      ]
    ]

abbrev pub or_zero : Option ℕ → ℕ
or_zero none = 0
or_zero (some n) = n

abbrev pub or_same : Option TelegramId → TelegramId → TelegramId
or_same none id = id
or_same (some new) id = new

module _ (telegram : Telegram) where
  abbrev pub ask : Sent → Transport → Outcome Fields × Transport
  ask request t = (telegram.answer t.sent request, record t { sent = request ∷ t.sent })

  abbrev pub noted : Option TelegramId → ℕ → Transport → Transport
  noted none at t = t
  noted (some id) at t = record t { last_sent_at = insert id at t.last_sent_at }

  abbrev pub header : TelegramId → Option TelegramId → Sent
  header chat_id reply_to = Sent.message chat_id format_progress_header reply_to none

  abbrev pub started_as : Outcome Fields → Transport → Outcome (Option TelegramId) × Transport
  started_as (raised e) t = (raised e, t)
  started_as (returned result) t =
      let id = extract_message_id telegram.repr result in (returned id, noted id 0 t)

  unfoldable pub start :
      TelegramId → Option TelegramId → Transport → Outcome (Option TelegramId) × Transport
  start chat_id reply_to t =
      let (result, asked) = ask (header chat_id reply_to) t in started_as result asked

  abbrev pub edited_as :
      TelegramId → ℕ → Outcome Fields → Transport → Outcome TelegramId × Transport
  edited_as id now (raised e) t = (raised e, t)
  edited_as id now (returned result) t =
      (returned (or_same (extract_message_id telegram.repr result) id), noted (some id) now t)

  -- The edit of a message that has an id, unless the throttle holds it back
  unfoldable pub edit_progress :
      TelegramId → TelegramId → Option Json → Bool → Transport → Outcome TelegramId × Transport
  edit_progress chat_id id progress final t =
      let now = telegram.monotonic t.readings in
      let read = record t { readings = suc t.readings } in
      let last = or_zero (lookup id t.last_sent_at) in
      let (result, asked) =
        ask (Sent.edit chat_id id (format_telegram_progress telegram.repr progress)) read in
      if not final && ltb (now - last) telegram.min_interval
      then (returned id, read)
      else edited_as id now result asked

  abbrev pub edit_started :
      TelegramId
      → Option Json
      → Bool
      → Outcome (Option TelegramId) × Transport
      → Outcome (Option TelegramId) × Transport
  edit_started chat_id progress final (raised e, t) = (raised e, t)
  edit_started chat_id progress final (returned none, t) = (returned none, t)
  edit_started chat_id progress final (returned (some id), t) =
      let (same, after) = edit_progress chat_id id progress final t in
      (map_outcome (λ new. some new) same, after)

  unfoldable pub maybe_update :
      TelegramId
      → Option TelegramId
      → Option Json
      → Bool
      → Transport
      → Outcome (Option TelegramId) × Transport
  maybe_update chat_id none progress final t =
      edit_started chat_id progress final (start chat_id none t)
  maybe_update chat_id (some id) progress final t =
      edit_started chat_id progress final (returned (some id), t)

  unfoldable pub finalize :
      TelegramId → Option TelegramId → Option Json → Transport → Outcome (Unit {0}) × Transport
  finalize chat_id none progress t = (returned tt, t)
  finalize chat_id (some id) progress t =
      let (edited, after) = maybe_update chat_id (some id) progress true t in
      (map_outcome (λ _. tt) edited, after)

  -- The exception of the last edit is swallowed.
  unfoldable pub dismiss : TelegramId → Option TelegramId → Transport → Transport
  dismiss chat_id none t = t
  dismiss chat_id (some id) t = (ask (Sent.edit chat_id id "⚠\u{fe0f} Задача прервана") t).1
