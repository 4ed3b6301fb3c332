-- ===== src/Telegram/Mapper.antt =====
-- `TelegramMapper` of backend/app/adapters/telegram/mapper.py, and the buttons whose presses it
-- reads: backend/app/adapters/telegram/keyboard.py.
use text.Mathlib.Text.{starts_with}
use ai_employee_os.Common.{
  String, Option, none, some, List, [], ◌∷◌, ◌&&◌, if◌then◌else◌, contains, ◌==◌, string_eq,
}
use ai_employee_os.Common.Text.{after_mark}
use ai_employee_os.Common.Json.{
  Json, Fields, end, field, get_field, is_truthy, fields_of, from_text, text_of,
}
use ai_employee_os.Telegram.Models.{
  TelegramId, TelegramUser, TelegramMessage, TelegramUpdate, TelegramCallbackQuery,
  TelegramExecutionRequest, TelegramCallbackRequest,
}

-- A row of buttons: the text of each and its callback data
abbrev pub Keyboard : Type 0
Keyboard = List (List (String × String))

abbrev pub approval_keyboard : Keyboard
approval_keyboard = (("✅ Начать", "tg:approve") ∷ ("❌ Отмена", "tg:cancel") ∷ []) ∷ []

abbrev pub revision_keyboard : Keyboard
revision_keyboard = (("🔄 Переделать", "tg:revise") ∷ []) ∷ []

abbrev pub retry_keyboard : Keyboard
retry_keyboard = (("🔁 Попробовать снова", "tg:retry") ∷ []) ∷ []

abbrev pub number_of : Option TelegramId → Json
number_of none = Json.null
number_of (some id) = Json.number id

abbrev pub nonempty : Option String → Option String
nonempty none = none
nonempty (some s) = if s == "" then none else some s

-- `user.id if user is not None else message.chat.id`
abbrev user_id_of : TelegramMessage → TelegramId
user_id_of message = elim message.from_user [ none ↦ message.chat.id | some user ↦ user.id ]

abbrev username_of : Option TelegramUser → Option String
username_of none = none
username_of (some user) = user.username

abbrev request_of : TelegramUpdate → TelegramMessage → String → TelegramExecutionRequest
request_of update message text =
    let user_id = user_id_of message in
    let username = username_of message.from_user in
    record {
      user_input = text;
      telegram_user_id = user_id;
      telegram_chat_id = message.chat.id;
      telegram_message_id = some message.message_id;
      telegram_username = username;
      metadata = field "source" (Json.string "telegram") (
          field "telegram_user_id" (Json.number user_id) (
            field "telegram_chat_id" (Json.number message.chat.id) (
              field "telegram_message_id" (Json.number message.message_id) (
                field "telegram_username" (from_text username)
                  (field "telegram_update_id" (Json.number update.update_id) end)))));
      context = field "channel" (Json.string "telegram") (
          field "telegram_user_id" (Json.number user_id)
            (field "telegram_chat_id" (Json.number message.chat.id) end));
    }

unfoldable pub map_update : TelegramUpdate → Option TelegramExecutionRequest
map_update update = elim update.message [
  | none ↦ none
  | some message ↦ elim (nonempty message.text) [
    | none ↦ none
    | some text ↦ some (request_of update message text)
  ]
]

unfoldable pub parse_callback_action : String → Option String
parse_callback_action raw =
    let action = after_mark ":" raw in
    if starts_with raw "tg:" && contains ("approve" ∷ "cancel" ∷ "revise" ∷ "retry" ∷ []) action
    then some action
    else none

abbrev callback_chat_id : TelegramCallbackQuery → TelegramId
callback_chat_id callback = elim callback.message [
  | none ↦ callback.from_user.id
  | some message ↦ message.chat.id
]

abbrev callback_request_of : TelegramCallbackQuery → String → String → TelegramCallbackRequest
callback_request_of callback raw action =
    let chat_id = callback_chat_id callback in
    record {
      action = action;
      telegram_user_id = callback.from_user.id;
      telegram_chat_id = chat_id;
      callback_query_id = callback.id;
      callback_data = raw;
      telegram_message_id = elim callback.message [
        | none ↦ none
        | some message ↦ some message.message_id
      ];
      metadata = field "source" (Json.string "telegram") (
          field "telegram_user_id" (Json.number callback.from_user.id) (
            field "telegram_chat_id" (Json.number chat_id)
              (field "telegram_callback_id" (Json.string callback.id) end)));
    }

unfoldable pub map_callback : TelegramUpdate → Option TelegramCallbackRequest
map_callback update = elim update.callback_query [
  | none ↦ none
  | some callback ↦ elim (nonempty callback.payload) [
    | none ↦ none
    | some raw ↦ elim (parse_callback_action raw) [
      | none ↦ none
      | some action ↦ some (callback_request_of callback raw action)
    ]
  ]
]

-- The first key with a value that is not empty
unfoldable pub first_truthy : List String → Fields → Option Json
first_truthy [] fields = none
first_truthy (key ∷ keys) fields =
    let rest = first_truthy keys fields in
    let value = get_field key fields in if is_truthy value then value else rest

abbrev or_else : Option Json → Option Json → Option Json
or_else none later = later
or_else (some value) later = some value

unfoldable pub extract_reply_text : (Json → String) → Fields → String
extract_reply_text repr state =
    let result =
      first_truthy ("message" ∷ "response_message" ∷ "text" ∷ [])
        (fields_of (get_field "result" state)) in
    let decision =
      first_truthy ("response_message" ∷ "clarification_question" ∷ "message" ∷ [])
        (fields_of (get_field "decision" state)) in
    let summary = first_truthy ("summary" ∷ []) (fields_of (get_field "understanding" state)) in
    let status = first_truthy ("status" ∷ []) state in
    elim (or_else result (or_else decision (or_else summary status))) [
      | none ↦ "ok"
      | some value ↦ text_of repr value
    ]
