-- ===== src/Telegram/Models.antt =====
-- backend/app/adapters/telegram/models.py and the state of conversation_store.py. A number that
-- Telegram makes up (of a user, a chat, a message or an update) is its text, as in JSON.
use ai_employee_os.Common.{ℕ, String, Bool, Option, none, List, []}
use ai_employee_os.Common.Json.{Fields}

abbrev pub TelegramId : Type 0
TelegramId = String

pub data TelegramFlowMode : Type 0 where
  idle : TelegramFlowMode
  running : TelegramFlowMode
  waiting_approval : TelegramFlowMode
  revision_prompted : TelegramFlowMode
  pending_clarification : TelegramFlowMode
  completed : TelegramFlowMode
  failed : TelegramFlowMode
  cancelled : TelegramFlowMode

pub record PendingClarification : Type 0 where
  pub pending_task : Bool
  pub original_goal : String
  pub original_user_input : String
  pub intent : String
  pub missing_information : List String
  pub understanding : Fields
  pub created_at : ℕ

pub record TelegramConversationState : Type 0 where
  pub telegram_user_id : TelegramId
  pub telegram_chat_id : TelegramId
  pub workspace_id : Option String
  pub session_id : Option String
  pub flow_mode : TelegramFlowMode
  pub last_user_input : Option String
  pub last_execution_id : Option String
  pub last_agent_state : Option Fields
  pub progress_message_id : Option TelegramId
  pub artifact_ids : List String
  pub business_client_id : Option String
  pub business_client_name : Option String
  pub revision_prompted_at : Option ℕ
  pub pending_clarification : Option PendingClarification
  pub updated_at : ℕ

abbrev pub new_conversation : ℕ → TelegramId → TelegramId → TelegramConversationState
new_conversation now user_id chat_id = record {
  telegram_user_id = user_id;
  telegram_chat_id = chat_id;
  workspace_id = none;
  session_id = none;
  flow_mode = TelegramFlowMode.idle;
  last_user_input = none;
  last_execution_id = none;
  last_agent_state = none;
  progress_message_id = none;
  artifact_ids = [];
  business_client_id = none;
  business_client_name = none;
  revision_prompted_at = none;
  pending_clarification = none;
  updated_at = now;
}

pub record TelegramUser : Type 0 where
  pub id : TelegramId
  pub is_bot : Bool
  pub first_name : Option String
  pub last_name : Option String
  pub username : Option String

pub record TelegramChat : Type 0 where
  pub id : TelegramId
  pub type : String
  pub title : Option String
  pub username : Option String

pub record TelegramMessage : Type 0 where
  pub message_id : TelegramId
  pub date : Option ℕ
  pub text : Option String
  pub chat : TelegramChat
  pub from_user : Option TelegramUser

pub record TelegramCallbackQuery : Type 0 where
  pub id : String
  pub from_user : TelegramUser
  pub message : Option TelegramMessage
  pub chat_instance : Option String
  pub payload : Option String

pub record TelegramUpdate : Type 0 where
  pub update_id : TelegramId
  pub message : Option TelegramMessage
  pub callback_query : Option TelegramCallbackQuery

pub record TelegramExecutionRequest : Type 0 where
  pub user_input : String
  pub telegram_user_id : TelegramId
  pub telegram_chat_id : TelegramId
  pub telegram_message_id : Option TelegramId
  pub telegram_username : Option String
  pub metadata : Fields
  pub context : Fields

pub record TelegramCallbackRequest : Type 0 where
  pub action : String
  pub telegram_user_id : TelegramId
  pub telegram_chat_id : TelegramId
  pub callback_query_id : String
  pub callback_data : String
  pub telegram_message_id : Option TelegramId
  pub metadata : Fields
