-- ===== src/Telegram/Dispatcher.antt =====
-- `TelegramDispatcher.dispatch` of backend/app/adapters/telegram/dispatcher.py, with a product flow.
pub mod Conversations
pub mod Isolation
use ai_employee_os.Common.{Option, none, some, List, [], ◌∷◌}
use ai_employee_os.Telegram.Models.{
  TelegramUpdate, TelegramCallbackRequest, TelegramExecutionRequest,
}
use ai_employee_os.Telegram.Mapper.{map_callback, map_update}
use ai_employee_os.Telegram.Collaborators.{Collaborators}
use ai_employee_os.Telegram.Flow.{FlowState, Reply, handle_callback, handle_message}

abbrev dispatch_message :
    Collaborators → Option TelegramExecutionRequest → FlowState → Option Reply × FlowState
dispatch_message c none s = (none, s)
dispatch_message c (some request) s =
    let (reply, new) = handle_message c request s in (some reply, new)

abbrev dispatch_either :
    Collaborators
    → Option TelegramCallbackRequest
    → Option TelegramExecutionRequest
    → FlowState
    → Option Reply × FlowState
dispatch_either c none message s = dispatch_message c message s
dispatch_either c (some callback) message s =
    let (reply, new) = handle_callback c callback s in (some reply, new)

unfoldable pub dispatch : Collaborators → TelegramUpdate → FlowState → Option Reply × FlowState
dispatch c update s = dispatch_either c (map_callback update) (map_update update) s

-- Updates one after another, each with what its calls return
unfoldable pub after_updates : List (Collaborators × TelegramUpdate) → FlowState → FlowState
after_updates [] s = s
after_updates ((c, update) ∷ updates) s = after_updates updates (dispatch c update s).1
