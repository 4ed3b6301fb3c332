-- ===== src/Telegram/Tests.antt =====
-- A dialogue with one user, in which the bot asks, runs, is cancelled and gets stuck.
use ai_employee_os.Common.{
  ◌≡◌, refl, subst, ◌<>◌, String, none, some, List, [], ◌∷◌, string_eq, arith,
}
use ai_employee_os.Common.Dict.{lookup, insert}
use ai_employee_os.Common.Text.{strip, placed_codes, is_space}
use ai_employee_os.Common.Json.{Json, Fields, end, field, get_field}
use ai_employee_os.Telegram.Models.{
  TelegramFlowMode, TelegramConversationState, TelegramExecutionRequest, TelegramCallbackRequest,
  TelegramUpdate, new_conversation,
}
use ai_employee_os.Telegram.Progress.{Outcome, returned, raised, Sent, Transport, Telegram}
use ai_employee_os.Telegram.Progress.Throttle.{IsSpaced, edit_times, edit_times-IsSpaced}
use ai_employee_os.Telegram.Clarification.{
  DecisionType, Classification, build_pending_clarification, merge_clarification_answer,
}
use ai_employee_os.Telegram.Mapper.{map_update, map_callback}
use ai_employee_os.Telegram.Collaborators.{ended, Collaborators}
use ai_employee_os.Telegram.Promises.{HasRefused}
use ai_employee_os.Telegram.Flow.{FlowState, handle_message, handle_callback}
use ai_employee_os.Telegram.Flow.Found.{Says}
use ai_employee_os.Telegram.Flow.Stuck.{
  IsStored, AllUnavailable, after_messages, after_messages-IsStuck,
}
use ai_employee_os.Telegram.Flow.Question.{Ends, question-answered}
use ai_employee_os.Telegram.Flow.Buttons.{approve-idle, cancelled-answered}
use ai_employee_os.Telegram.Dispatcher.{after_updates}
use ai_employee_os.Telegram.Dispatcher.Conversations.{AllKept, after_updates-AllKept}
use ai_employee_os.Telegram.Dispatcher.Isolation.{lookup-after_updates}

abbrev telegram : Telegram
telegram = record {
  answer = λ _ _. returned (field "message_id" (Json.number "77") end);
  monotonic = λ n. n;
  min_interval = 2;
  repr = λ _. "{}";
  two_decimals = λ _. "0.90";
}

abbrev question : Classification
question = record {
  action = DecisionType.ask_clarification;
  decision = field "clarification_question" (Json.string "Which one?") end;
  goal = "Write a report";
  missing_information = "topic" ∷ [];
  understanding = end;
}

abbrev bot : Collaborators
bot = record {
  telegram = telegram;
  now = 1;
  resolve_session = λ _. record {
    client_id = "c";
    workspace_id = "w";
    active_project_id = none;
    active_session_id = some "s";
    active_artifact_id = none;
  };
  analyze = some (λ _ _ _. returned question);
  resolve_client = none;
  stream = λ _ _ _. record {
    events =
        Json.object
          (field "plan" (Json.object (field "status" (Json.string "waiting_approval") end)) end)
        ∷ [];
    failure = none;
  };
  execute = λ _ _ _. ended end;
  collect_artifacts = λ _. returned [];
  download = λ _. returned none;
  continue_revision = none;
}

abbrev fresh : TelegramConversationState
fresh = new_conversation 0 "1" "1"

abbrev asking : TelegramConversationState
asking = record fresh {
  flow_mode = TelegramFlowMode.pending_clarification;
  pending_clarification = some (build_pending_clarification 0 "report" question);
}

abbrev prompted : TelegramConversationState
prompted = record fresh {
  flow_mode = TelegramFlowMode.revision_prompted;
  revision_prompted_at = some 0;
}

abbrev nothing_sent : Transport
nothing_sent = record { sent = []; last_sent_at = ("77", 0) ∷ []; readings = 0 }

abbrev start : TelegramConversationState → FlowState
start convo = record {
  conversations = ("1", convo) ∷ [];
  executions = [];
  transport = nothing_sent;
}

abbrev says : String → TelegramExecutionRequest
says text = record {
  user_input = text;
  telegram_user_id = "1";
  telegram_chat_id = "1";
  telegram_message_id = some "5";
  telegram_username = none;
  metadata = end;
  context = end;
}

abbrev presses : TelegramCallbackRequest
presses = record {
  action = "revise";
  telegram_user_id = "1";
  telegram_chat_id = "1";
  callback_query_id = "q";
  callback_data = "tg:revise";
  telegram_message_id = none;
  metadata = end;
}

abbrev writes : String → TelegramUpdate
writes user = record {
  update_id = "9";
  message = some (record {
    message_id = "5";
    date = none;
    text = some "hello";
    chat = record { id = user; type = "private"; title = none; username = none };
    from_user = none;
  });
  callback_query = none;
}

abbrev IsReturned : Outcome Fields → Type 0
IsReturned (returned result) = Unit
IsReturned (raised e) = ⊥

never_refused : HasRefused telegram → ⊥
never_refused (e, (before, request, answer)) = subst (λ o. IsReturned o) answer tt

after_updates-AllKept_example :
    AllKept ⊥ (after_updates ((bot, writes "1") ∷ (bot, writes "2") ∷ []) (start fresh))
after_updates-AllKept_example =
    after_updates-AllKept ⊥ ((bot, writes "1") ∷ (bot, writes "2") ∷ []) (start fresh)
      (never_refused, (never_refused, tt)) ((refl, tt), tt)

unfoldable program : Unit {0}
unfolding lookup insert string_eq strip placed_codes is_space map_update map_callback get_field
program = tt

lookup-after_updates_example :
    lookup "1" (after_updates ((bot, writes "2") ∷ []) (start fresh)).conversations
    ≡ lookup "1" (start fresh).conversations
unfolding program
lookup-after_updates_example =
    lookup-after_updates "1" ((bot, writes "2") ∷ []) (start fresh) ((refl, tt), tt)
      ((refl, tt), tt)

stored : IsStored "1" prompted (start prompted)
unfolding program
stored = record { workspace = none; session = none; found = refl }

abbrev messages : List (Collaborators × TelegramExecutionRequest)
messages = (bot, says "a new task") ∷ (bot, says "another one") ∷ []

after_messages-IsStuck_example :
    IsStored "1" prompted (after_messages messages (start prompted))
    × AllUnavailable messages (start prompted)
after_messages-IsStuck_example =
    after_messages-IsStuck "1" prompted messages (start prompted) (refl, (refl, tt)) (refl, refl)
      stored

question-answered_example :
    let input = "Write a report" <> ". Уточнение: " <> strip "on sales" in
    let (reply, after) =
      handle_message bot (says "on sales") (handle_message bot (says "report") (start fresh)).1 in
    (new : TelegramConversationState) × (lookup "1" after.conversations ≡ some new)
    × (new.last_user_input ≡ some input)
    × (new.pending_clarification ≡ none)
    × Ends bot input reply new
unfolding program
question-answered_example =
    question-answered bot bot question (says "report") (says "on sales") fresh (start fresh) refl
      refl (refl, refl, refl) (λ _ _ _. refl) refl refl refl

approve-idle_example :
    let (reply, new) = handle_callback bot (record presses { action = "approve" }) (start fresh) in
    Says telegram "noop" reply
    × (lookup "1" new.conversations ≡ some fresh)
    × (new.executions ≡ [])
    × (m : Sent) × (new.transport ≡ record nothing_sent { sent = m ∷ [] })
unfolding program
approve-idle_example = approve-idle bot presses fresh (start fresh) refl refl

cancelled-answered_example :
    let cancelled = (handle_callback bot (record presses { action = "cancel" }) (start asking)).1 in
    (new : TelegramConversationState) × (lookup "1"
        (handle_message bot (says "make a logo") cancelled).1.conversations
      ≡ some new)
    × (new.last_user_input
        ≡ some (
            merge_clarification_answer
              (build_pending_clarification 0 "report" question)
              "make a logo"))
unfolding program
cancelled-answered_example =
    cancelled-answered bot bot presses (says "make a logo") asking
      (build_pending_clarification 0 "report" question) (start asking) refl refl refl refl

edit_times-IsSpaced_example :
    IsSpaced 2 0 (edit_times telegram "1" "77" (none ∷ none ∷ none ∷ []) nothing_sent)
unfolding program
edit_times-IsSpaced_example =
    edit_times-IsSpaced telegram "1" "77" (none ∷ none ∷ none ∷ []) nothing_sent (omega arith)
