-- ===== src/Telegram/Flow/Stuck.antt =====
-- A conversation in which a revision is prompted though there is no result to revise.
use ai_employee_os.Common.{
  ◌≡◌, refl, sym, ◌∙◌, ap, subst, String, false, Option, none, some, List, [], ◌∷◌, option-both,
  option-by, if-by, string_eq, All,
}
use ai_employee_os.Common.Dict.{lookup}
use ai_employee_os.Telegram.Models.{
  TelegramId, TelegramFlowMode, TelegramConversationState, TelegramExecutionRequest,
}
use ai_employee_os.Telegram.Progress.{Sent, Transport}
use ai_employee_os.Telegram.Collaborators.{Snapshot, Collaborators}
use ai_employee_os.Telegram.Execution.{Handled}
use ai_employee_os.Telegram.Dialogue.{no_result_text, handle_revision_feedback}
use ai_employee_os.Telegram.Flow.Found.{Says, simple_reply-Says, bound, lookup-handle_message}
use ai_employee_os.Telegram.Flow.{FlowState, is_prompted, handle_in, handle_message}

-- Messages one after another, each with what its calls return
unfoldable pub after_messages :
    List (Collaborators × TelegramExecutionRequest) → FlowState → FlowState
after_messages [] s = s
after_messages ((c, request) ∷ messages) s = after_messages messages (handle_message c request s).1

-- The store has this conversation of the user, with whatever workspace and session.
pub record IsStored (user_id : TelegramId) (convo : TelegramConversationState) (s : FlowState)
    : Type 0 where
  pub workspace : Option String
  pub session : Option String
  pub found :
      lookup user_id s.conversations
      ≡ some (record convo { workspace_id = workspace; session_id = session })

-- A revision is prompted, and there is no result to revise.
abbrev pub IsStuck : TelegramConversationState → Type 0
IsStuck convo =
    (convo.flow_mode ≡ TelegramFlowMode.revision_prompted) × (convo.last_agent_state ≡ none)

module _ (c : Collaborators) where
  abbrev IsUnavailable : TelegramConversationState → Handled → Type 0
  IsUnavailable convo h = (h.1 ≡ convo) × Says c.telegram "revision_unavailable" h.0

  feedback-IsUnavailable :
      (request : TelegramExecutionRequest) (convo : TelegramConversationState) (t : Transport)
      → convo.last_agent_state ≡ none
      → IsUnavailable convo (handle_revision_feedback c false request convo t)
  unfolding handle_revision_feedback
  feedback-IsUnavailable request convo t no_result =
      let m = Sent.message request.telegram_chat_id no_result_text none none in
      let says =
        simple_reply-Says c "revision_unavailable" no_result_text (c.telegram.answer t.sent m)
          (λ e eq. (t.sent, m, eq)) in
      option-both (λ (h : Handled). IsUnavailable convo h) c.continue_revision (refl, says)
        (λ continue.
          option-by (λ (h : Handled). IsUnavailable convo h) convo.last_agent_state
            (λ _. (refl, says)) (λ state has. cc))

  handle_in-IsUnavailable :
      (request : TelegramExecutionRequest) (convo : TelegramConversationState) (snapshot : Snapshot)
      (t : Transport)
      → IsStuck convo
      → IsUnavailable convo (handle_in c request convo snapshot t)
  unfolding handle_in
  handle_in-IsUnavailable request convo snapshot t (prompted, no_result) =
      if-by (λ (h : Handled). IsUnavailable convo h) (is_prompted convo.flow_mode)
        (λ _. feedback-IsUnavailable request convo t no_result)
        (λ h. let prompted_true = ap is_prompted prompted in cc)

  handle_message-IsStored :
      (request : TelegramExecutionRequest) (convo : TelegramConversationState) (s : FlowState)
      → IsStuck convo
      → IsStored request.telegram_user_id convo s
      → IsStored request.telegram_user_id convo (handle_message c request s).1
        × Says c.telegram "revision_unavailable" (handle_message c request s).0
  unfolding handle_message
  handle_message-IsStored request convo s (prompted, no_result) stored =
      let snapshot = c.resolve_session request.telegram_user_id in
      let now = record convo { workspace_id = stored.workspace; session_id = stored.session } in
      let (same, says) =
        handle_in-IsUnavailable request (bound snapshot now) snapshot s.transport
          (prompted, no_result) in
      let (found, reply, sent) = lookup-handle_message c request now s stored.found in
      (
        record {
          workspace = some snapshot.workspace_id;
          session = snapshot.active_session_id;
          found = found ∙ ap some same;
        },
        subst (λ r. Says c.telegram "revision_unavailable" r) (sym reply) says,
      )

-- Each message is answered so.
abbrev pub AllUnavailable : List (Collaborators × TelegramExecutionRequest) → FlowState → Type 0
AllUnavailable [] s = Unit
AllUnavailable ((c, request) ∷ messages) s =
    Says c.telegram "revision_unavailable" (handle_message c request s).0
    × AllUnavailable messages (handle_message c request s).1

-- Where a revision is prompted and there is no result to revise, each message of the user is
-- answered by `revision_unavailable`, or the sender raises an exception, whatever the message says
-- and whatever the calls return; after all of them the conversation is the same, but for the
-- workspace and the session that it is bound to.
pub after_messages-IsStuck :
    (user_id : TelegramId) (convo : TelegramConversationState)
    (messages : List (Collaborators × TelegramExecutionRequest)) (s : FlowState)
    → All (λ (_, request). request.telegram_user_id ≡ user_id) messages
    → IsStuck convo
    → IsStored user_id convo s
    → IsStored user_id convo (after_messages messages s) × AllUnavailable messages s
unfolding after_messages
after_messages-IsStuck user_id convo [] s own stuck stored = (stored, tt)
after_messages-IsStuck user_id convo ((c, request) ∷ messages) s (mine, own) stuck stored =
    let at_request = subst (λ u. IsStored u convo s) (sym mine) stored in
    let (still, says) = handle_message-IsStored c request convo s stuck at_request in
    let (after, all) =
      after_messages-IsStuck user_id convo messages _ own stuck
        (subst (λ u. IsStored u convo (handle_message c request s).1) mine still) in
    (after, (says, all))
