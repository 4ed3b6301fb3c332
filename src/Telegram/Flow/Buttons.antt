-- ===== src/Telegram/Flow/Buttons.antt =====
-- What the buttons do: an approval is for a conversation that waits for one, and a cancelled
-- question is pending still.
use ai_employee_os.Common.{
  ◌≡◌, refl, sym, subst, ap, ◌∙◌, false, none, some, ◌∷◌, if-by, option-by, option-both, string_eq,
}
use ai_employee_os.Common.Dict.{lookup}
use ai_employee_os.Orchestration.Controls.{ExecutionStore}
use ai_employee_os.Telegram.Models.{
  PendingClarification, TelegramConversationState, TelegramExecutionRequest,
  TelegramCallbackRequest,
}
use ai_employee_os.Telegram.Progress.{Sent, Transport}
use ai_employee_os.Telegram.Clarification.{merge_clarification_answer}
use ai_employee_os.Telegram.Collaborators.{Snapshot, Collaborators}
use ai_employee_os.Telegram.Execution.{Handled, nonempty}
use ai_employee_os.Telegram.Flow.{
  Pressed, pressed, FlowState, handle_message, handle_callback, press, handle_approval_resume,
  handle_cancel, is_waiting, nothing_text,
}
use ai_employee_os.Telegram.Flow.Found.{Says, simple_reply-Says, lookup-handle_callback}
use ai_employee_os.Telegram.Flow.Question.{Asks, handle_message-answers}

module _ (c : Collaborators) where
  -- Nothing but one message
  abbrev IsNoop : TelegramConversationState → ExecutionStore → Transport → Pressed c → Type 0
  IsNoop convo executions t p =
      Says c.telegram "noop" p.0
      × (p.1 ≡ convo)
      × (p.2 ≡ executions)
      × (m : Sent) × (p.3 ≡ record t { sent = m ∷ t.sent })

  press-IsNoop :
      (callback : TelegramCallbackRequest) (convo : TelegramConversationState) (snapshot : Snapshot)
      (executions : ExecutionStore) (t : Transport)
      → is_waiting convo.flow_mode ≡ false
      → IsNoop convo executions t
          (press c (record callback { action = "approve" }) convo snapshot executions t)
  unfolding press handle_approval_resume string_eq
  press-IsNoop callback convo snapshot executions t idle =
      let m = Sent.message convo.telegram_chat_id nothing_text none none in
      let noop =
        simple_reply-Says c "noop" nothing_text (c.telegram.answer t.sent m)
          (λ e eq. (t.sent, m, eq)) in
      option-both (λ (x : Handled). IsNoop convo executions t (pressed c x executions))
        (nonempty convo.last_user_input) (noop, refl, refl, m, refl)
        (λ input.
          if-by (λ (x : Handled). IsNoop convo executions t (pressed c x executions))
            (is_waiting convo.flow_mode) (λ waits. cc) (λ _. (noop, refl, refl, m, refl)))

  press-cancels :
      (callback : TelegramCallbackRequest) (convo : TelegramConversationState) (snapshot : Snapshot)
      (executions : ExecutionStore) (t : Transport) (pending : PendingClarification)
      → convo.pending_clarification ≡ some pending
      → convo.last_execution_id ≡ none
      → Asks pending (press c (record callback { action = "cancel" }) convo snapshot executions t).1
  unfolding press handle_cancel string_eq
  press-cancels callback convo snapshot executions t pending asked idle =
      option-by (λ (x : Pressed c). Asks pending x.1) (nonempty convo.last_execution_id)
        (λ _. (asked, refl, refl)) (λ id has. let none_there = ap nonempty idle in cc)

-- A press of the button that approves, where the conversation does not wait for an approval, is
-- answered by `noop`, or the sender raises an exception: the conversation and the executions stay as
-- they are, and one message is all that is sent.
pub approve-idle :
    (c : Collaborators) (callback : TelegramCallbackRequest) (convo : TelegramConversationState)
    (s : FlowState)
    → lookup callback.telegram_user_id s.conversations ≡ some convo
    → is_waiting convo.flow_mode ≡ false
    → let (reply, new) = handle_callback c (record callback { action = "approve" }) s in
      Says c.telegram "noop" reply
      × (lookup callback.telegram_user_id new.conversations ≡ some convo)
      × (new.executions ≡ s.executions)
      × (m : Sent) × (new.transport ≡ record s.transport { sent = m ∷ s.transport.sent })
approve-idle c callback convo s found idle =
    let press_approve = record callback { action = "approve" } in
    let (stored, reply, executions, sent) = lookup-handle_callback c press_approve convo s found in
    let (noop, same, kept, m, one) =
      press-IsNoop c callback convo (c.resolve_session callback.telegram_user_id) s.executions
        s.transport idle in
    (
      subst (λ r. Says c.telegram "noop" r) (sym reply) noop,
      stored ∙ ap some same,
      executions ∙ kept,
      m,
      sent ∙ one,
    )

-- A user cancels while a question is pending. The question is pending still: the next message, a
-- new task perhaps, is taken for the answer to it, and the agent is run on the old goal with it.
pub cancelled-answered :
    (c d : Collaborators) (callback : TelegramCallbackRequest) (request : TelegramExecutionRequest)
    (convo : TelegramConversationState) (pending : PendingClarification) (s : FlowState)
    → request.telegram_user_id ≡ callback.telegram_user_id
    → lookup callback.telegram_user_id s.conversations ≡ some convo
    → convo.pending_clarification ≡ some pending
    → convo.last_execution_id ≡ none
    → let cancelled = (handle_callback c (record callback { action = "cancel" }) s).1 in
      (new : TelegramConversationState) × (lookup request.telegram_user_id
          (handle_message d request cancelled).1.conversations
        ≡ some new)
      × (new.last_user_input ≡ some (merge_clarification_answer pending request.user_input))
cancelled-answered c d callback request convo pending s same found asked idle =
    let cancel = record callback { action = "cancel" } in
    let (stored, _, _, _) = lookup-handle_callback c cancel convo s found in
    let asks =
      press-cancels c callback convo (c.resolve_session callback.telegram_user_id) s.executions
        s.transport pending asked idle in
    let cancelled = (handle_callback c cancel s).1 in
    let (new, at_last, (input, _, _)) =
      handle_message-answers d request _ pending cancelled
        (ap (λ u. lookup u cancelled.conversations) same ∙ stored) asks in
    (new, at_last, input)
