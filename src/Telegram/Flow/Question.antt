-- ===== src/Telegram/Flow/Question.antt =====
-- A question that the bot asks, and the message that is taken for its answer.
use ai_employee_os.Common.{
  ◌≡◌, refl, sym, ap, subst, ◌∙◌, ℕ, ◌<>◌, ◌==◌, ◌⊎◌, inl, inr, String, false, Option, none, some,
  option-by, if◌then◌else◌, string_eq,
}
use ai_employee_os.Common.Dict.{lookup}
use ai_employee_os.Common.Text.{strip}
use ai_employee_os.Common.Json.{Fields}
use ai_employee_os.Telegram.Models.{
  TelegramFlowMode, PendingClarification, TelegramConversationState, TelegramExecutionRequest,
}
use ai_employee_os.Telegram.Progress.{Outcome, returned, raised, map_outcome, Transport}
use ai_employee_os.Telegram.Clarification.{
  DecisionType, Classification, build_pending_clarification, merge_clarification_answer,
  is_chat_decision,
}
use ai_employee_os.Telegram.Collaborators.{Executed, Snapshot, Collaborators}
use ai_employee_os.Telegram.Delivery.{run_execution}
use ai_employee_os.Telegram.Agent.{Refused, Reports, agent_on}
use ai_employee_os.Telegram.Rest.{mode_after, run_execution-Settles}
use ai_employee_os.Telegram.Execution.{Handled}
use ai_employee_os.Telegram.Dialogue.{
  as_resumed, resume_pending_clarification, handle_chat_response, answer_chat,
}
use ai_employee_os.Telegram.Flow.{
  Reply, FlowState, handle_in, handle_message, handle_new_message, act_on, resume_or_begin,
  is_prompted, is_done,
}
use ai_employee_os.Telegram.Flow.Found.{bound, lookup-handle_message}

-- The question is pending, and no revision is prompted or asked for that would come before it.
abbrev pub Asks : PendingClarification → TelegramConversationState → Type 0
Asks pending convo =
    (convo.pending_clarification ≡ some pending)
    × (is_prompted convo.flow_mode ≡ false)
    × (is_done convo.flow_mode ≡ false)

-- No question is pending, and no revision is prompted or could be asked for.
abbrev pub IsOpen : TelegramConversationState → Type 0
IsOpen convo =
    (convo.pending_clarification ≡ none)
    × (is_prompted convo.flow_mode ≡ false)
    × (is_done convo.flow_mode ≡ false)

-- The executive agent is there, and this is what it makes of any message.
abbrev pub Classifies :
    Option (String → Fields → Fields → Outcome Classification) → Classification → Type 0
Classifies none k = ⊥
Classifies (some agent) k =
    (input : String) (context metadata : Fields) → agent input context metadata ≡ returned k

module _ (c : Collaborators) where
  -- The agent has been run on the input, or Telegram has refused the message that tells of the
  -- progress.
  abbrev pub Ends : String → Reply → TelegramConversationState → Type 0
  Ends input reply new =
      ((e : String) × Refused c.telegram e
        × (reply ≡ raised e)
        × (new.flow_mode ≡ TelegramFlowMode.running))
      ⊎ ((context metadata : Fields) × (x : Executed) × Reports c.telegram
            (agent_on c input context metadata) x
          × (new.flow_mode ≡ mode_after c x))

  abbrev IsAnswered : String → Reply → TelegramConversationState → Type 0
  IsAnswered input reply new =
      (new.last_user_input ≡ some input) × (new.pending_clarification ≡ none) × Ends input reply new

  resume-answers :
      (request : TelegramExecutionRequest) (convo : TelegramConversationState) (snapshot : Snapshot)
      (pending : PendingClarification) (t : Transport)
      → let h = resume_pending_clarification c request convo snapshot pending t in
        IsAnswered (merge_clarification_answer pending request.user_input) h.0 h.1
  unfolding resume_pending_clarification
  resume-answers request convo snapshot pending t =
      let (d, ends) =
        run_execution-Settles c
          (record request { user_input = merge_clarification_answer pending request.user_input }) _
          snapshot t in
      (
        d.input_kept,
        d.pending,
        elim ends [
          | inl (e, refused, reply, mode) ↦ inl (
            e,
            (t.sent, _, refused),
            ap
                (λ r.
                  map_outcome (as_resumed c (merge_clarification_answer pending request.user_input))
                    r)
                reply,
            mode,
          )
          | inr (x, reports, mode, _) ↦ inr (_, _, x, reports, mode)
        ],
      )

  handle_in-answers :
      (request : TelegramExecutionRequest) (convo : TelegramConversationState) (snapshot : Snapshot)
      (pending : PendingClarification) (t : Transport)
      → Asks pending convo
      → let h = handle_in c request convo snapshot t in
        IsAnswered (merge_clarification_answer pending request.user_input) h.0 h.1
  unfolding handle_in
  handle_in-answers request convo snapshot pending t (asked, unprompted, undone) =
      rw (unprompted, undone)
        (subst
          (λ o.
            let h = resume_or_begin c o request convo snapshot t in
            IsAnswered (merge_clarification_answer pending request.user_input) h.0 h.1)
          (sym asked) (resume-answers request convo snapshot pending t))

  -- The message that follows a question runs the agent on the question's goal with the answer.
  pub handle_message-answers :
      (request : TelegramExecutionRequest) (convo : TelegramConversationState)
      (pending : PendingClarification) (s : FlowState)
      → lookup request.telegram_user_id s.conversations ≡ some convo
      → Asks pending convo
      → let (reply, after) = handle_message c request s in
        (new : TelegramConversationState) × (lookup request.telegram_user_id after.conversations
          ≡ some new)
        × IsAnswered (merge_clarification_answer pending request.user_input) reply new
  handle_message-answers request convo pending s found asks =
      let snapshot = c.resolve_session request.telegram_user_id in
      let (stored, reply, sent) = lookup-handle_message c request convo s found in
      let new = (handle_in c request (bound snapshot convo) snapshot s.transport).1 in
      (
        new,
        stored,
        subst (λ r. IsAnswered (merge_clarification_answer pending request.user_input) r new)
            (sym reply)
            (handle_in-answers request (bound snapshot convo) snapshot pending s.transport asks),
      )

  act_on-Asks :
      (k : Classification) (request : TelegramExecutionRequest) (convo : TelegramConversationState)
      (snapshot : Snapshot) (t : Transport)
      → k.action ≡ DecisionType.ask_clarification
      → Asks
          (build_pending_clarification c.now request.user_input k)
          (act_on c (returned k) request convo snapshot t).1
  unfolding handle_chat_response
  act_on-Asks k request convo snapshot t asks =
      subst
        (λ a.
          Asks (build_pending_clarification c.now request.user_input k)
            (if is_chat_decision a
              then (answer_chat c a k request convo t)
              else (run_execution c request convo snapshot t)).1)
        (sym asks) (refl, refl, refl)

  handle_new_message-Asks :
      (k : Classification) (request : TelegramExecutionRequest) (convo : TelegramConversationState)
      (snapshot : Snapshot) (t : Transport)
      → Classifies c.analyze k
      → k.action ≡ DecisionType.ask_clarification
      → Asks
          (build_pending_clarification c.now request.user_input k)
          (handle_new_message c request convo snapshot t).1
  unfolding handle_new_message
  handle_new_message-Asks k request convo snapshot t classifies asks =
      let Q : Handled → Type 0 =
        λ x. Asks (build_pending_clarification c.now request.user_input k) x.1 in
      option-by Q c.analyze
        (λ none_given. absurd (subst (λ o. Classifies o k) none_given classifies))
        (λ agent given.
          subst (λ o. Q (act_on c o request convo snapshot t))
            (sym (subst (λ o. Classifies o k) given classifies _ _ _))
            (act_on-Asks k request convo snapshot t asks))

  handle_in-Asks :
      (k : Classification) (request : TelegramExecutionRequest) (convo : TelegramConversationState)
      (snapshot : Snapshot) (t : Transport)
      → Classifies c.analyze k
      → k.action ≡ DecisionType.ask_clarification
      → IsOpen convo
      → Asks
          (build_pending_clarification c.now request.user_input k)
          (handle_in c request convo snapshot t).1
  unfolding handle_in
  handle_in-Asks k request convo snapshot t classifies asks (free, unprompted, undone) =
      rw (unprompted, undone)
        (subst
          (λ o.
            Asks (build_pending_clarification c.now request.user_input k)
              (resume_or_begin c o request convo snapshot t).1)
          (sym free) (handle_new_message-Asks k request convo snapshot t classifies asks))

merge-build :
    (now : ℕ) (input answer : String) (k : Classification)
    → (k.goal == "") ≡ false
    → (strip answer == "") ≡ false
    → merge_clarification_answer (build_pending_clarification now input k) answer
      ≡ k.goal <> ". Уточнение: " <> strip answer
unfolding merge_clarification_answer build_pending_clarification
merge-build now input answer k goal said = rw (goal, goal, said) refl

-- The executive agent finds that a message of a conversation without a question, in which no
-- revision is prompted and no run completed, needs clarification, and names its goal. Then the
-- user's next message, if it is not blank, is taken for the answer: the agent is run on the goal,
-- ". Уточнение: " and the answer, whose mode the conversation has, unless Telegram refuses the
-- message that tells of the progress; and no question is left.
pub question-answered :
    (c d : Collaborators) (k : Classification) (first second : TelegramExecutionRequest)
    (convo : TelegramConversationState) (s : FlowState)
    → second.telegram_user_id ≡ first.telegram_user_id
    → lookup first.telegram_user_id s.conversations ≡ some convo
    → IsOpen convo
    → Classifies c.analyze k
    → k.action ≡ DecisionType.ask_clarification
    → (k.goal == "") ≡ false
    → (strip second.user_input == "") ≡ false
    → let input = k.goal <> ". Уточнение: " <> strip second.user_input in
      let (reply, after) = handle_message d second (handle_message c first s).1 in
      (new : TelegramConversationState) × (lookup second.telegram_user_id after.conversations
        ≡ some new)
      × (new.last_user_input ≡ some input)
      × (new.pending_clarification ≡ none)
      × Ends d input reply new
question-answered c d k first second convo s same found fresh classifies asks goal said =
    let snapshot = c.resolve_session first.telegram_user_id in
    let (stored, _, _) = lookup-handle_message c first convo s found in
    let asked =
      handle_in-Asks c k first (bound snapshot convo) snapshot s.transport classifies asks fresh in
    let reply = (handle_message d second (handle_message c first s).1).0 in
    let (new, at_last, answered) =
      handle_message-answers d second _ _ (handle_message c first s).1
        (ap (λ u. lookup u (handle_message c first s).1.conversations) same ∙ stored) asked in
    let (input, free, ends) =
      subst (λ i. IsAnswered d i reply new) (merge-build c.now first.user_input _ k goal said)
        answered in
    (new, at_last, input, free, ends)
