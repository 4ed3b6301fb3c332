-- ===== src/Telegram/Flow/Keeping.antt =====
-- Each handler leaves its user's conversation at rest.
use ai_employee_os.Common.{
  ◌≡◌, refl, sym, subst, List, Bool, true, false, Option, none, some, if-both, option-both, String,
  ◌==◌, string_eq,
}
use ai_employee_os.Common.Json.{Fields}
use ai_employee_os.Orchestration.Controls.{ExecutionStore, ControlResult}
use ai_employee_os.Telegram.Models.{
  TelegramFlowMode, PendingClarification, TelegramConversationState, TelegramExecutionRequest,
  TelegramCallbackRequest,
}
use ai_employee_os.Telegram.Progress.{Outcome, returned, raised, Transport}
use ai_employee_os.Telegram.Clarification.{DecisionType, Classification, is_chat_decision}
use ai_employee_os.Telegram.Collaborators.{Snapshot, Collaborators}
use ai_employee_os.Telegram.Execution.{Handled, nonempty}
use ai_employee_os.Telegram.Delivery.{run_execution, send_artifact_files}
use ai_employee_os.Telegram.Dialogue.{
  handle_chat_response, resume_pending_clarification, handle_revision_feedback, answer_chat,
  deliver_revision, deliver_revised, close_revision,
}
use ai_employee_os.Telegram.Flow.{
  Pressed, act_on, handle_new_message, resume_or_begin, handle_in, after_cancel, press,
  handle_approval_resume, handle_cancel, handle_revise_prompt, handle_retry, is_prompted,
  is_waiting,
}
use ai_employee_os.Telegram.Promises.{IsAtRest, Promises, HasRefused, Promises-map}
use ai_employee_os.Telegram.Rest.{run_execution-Settles}

-- It is the same user's still, and at rest.
abbrev pub Keeps : Type 0 → TelegramConversationState → TelegramConversationState → Type 0
Keeps R before after = (after.telegram_user_id ≡ before.telegram_user_id) × IsAtRest R after

-- The session of a conversation is no part of what its mode promises.
pub bound-Promises :
    (R : Type 0) (mode : TelegramFlowMode) (convo : TelegramConversationState)
    (workspace session : Option String)
    → Promises R mode convo
    → Promises R mode (record convo { workspace_id = workspace; session_id = session })
bound-Promises R TelegramFlowMode.idle convo w s h = h
bound-Promises R TelegramFlowMode.running convo w s h = h
bound-Promises R TelegramFlowMode.waiting_approval convo w s h = h
bound-Promises R TelegramFlowMode.revision_prompted convo w s h = h
bound-Promises R TelegramFlowMode.pending_clarification convo w s h = h
bound-Promises R TelegramFlowMode.completed convo w s h = h
bound-Promises R TelegramFlowMode.failed convo w s h = h
bound-Promises R TelegramFlowMode.cancelled convo w s h = h

module _ (R : Type 0) (c : Collaborators) (why : HasRefused c.telegram → R) where
  pub run_execution-Keeps :
      (request : TelegramExecutionRequest) (convo : TelegramConversationState) (snapshot : Snapshot)
      (t : Transport)
      → Keeps R convo (run_execution c request convo snapshot t).1
  run_execution-Keeps request convo snapshot t =
      let (d, _) = run_execution-Settles c request convo snapshot t in
      let new = (run_execution c request convo snapshot t).1 in
      (d.user, Promises-map why new.flow_mode new d.rest)

  answer_chat-Keeps :
      (action : DecisionType) (k : Classification) (request : TelegramExecutionRequest)
      (convo : TelegramConversationState) (t : Transport)
      → Keeps R convo (answer_chat c action k request convo t).1
  answer_chat-Keeps DecisionType.respond k request convo t = (refl, tt)
  answer_chat-Keeps DecisionType.ask_clarification k request convo t = (refl, (tt, tt))
  answer_chat-Keeps DecisionType.create_plan k request convo t = (refl, tt)
  answer_chat-Keeps DecisionType.execute k request convo t = (refl, tt)

  pub handle_chat_response-Keeps :
      (request : TelegramExecutionRequest) (convo : TelegramConversationState) (k : Classification)
      (t : Transport)
      → Keeps R convo (handle_chat_response c request convo k t).1
  unfolding handle_chat_response
  handle_chat_response-Keeps request convo k t = answer_chat-Keeps k.action k request convo t

  pub resume_pending_clarification-Keeps :
      (request : TelegramExecutionRequest) (convo : TelegramConversationState) (snapshot : Snapshot)
      (pending : PendingClarification) (t : Transport)
      → Keeps R convo (resume_pending_clarification c request convo snapshot pending t).1
  unfolding resume_pending_clarification
  resume_pending_clarification-Keeps request convo snapshot pending t =
      run_execution-Keeps _ _ snapshot t

  close_revision-Keeps :
      (contextual : Bool) (request : TelegramExecutionRequest)
      (convo revised : TelegramConversationState) (artifacts : List Fields) (state : Fields)
      (x : Outcome (Unit {0}) × Transport)
      → revised.telegram_user_id ≡ convo.telegram_user_id
      → revised.flow_mode ≡ TelegramFlowMode.completed
      → Keeps R convo (close_revision c contextual request revised artifacts state x).1
  close_revision-Keeps contextual request convo revised artifacts state (raised e, t) user done =
      (user, subst (λ m. Promises R m revised) (sym done) tt)
  close_revision-Keeps contextual request convo revised artifacts state (returned filed, t) user
        done =
      (user, subst (λ m. Promises R m revised) (sym done) tt)

  deliver_revised-Keeps :
      (contextual : Bool) (request : TelegramExecutionRequest)
      (convo revised : TelegramConversationState) (state : Fields) (o : Outcome (List Fields))
      (t : Transport)
      → revised.telegram_user_id ≡ convo.telegram_user_id
      → revised.flow_mode ≡ TelegramFlowMode.completed
      → Keeps R convo (deliver_revised c contextual request revised state o t).1
  deliver_revised-Keeps contextual request convo revised state (raised e) t user done =
      (user, subst (λ m. Promises R m revised) (sym done) tt)
  deliver_revised-Keeps contextual request convo revised state (returned artifacts) t user done =
      close_revision-Keeps contextual request convo revised artifacts state
        (send_artifact_files c request.telegram_chat_id artifacts t) user done

  deliver_revision-Keeps :
      (contextual : Bool) (request : TelegramExecutionRequest) (convo : TelegramConversationState)
      (o : Outcome _) (t : Transport)
      → IsAtRest R convo
      → Keeps R convo (deliver_revision c contextual request convo o t).1
  deliver_revision-Keeps contextual request convo (raised message) t h = (refl, h)
  deliver_revision-Keeps contextual request convo (returned state) t h =
      deliver_revised-Keeps contextual request convo _ state (c.collect_artifacts state) t refl refl

  pub handle_revision_feedback-Keeps :
      (contextual : Bool) (request : TelegramExecutionRequest) (convo : TelegramConversationState)
      (t : Transport)
      → IsAtRest R convo
      → Keeps R convo (handle_revision_feedback c contextual request convo t).1
  unfolding handle_revision_feedback
  handle_revision_feedback-Keeps contextual request convo t h =
      option-both (λ (x : Handled). Keeps R convo x.1) c.continue_revision (refl, h)
        (λ continue.
          option-both (λ (x : Handled). Keeps R convo x.1) convo.last_agent_state (refl, h)
            (λ state.
              if-both (λ (x : Handled). Keeps R convo x.1) _
                (deliver_revision-Keeps contextual request convo _ t h) (refl, h)))

  act_on-Keeps :
      (o : Outcome Classification) (request : TelegramExecutionRequest)
      (convo : TelegramConversationState) (snapshot : Snapshot) (t : Transport)
      → IsAtRest R convo
      → Keeps R convo (act_on c o request convo snapshot t).1
  act_on-Keeps (raised message) request convo snapshot t h = (refl, h)
  act_on-Keeps (returned k) request convo snapshot t h =
      if-both (λ (x : Handled). Keeps R convo x.1) (is_chat_decision k.action)
        (handle_chat_response-Keeps request convo k t)
        (run_execution-Keeps request convo snapshot t)

  handle_new_message-Keeps :
      (request : TelegramExecutionRequest) (convo : TelegramConversationState) (snapshot : Snapshot)
      (t : Transport)
      → IsAtRest R convo
      → Keeps R convo (handle_new_message c request convo snapshot t).1
  unfolding handle_new_message
  handle_new_message-Keeps request convo snapshot t h =
      option-both (λ (x : Handled). Keeps R convo x.1) c.analyze
        (run_execution-Keeps request convo snapshot t)
        (λ analyze. act_on-Keeps _ request convo snapshot t h)

  resume_or_begin-Keeps :
      (o : Option PendingClarification) (request : TelegramExecutionRequest)
      (convo : TelegramConversationState) (snapshot : Snapshot) (t : Transport)
      → IsAtRest R convo
      → Keeps R convo (resume_or_begin c o request convo snapshot t).1
  resume_or_begin-Keeps none request convo snapshot t h =
      handle_new_message-Keeps request convo snapshot t h
  resume_or_begin-Keeps (some pending) request convo snapshot t h =
      resume_pending_clarification-Keeps request convo snapshot pending t

  pub handle_in-Keeps :
      (request : TelegramExecutionRequest) (convo : TelegramConversationState) (snapshot : Snapshot)
      (t : Transport)
      → IsAtRest R convo
      → Keeps R convo (handle_in c request convo snapshot t).1
  unfolding handle_in
  handle_in-Keeps request convo snapshot t h =
      if-both (λ (x : Handled). Keeps R convo x.1) (is_prompted convo.flow_mode)
        (handle_revision_feedback-Keeps false request convo t h)
        (if-both (λ (x : Handled). Keeps R convo x.1) _
          (handle_revision_feedback-Keeps true request convo t h)
          (resume_or_begin-Keeps convo.pending_clarification request convo snapshot t h))

  after_cancel-Keeps :
      (convo : TelegramConversationState) (r : ControlResult) (executions : ExecutionStore)
      (t : Transport)
      → IsAtRest R convo
      → Keeps R convo (after_cancel c convo (r, executions) t).1
  after_cancel-Keeps convo (ControlResult.returned state) executions t h = (refl, tt)
  after_cancel-Keeps convo ControlResult.key_error executions t h = (refl, h)

  handle_approval_resume-Keeps :
      (convo : TelegramConversationState) (snapshot : Snapshot) (t : Transport)
      → IsAtRest R convo
      → Keeps R convo (handle_approval_resume c convo snapshot t).1
  unfolding handle_approval_resume
  handle_approval_resume-Keeps convo snapshot t h =
      option-both (λ (x : Handled). Keeps R convo x.1) (nonempty convo.last_user_input) (refl, h)
        (λ input.
          if-both (λ (x : Handled). Keeps R convo x.1) (is_waiting convo.flow_mode)
            (run_execution-Keeps _ convo snapshot t) (refl, h))

  handle_cancel-Keeps :
      (convo : TelegramConversationState) (executions : ExecutionStore) (t : Transport)
      → IsAtRest R convo
      → Keeps R convo (handle_cancel c convo executions t).1
  unfolding handle_cancel
  handle_cancel-Keeps convo executions t h =
      option-both (λ (x : Pressed c). Keeps R convo x.1) (nonempty convo.last_execution_id)
        (refl, tt) (λ id. after_cancel-Keeps convo _ _ t h)

  handle_revise_prompt-Keeps :
      (convo : TelegramConversationState) (t : Transport)
      → Keeps R convo (handle_revise_prompt c convo t).1
  unfolding handle_revise_prompt
  handle_revise_prompt-Keeps convo t = (refl, tt)

  handle_retry-Keeps :
      (convo : TelegramConversationState) (snapshot : Snapshot) (t : Transport)
      → IsAtRest R convo
      → Keeps R convo (handle_retry c convo snapshot t).1
  unfolding handle_retry
  handle_retry-Keeps convo snapshot t h =
      option-both (λ (x : Handled). Keeps R convo x.1) (nonempty convo.last_user_input) (refl, h)
        (λ input. run_execution-Keeps _ convo snapshot t)

  pub press-Keeps :
      (request : TelegramCallbackRequest) (convo : TelegramConversationState) (snapshot : Snapshot)
      (executions : ExecutionStore) (t : Transport)
      → IsAtRest R convo
      → Keeps R convo (press c request convo snapshot executions t).1
  unfolding press
  press-Keeps request convo snapshot executions t h =
      let P : Pressed c → Type 0 = λ x. Keeps R convo x.1 in
      if-both P (request.action == "approve") (handle_approval_resume-Keeps convo snapshot t h) (
        if-both P (request.action == "cancel") (handle_cancel-Keeps convo executions t h) (
          if-both P (request.action == "revise") (handle_revise_prompt-Keeps convo t) (
            if-both P (request.action == "retry") (handle_retry-Keeps convo snapshot t h)
              (refl, h))))
