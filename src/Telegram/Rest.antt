-- ===== src/Telegram/Rest.antt =====
-- What a stored conversation satisfies between two updates, and that a run leaves it so, with the
-- result of the agent on the input that it was given.
use ai_employee_os.Common.{
  ◌≡◌, refl, sym, subst, ◌∙◌, String, Option, none, some, List, [], ◌∷◌, ◌⊎◌, inl, inr, arith,
}
use ai_employee_os.Common.Json.{Fields}
use ai_employee_os.Telegram.Models.{
  TelegramId, TelegramFlowMode, TelegramConversationState, TelegramExecutionRequest,
}
use ai_employee_os.Telegram.Mapper.{revision_keyboard}
use ai_employee_os.Telegram.Progress.{
  Outcome, returned, raised, Transport, Telegram, header, started_as, start,
}
use ai_employee_os.Telegram.Collaborators.{Executed, ended, broken, Snapshot, Collaborators}
use ai_employee_os.Telegram.Execution.{
  Handled, attach, attach_business_client, build_runtime_payload, execute_with_progress,
}
use ai_employee_os.Telegram.Delivery.{
  Ending, ending_of, run_execution, run_started, settle, deliver, deliver_outcome,
  deliver_completed, deliver_collected, close, closing, status_of, handle_execution_failure,
  send_artifact_files,
}
use ai_employee_os.Telegram.Promises.{
  Promises, HasRefused, Fits, map_outcome-FitsReply, Settles, IsSome-eq,
}
use ai_employee_os.Telegram.Agent.{Reports, agent_on, execute_with_progress-Reports}

-- `before` may be any conversation of the same user, with the same question pending.
retarget :
    {telegram : Telegram} {a b : TelegramConversationState} {input : String} {h : Handled}
    → a.telegram_user_id ≡ b.telegram_user_id
    → a.pending_clarification ≡ b.pending_clarification
    → Settles telegram a input h
    → Settles telegram b input h
retarget u p d = record {
  user = d.user ∙ u;
  input_kept = d.input_kept;
  pending = d.pending ∙ p;
  rest = d.rest;
  fits = d.fits;
}

-- The mode that tells of an ending
abbrev pub mode_of : Ending → TelegramFlowMode
mode_of Ending.waits = TelegramFlowMode.waiting_approval
mode_of Ending.fails = TelegramFlowMode.failed
mode_of Ending.completes = TelegramFlowMode.completed

module _ (c : Collaborators) where
  closing-Fits :
      (artifacts : List Fields) (state : Fields) (status : String)
      → ((closing c artifacts state status).1 ≡ some revision_keyboard)
        ⊎ ((closing c artifacts state status).1 ≡ none)
  closing-Fits (a ∷ artifacts) state status = inl refl
  closing-Fits [] state status = ground arith

  -- The mode and the state that the result of a run leaves
  abbrev pub mode_after : Executed → TelegramFlowMode
  mode_after (broken error) = TelegramFlowMode.failed
  mode_after (ended state) = mode_of (ending_of (status_of c state))

  abbrev pub state_after : Option Fields → Executed → Option Fields
  state_after before (broken error) = before
  state_after before (ended state) = some state

  -- A handled run that has ended: it settles, and tells of its result
  abbrev Tells :
      TelegramConversationState → String → TelegramFlowMode → Option Fields → Handled → Type 0
  Tells before input mode state h =
      Settles c.telegram before input h × (h.1.flow_mode ≡ mode) × (h.1.last_agent_state ≡ state)

  close-Tells :
      (request : TelegramExecutionRequest) (done : TelegramConversationState)
      (artifacts : List Fields) (state : Fields) (status : String) (id : Option TelegramId)
      (x : Outcome (Unit {0}) × Transport)
      → done.last_user_input ≡ some request.user_input
      → done.flow_mode ≡ TelegramFlowMode.completed
      → Tells done request.user_input TelegramFlowMode.completed done.last_agent_state
          (close c request done artifacts state status id x)
  close-Tells request done artifacts state status id (raised e, t) given completed = (
    record {
      user = refl;
      input_kept = given;
      pending = refl;
      rest = subst (λ m. Promises (HasRefused c.telegram) m done) (sym completed) tt;
      fits = tt;
    },
    completed,
    refl,
  )
  close-Tells request done artifacts state status id (returned filed, t) given completed = (
    record {
      user = refl;
      input_kept = given;
      pending = refl;
      rest = subst (λ m. Promises (HasRefused c.telegram) m done) (sym completed) tt;
      fits = map_outcome-FitsReply _ _ _ _ (
          subst (λ m. Fits m (closing c artifacts state status).1) (sym completed)
            (closing-Fits artifacts state status));
    },
    completed,
    refl,
  )

  deliver_collected-Tells :
      (request : TelegramExecutionRequest) (convo : TelegramConversationState) (state : Fields)
      (status : String) (id : Option TelegramId) (o : Outcome (List Fields)) (t : Transport)
      → convo.last_user_input ≡ some request.user_input
      → Tells convo request.user_input TelegramFlowMode.completed convo.last_agent_state
          (deliver_collected c request convo state status id o t)
  deliver_collected-Tells request convo state status id (raised e) t given =
      (record { user = refl; input_kept = given; pending = refl; rest = tt; fits = tt }, refl, refl)
  deliver_collected-Tells request convo state status id (returned artifacts) t given =
      let (settles, mode, kept) =
        close-Tells request _ artifacts state status id
          (send_artifact_files c request.telegram_chat_id artifacts t) given refl in
      (retarget refl refl settles, mode, kept)

  deliver-Tells :
      (e : Ending) (request : TelegramExecutionRequest) (convo : TelegramConversationState)
      (state : Fields) (status : String) (id : Option TelegramId) (t : Transport)
      → convo.last_agent_state ≡ some state
      → convo.last_user_input ≡ some request.user_input
      → Tells convo request.user_input
          (mode_of e)
          (some state)
          (deliver c e request convo state status id t)
  unfolding deliver_completed
  deliver-Tells Ending.waits request convo state status id t known given = (
    record {
      user = refl;
      input_kept = given;
      pending = refl;
      rest = (IsSome-eq known, IsSome-eq given);
      fits = map_outcome-FitsReply _ _ _ _ refl;
    },
    refl,
    known,
  )
  deliver-Tells Ending.fails request convo state status id t known given = (
    record {
      user = refl;
      input_kept = given;
      pending = refl;
      rest = tt;
      fits = map_outcome-FitsReply _ _ _ _ refl;
    },
    refl,
    known,
  )
  deliver-Tells Ending.completes request convo state status id t known given =
      let (settles, mode, kept) =
        deliver_collected-Tells request convo state status id (c.collect_artifacts state) t given in
      (settles, mode, kept ∙ known)

  settle-Tells :
      (x : Executed) (request : TelegramExecutionRequest) (convo : TelegramConversationState)
      (id : Option TelegramId) (t : Transport)
      → convo.last_user_input ≡ some request.user_input
      → Tells convo request.user_input
          (mode_after x)
          (state_after convo.last_agent_state x)
          (settle c x request convo id t)
  unfolding handle_execution_failure deliver_outcome
  settle-Tells (broken error) request convo id t given = (
    record {
      user = refl;
      input_kept = given;
      pending = refl;
      rest = tt;
      fits = map_outcome-FitsReply _ _ _ _ refl;
    },
    refl,
    refl,
  )
  settle-Tells (ended state) request convo id t given =
      let (settles, mode, kept) =
        deliver-Tells (ending_of (status_of c state)) request _ state _ id t refl given in
      (retarget refl refl settles, mode, kept)

  -- Telegram has refused the message that tells of the progress: the exception leaves the handler,
  -- and the conversation is RUNNING.
  abbrev pub IsAbandoned : TelegramExecutionRequest → Transport → Handled → Type 0
  IsAbandoned request t h =
      (e : String) × (c.telegram.answer t.sent
          (header c.telegram request.telegram_chat_id request.telegram_message_id)
        ≡ raised e)
      × (h.0 ≡ raised e)
      × (h.1.flow_mode ≡ TelegramFlowMode.running)

  -- The agent has been run on the input, and the conversation tells of its result, or of an
  -- exception that Telegram has raised in its place.
  abbrev pub HasRun : String → Fields → Fields → TelegramConversationState → Handled → Type 0
  HasRun input context metadata before h =
      (x : Executed) × Reports c.telegram (agent_on c input context metadata) x
      × (h.1.flow_mode ≡ mode_after x)
      × (h.1.last_agent_state ≡ state_after before.last_agent_state x)

  attach-same :
      (request : TelegramExecutionRequest) (convo : TelegramConversationState) (context : Fields)
      → let new = (attach_business_client c request convo context).0 in
        (new.telegram_user_id ≡ convo.telegram_user_id)
        × (new.pending_clarification ≡ convo.pending_clarification)
        × (new.last_agent_state ≡ convo.last_agent_state)
  unfolding attach_business_client attach
  attach-same request convo context = ground arith

  run_started_lem :
      (request : TelegramExecutionRequest) (running : TelegramConversationState)
      (context metadata : Fields) (t : Transport) (o : Outcome Fields) (asked : Transport)
      → running.last_user_input ≡ some request.user_input
      → running.flow_mode ≡ TelegramFlowMode.running
      → c.telegram.answer t.sent
          (header c.telegram request.telegram_chat_id request.telegram_message_id)
        ≡ o
      → let h = run_started c request running context metadata (started_as c.telegram o asked) in
        Settles c.telegram running request.user_input h
        × (IsAbandoned request t h ⊎ HasRun request.user_input context metadata running h)
  run_started_lem request running context metadata t (raised e) asked given is_running eq = (
    record {
      user = refl;
      input_kept = given;
      pending = refl;
      rest =
          subst (λ m. Promises (HasRefused c.telegram) m running) (sym is_running)
            ((e, (t.sent, _, eq)), IsSome-eq given);
      fits = tt;
    },
    inl (e, eq, refl, is_running),
  )
  run_started_lem request running context metadata t (returned result) asked given is_running eq =
      let (settles, mode, kept) =
        settle-Tells
          (execute_with_progress c request.user_input request.telegram_chat_id _ context metadata
            _).0
          request _ _ _ given in
      (
        retarget refl refl settles,
        inr (
          _,
          execute_with_progress-Reports c request.user_input request.telegram_chat_id _ context
              metadata _,
          mode,
          kept,
        ),
      )

  pub run_execution-Settles :
      (request : TelegramExecutionRequest) (convo : TelegramConversationState) (snapshot : Snapshot)
      (t : Transport)
      → let h = run_execution c request convo snapshot t in
        let (context, metadata) = build_runtime_payload request snapshot in
        let routed = (attach_business_client c request convo context).1 in
        Settles c.telegram convo request.user_input h
        × (IsAbandoned request t h ⊎ HasRun request.user_input routed metadata convo h)
  unfolding run_execution start
  run_execution-Settles request convo snapshot t =
      let context = (build_runtime_payload request snapshot).0 in
      let (u, p, k) = attach-same request convo context in
      let (settles, ends) = run_started_lem request _ _ _ t _ _ refl refl refl in
      (
        retarget u p settles,
        elim ends [
          | inl abandoned ↦ inl abandoned
          | inr (x, reports, mode, kept) ↦ inr (
            x,
            reports,
            mode,
            subst
                (λ before.
                  (run_execution c request convo snapshot t).1.last_agent_state
                  ≡ state_after before x)
                k kept,
          )
        ],
      )
