-- ===== src/Telegram/Agent.antt =====
-- What the agent makes of an input, without Telegram, and that a run of `_execute_with_progress` ends
-- in it or in an exception of Telegram's: backend/app/adapters/telegram/flow.py.
use ai_employee_os.Common.{
  ℕ, suc, String, ◌≡◌, refl, subst, ap, Bool, Option, none, some, List, [], ◌∷◌, ◌⊎◌, inl, inr,
  if-both,
}
use ai_employee_os.Common.Json.{Json, Fields, end, field, get_field, is_truthy}
use ai_employee_os.Telegram.Models.{TelegramId}
use ai_employee_os.Telegram.Presenter.{format_telegram_progress}
use ai_employee_os.Telegram.Progress.{
  Outcome, returned, raised, map_outcome, Sent, Transport, Telegram, header, started_as, start,
  edited_as, edit_progress, edit_started, maybe_update, finalize,
}
use ai_employee_os.Telegram.Collaborators.{
  RunError, other_error, Executed, ended, broken, Collaborators,
}
use ai_employee_os.Telegram.Execution.{
  merge_state, Streaming, take_update, take_updates, take_events, finalized, finish_executed,
  finish_stream, execute_with_progress,
}

-- The sender has raised this exception for some message.
abbrev pub Refused : Telegram → String → Type 0
Refused telegram e =
    (before : List Sent) × (request : Sent) × (telegram.answer before request ≡ raised e)

-- The state that the updates of a run add up to
abbrev pub after_update : Json → Option Fields → Option Fields
after_update (Json.object update) state = some (merge_state state update)
after_update _ state = state

abbrev pub after_updates_of : Fields → Option Fields → Option Fields
after_updates_of end state = state
after_updates_of (field node update rest) state = after_updates_of rest (after_update update state)

abbrev pub after_events : List Json → Option Fields → Option Fields
after_events [] state = state
after_events (Json.object updates ∷ events) state =
    after_events events (after_updates_of updates state)
after_events (_ ∷ events) state = after_events events state

abbrev pub agent_result : Option RunError → Option Fields → Executed → Executed
agent_result (some error) state executed = broken error
agent_result none (some state) executed = ended state
agent_result none none executed = executed

-- The result of the agent on an input: the exception that ends the stream, what its updates add up
-- to, or what `runtime.execute` makes of it where there are none.
abbrev pub agent_on : Collaborators → String → Fields → Fields → Executed
agent_on c input context metadata =
    let run = c.stream input context metadata in
    agent_result run.failure (after_events run.events none) (c.execute input context metadata)

-- The agent's result, or an exception of the sender's in its place
abbrev pub Reports : Telegram → Executed → Executed → Type 0
Reports telegram result x =
    (x ≡ result) ⊎ ((e : String) × Refused telegram e × (x ≡ broken (other_error e)))

abbrev OnlyRefused {ℓ} : {A : Type ℓ} → Telegram → Outcome A → Type 0
OnlyRefused telegram (returned a) = Unit
OnlyRefused telegram (raised e) = Refused telegram e

map_outcome-OnlyRefused {ℓ κ} :
    {A : Type ℓ} {B : Type κ} (telegram : Telegram) (f : A → B) (o : Outcome A)
    → OnlyRefused telegram o
    → OnlyRefused telegram (map_outcome f o)
map_outcome-OnlyRefused telegram f (returned a) h = tt
map_outcome-OnlyRefused telegram f (raised e) h = h

module _ (telegram : Telegram) where
  started_as-OnlyRefused :
      (o : Outcome Fields) (t : Transport)
      → ((e : String) → o ≡ raised e → Refused telegram e)
      → OnlyRefused telegram (started_as telegram o t).0
  started_as-OnlyRefused (returned result) t h = tt
  started_as-OnlyRefused (raised e) t h = h e refl

  start-OnlyRefused :
      (chat_id : TelegramId) (reply_to : Option TelegramId) (t : Transport)
      → OnlyRefused telegram (start telegram chat_id reply_to t).0
  unfolding start
  start-OnlyRefused chat_id reply_to t =
      let request = header telegram chat_id reply_to in
      started_as-OnlyRefused (telegram.answer t.sent request) (record t { sent = request ∷ t.sent })
        (λ e eq. (t.sent, request, eq))

  edited_as-OnlyRefused :
      (id : TelegramId) (now : ℕ) (o : Outcome Fields) (t : Transport)
      → ((e : String) → o ≡ raised e → Refused telegram e)
      → OnlyRefused telegram (edited_as telegram id now o t).0
  edited_as-OnlyRefused id now (returned result) t h = tt
  edited_as-OnlyRefused id now (raised e) t h = h e refl

  edit_progress-OnlyRefused :
      (chat_id id : TelegramId) (progress : Option Json) (final : Bool) (t : Transport)
      → OnlyRefused telegram (edit_progress telegram chat_id id progress final t).0
  unfolding edit_progress
  edit_progress-OnlyRefused chat_id id progress final t =
      let now = telegram.monotonic t.readings in
      let request = Sent.edit chat_id id (format_telegram_progress telegram.repr progress) in
      let answer = telegram.answer t.sent request in
      let asked = record t { readings = suc t.readings; sent = request ∷ t.sent } in
      if-both (λ (x : Outcome TelegramId × Transport). OnlyRefused telegram x.0) _
        {x = (returned id, record t { readings = suc t.readings })}
        {y = edited_as telegram id now answer asked} tt
        (edited_as-OnlyRefused id now answer asked (λ e eq. (t.sent, request, eq)))

  edit_started-OnlyRefused :
      (chat_id : TelegramId) (progress : Option Json) (final : Bool)
      (x : Outcome (Option TelegramId) × Transport)
      → OnlyRefused telegram x.0
      → OnlyRefused telegram (edit_started telegram chat_id progress final x).0
  edit_started-OnlyRefused chat_id progress final (raised e, t) h = h
  edit_started-OnlyRefused chat_id progress final (returned none, t) h = tt
  edit_started-OnlyRefused chat_id progress final (returned (some id), t) h =
      map_outcome-OnlyRefused telegram _ _ (edit_progress-OnlyRefused chat_id id progress final t)

  maybe_update-OnlyRefused :
      (chat_id : TelegramId) (id : Option TelegramId) (progress : Option Json) (final : Bool)
      (t : Transport)
      → OnlyRefused telegram (maybe_update telegram chat_id id progress final t).0
  unfolding maybe_update
  maybe_update-OnlyRefused chat_id none progress final t =
      edit_started-OnlyRefused chat_id progress final _ (start-OnlyRefused chat_id none t)
  maybe_update-OnlyRefused chat_id (some id) progress final t =
      edit_started-OnlyRefused chat_id progress final (returned (some id), t) tt

  finalize-OnlyRefused :
      (chat_id : TelegramId) (id : Option TelegramId) (progress : Option Json) (t : Transport)
      → OnlyRefused telegram (finalize telegram chat_id id progress t).0
  unfolding finalize
  finalize-OnlyRefused chat_id none progress t = tt
  finalize-OnlyRefused chat_id (some id) progress t =
      map_outcome-OnlyRefused telegram _ _ (maybe_update-OnlyRefused chat_id (some id) progress _ t)

module _ (c : Collaborators) where
  -- The loop has this state, or has ended with an exception of the sender's.
  abbrev Carries : Option Fields → Streaming c → Type 0
  Carries state (returned (id, last, merged), t) = merged ≡ state
  Carries state (raised e, t) = Refused c.telegram e

  edited-Carries :
      (state : Option Fields) (progress : Option Json) (o : Outcome (Option TelegramId))
      (t : Transport)
      → OnlyRefused c.telegram o
      → Carries state (map_outcome (λ new. (new, progress, state)) o, t)
  edited-Carries state progress (returned id) t h = refl
  edited-Carries state progress (raised e) t h = h

  take_update-Carries :
      (chat_id : TelegramId) (update : Json) (state : Option Fields) (s : Streaming c)
      → Carries state s
      → Carries (after_update update state) (take_update c chat_id update s)
  unfolding take_update
  take_update-Carries chat_id (Json.object update) state (returned (id, last, merged), t) h =
      if-both (λ (x : Streaming c). Carries (some (merge_state state update)) x)
        (is_truthy (get_field "telegram_progress" update))
        (rw h (
          edited-Carries (some (merge_state state update)) _ _ _
            (maybe_update-OnlyRefused c.telegram chat_id id _ _ t)))
        (ap (λ m. some (merge_state m update)) h)
  take_update-Carries chat_id (Json.object update) state (raised e, t) h = h
  take_update-Carries chat_id Json.null state s h = h
  take_update-Carries chat_id (Json.boolean b) state s h = h
  take_update-Carries chat_id (Json.number n) state s h = h
  take_update-Carries chat_id (Json.string x) state s h = h
  take_update-Carries chat_id (Json.array items) state s h = h

  take_updates-Carries :
      (chat_id : TelegramId) (updates : Fields) (state : Option Fields) (s : Streaming c)
      → Carries state s
      → Carries (after_updates_of updates state) (take_updates c chat_id updates s)
  take_updates-Carries chat_id end state s h = h
  take_updates-Carries chat_id (field node update rest) state s h =
      take_updates-Carries chat_id rest (after_update update state) _
        (take_update-Carries chat_id update state s h)

  take_events-Carries :
      (chat_id : TelegramId) (events : List Json) (state : Option Fields) (s : Streaming c)
      → Carries state s
      → Carries (after_events events state) (take_events c chat_id events s)
  take_events-Carries chat_id [] state s h = h
  take_events-Carries chat_id (Json.object updates ∷ events) state s h =
      take_events-Carries chat_id events (after_updates_of updates state) _
        (take_updates-Carries chat_id updates state s h)
  take_events-Carries chat_id (Json.null ∷ events) state s h =
      take_events-Carries chat_id events state s h
  take_events-Carries chat_id (Json.boolean b ∷ events) state s h =
      take_events-Carries chat_id events state s h
  take_events-Carries chat_id (Json.number n ∷ events) state s h =
      take_events-Carries chat_id events state s h
  take_events-Carries chat_id (Json.string x ∷ events) state s h =
      take_events-Carries chat_id events state s h
  take_events-Carries chat_id (Json.array items ∷ events) state s h =
      take_events-Carries chat_id events state s h

  finalized-Reports :
      (state : Fields) (x : Outcome (Unit {0}) × Transport)
      → OnlyRefused c.telegram x.0
      → Reports c.telegram (ended state) (finalized c state x).0
  finalized-Reports state (returned done, t) h = inl refl
  finalized-Reports state (raised e, t) h = inr (e, h, refl)

  finish_executed-Reports :
      (chat_id : TelegramId) (id : Option TelegramId) (x : Executed) (t : Transport)
      → Reports c.telegram x (finish_executed c chat_id id x t).0
  finish_executed-Reports chat_id id (broken error) t = inl refl
  finish_executed-Reports chat_id id (ended state) t =
      finalized-Reports state _ (finalize-OnlyRefused c.telegram chat_id id _ t)

  finish_stream-Reports :
      (chat_id : TelegramId) (input : String) (context metadata : Fields)
      (failure : Option RunError) (state : Option Fields) (s : Streaming c)
      → Carries state s
      → Reports c.telegram
          (agent_result failure state (c.execute input context metadata))
          (finish_stream c chat_id input context metadata failure s).0
  unfolding finish_stream
  finish_stream-Reports chat_id input context metadata failure state (raised e, t) h =
      inr (e, h, refl)
  finish_stream-Reports chat_id input context metadata (some error) state
        (returned (id, last, merged), t) h =
      inl refl
  finish_stream-Reports chat_id input context metadata none (some state)
        (returned (id, last, some merged), t) h =
      subst
        (λ o.
          Reports c.telegram (agent_result none o (c.execute input context metadata))
            (finalized c merged (finalize c.telegram chat_id id last t)).0)
        h (finalized-Reports merged _ (finalize-OnlyRefused c.telegram chat_id id last t))
  finish_stream-Reports chat_id input context metadata none none (returned (id, last, none), t) h =
      finish_executed-Reports chat_id id _ t
  finish_stream-Reports chat_id input context metadata none none
        (returned (id, last, some merged), t) h =
      cc
  finish_stream-Reports chat_id input context metadata none (some state)
        (returned (id, last, none), t) h =
      cc

  -- Whatever Telegram answers, the run ends in the agent's result on the input, or in an exception
  -- of the sender's.
  pub execute_with_progress-Reports :
      (input : String) (chat_id : TelegramId) (id : Option TelegramId) (context metadata : Fields)
      (t : Transport)
      → Reports c.telegram
          (agent_on c input context metadata)
          (execute_with_progress c input chat_id id context metadata t).0
  unfolding execute_with_progress
  execute_with_progress-Reports input chat_id id context metadata t =
      let run = c.stream input context metadata in
      finish_stream-Reports chat_id input context metadata run.failure
        (after_events run.events none) _
        (take_events-Carries chat_id run.events none (returned (id, none, none), t) refl)
