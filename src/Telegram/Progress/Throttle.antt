-- ===== src/Telegram/Progress/Throttle.antt =====
-- The edits of a progress message keep their distance: backend/app/adapters/telegram/progress.py.
use ai_employee_os.Common.{
  ℕ, suc, refl, ◌+◌, ◌-◌, ◌≤◌, ◌<◌, ◌≡◌, false, true, Option, List, [], ◌∷◌, if-by, if◌then◌else◌,
  arith, ltb, ◌==◌, string_eq, ==_refl, subst,
}
use ai_employee_os.Common.Dict.{lookup, lookup-insert_self}
use ai_employee_os.Common.Json.{Json, Fields}
use ai_employee_os.Telegram.Models.{TelegramId}
use ai_employee_os.Telegram.Presenter.{format_telegram_progress}
use ai_employee_os.Telegram.Progress.{
  Outcome, returned, raised, Sent, Transport, Telegram, edited_as, edit_progress, or_zero,
}

-- How often the bot has asked for an edit of the message
unfoldable pub edits_of : TelegramId → List Sent → ℕ
edits_of id [] = 0
edits_of id (Sent.edit chat_id edited text ∷ sent) =
    let before = edits_of id sent in if id == edited then suc before else before
edits_of id (_ ∷ sent) = edits_of id sent

-- An exception ends the updates.
abbrev after_outcome : Outcome TelegramId → List ℕ → List ℕ
after_outcome (raised e) rest = []
after_outcome (returned id) rest = rest

-- When the updates of one message, one after another, have asked for an edit, by the clock
unfoldable pub edit_times :
    Telegram → TelegramId → TelegramId → List (Option Json) → Transport → List ℕ
edit_times telegram chat_id id [] t = []
edit_times telegram chat_id id (progress ∷ more) t =
    let (outcome, new) = edit_progress telegram chat_id id progress false t in
    let rest = after_outcome outcome (edit_times telegram chat_id id more new) in
    if ltb (edits_of id t.sent) (edits_of id new.sent)
    then telegram.monotonic t.readings ∷ rest
    else rest

-- Each time is an interval or more after the one before it, and the first after `last`.
abbrev pub IsSpaced : ℕ → ℕ → List ℕ → Type 0
IsSpaced interval last [] = Unit
IsSpaced interval last (time ∷ times) = (last + interval ≤ time) × IsSpaced interval time times

ltb-same : (n : ℕ) → ltb n n ≡ false
ltb-same n = ground arith

ltb-suc : (n : ℕ) → ltb n (suc n) ≡ true
ltb-suc n = ground arith

late_enough :
    (interval last now : ℕ)
    → 0 < interval
    → ltb (now - last) interval ≡ false
    → last + interval ≤ now
late_enough interval last now positive late = ground (arith, late, positive)

edited-IsSpaced :
    (telegram : Telegram) (id : TelegramId) (now last before : ℕ) (o : Outcome Fields)
    (t : Transport) (times : Transport → List ℕ)
    → last + telegram.min_interval ≤ now
    → edits_of id t.sent ≡ suc before
    → ((new : Transport)
        → or_zero (lookup id new.last_sent_at) ≡ now
        → IsSpaced telegram.min_interval now (times new))
    → let x = edited_as telegram id now o t in
      IsSpaced telegram.min_interval last (
        if ltb before (edits_of id x.1.sent)
        then now ∷ after_outcome x.0 (times x.1)
        else after_outcome x.0 (times x.1))
edited-IsSpaced telegram id now last before (raised e) t times late one_more next =
    rw (one_more, ltb-suc before) (late, tt)
edited-IsSpaced telegram id now last before (returned result) t times late one_more next =
    rw (one_more, ltb-suc before)
      (late, next _ (rw (lookup-insert_self id now t.last_sent_at) refl))

-- Each edit of a progress message that an update asks for comes an interval of the throttle or more
-- after the one before it, and the first of them after the time noted for the message, which is 0
-- for a message just started; after an exception of the sender's there is none. The interval is not
-- 0, and the updates are those of a run under way: the last edit of a run, `finalize`, and the one
-- that dismisses it are not throttled.
pub edit_times-IsSpaced :
    (telegram : Telegram) (chat_id id : TelegramId) (updates : List (Option Json)) (t : Transport)
    → 0 < telegram.min_interval
    → IsSpaced telegram.min_interval
        (or_zero (lookup id t.last_sent_at))
        (edit_times telegram chat_id id updates t)
unfolding edit_times edit_progress edits_of
edit_times-IsSpaced telegram chat_id id [] t positive = tt
edit_times-IsSpaced telegram chat_id id (progress ∷ more) t positive =
    let now = telegram.monotonic t.readings in
    let last = or_zero (lookup id t.last_sent_at) in
    let times : Transport → List ℕ = λ new. edit_times telegram chat_id id more new in
    let request = Sent.edit chat_id id (format_telegram_progress telegram.repr progress) in
    let asked = record t { readings = suc t.readings; sent = request ∷ t.sent } in
    let answer = telegram.answer t.sent request in
    if-by
      (λ (x : Outcome TelegramId × Transport). IsSpaced telegram.min_interval last (
        if ltb (edits_of id t.sent) (edits_of id x.1.sent)
        then now ∷ after_outcome x.0 (times x.1)
        else after_outcome x.0 (times x.1)))
      (ltb (now - last) telegram.min_interval)
      {x = (returned id, record t { readings = suc t.readings })}
      {y = edited_as telegram id now answer asked}
      (λ early. rw (ltb-same (edits_of id t.sent)) (
        edit_times-IsSpaced telegram chat_id id more (record t { readings = suc t.readings })
          positive))
      (λ late.
        edited-IsSpaced telegram id now last (edits_of id t.sent) answer asked times
          (late_enough telegram.min_interval last now positive late) (rw (==_refl id) refl)
          (λ new noted.
            subst (λ a. IsSpaced telegram.min_interval a (times new)) noted
              (edit_times-IsSpaced telegram chat_id id more new positive)))
