-- ===== src/TaskQueue/History.antt =====
-- Any history of calls of the queue's manager, while the clock runs.
use ai_employee_os.Common.{ℕ, ◌+◌, String, Option, List, [], ◌∷◌, string_eq}
use ai_employee_os.Common.Json.{Fields}
use ai_employee_os.TaskQueue.Models.{Uuid, QueueState}
use ai_employee_os.TaskQueue.RetryPolicy.{RetryPolicy}
use ai_employee_os.TaskQueue.Manager.{enqueue, dequeue, cancel, retry, mark_completed, mark_failed}
use ai_employee_os.TaskQueue.Invariant.{
  IsValid, enqueue-IsValid, dequeue-IsValid, cancel-IsValid, retry-IsValid, mark_completed-IsValid,
  mark_failed-IsValid,
}

pub data Call : Type 0 where
  enqueues : String → Option Fields → ℕ → Option Fields → Option Uuid → (fresh : Uuid) → Call
  dequeues : Call
  cancels retries : Uuid → Call
  completes : Uuid → Option Fields → Call
  fails : Uuid → String → Call
  waits : ℕ → Call

module _ (policy : RetryPolicy) where
  unfoldable pub perform : QueueState → Call → QueueState
  perform s (enqueues ty payload priority metadata id fresh) =
      (enqueue ty payload priority metadata id fresh s).1
  perform s dequeues = (dequeue s).1
  perform s (cancels id) = (cancel id s).1
  perform s (retries id) = (retry policy id s).1
  perform s (completes id result) = (mark_completed id result s).1
  perform s (fails id error) = (mark_failed id error s).1
  perform s (waits time) = record s { now = s.now + time }

  unfoldable pub history : List Call → QueueState → QueueState
  unfolding perform
  history [] s = s
  history (c ∷ cs) s = history cs (perform s c)

  pub perform-IsValid :
      (c : Call) (s : QueueState) → IsValid policy s → IsValid policy (perform s c)
  unfolding perform
  perform-IsValid (enqueues ty payload priority metadata id fresh) s v =
      enqueue-IsValid policy ty payload priority metadata id fresh s v
  perform-IsValid dequeues s v = dequeue-IsValid policy s v
  perform-IsValid (cancels id) s v = cancel-IsValid policy id s v
  perform-IsValid (retries id) s v = retry-IsValid policy id s v
  perform-IsValid (completes id result) s v = mark_completed-IsValid policy id result s v
  perform-IsValid (fails id error) s v = mark_failed-IsValid policy id error s v
  perform-IsValid (waits time) s v = record { nodup = v.nodup; entries = v.entries }

  -- After any calls of the manager every task of a valid queue stands once, under its own id,
  -- and has a retry count that the policy allows.
  pub history-IsValid :
      (cs : List Call) (s : QueueState) → IsValid policy s → IsValid policy (history cs s)
  unfolding history
  history-IsValid [] s v = v
  history-IsValid (c ∷ cs) s v = history-IsValid cs (perform s c) (perform-IsValid c s v)
