-- ===== src/TaskQueue/Scheduler.antt =====
-- `TaskScheduler` of backend/app/task_queue/scheduler.py. Its workers share its queue manager.
use ai_employee_os.Common.{
  ℕ, zero, suc, ◌+◌, ◌%◌, Option, none, some, List, [], ◌∷◌, ◌++◌, length, select, get_elem?,
}
use ai_employee_os.TaskQueue.Models.{BackgroundTask, QueueState, Result, return, raise}
use ai_employee_os.TaskQueue.RetryPolicy.{RetryPolicy}
use ai_employee_os.TaskQueue.Manager.{dequeue, retry}
use ai_employee_os.TaskQueue.Worker.{BackgroundWorker, has_handler, process}

pub record TaskScheduler : Type 0 where
  pub workers : List BackgroundWorker
  pub next_worker : ℕ

abbrev pub register_worker : TaskScheduler → BackgroundWorker → TaskScheduler
register_worker sched w = record sched { workers = sched.workers ++ (w ∷ []) }

-- `capable or self._workers`
abbrev pub or_all : List BackgroundWorker → List BackgroundWorker → List BackgroundWorker
or_all [] everyone = everyone
or_all (w ∷ ws) everyone = w ∷ ws

abbrev pub pool_for : TaskScheduler → BackgroundTask → List BackgroundWorker
pool_for sched task =
    or_all (select (λ w. has_handler w task.task_type) sched.workers) sched.workers

-- `pool[self._next_worker % len(pool)]`, with no worker where there is none
unfoldable pub select_worker :
    TaskScheduler → BackgroundTask → Option BackgroundWorker × TaskScheduler
select_worker sched task = elim sched.workers [
  | [] ↦ (none, sched)
  | _ ∷ _ ↦
      let pool = pool_for sched task in
      (
        get_elem? pool (sched.next_worker % length pool),
        record sched { next_worker = sched.next_worker + 1 },
      )
]

abbrev pub Outcome : Type 0 → Type 0
Outcome A = Result A × TaskScheduler × QueueState

module _ (policy : RetryPolicy) where
  requeued : TaskScheduler → Result BackgroundTask × QueueState → Outcome (Option BackgroundTask)
  requeued sched (raise e, s) = (raise e, sched, s)
  requeued sched (return task, s) = (return none, sched, s)

  finished : TaskScheduler → Result BackgroundTask × QueueState → Outcome (Option BackgroundTask)
  finished sched (raise e, s) = (raise e, sched, s)
  finished sched (return task, s) = (return (some task), sched, s)

  unfoldable pub hand_over :
      Option BackgroundWorker
      → BackgroundTask
      → TaskScheduler
      → QueueState
      → Outcome (Option BackgroundTask)
  unfolding requeued finished
  hand_over none task sched s = requeued sched (retry policy task.id s)
  hand_over (some w) task sched s = finished sched (process policy w task s)

  unfoldable pub assign :
      TaskScheduler → Result (Option BackgroundTask) × QueueState → Outcome (Option BackgroundTask)
  assign sched (raise e, s) = (raise e, sched, s)
  assign sched (return none, s) = (return none, sched, s)
  assign sched (return (some task), s) =
      let (worker, sched') = select_worker sched task in hand_over worker task sched' s

  unfoldable pub dispatch_next : TaskScheduler → QueueState → Outcome (Option BackgroundTask)
  unfolding assign
  dispatch_next sched s = elim sched.workers [
    | [] ↦ (return none, sched, s)
    | _ ∷ _ ↦ assign sched (dequeue s)
  ]

  -- `limit` rounds, of which `break` drops the rest; `processed` is the list so far.
  unfoldable pub dispatch_from :
      ℕ → List BackgroundTask → TaskScheduler → QueueState → Outcome (List BackgroundTask)
  dispatch_from zero processed sched s = (return processed, sched, s)
  dispatch_from (suc limit) processed sched s =
      let (r, sched', s') = dispatch_next sched s in
      elim r [
        | raise e ↦ (raise e, sched', s')
        | return none ↦ (return processed, sched', s')
        | return (some task) ↦ dispatch_from limit (processed ++ (task ∷ [])) sched' s'
      ]

  unfoldable pub dispatch_batch : ℕ → TaskScheduler → QueueState → Outcome (List BackgroundTask)
  unfolding dispatch_from
  dispatch_batch limit sched s = dispatch_from limit [] sched s
