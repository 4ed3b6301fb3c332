-- ===== src/TaskQueue/Tests.antt =====
-- A small queue, and the theorems at it.
use ai_employee_os.Common.{
  ℕ, ◌≤◌, ◌≡◌, ◌≢◌, ◌⊎◌, refl, none, some, List, length, [], ◌∷◌, arith, string_eq,
}
use ai_employee_os.Common.Dict.{lookup, insert, values}
use ai_employee_os.Common.Sorting.{sort}
use ai_employee_os.Common.Json.{end}
use ai_employee_os.TaskQueue.Models.{
  BackgroundTask, BackgroundTaskStatus, QueueState, return, raise,
}
use ai_employee_os.TaskQueue.RetryPolicy.{RetryPolicy}
use ai_employee_os.TaskQueue.Repository.{start_task}
use ai_employee_os.TaskQueue.Manager.{enqueue, dequeue, cancel, retry, mark_completed, mark_failed}
use ai_employee_os.TaskQueue.Worker.{BackgroundWorker, TaskHandler, recover, run_handler, process}
use ai_employee_os.TaskQueue.Scheduler.{
  TaskScheduler, select_worker, hand_over, assign, dispatch_next, dispatch_batch,
}
use ai_employee_os.TaskQueue.Invariant.{IsValid}
use ai_employee_os.TaskQueue.Order.{IsIdle, Chosen, dequeue_cases}
use ai_employee_os.TaskQueue.Processing.{
  as_cancelled, cancelled_meanwhile, settled, write, process_settles, process-cancelled_meanwhile,
}
use ai_employee_os.TaskQueue.Budget.{dispatch_batch-IsIdle}
use ai_employee_os.TaskQueue.History.{dequeues, retries, fails, waits, history}
use ai_employee_os.TaskQueue.Requeues.{count, times_queued_again, history-requeues}

abbrev policy : RetryPolicy
policy = record { max_retries = 1 }

abbrev task_of : ℕ → ℕ → BackgroundTask
task_of priority created_at = record {
  id = "a";
  task_type = "report";
  status = BackgroundTaskStatus.queued;
  priority = priority;
  payload = end;
  retry_count = 0;
  created_at = created_at;
  started_at = none;
  finished_at = none;
  metadata = end;
  error = none;
  result = none;
}

abbrev late : BackgroundTask
late = task_of 100 5

abbrev urgent : BackgroundTask
urgent = record (task_of 1 7) { id = "b" }

abbrev queue : QueueState
queue = record { tasks = ("a", late) ∷ ("b", urgent) ∷ []; now = 9 }

abbrev crash : TaskHandler
crash t s = (raise "boom", s)

abbrev worker : BackgroundWorker
worker = record { worker_id = "worker-1"; handlers = ("report", crash) ∷ [] }

abbrev distracted : BackgroundWorker
distracted = record {
  worker_id = "worker-2";
  handlers = ("report", cancelled_meanwhile policy crash) ∷ [];
}

abbrev scheduler : TaskScheduler
scheduler = record { workers = worker ∷ []; next_worker = 0 }

program : Unit {0}
unfolding dequeue mark_failed mark_completed retry cancel enqueue process run_handler recover
    dispatch_batch dispatch_next assign hand_over select_worker lookup insert values string_eq
    history start_task sort
program = tt

queue-IsValid : IsValid policy queue
unfolding program
queue-IsValid = record {
  nodup = (refl, (refl, tt));
  entries = ((refl, omega arith), ((refl, omega arith), tt));
}

-- The urgent task goes first, though it is younger.
dequeue-urgent :
    (dequeue queue).0
    ≡ return (some (record urgent { status = BackgroundTaskStatus.running; started_at = some 9 }))
unfolding program
dequeue-urgent = refl

-- Both tasks run twice and fail.
batch_run : (dispatch_batch policy 10 scheduler queue).1.next_worker ≡ 4
unfolding program
batch_run = refl

dequeue_cases_example :
    IsIdle queue × (dequeue queue ≡ (return none, queue)) ⊎ ((u : BackgroundTask) × Chosen queue u)
dequeue_cases_example = dequeue_cases policy queue queue-IsValid

process_settles_example : process policy worker urgent queue ≡ (
  return (settled policy 9 (raise "boom") urgent),
  write (settled policy 9 (raise "boom") urgent) queue,
)
unfolding program
process_settles_example =
    process_settles policy worker urgent queue queue crash (raise "boom") urgent refl refl refl

process-cancelled_meanwhile_example :
    (lookup "b" (cancelled_meanwhile policy crash urgent queue).1.tasks
      ≡ some (as_cancelled 9 urgent))
    × (done : BackgroundTask) × (lookup "b" (process policy distracted urgent queue).1.tasks
        ≡ some done)
    × (done.status ≢ BackgroundTaskStatus.cancelled)
unfolding program
process-cancelled_meanwhile_example =
    process-cancelled_meanwhile policy distracted urgent queue queue crash (raise "boom") urgent
      refl refl refl refl refl

dispatch_batch-IsIdle_example :
    let out = dispatch_batch policy 10 scheduler queue in
    (processed : List BackgroundTask) × (out.0 ≡ return processed)
    × (length processed ≤ 4)
    × IsIdle out.2
dispatch_batch-IsIdle_example =
    dispatch_batch-IsIdle policy 10 scheduler queue (λ e. cc) (((λ t s. refl), tt), tt)
      queue-IsValid (omega arith)

history-requeues_example :
    let calls = dequeues ∷ fails "b" "boom" ∷ waits 3 ∷ retries "b" ∷ [] in
    IsValid policy (history policy calls queue)
    × (times_queued_again policy "b" calls queue (count (lookup "b" queue.tasks))
        ≤ policy.max_retries)
history-requeues_example =
    history-requeues policy "b" (dequeues ∷ fails "b" "boom" ∷ waits 3 ∷ retries "b" ∷ []) queue
      queue-IsValid
