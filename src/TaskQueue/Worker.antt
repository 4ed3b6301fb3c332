-- ===== src/TaskQueue/Worker.antt =====
-- `BackgroundWorker` of backend/app/task_queue/worker.py.
use ai_employee_os.Common.{
  String, ◌<>◌, Bool, true, false, Option, none, some, if◌then◌else◌, string_eq,
}
use ai_employee_os.Common.Dict.{Dict, lookup, insert}
use ai_employee_os.Common.Json.{Fields}
use ai_employee_os.TaskQueue.Models.{BackgroundTask, Action, ◌>>=◌, pure, try_except}
use ai_employee_os.TaskQueue.RetryPolicy.{RetryPolicy, should_retry}
use ai_employee_os.TaskQueue.Manager.{dequeue, retry, mark_completed, mark_failed}

-- A handler runs under `await`: the state that it leaves is the one after its own effects and
-- those of the coroutines that ran meanwhile.
abbrev pub TaskHandler : Type 0
TaskHandler = BackgroundTask → Action (Option Fields)

pub record BackgroundWorker : Type 0 where
  pub worker_id : String
  pub handlers : Dict String TaskHandler

abbrev pub register : BackgroundWorker → String → TaskHandler → BackgroundWorker
register w task_type handler = record w { handlers = insert task_type handler w.handlers }

abbrev is_found {ℓ} : {A : Type ℓ} → Option A → Bool
is_found none = false
is_found (some _) = true

abbrev pub has_handler : BackgroundWorker → String → Bool
has_handler w task_type = is_found (lookup task_type w.handlers)

module _ (policy : RetryPolicy) where
  -- The `except` branch
  unfoldable pub recover : BackgroundTask → String → Action BackgroundTask
  recover task exc = do
    failed ← mark_failed task.id exc
    if should_retry policy failed then retry policy failed.id else pure failed

  unfoldable pub run_handler : Option TaskHandler → BackgroundTask → Action BackgroundTask
  run_handler none task =
      mark_failed task.id ("No handler registered for task_type=" <> task.task_type)
  run_handler (some handler) task =
      try_except (do result ← handler task; mark_completed task.id result) (λ exc. recover task exc)

  unfoldable pub process : BackgroundWorker → BackgroundTask → Action BackgroundTask
  process w task = run_handler (lookup task.task_type w.handlers) task

  process_found : BackgroundWorker → Option BackgroundTask → Action (Option BackgroundTask)
  process_found w none = pure none
  process_found w (some task) = do done ← process w task; pure (some done)

  unfoldable pub process_next : BackgroundWorker → Action (Option BackgroundTask)
  unfolding process_found
  process_next w = do task ← dequeue; process_found w task
