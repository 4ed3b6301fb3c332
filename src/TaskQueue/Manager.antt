-- ===== src/TaskQueue/Manager.antt =====
-- `TaskQueueManager` of backend/app/task_queue/manager.py, over the in-memory repository.
use ai_employee_os.Common.{
  ℕ, String, ◌<>◌, Option, none, some, List, if◌then◌else◌, ◌==◌, string_eq, not,
}
use ai_employee_os.Common.Json.{Fields, end}
use ai_employee_os.TaskQueue.Models.{
  Uuid, BackgroundTask, BackgroundTaskStatus, is_completed_or_cancelled, is_active, Action, ◌>>=◌,
  pure, throw, datetime_now,
}
use ai_employee_os.TaskQueue.RetryPolicy.{RetryPolicy, should_retry, next_retry_count}
use ai_employee_os.TaskQueue.Repository.{save, get, dequeue_next, list_by_status}

-- `a or b` at an optional value.
abbrev pub or_default {ℓ} : {A : Type ℓ} → Option A → A → A
or_default none d = d
or_default (some a) d = a

-- `fresh` is the value that `uuid4()` would return.
unfoldable pub enqueue :
    String
    → Option Fields
    → ℕ
    → Option Fields
    → Option Uuid
    → (fresh : Uuid) → Action BackgroundTask
unfolding save
enqueue task_type payload priority metadata task_id fresh = do
  now ← datetime_now
  save (record {
    id = or_default task_id fresh;
    task_type = task_type;
    status = BackgroundTaskStatus.queued;
    priority = priority;
    payload = or_default payload end;
    retry_count = 0;
    created_at = now;
    started_at = none;
    finished_at = none;
    metadata = or_default metadata end;
    error = none;
    result = none;
  })

unfoldable pub dequeue : Action (Option BackgroundTask)
unfolding dequeue_next
dequeue = dequeue_next

found : Uuid → Option BackgroundTask → Action BackgroundTask
found task_id none = throw ("Background task not found: " <> task_id)
found task_id (some task) = pure task

-- `_require`
unfoldable pub require_task : Uuid → Action BackgroundTask
unfolding get found
require_task task_id = do task ← get task_id; found task_id task

unfoldable pub cancel : Uuid → Action BackgroundTask
unfolding require_task save
cancel task_id = do
  task ← require_task task_id
  now ← datetime_now
  if is_completed_or_cancelled task.status
      then pure task
      else save (record task { status = BackgroundTaskStatus.cancelled; finished_at = some now })

-- `task.error or "…"`: an empty text counts as none.
abbrev or_text : Option String → String → String
or_text none d = d
or_text (some e) d = if e == "" then d else e

abbrev pub give_up : ℕ → BackgroundTask → BackgroundTask
give_up now task = record task {
  status = BackgroundTaskStatus.failed;
  finished_at = some now;
  error = some (or_text task.error "Retry limit exceeded");
}

abbrev pub requeue : RetryPolicy → BackgroundTask → BackgroundTask
requeue policy task = record task {
  retry_count = next_retry_count policy task;
  status = BackgroundTaskStatus.queued;
  started_at = none;
  finished_at = none;
  error = none;
  result = none;
}

unfoldable pub retry : RetryPolicy → Uuid → Action BackgroundTask
unfolding require_task save
retry policy task_id = do
  task ← require_task task_id
  now ← datetime_now
  if not (should_retry policy task) then save (give_up now task) else save (requeue policy task)

unfoldable pub mark_completed : Uuid → Option Fields → Action BackgroundTask
unfolding require_task save
mark_completed task_id result = do
  task ← require_task task_id
  now ← datetime_now
  save (record task {
    status = BackgroundTaskStatus.completed;
    finished_at = some now;
    result = result;
    error = none;
  })

unfoldable pub mark_failed : Uuid → String → Action BackgroundTask
unfolding require_task save
mark_failed task_id error = do
  task ← require_task task_id
  now ← datetime_now
  save (record task {
    status = BackgroundTaskStatus.failed;
    finished_at = some now;
    error = some error;
  })

unfoldable pub list_active : ℕ → Action (List BackgroundTask)
unfolding list_by_status
list_active limit = list_by_status is_active limit
