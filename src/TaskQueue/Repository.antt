-- ===== src/TaskQueue/Repository.antt =====
-- `InMemoryTaskQueueRepository` of backend/app/task_queue/repositories/task_queue_repository.py.
-- A method that changes a task changes the object in the dict: here it writes the entry anew.
use ai_employee_os.Common.{
  ℕ, Bool, ◌||◌, ◌&&◌, Option, none, some, List, [], ◌∷◌, ltb, leb, eqb, string_eq, select, take,
}
use ai_employee_os.Common.Dict.{lookup, insert, values}
use ai_employee_os.Common.Sorting.{sort}
use ai_employee_os.TaskQueue.Models.{
  Uuid, BackgroundTask, BackgroundTaskStatus, is_queued, QueueState, return, Action, ◌>>=◌, pure,
  datetime_now,
}

unfoldable pub save : BackgroundTask → Action BackgroundTask
save task s = (return task, record s { tasks = insert task.id task s.tasks })

unfoldable pub get : Uuid → Action (Option BackgroundTask)
get task_id s = (return (lookup task_id s.tasks), s)

-- `key=lambda task: (task.priority, task.created_at)`: tuples compare from the left.
abbrev pub key_le : BackgroundTask → BackgroundTask → Bool
key_le a b =
    ltb a.priority b.priority || (eqb a.priority b.priority && leb a.created_at b.created_at)

abbrev pub queued_tasks : QueueState → List BackgroundTask
queued_tasks s = sort key_le (select (λ t. is_queued t.status) (values s.tasks))

-- `queued[0]`, marked and written back
unfoldable pub start_task : List BackgroundTask → Action (Option BackgroundTask)
unfolding save
start_task [] = pure none
start_task (task ∷ _) = do
  now ← datetime_now
  started ← save (record task { status = BackgroundTaskStatus.running; started_at = some now })
  pure (some started)

unfoldable pub dequeue_next : Action (Option BackgroundTask)
unfolding start_task
dequeue_next s = start_task (queued_tasks s) s

unfoldable pub list_by_status : (BackgroundTaskStatus → Bool) → ℕ → Action (List BackgroundTask)
list_by_status statuses limit s =
    (return (take limit (sort key_le (select (λ t. statuses t.status) (values s.tasks)))), s)
