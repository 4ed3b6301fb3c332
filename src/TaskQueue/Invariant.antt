-- ===== src/TaskQueue/Invariant.antt =====
-- The entries of the queue's dict stay under their own ids, with a bounded retry count.
use ai_employee_os.Common.{
  ℕ, ◌≤◌, String, ◌≡◌, refl, sym, inl, inr, Option, some, List, [], ◌∷◌, arith, All, All-select,
  string_eq, Option-cases,
}
use ai_employee_os.Common.Dict.{
  Dict, lookup, insert, values, NodupKeys, insert-NodupKeys, All-insert, All-lookup,
}
use ai_employee_os.Common.Json.{Fields}
use ai_employee_os.Common.Sorting.{All-sort}
use ai_employee_os.TaskQueue.Models.{
  Uuid, BackgroundTask, BackgroundTaskStatus, QueueState, Action, ◌>>=◌,
}
use ai_employee_os.TaskQueue.RetryPolicy.{RetryPolicy}
use ai_employee_os.TaskQueue.Repository.{save, start_task, queued_tasks}
use ai_employee_os.TaskQueue.Manager.{
  require_task, give_up, requeue, enqueue, dequeue, cancel, retry, mark_completed, mark_failed,
}

module _ (policy : RetryPolicy) where
  abbrev pub IsEntry : Uuid × BackgroundTask → Type 0
  IsEntry (k, t) = (k ≡ t.id) × (t.retry_count ≤ policy.max_retries)

  pub record IsValid (s : QueueState) : Type 0 where
    pub nodup : NodupKeys s.tasks
    pub entries : All IsEntry s.tasks

  pub save-IsValid :
      (t : BackgroundTask) (s : QueueState)
      → t.retry_count ≤ policy.max_retries
      → IsValid s
      → IsValid (save t s).1
  unfolding save
  save-IsValid t s bound v = record {
    nodup = insert-NodupKeys t.id t s.tasks v.nodup;
    entries = All-insert IsEntry t.id t s.tasks (refl, bound) v.entries;
  }

  pub insert-IsValid :
      (id : Uuid) (t : BackgroundTask) (s s' : QueueState)
      → t.id ≡ id
      → t.retry_count ≤ policy.max_retries
      → s'.tasks ≡ insert id t s.tasks
      → IsValid s
      → IsValid s'
  insert-IsValid id t s s' same bound e v = record {
    nodup = rw e (insert-NodupKeys id t s.tasks v.nodup);
    entries = rw e (All-insert IsEntry id t s.tasks (sym same, bound) v.entries);
  }

  -- A method that reads its task first keeps validity if it does so where the task is there.
  require_keeps :
      {A : Type 0} (f : BackgroundTask → Action A) (id : Uuid) (s : QueueState)
      → ((t : BackgroundTask) → t.retry_count ≤ policy.max_retries → IsValid (f t s).1)
      → IsValid s
      → IsValid ((require_task id >>= f) s).1
  unfolding require_task
  require_keeps f id s keeps v = elim (Option-cases (lookup id s.tasks)) [
    | inl missing ↦ rw (missing, require_task) v
    | inr (t, there) ↦
        rw (there, require_task) (keeps t (All-lookup IsEntry id t s.tasks v.entries there).1)
  ]

  pub mark_failed-IsValid :
      (id : Uuid) (e : String) (s : QueueState) → IsValid s → IsValid (mark_failed id e s).1
  unfolding mark_failed
  mark_failed-IsValid id e s v = require_keeps _ id s (λ t bound. save-IsValid _ s bound v) v

  pub mark_completed-IsValid :
      (id : Uuid) (r : Option Fields) (s : QueueState)
      → IsValid s
      → IsValid (mark_completed id r s).1
  unfolding mark_completed
  mark_completed-IsValid id r s v = require_keeps _ id s (λ t bound. save-IsValid _ s bound v) v

  pub cancel-IsValid : (id : Uuid) (s : QueueState) → IsValid s → IsValid (cancel id s).1
  unfolding cancel
  cancel-IsValid id s v =
      require_keeps _ id s
        (λ t bound. ground (
          arith,
          v,
          save-IsValid
              (record t { status = BackgroundTaskStatus.cancelled; finished_at = some s.now }) s
              bound v,
        ))
        v

  pub retry-IsValid : (id : Uuid) (s : QueueState) → IsValid s → IsValid (retry policy id s).1
  unfolding retry
  retry-IsValid id s v =
      require_keeps _ id s
        (λ t bound.
          ground
            (arith, save-IsValid (give_up s.now t) s bound v, save-IsValid (requeue policy t) s))
        v

  pub enqueue-IsValid :
      (ty : String) (payload : Option Fields) (priority : ℕ) (metadata : Option Fields)
      (id : Option Uuid) (fresh : Uuid) (s : QueueState)
      → IsValid s
      → IsValid (enqueue ty payload priority metadata id fresh s).1
  unfolding enqueue
  enqueue-IsValid ty payload priority metadata id fresh s v = save-IsValid _ s (omega arith) v

  All-values :
      (d : Dict Uuid BackgroundTask)
      → All IsEntry d
      → All (λ t. t.retry_count ≤ policy.max_retries) (values d)
  unfolding values
  All-values [] h = tt
  All-values (e ∷ d) h = (h.0.1, All-values d h.1)

  pub dequeue-IsValid : (s : QueueState) → IsValid s → IsValid (dequeue s).1
  unfolding dequeue
  dequeue-IsValid s v =
      start (queued_tasks s) (All-sort _ _ _ (All-select _ _ _ (All-values s.tasks v.entries)))
    where
      start :
          (l : List BackgroundTask)
          → All (λ t. t.retry_count ≤ policy.max_retries) l
          → IsValid (start_task l s).1
      start [] h = v
      start (t ∷ _) h = save-IsValid _ s h.0 v
