-- ===== src/TaskQueue/Processing.antt =====
-- What a worker makes of a task, on every branch, and of a task that is cancelled meanwhile.
use ai_employee_os.Common.{
  ℕ, ◌+◌, String, ◌<>◌, ◌≡◌, ◌≢◌, refl, ◌∙◌, subst, true, false, inl, inr, Option, none, some,
  arith, All, ltb, if◌then◌else◌, string_eq, Option-cases, Bool-cases,
}
use ai_employee_os.Common.Dict.{lookup, insert, lookup-insert_self, insert-insert, All-lookup}
use ai_employee_os.Common.Json.{Fields}
use ai_employee_os.TaskQueue.Models.{
  Uuid, BackgroundTask, BackgroundTaskStatus, QueueState, Result, return, raise,
  is_completed_or_cancelled, and_then, and_then_keeps, or_handle_keeps,
}
use ai_employee_os.TaskQueue.RetryPolicy.{RetryPolicy, should_retry}
use ai_employee_os.TaskQueue.Manager.{requeue, cancel, retry, mark_completed, mark_failed}
use ai_employee_os.TaskQueue.Worker.{BackgroundWorker, TaskHandler, recover, run_handler, process}
use ai_employee_os.TaskQueue.Invariant.{
  IsValid, mark_failed-IsValid, mark_completed-IsValid, retry-IsValid,
}

abbrev pub write : BackgroundTask → QueueState → QueueState
write t s = record s { tasks = insert t.id t s.tasks }

lookup-write :
    (t : BackgroundTask) (s : QueueState) (id : Uuid)
    → t.id ≡ id
    → lookup id (write t s).tasks ≡ some t
lookup-write t s id same =
    subst (λ k. lookup k (write t s).tasks ≡ some t) same (lookup-insert_self t.id t s.tasks)

abbrev pub as_completed : ℕ → Option Fields → BackgroundTask → BackgroundTask
as_completed now r t = record t {
  status = BackgroundTaskStatus.completed;
  finished_at = some now;
  result = r;
  error = none;
}

abbrev pub as_failed : ℕ → String → BackgroundTask → BackgroundTask
as_failed now e t = record t {
  status = BackgroundTaskStatus.failed;
  finished_at = some now;
  error = some e;
}

-- Queued once more: one retry counted, and nothing left of the attempt
abbrev pub as_queued_again : BackgroundTask → BackgroundTask
as_queued_again t = record t {
  retry_count = t.retry_count + 1;
  status = BackgroundTaskStatus.queued;
  started_at = none;
  finished_at = none;
  error = none;
  result = none;
}

-- The task that a stored one becomes when its handler has ended so.
abbrev pub settled : RetryPolicy → ℕ → Result (Option Fields) → BackgroundTask → BackgroundTask
settled policy now (return r) t = as_completed now r t
settled policy now (raise e) t =
    if ltb t.retry_count policy.max_retries then as_queued_again t else as_failed now e t

abbrev pub as_cancelled : ℕ → BackgroundTask → BackgroundTask
as_cancelled now t = record t { status = BackgroundTaskStatus.cancelled; finished_at = some now }

settled-ne-cancelled :
    (policy : RetryPolicy) (now : ℕ) (r : Result (Option Fields)) (t : BackgroundTask)
    → (settled policy now r t).status ≢ BackgroundTaskStatus.cancelled
settled-ne-cancelled policy now (return r) t e = cc
settled-ne-cancelled policy now (raise x) t e = ground arith

pub settled-id :
    (policy : RetryPolicy) (now : ℕ) (r : Result (Option Fields)) (t : BackgroundTask)
    → (settled policy now r t).id ≡ t.id
settled-id policy now (return r) t = refl
settled-id policy now (raise x) t = ground arith

cancel_lem :
    (id : Uuid) (s : QueueState) (t : BackgroundTask)
    → lookup id s.tasks ≡ some t
    → is_completed_or_cancelled t.status ≡ false
    → cancel id s ≡ (return (as_cancelled s.now t), write (as_cancelled s.now t) s)
unfolding cancel
cancel_lem id s t there live = rw (there, cancel, live)

pub mark_completed_lem :
    (id : Uuid) (r : Option Fields) (s : QueueState) (t : BackgroundTask)
    → lookup id s.tasks ≡ some t
    → mark_completed id r s ≡ (return (as_completed s.now r t), write (as_completed s.now r t) s)
unfolding mark_completed
mark_completed_lem id r s t there = rw (there, mark_completed)

pub mark_failed_lem :
    (id : Uuid) (e : String) (s : QueueState) (t : BackgroundTask)
    → lookup id s.tasks ≡ some t
    → mark_failed id e s ≡ (return (as_failed s.now e t), write (as_failed s.now e t) s)
unfolding mark_failed
mark_failed_lem id e s t there = rw (there, mark_failed)

module _ (policy : RetryPolicy) where
  retry_lem :
      (id : Uuid) (s : QueueState) (t : BackgroundTask)
      → lookup id s.tasks ≡ some t
      → should_retry policy t ≡ true
      → retry policy id s ≡ (return (requeue policy t), write (requeue policy t) s)
  unfolding retry
  retry_lem id s t there again = rw (there, retry) (ground arith)

  recover_lem :
      (task : BackgroundTask) (e : String) (s : QueueState) (t : BackgroundTask)
      → lookup task.id s.tasks ≡ some t
      → recover policy task e s
        ≡ (return (settled policy s.now (raise e) t), write (settled policy s.now (raise e) t) s)
  unfolding recover
  recover_lem task e s t there = elim (Bool-cases (ltb t.retry_count policy.max_retries)) [
    | inl again ↦
        rw
          (
            mark_failed_lem task.id e s t there,
            again,
            retry_lem t.id (write failed s) failed (lookup-insert_self t.id failed s.tasks) again,
          )
          (rw (insert-insert t.id (requeue policy t) failed s.tasks))
    | inr over ↦ rw (mark_failed_lem task.id e s t there, over)
  ]
    where
      failed : BackgroundTask
      failed = as_failed s.now e t

  -- A task whose handler has returned is completed. One whose handler has raised is queued once
  -- more while it has retries left, and else failed. The rest of the queue is as the handler left it.
  pub process_settles :
      (w : BackgroundWorker) (task : BackgroundTask) (s s' : QueueState) (h : TaskHandler)
      (r : Result (Option Fields)) (t : BackgroundTask)
      → lookup task.task_type w.handlers ≡ some h
      → h task s ≡ (r, s')
      → lookup task.id s'.tasks ≡ some t
      → process policy w task s
        ≡ (return (settled policy s'.now r t), write (settled policy s'.now r t) s')
  unfolding process run_handler
  process_settles w task s s' h (return r) t registered ran there =
      rw (registered, process, run_handler, ran)
        (rw (mark_completed_lem task.id r s' t there, process))
  process_settles w task s s' h (raise e) t registered ran there =
      rw (registered, process, run_handler, ran) (recover_lem task e s' t there)

  -- A task of a type that has no handler fails, with no retry.
  pub process_unhandled :
      (w : BackgroundWorker) (task : BackgroundTask) (s : QueueState) (t : BackgroundTask)
      → lookup task.task_type w.handlers ≡ none
      → lookup task.id s.tasks ≡ some t
      → let failed = as_failed s.now ("No handler registered for task_type=" <> task.task_type) t in
        process policy w task s ≡ (return failed, write failed s)
  unfolding process run_handler
  process_unhandled w task s t unregistered there =
      rw (unregistered, process, run_handler) (mark_failed_lem task.id _ s t there)

  -- A handler under whose `await` the task is cancelled, as soon as it has done its own work.
  abbrev pub cancelled_meanwhile : TaskHandler → TaskHandler
  cancelled_meanwhile h task s = let (r, s') = h task s in (r, (cancel task.id s').1)

  -- A cancellation that falls into the run of the handler is lost: the store holds the task as
  -- cancelled when the handler ends, and as completed, failed or queued when the worker is done.
  pub process-cancelled_meanwhile :
      (w : BackgroundWorker) (task : BackgroundTask) (s s' : QueueState) (h : TaskHandler)
      (r : Result (Option Fields)) (t : BackgroundTask)
      → lookup task.task_type w.handlers ≡ some (cancelled_meanwhile h)
      → h task s ≡ (r, s')
      → lookup task.id s'.tasks ≡ some t
      → t.id ≡ task.id
      → is_completed_or_cancelled t.status ≡ false
      → (lookup task.id (cancelled_meanwhile h task s).1.tasks ≡ some (as_cancelled s'.now t))
        × (done : BackgroundTask) × (lookup task.id (process policy w task s).1.tasks ≡ some done)
        × (done.status ≢ BackgroundTaskStatus.cancelled)
  process-cancelled_meanwhile w task s s' h r t registered ran there same live = (
    rw (ran, cancelled) found,
    done,
    rw
        (process_settles w task s after (cancelled_meanwhile h) r _ registered (rw (ran, cancelled))
          found)
        (lookup-write done after task.id
          (settled-id policy s'.now r (as_cancelled s'.now t) ∙ same)),
    settled-ne-cancelled policy s'.now r (as_cancelled s'.now t),
  )
    where
      after : QueueState
      after = write (as_cancelled s'.now t) s'

      done : BackgroundTask
      done = settled policy s'.now r (as_cancelled s'.now t)

      cancelled : cancel task.id s' ≡ (return (as_cancelled s'.now t), after)
      cancelled = cancel_lem task.id s' t there live

      found : lookup task.id after.tasks ≡ some (as_cancelled s'.now t)
      found = lookup-write (as_cancelled s'.now t) s' task.id same

module _ (policy : RetryPolicy) where
  abbrev pub IsTame : BackgroundWorker → Type 0
  IsTame w =
      All
        (λ (_, h).
          (t : BackgroundTask) (s : QueueState) → IsValid policy s → IsValid policy (h t s).1)
        w.handlers

  recover-IsValid :
      (task : BackgroundTask) (e : String) (s : QueueState)
      → IsValid policy s
      → IsValid policy (recover policy task e s).1
  unfolding recover
  recover-IsValid task e s v =
      and_then_keeps (IsValid policy) (mark_failed task.id e s).0 _ (mark_failed task.id e s).1
        (mark_failed-IsValid policy task.id e s v)
        (λ failed. ground (
          arith,
          mark_failed-IsValid policy task.id e s v,
          retry-IsValid policy failed.id (mark_failed task.id e s).1,
        ))

  run_handler-IsValid :
      (h : TaskHandler) (task : BackgroundTask) (s : QueueState)
      → IsValid policy (h task s).1
      → IsValid policy (run_handler policy (some h) task s).1
  unfolding run_handler
  run_handler-IsValid h task s v =
      or_handle_keeps (IsValid policy) ran.0 (λ exc. recover policy task exc) ran.1 completed
        (λ e. recover-IsValid task e _ completed)
    where
      ran : Result BackgroundTask × QueueState
      ran = and_then (h task s).0 (λ result. mark_completed task.id result) (h task s).1

      completed : IsValid policy ran.1
      completed =
          and_then_keeps (IsValid policy) (h task s).0 _ (h task s).1 v
            (λ result. mark_completed-IsValid policy task.id result _ v)

  -- Handlers that keep the queue valid make a worker that does.
  pub process-IsValid :
      (w : BackgroundWorker) (task : BackgroundTask) (s : QueueState)
      → IsTame w
      → IsValid policy s
      → IsValid policy (process policy w task s).1
  unfolding process run_handler
  process-IsValid w task s tame v = elim (Option-cases (lookup task.task_type w.handlers)) [
    | inl unregistered ↦
        rw (unregistered, process, run_handler) (mark_failed-IsValid policy task.id _ s v)
    | inr (h, registered) ↦
        rw (registered, process)
          (run_handler-IsValid h task s
            (All-lookup _ task.task_type h w.handlers tame registered task s v))
  ]
