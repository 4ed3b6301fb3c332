-- ===== src/TaskQueue/Budget.antt =====
-- The scheduler works a queue off: each dispatch uses up one of the attempts that are left.
use ai_employee_os.Common.{
  ℕ, zero, suc, ◌+◌, ◌-◌, ◌%◌, ◌≤◌, ◌<◌, ◌≡◌, ◌≢◌, refl, ◌∙◌, inl, inr, ◌⊎◌, Option, none, some,
  List, [], ◌∷◌, ◌++◌, arith, All, All-select, All-get_elem?, length, length-append, select,
  if◌then◌else◌, string_eq, Option-cases,
}
use native.Mathlib.Nat.{mod-lt}
use ai_employee_os.Common.Dict.{Dict, lookup, insert, values, lookup-insert_self, All-lookup}
use ai_employee_os.Common.Json.{Fields}
use ai_employee_os.TaskQueue.Models.{
  Uuid, BackgroundTask, BackgroundTaskStatus, is_queued, QueueState, Result, return, raise,
}
use ai_employee_os.TaskQueue.RetryPolicy.{RetryPolicy}
use ai_employee_os.TaskQueue.Manager.{dequeue}
use ai_employee_os.TaskQueue.Worker.{BackgroundWorker, process, has_handler}
use ai_employee_os.TaskQueue.Scheduler.{
  TaskScheduler, or_all, select_worker, hand_over, assign, dispatch_next, dispatch_from,
  dispatch_batch,
}
use ai_employee_os.TaskQueue.Invariant.{IsValid, IsEntry, insert-IsValid}
use ai_employee_os.TaskQueue.Order.{started, dequeue_cases, Chosen, IsIdle}
use ai_employee_os.TaskQueue.Processing.{
  settled, settled-id, as_failed, process_settles, process_unhandled,
}

-- A handler that leaves the queue as it is; the clock may move.
abbrev pub IsQuiet : BackgroundWorker → Type 0
IsQuiet w =
    All (λ (_, h). (t : BackgroundTask) (s : QueueState) → (h t s).1.tasks ≡ s.tasks) w.handlers

or_all-IsQuiet :
    (capable everyone : List BackgroundWorker)
    → All IsQuiet capable
    → All IsQuiet everyone
    → All IsQuiet (or_all capable everyone)
or_all-IsQuiet [] everyone c q = q
or_all-IsQuiet (w ∷ ws) everyone c q = c

length-or_all_pos :
    (capable everyone : List BackgroundWorker)
    → 0 < length everyone
    → 0 < length (or_all capable everyone)
length-or_all_pos [] everyone h = h
length-or_all_pos (w ∷ ws) everyone h = omega arith

select_from-IsQuiet :
    (workers : List BackgroundWorker) (n : ℕ) (task : BackgroundTask)
    → workers ≢ []
    → All IsQuiet workers
    → let sched : TaskScheduler = record { workers = workers; next_worker = n } in
      (w : BackgroundWorker) × ((select_worker sched task).0 ≡ some w)
      × IsQuiet w
      × ((select_worker sched task).1.workers ≡ workers)
unfolding select_worker
select_from-IsQuiet [] n task h q = absurd (h refl)
select_from-IsQuiet (w ∷ ws) n task h q =
    let (x, e, quiet) =
      All-get_elem? IsQuiet (or_all capable (w ∷ ws)) (n % length (or_all capable (w ∷ ws)))
        (or_all-IsQuiet capable (w ∷ ws)
          (All-select IsQuiet (λ v. has_handler v task.task_type) (w ∷ ws) q) q)
        (mod-lt n (length-or_all_pos capable (w ∷ ws) (omega arith))) in
    (x, e, quiet, refl)
  where
    capable : List BackgroundWorker
    capable = select (λ v. has_handler v task.task_type) (w ∷ ws)

-- A worker is found where there is one, and none touches the queue.
select_worker-IsQuiet :
    (sched : TaskScheduler) (task : BackgroundTask)
    → sched.workers ≢ []
    → All IsQuiet sched.workers
    → (w : BackgroundWorker) × ((select_worker sched task).0 ≡ some w)
      × IsQuiet w
      × ((select_worker sched task).1.workers ≡ sched.workers)
select_worker-IsQuiet sched task = select_from-IsQuiet sched.workers sched.next_worker task

module _ (policy : RetryPolicy) where
  open policy use {max_retries}

  -- How often a task can still be started.
  abbrev pub attempts : BackgroundTask → ℕ
  attempts t = if is_queued t.status then suc (max_retries - t.retry_count) else 0

  abbrev pub budget : Dict Uuid BackgroundTask → ℕ
  budget [] = 0
  budget ((_, t) ∷ d) = attempts t + budget d

  budget-insert :
      (k : Uuid) (t u : BackgroundTask) (d : Dict Uuid BackgroundTask)
      → lookup k d ≡ some u
      → budget (insert k t d) + attempts u ≡ budget d + attempts t
  unfolding insert lookup
  budget-insert k t u [] h = cc
  budget-insert k t u ((j, w) ∷ d) h = ground (arith, budget-insert k t u d)

  -- What is left of a started task.
  abbrev Settles : BackgroundTask → QueueState → Result BackgroundTask × QueueState → Type 0
  Settles task s (r, s') =
      (done : BackgroundTask) × (r ≡ return done)
      × (s'.tasks ≡ insert task.id done s.tasks)
      × (attempts done ≤ max_retries - task.retry_count)
      × (done.retry_count ≤ max_retries)
      × (done.id ≡ task.id)

  attempts-settled :
      (now : ℕ) (r : Result (Option Fields)) (t : BackgroundTask)
      → t.retry_count ≤ max_retries
      → (attempts (settled policy now r t) ≤ max_retries - t.retry_count)
        × ((settled policy now r t).retry_count ≤ max_retries)
  attempts-settled now (return r) t h = ground arith
  attempts-settled now (raise e) t h = ground arith

  process-Settles :
      (w : BackgroundWorker) (task : BackgroundTask) (s : QueueState)
      → IsQuiet w
      → lookup task.id s.tasks ≡ some task
      → task.retry_count ≤ max_retries
      → Settles task s (process policy w task s)
  process-Settles w task s quiet there bound =
      elim (Option-cases (lookup task.task_type w.handlers)) [
        | inl unregistered ↦
            rw (process_unhandled policy w task s task unregistered there)
              (as_failed s.now _ task, refl, refl, omega arith, bound, refl)
        | inr (h, registered) ↦
            let s' : QueueState = (h task s).1 in
            let r : Result (Option Fields) = (h task s).0 in
            let same : s'.tasks ≡ s.tasks =
              All-lookup _ task.task_type h w.handlers quiet registered task s in
            rw (process_settles policy w task s s' h r task registered refl (rw same there)) (
              settled policy s'.now r task,
              refl,
              rw (settled-id policy s'.now r task, same),
              (attempts-settled s'.now r task bound).0,
              (attempts-settled s'.now r task bound).1,
              settled-id policy s'.now r task,
            )
      ]

  hand_over_lem :
      (w : BackgroundWorker) (task done : BackgroundTask) (sched : TaskScheduler) (s : QueueState)
      → (process policy w task s).0 ≡ return done
      → hand_over policy (some w) task sched s
        ≡ (return (some done), sched, (process policy w task s).1)
  unfolding hand_over
  hand_over_lem w task done sched s e = ground arith

  dispatch_from_some :
      (workers : List BackgroundWorker) (n : ℕ) (s : QueueState)
      → workers ≢ []
      → let sched : TaskScheduler = record { workers = workers; next_worker = n } in
        dispatch_next policy sched s ≡ assign policy sched (dequeue s)
  unfolding dispatch_next
  dispatch_from_some [] n s h = absurd (h refl)
  dispatch_from_some (w ∷ ws) n s h = refl

  abbrev pub Progress : TaskScheduler → QueueState → Type 0
  Progress sched s =
      (done : BackgroundTask) × (sched' : TaskScheduler) × (s' : QueueState) × (dispatch_next policy
          sched s
        ≡ (return (some done), sched', s'))
      × (sched'.workers ≡ sched.workers)
      × IsValid policy s'
      × (budget s'.tasks < budget s.tasks)

  assign-Progress :
      (sched : TaskScheduler) (s : QueueState) (u : BackgroundTask)
      → sched.workers ≢ []
      → All IsQuiet sched.workers
      → IsValid policy s
      → Chosen s u
      → Progress sched s
  unfolding assign
  assign-Progress sched s u some_worker quiet v (there, queued, _, dequeued) =
      let t : BackgroundTask = started s.now u in
      let s1 : QueueState = record s { tasks = insert u.id t s.tasks } in
      let few : u.retry_count ≤ policy.max_retries =
        (All-lookup (IsEntry policy) u.id u s.tasks v.entries there).1 in
      let (w, picked, still, same) = select_worker-IsQuiet sched t some_worker quiet in
      let (done, e, tasks, less, bound, id) =
        process-Settles w t s1 still (lookup-insert_self u.id t s.tasks) few in
      let s' : QueueState = (process policy w t s1).1 in
      let valid : IsValid policy s1 = insert-IsValid policy u.id t s s1 refl few refl v in
      let running : budget s1.tasks + attempts u ≡ budget s.tasks + attempts t =
        budget-insert u.id t u s.tasks there in
      let over : budget (insert u.id done s1.tasks) + attempts t ≡ budget s1.tasks + attempts done =
        budget-insert u.id done t s1.tasks (lookup-insert_self u.id t s.tasks) in
      let was : attempts u ≡ suc (policy.max_retries - u.retry_count) = rw queued in
      (
        done,
        (select_worker sched t).1,
        s',
        dispatch_from_some sched.workers sched.next_worker s some_worker
            ∙ rw (dequeued, assign, picked) (hand_over_lem w t done _ s1 e),
        same,
        insert-IsValid policy u.id done s1 s' id bound tasks valid,
        rw tasks (omega arith),
      )

  -- With workers whose handlers leave the queue alone, a dispatch either finds no queued task and
  -- changes nothing, or it processes one and uses up one of the attempts left.
  pub dispatch_cases :
      (sched : TaskScheduler) (s : QueueState)
      → sched.workers ≢ []
      → All IsQuiet sched.workers
      → IsValid policy s
      → IsIdle s × (dispatch_next policy sched s ≡ (return none, sched, s)) ⊎ Progress sched s
  unfolding assign
  dispatch_cases sched s some_worker quiet v = elim (dequeue_cases policy s v) [
    | inl (idle, e) ↦
        inl
          (idle, dispatch_from_some sched.workers sched.next_worker s some_worker ∙ rw (e, assign))
    | inr (u, chosen) ↦ inr (assign-Progress sched s u some_worker quiet v chosen)
  ]

  budget-eq-zero :
      (d : Dict Uuid BackgroundTask)
      → budget d ≡ 0
      → All (λ t. t.status ≡ BackgroundTaskStatus.queued → ⊥) (values d)
  unfolding values
  budget-eq-zero [] h = tt
  budget-eq-zero ((k, t) ∷ d) h = (λ q. ground arith, budget-eq-zero d (omega arith))

  abbrev Drained :
      List BackgroundTask → ℕ → Result (List BackgroundTask) × TaskScheduler × QueueState → Type 0
  Drained processed bound (r, _, s') =
      (l : List BackgroundTask) × (r ≡ return l) × (length l ≤ length processed + bound) × IsIdle s'

  dispatch_from-Drained :
      (limit : ℕ) (processed : List BackgroundTask) (sched : TaskScheduler) (s : QueueState)
      → sched.workers ≢ []
      → All IsQuiet sched.workers
      → IsValid policy s
      → budget s.tasks ≤ limit
      → Drained processed (budget s.tasks) (dispatch_from policy limit processed sched s)
  unfolding dispatch_from
  dispatch_from-Drained zero processed sched s some_worker quiet v enough =
      (processed, refl, omega arith, budget-eq-zero s.tasks (omega arith))
  dispatch_from-Drained (suc limit) processed sched s some_worker quiet v enough =
      elim (dispatch_cases sched s some_worker quiet v) [
        | inl (idle, e) ↦ rw (e, dispatch_from) (processed, refl, omega arith, rw e idle)
        | inr (done, sched', s', e, same, valid, less) ↦
            let (l, returned, short, idle) =
              dispatch_from-Drained limit (processed ++ (done ∷ [])) sched' s' (rw same some_worker)
                (rw same quiet) valid (omega arith) in
            rw (e, dispatch_from)
              (rw e (l, returned, omega (arith, length-append processed (done ∷ [])), idle))
      ]

  -- No task is retried for ever: a batch whose limit is at least the number of attempts left ends
  -- with no task queued, raises nothing, and has made at most that many attempts.
  pub dispatch_batch-IsIdle :
      (limit : ℕ) (sched : TaskScheduler) (s : QueueState)
      → sched.workers ≢ []
      → All IsQuiet sched.workers
      → IsValid policy s
      → budget s.tasks ≤ limit
      → let out = dispatch_batch policy limit sched s in
        (processed : List BackgroundTask) × (out.0 ≡ return processed)
        × (length processed ≤ budget s.tasks)
        × IsIdle out.2
  unfolding dispatch_batch
  dispatch_batch-IsIdle limit sched s some_worker quiet v enough =
      let (l, e, short, idle) = dispatch_from-Drained limit [] sched s some_worker quiet v enough in
      (l, e, omega arith, idle)
