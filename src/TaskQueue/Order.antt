-- ===== src/TaskQueue/Order.antt =====
-- Which task `dequeue` starts.
use ai_employee_os.Common.{
  ℕ, ◌≤◌, ◌<◌, ◌≡◌, ◌⊎◌, true, inl, inr, none, some, [], ◌∷◌, arith, All, All-map, All-select,
  All-of_select, All-select_test, All-both, select-eq-nil, string_eq, List-cases,
}
use ai_employee_os.Common.Dict.{Dict, lookup, insert, values, NodupKeys, lookup-cons}
use ai_employee_os.Common.Sorting.{All-sort, sort-eq-nil, sort-first, IsOrder}
use ai_employee_os.TaskQueue.Models.{
  Uuid, BackgroundTask, BackgroundTaskStatus, is_queued, QueueState, return,
}
use ai_employee_os.TaskQueue.RetryPolicy.{RetryPolicy}
use ai_employee_os.TaskQueue.Repository.{key_le, queued_tasks}
use ai_employee_os.TaskQueue.Manager.{dequeue}
use ai_employee_os.TaskQueue.Invariant.{IsEntry, IsValid}

-- A lower priority number first, and the older task among equals.
abbrev pub IsBefore : BackgroundTask → BackgroundTask → Type 0
IsBefore a b =
    (a.priority < b.priority) ⊎ ((a.priority ≡ b.priority) × (a.created_at ≤ b.created_at))

key_le→IsBefore : (a b : BackgroundTask) → key_le a b ≡ true → IsBefore a b
key_le→IsBefore a b h = ground arith

key_le-IsOrder : IsOrder key_le
key_le-IsOrder = record { total = λ a b. ground arith; trans = λ a b c h k. ground arith }

-- The task as `dequeue` leaves it.
abbrev pub started : ℕ → BackgroundTask → BackgroundTask
started now t = record t { status = BackgroundTaskStatus.running; started_at = some now }

-- No task is queued.
abbrev pub IsIdle : QueueState → Type 0
IsIdle s = All (λ t. t.status ≡ BackgroundTaskStatus.queued → ⊥) (values s.tasks)

-- `dequeue` starts `u`: a queued task that no other queued one comes before.
abbrev pub Chosen : QueueState → BackgroundTask → Type 0
Chosen s u =
    (lookup u.id s.tasks ≡ some u)
    × (u.status ≡ BackgroundTaskStatus.queued)
    × All (λ t. t.status ≡ BackgroundTaskStatus.queued → IsBefore u t) (values s.tasks)
    × (dequeue s ≡ (
      return (some (started s.now u)),
      record s { tasks = insert u.id (started s.now u) s.tasks },
    ))

status_of_is_queued :
    (st : BackgroundTaskStatus) → is_queued st ≡ true → st ≡ BackgroundTaskStatus.queued
status_of_is_queued st h = ground arith

is_queued_of_status :
    (st : BackgroundTaskStatus) → st ≡ BackgroundTaskStatus.queued → is_queued st ≡ true
is_queued_of_status st h = ground arith

module _ (policy : RetryPolicy) where
  pub lookup-values :
      (d : Dict Uuid BackgroundTask)
      → NodupKeys d
      → All (IsEntry policy) d
      → All (λ t. lookup t.id d ≡ some t) (values d)
  unfolding values
  lookup-values [] u h = tt
  lookup-values ((k, v) ∷ d) u h = (
    ground (arith, h.0.0, lookup-cons v.id k v d),
    All-map (λ t e. ground (arith, u.0, lookup-cons t.id k v d)) (values d)
        (lookup-values d u.1 h.1),
  )

  -- `dequeue` leaves the queue alone if no task is queued. Otherwise it starts a queued task
  -- that no other queued task comes before, and changes nothing else.
  pub dequeue_cases :
      (s : QueueState)
      → IsValid policy s
      → IsIdle s × (dequeue s ≡ (return none, s)) ⊎ ((u : BackgroundTask) × Chosen s u)
  unfolding dequeue
  dequeue_cases s v = elim (List-cases (queued_tasks s)) [
    | inl idle ↦ inl (
      All-map (λ t h e. ground (arith, is_queued_of_status t.status e)) (values s.tasks)
          (select-eq-nil (λ t. is_queued t.status) (values s.tasks) (sort-eq-nil key_le _ idle)),
      rw (idle, dequeue),
    )
    | inr (u, rest, e) ↦
        let first : All (λ t. (lookup t.id s.tasks ≡ some t) × (is_queued t.status ≡ true))
            (queued_tasks s) =
          All-sort key_le _ _ (
            All-both _ _ _ (All-select _ _ _ (lookup-values s.tasks v.nodup v.entries))
              (All-select_test _ (values s.tasks))) in
        let at_head : (lookup u.id s.tasks ≡ some u) × (is_queued u.status ≡ true) =
          (rw e at first).0 in
        inr (
          u,
          (
            at_head.0,
            status_of_is_queued u.status at_head.1,
            All-map (λ t h q. key_le→IsBefore u t (h (is_queued_of_status t.status q)))
                (values s.tasks)
                (All-of_select (λ t. key_le u t ≡ true) (λ t. is_queued t.status) (values s.tasks)
                  (sort-first key_le key_le-IsOrder _ u rest e)),
            rw (e, dequeue),
          ),
        )
  ]
