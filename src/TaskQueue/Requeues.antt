-- ===== src/TaskQueue/Requeues.antt =====
-- How often a task of backend/app/task_queue/manager.py is queued again.
use ai_employee_os.Common.{
  ℕ, suc, ◌+◌, ◌≤◌, String, ◌≡◌, refl, sym, subst, Bool, true, false, not, ◌&&◌, inl, inr, Option,
  none, some, List, [], ◌∷◌, arith, if-both, if◌then◌else◌, ◌==◌, ==→eq, string_eq, Option-cases,
  Bool-cases,
}
use ai_employee_os.Common.Dict.{lookup, insert, lookup-insert, lookup-insert_self, All-lookup}
use ai_employee_os.Common.Json.{Fields}
use ai_employee_os.TaskQueue.Models.{
  Uuid, BackgroundTask, is_queued, is_completed_or_cancelled, QueueState, Result, Action, ◌>>=◌,
}
use ai_employee_os.TaskQueue.RetryPolicy.{RetryPolicy, should_retry}
use ai_employee_os.TaskQueue.Repository.{save}
use ai_employee_os.TaskQueue.Manager.{
  or_default, require_task, give_up, requeue, enqueue, dequeue, cancel, retry, mark_completed,
  mark_failed,
}
use ai_employee_os.TaskQueue.Invariant.{IsEntry, IsValid}
use ai_employee_os.TaskQueue.Order.{started, dequeue_cases}
use ai_employee_os.TaskQueue.History.{
  history-IsValid, Call, enqueues, dequeues, cancels, retries, completes, fails, waits, perform,
  history, perform-IsValid,
}

abbrev pub count : Option BackgroundTask → ℕ
count none = 0
count (some t) = t.retry_count

-- A task that was not queued is.
abbrev pub becomes_queued : Option BackgroundTask → Option BackgroundTask → Bool
becomes_queued (some t) (some u) = not (is_queued t.status) && is_queued u.status
becomes_queued _ _ = false

abbrev pub add : Bool → ℕ → ℕ
add true n = suc n
add false n = n

-- The count of requeues that a task's own count is measured by
abbrev Grows : Option BackgroundTask → Option BackgroundTask → Type 0
Grows t u = add (becomes_queued t u) (count t) ≤ count u

add_le : (b : Bool) (n : ℕ) → add b n ≤ n + 1
add_le true n = omega arith
add_le false n = omega arith

add_mono : (b : Bool) (m n : ℕ) → m ≤ n → add b m ≤ add b n
add_mono true m n h = omega (arith, h)
add_mono false m n h = h

Grows-same : (t : Option BackgroundTask) → Grows t t
Grows-same none = omega arith
Grows-same (some t) = ground arith

Grows-unqueued :
    (t u : BackgroundTask)
    → is_queued u.status ≡ false
    → u.retry_count ≡ t.retry_count
    → Grows (some t) (some u)
Grows-unqueued t u h k = ground (arith, h, k)

-- The write of a task over the one that is stored
Grows-insert :
    (id key : Uuid) (t u : BackgroundTask) (s : QueueState)
    → lookup key s.tasks ≡ some t
    → u.id ≡ key
    → Grows (some t) (some u)
    → Grows (lookup id s.tasks) (lookup id (insert u.id u s.tasks))
Grows-insert id key t u s there same h = elim (Bool-cases (id == u.id)) [
  | inl own ↦
      subst (λ k. Grows (lookup k s.tasks) (lookup k (insert u.id u s.tasks)))
        (sym (==→eq id u.id own))
        (subst (λ o. Grows (lookup u.id s.tasks) o) (sym (lookup-insert_self u.id u s.tasks))
          (subst (λ o. Grows o (some u))
            (sym (subst (λ k. lookup k s.tasks ≡ some t) (sym same) there)) h))
  | inr other ↦ rw (lookup-insert id u.id u s.tasks, other) (Grows-same (lookup id s.tasks))
]

module _ (policy : RetryPolicy) (id : Uuid) where
  abbrev GrowsTo : QueueState → QueueState → Type 0
  GrowsTo s new = Grows (lookup id s.tasks) (lookup id new.tasks)

  require-GrowsTo :
      {A : Type 0} (f : BackgroundTask → Action A) (key : Uuid) (s : QueueState)
      → IsValid policy s
      → ((t : BackgroundTask) → lookup key s.tasks ≡ some t → t.id ≡ key → GrowsTo s (f t s).1)
      → GrowsTo s ((require_task key >>= f) s).1
  unfolding require_task
  require-GrowsTo f key s v step = elim (Option-cases (lookup key s.tasks)) [
    | inl missing ↦ rw (missing, require_task) (Grows-same (lookup id s.tasks))
    | inr (t, there) ↦
        rw (there, require_task)
          (step t there (sym (All-lookup (IsEntry policy) key t s.tasks v.entries there).0))
  ]

  save-GrowsTo :
      (key : Uuid) (t u : BackgroundTask) (s : QueueState)
      → lookup key s.tasks ≡ some t
      → u.id ≡ key
      → Grows (some t) (some u)
      → GrowsTo s (save u s).1
  unfolding save
  save-GrowsTo key t u s there same h = Grows-insert id key t u s there same h

  save_unqueued :
      (key : Uuid) (t u : BackgroundTask) (s : QueueState)
      → lookup key s.tasks ≡ some t
      → u.id ≡ key
      → is_queued u.status ≡ false
      → u.retry_count ≡ t.retry_count
      → GrowsTo s (save u s).1
  save_unqueued key t u s there same idle kept =
      save-GrowsTo key t u s there same (Grows-unqueued t u idle kept)

  mark_failed-GrowsTo :
      (key : Uuid) (e : String) (s : QueueState)
      → IsValid policy s
      → GrowsTo s (mark_failed key e s).1
  unfolding mark_failed
  mark_failed-GrowsTo key e s v =
      require-GrowsTo _ key s v (λ t there same. save_unqueued key t _ s there same refl refl)

  mark_completed-GrowsTo :
      (key : Uuid) (r : Option Fields) (s : QueueState)
      → IsValid policy s
      → GrowsTo s (mark_completed key r s).1
  unfolding mark_completed
  mark_completed-GrowsTo key r s v =
      require-GrowsTo _ key s v (λ t there same. save_unqueued key t _ s there same refl refl)

  cancel-GrowsTo : (key : Uuid) (s : QueueState) → IsValid policy s → GrowsTo s (cancel key s).1
  unfolding cancel
  cancel-GrowsTo key s v = require-GrowsTo _ key s v (λ t there same.
      if-both (λ (m : Action BackgroundTask). GrowsTo s (m s).1)
        (is_completed_or_cancelled t.status) (Grows-same (lookup id s.tasks))
        (save_unqueued key t _ s there same refl refl))

  retry-GrowsTo :
      (key : Uuid) (s : QueueState) → IsValid policy s → GrowsTo s (retry policy key s).1
  unfolding retry
  retry-GrowsTo key s v = require-GrowsTo _ key s v (λ t there same.
      if-both (λ (m : Action BackgroundTask). GrowsTo s (m s).1) (not (should_retry policy t))
        (save_unqueued key t (give_up s.now t) s there same refl refl)
        (save-GrowsTo key t (requeue policy t) s there same
          (add_le (becomes_queued (some t) (some (requeue policy t))) t.retry_count)))

  dequeue-GrowsTo : (s : QueueState) → IsValid policy s → GrowsTo s (dequeue s).1
  dequeue-GrowsTo s v = elim (dequeue_cases policy s v) [
    | inl (idle, same) ↦
        subst (λ (x : Result (Option BackgroundTask) × QueueState). GrowsTo s x.1) (sym same)
          (Grows-same (lookup id s.tasks))
    | inr (u, (there, queued, first, same)) ↦
        subst (λ (x : Result (Option BackgroundTask) × QueueState). GrowsTo s x.1) (sym same)
          (Grows-insert id u.id u (started s.now u) s there refl
            (Grows-unqueued u (started s.now u) refl refl))
  ]

  -- How often the task has been queued again after the call, where `n` is how often it has been
  -- before: an `enqueue` under its id starts anew.
  abbrev pub counted : Call → QueueState → ℕ → ℕ
  counted (enqueues ty payload priority metadata given fresh) s n =
      if id == or_default given fresh then 0 else n
  counted c s n = add (becomes_queued (lookup id s.tasks) (lookup id (perform policy s c).tasks)) n

  abbrev IsCounted : ℕ → QueueState → Type 0
  IsCounted n s = n ≤ count (lookup id s.tasks)

  grown :
      (n : ℕ) (s new : QueueState)
      → GrowsTo s new
      → IsCounted n s
      → add (becomes_queued (lookup id s.tasks) (lookup id new.tasks)) n
        ≤ count (lookup id new.tasks)
  grown n s new h k =
      let more = add_mono (becomes_queued (lookup id s.tasks) (lookup id new.tasks)) n _ k in
      omega (arith, more, h)

  enqueued :
      (key : Uuid) (t : BackgroundTask) (s : QueueState) (n : ℕ)
      → IsCounted n s
      → (if id == key then 0 else n) ≤ count (lookup id (insert key t s.tasks))
  enqueued key t s n k = ground (arith, k, lookup-insert id key t s.tasks)

  counted-IsCounted :
      (c : Call) (s : QueueState) (n : ℕ)
      → IsValid policy s
      → IsCounted n s
      → IsCounted (counted c s n) (perform policy s c)
  unfolding perform enqueue save
  counted-IsCounted (enqueues ty payload priority metadata given fresh) s n v k =
      enqueued (or_default given fresh) _ s n k
  counted-IsCounted dequeues s n v k = grown n s (perform policy s dequeues) (dequeue-GrowsTo s v) k
  counted-IsCounted (cancels key) s n v k =
      grown n s (perform policy s (cancels key)) (cancel-GrowsTo key s v) k
  counted-IsCounted (retries key) s n v k =
      grown n s (perform policy s (retries key)) (retry-GrowsTo key s v) k
  counted-IsCounted (completes key r) s n v k =
      grown n s (perform policy s (completes key r)) (mark_completed-GrowsTo key r s v) k
  counted-IsCounted (fails key e) s n v k =
      grown n s (perform policy s (fails key e)) (mark_failed-GrowsTo key e s v) k
  counted-IsCounted (waits time) s n v k =
      grown n s (perform policy s (waits time)) (Grows-same (lookup id s.tasks)) k

  unfoldable pub times_queued_again : List Call → QueueState → ℕ → ℕ
  times_queued_again [] s n = n
  times_queued_again (c ∷ cs) s n = times_queued_again cs (perform policy s c) (counted c s n)

  times-IsCounted :
      (cs : List Call) (s : QueueState) (n : ℕ)
      → IsValid policy s
      → IsCounted n s
      → IsCounted (times_queued_again cs s n) (history policy cs s)
  unfolding times_queued_again history
  times-IsCounted [] s n v k = k
  times-IsCounted (c ∷ cs) s n v k =
      times-IsCounted cs (perform policy s c) (counted c s n) (perform-IsValid policy c s v)
        (counted-IsCounted c s n v k)

  count-le : (s : QueueState) → IsValid policy s → count (lookup id s.tasks) ≤ policy.max_retries
  count-le s v = elim (Option-cases (lookup id s.tasks)) [
    | inl missing ↦ rw missing (omega arith)
    | inr (t, there) ↦ rw there (All-lookup (IsEntry policy) id t s.tasks v.entries there).1
  ]

  -- After any calls of the manager on a valid queue every task stands once, under its own id, with a
  -- retry count that the policy allows; and the times that a task has become queued, having been
  -- otherwise, since it was last enqueued under its id, or where it was not, since the start, are
  -- at most as many as the policy allows, the count of the start included.
  pub history-requeues :
      (cs : List Call) (s : QueueState)
      → IsValid policy s
      → IsValid policy (history policy cs s)
        × (times_queued_again cs s (count (lookup id s.tasks)) ≤ policy.max_retries)
  history-requeues cs s v =
      let valid = history-IsValid policy cs s v in
      let counted_at_end = times-IsCounted cs s (count (lookup id s.tasks)) v (omega arith) in
      (valid, omega (arith, counted_at_end, count-le (history policy cs s) valid))
