-- ===== src/TaskQueue/RetryPolicy.antt =====
-- backend/app/task_queue/policies/retry_policy.py. The constructor refuses a negative limit.
use ai_employee_os.Common.{ℕ, ◌+◌, ◌-◌, Bool, false, ltb, if◌then◌else◌}
use ai_employee_os.TaskQueue.Models.{BackgroundTask, is_cancelled}

pub record RetryPolicy : Type 0 where
  pub max_retries : ℕ

abbrev pub should_retry : RetryPolicy → BackgroundTask → Bool
should_retry p t = if is_cancelled t.status then false else ltb t.retry_count p.max_retries

abbrev pub next_retry_count : RetryPolicy → BackgroundTask → ℕ
next_retry_count p t = t.retry_count + 1

-- `max(0, self.max_retries - task.retry_count)`
abbrev pub remaining_attempts : RetryPolicy → BackgroundTask → ℕ
remaining_attempts p t = p.max_retries - t.retry_count
