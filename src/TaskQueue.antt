-- ===== src/TaskQueue.antt =====
-- The background task queue, backend/app/task_queue.
pub mod Models
pub mod RetryPolicy
pub mod Repository
pub mod Manager
pub mod Worker
pub mod Scheduler
pub mod Invariant
pub mod Order
pub mod Processing
pub mod Budget
pub mod History
pub mod Requeues
mod Tests
