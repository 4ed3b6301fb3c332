-- ===== src/Planning.antt =====
-- Plans and their sequential execution, backend/app/planning.
pub mod Ordering
pub mod Models
pub mod Executor
pub mod Parser
pub mod Retry
pub mod Outcome
mod Tests
