-- ===== src/Context.antt =====
-- What a run of the agent knows: backend/app/context/.
mod Tests
pub mod Priority
pub mod Builder
