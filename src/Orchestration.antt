-- ===== src/Orchestration.antt =====
-- The execution graph of a plan and the orchestrator, backend/app/orchestration.
pub mod Models
pub mod Graph
pub mod Resolver
pub mod Scheduler
pub mod StateManager
pub mod Policy
pub mod Progress
pub mod Validator
pub mod Safety
pub mod Controls
pub mod Payload
pub mod NodeRuns
pub mod Orchestrator
mod Tests
