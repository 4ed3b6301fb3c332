-- ===== src/Workspace.antt =====
-- The workspaces of clients, backend/app/workspace.
pub mod Models
pub mod Repository
pub mod Manager
pub mod Invariant
pub mod Preservation
pub mod Calls
pub mod Reopening
mod Tests
