-- ===== src/Revision.antt =====
-- The revision of a document: backend/app/revision/.
mod Tests
pub mod Models
pub mod Parser
pub mod Manager
pub mod Node
