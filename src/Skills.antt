-- ===== src/Skills.antt =====
-- The registry of skills and capabilities: backend/app/skills/.
mod Tests
pub mod Registry
