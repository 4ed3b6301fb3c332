-- ===== src/Observability.antt =====
-- Traces, timelines and metrics of executions: backend/app/observability/.
mod Tests
pub mod Models
pub mod Provider
pub mod Tracer
