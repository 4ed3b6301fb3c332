-- ===== src/Security.antt =====
-- API keys, permissions, the rate limit and the audit log, backend/app/security.
pub mod Models
pub mod Permissions
pub mod RateLimit
pub mod Provider
pub mod Manager
pub mod Middleware
pub mod Audit
pub mod Keys
pub mod Access
mod Tests
