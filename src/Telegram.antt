-- ===== src/Telegram.antt =====
-- The dialogue that the Telegram bot keeps with a user: backend/app/adapters/telegram/.
mod Tests
pub mod Models
pub mod Store
pub mod Mapper
pub mod Presenter
pub mod Progress
pub mod Clarification
pub mod Collaborators
pub mod Execution
pub mod Delivery
pub mod Dialogue
pub mod Flow
pub mod Agent
pub mod Promises
pub mod Rest
pub mod Dispatcher
