-- ===== src/Email.antt =====
-- backend/src/email: mails that are sent, and what the mail provider reports of them.
mod Model
pub mod Webhooks
pub mod Sending
mod Tests
pub use Model.*
