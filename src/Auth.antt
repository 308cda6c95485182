-- ===== src/Auth.antt =====
-- backend/src/auth: sign-in, sessions, password reset and the second factor.
mod Model
pub mod Sessions
pub mod TwoFactor
pub mod BackupCodes
pub mod Passwords
pub mod Registration
mod Tests
mod SetupTests
pub use Model.*
