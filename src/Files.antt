-- ===== src/Files.antt =====
-- backend/src/files: the stored files of an organization, from the reservation of an upload over the
-- malware scan to the purge of the object and of the record.
mod Model
mod Storage
mod Rows
pub mod Changes
pub mod Service
pub mod Maintenance
pub mod Lifecycle
pub mod Limits
pub mod Scans
pub mod Verdicts
mod Sound
mod Upkeep
pub mod Orphans
pub mod Purges
pub mod Listing
pub mod Local
pub mod ContentValidation
pub mod History
mod Tests
mod UploadTests
pub use Model.*
pub use Storage.*
unfoldable pub use Rows.*
