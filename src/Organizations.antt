-- ===== src/Organizations.antt =====
-- backend/src/organizations and the tenant lookups of backend/src/authorization: organizations, their
-- members with their roles, the invitations, and the notices that changes of these send.
mod Model
mod Rows
pub mod Slugs
pub mod Tenants
pub mod Members
pub mod Invitations
mod Tests
mod TenantTests
pub use Model.*
unfoldable pub use Rows.*
