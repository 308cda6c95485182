-- ===== src/Notifications.antt =====
-- backend/src/notifications: the notices of the users, which other services write inside their own
-- transactions (`notification.writer.ts`), the reader's service (`notifications.service.ts`) and the
-- pruning of expired notices (`notification-retention.service.ts`). The title, message, action path
-- and metadata of a notice are only displayed, and are not kept.
mod Model
pub mod Writer
pub mod Reader
mod Tests
pub use Model.*
