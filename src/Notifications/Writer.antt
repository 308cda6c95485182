-- ===== src/Notifications/Writer.antt =====
-- `writeNotification` (backend/src/notifications/notification.writer.ts) and
-- `NotificationRetentionService.prune`.
pub mod Laws
use shipflow.Common.{
  ℕ, ◌+◌, leb, ◌==◌, Bool, true, false, ◌&&◌, not, if◌then◌else◌, Option, none, some, List, [], ◌∷◌,
  any,
}
use shipflow.Database.{find_first, count, delete_many}
use shipflow.Notifications.{
  NotificationCategory, is_organization, NotificationType, DedupeKey, same_key, Notification,
  NotificationPreference, Notices, notification_retention_ms,
}

pub record WriteNotificationInput : Type 0 where
  pub user_id : ℕ
  pub organization_id : Option ℕ
  pub category : NotificationCategory
  pub type : NotificationType
  pub dedupe_key : DedupeKey
  pub created_at : Option ℕ

-- `preference?.organizationEnabled === false`
abbrev pub muted : ℕ → List NotificationPreference → Bool
muted user preferences = elim (find_first (λ p. p.user_id == user) preferences) [
  | none ↦ false
  | some p ↦ not p.organization_enabled
]

-- The unique key of the upsert.
abbrev pub has_key : ℕ → DedupeKey → Notification → Bool
has_key user key n = n.user_id == user && same_key n.dedupe_key key

-- A creation time that lies ahead is not taken over.
abbrev pub creation_time : Option ℕ → ℕ → ℕ
creation_time none now = now
creation_time (some t) now = if leb t now then t else now

-- `id` is the id that the database gives the row, if it creates one.
unfoldable pub write_notification : ℕ → ℕ → WriteNotificationInput → Notices → Notices
write_notification id now input s =
    if is_organization input.category && muted input.user_id s.preferences
    then s
    else if any (has_key input.user_id input.dedupe_key) s.notifications
    then s
    else record s {
      notifications =
          record {
            id = id;
            user_id = input.user_id;
            organization_id = input.organization_id;
            category = input.category;
            type = input.type;
            dedupe_key = input.dedupe_key;
            read_at = none;
            expires_at = creation_time input.created_at now + notification_retention_ms;
            created_at = creation_time input.created_at now;
          }
          ∷ s.notifications;
    }

-- `prune`: the number of notices deleted, and those left. An error of the database, which the flag reports,
-- is caught.
unfoldable pub prune : Bool → ℕ → Notices → ℕ × Notices
prune false now s = (0, s)
prune true now s = (
  count (λ n. leb n.expires_at now) s.notifications,
  record s { notifications = delete_many (λ n. leb n.expires_at now) s.notifications },
)
