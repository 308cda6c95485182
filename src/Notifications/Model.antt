-- ===== src/Notifications/Model.antt =====
-- The rows of `Notification` and `NotificationPreference` (backend/prisma/schema.prisma). A dedupe key
-- is the template that the caller fills, `invitation-accepted:${id}` and so on, with its parts.
use shipflow.Common.{ℕ, ◌*◌, ◌==◌, Bool, true, false, ◌&&◌, Option, List}

pub data NotificationCategory : Type 0 where
  security organization billing : NotificationCategory

abbrev pub is_organization : NotificationCategory → Bool
is_organization organization = true
is_organization _ = false

pub data NotificationType : Type 0 where
  password_changed : NotificationType
  organization_invitation_accepted organization_role_changed : NotificationType
  organization_member_removed organization_ownership_transferred : NotificationType
  billing_trial_started billing_payment_failed billing_grace_period_started : NotificationType
  billing_cancellation_scheduled billing_subscription_canceled : NotificationType
  billing_full_refund billing_dispute : NotificationType

-- The place of a type in the enum.
abbrev pub place : NotificationType → ℕ
place password_changed = 0
place organization_invitation_accepted = 1
place organization_role_changed = 2
place organization_member_removed = 3
place organization_ownership_transferred = 4
place billing_trial_started = 5
place billing_payment_failed = 6
place billing_grace_period_started = 7
place billing_cancellation_scheduled = 8
place billing_subscription_canceled = 9
place billing_full_refund = 10
place billing_dispute = 11

pub data DedupeKey : Type 0 where
  invitation_accepted role_changed member_removed ownership_transferred : ℕ → DedupeKey
  password_changed : ℕ → DedupeKey
  stripe : ℕ → NotificationType → DedupeKey

abbrev pub same_key : DedupeKey → DedupeKey → Bool
same_key (invitation_accepted a) (invitation_accepted b) = a == b
same_key (role_changed a) (role_changed b) = a == b
same_key (member_removed a) (member_removed b) = a == b
same_key (ownership_transferred a) (ownership_transferred b) = a == b
same_key (DedupeKey.password_changed a) (DedupeKey.password_changed b) = a == b
same_key (stripe a s) (stripe b t) = a == b && place s == place t
same_key _ _ = false

pub record Notification : Type 0 where
  pub id : ℕ
  pub user_id : ℕ
  pub organization_id : Option ℕ
  pub category : NotificationCategory
  pub type : NotificationType
  pub dedupe_key : DedupeKey
  pub read_at : Option ℕ
  pub expires_at : ℕ
  pub created_at : ℕ

pub record NotificationPreference : Type 0 where
  pub user_id : ℕ
  pub organization_enabled : Bool

pub record Notices : Type 0 where
  pub notifications : List Notification
  pub preferences : List NotificationPreference

-- `NOTIFICATION_RETENTION_DAYS`, in milliseconds
abbrev pub notification_retention_ms : ℕ
notification_retention_ms = 90 * 24 * 60 * 60 * 1000
