-- ===== src/Notifications/Tests.antt =====
-- The notices of a user, written, read and pruned.
use shipflow.Common.{◌≡◌, refl, true, none, some, [], ◌∷◌, arith}
use shipflow.Notifications.{
  Notification, Notices, organization, organization_role_changed, role_changed,
}
use shipflow.Notifications.Writer.{WriteNotificationInput, write_notification}
use shipflow.Notifications.Writer.Laws.{
  IsSound, write_notification-IsSound, write_notification_twice,
}
use shipflow.Notifications.Reader.{unread_count, mark_all_read}
use shipflow.Notifications.Reader.Laws.{unread_count-mark_all_read}

abbrev notice : Notification
notice = record {
  id = 1;
  user_id = 3;
  organization_id = some 7;
  category = organization;
  type = organization_role_changed;
  dedupe_key = role_changed 4;
  read_at = none;
  expires_at = 900;
  created_at = 100;
}

abbrev inbox : Notices
inbox = record {
  notifications = notice ∷ [];
  preferences = record { user_id = 3; organization_enabled = true } ∷ [];
}

abbrev input : WriteNotificationInput
input = record {
  user_id = 3;
  organization_id = some 7;
  category = organization;
  type = organization_role_changed;
  dedupe_key = role_changed 5;
  created_at = some 150;
}

inbox-IsSound : IsSound inbox
inbox-IsSound = record { unique = (refl, tt); checked = ((omega arith, tt), tt) }

write_notification-IsSound_example : IsSound (write_notification 2 200 input inbox)
write_notification-IsSound_example = write_notification-IsSound 2 200 input inbox inbox-IsSound

write_notification_twice_example :
    write_notification 9 300 input (write_notification 2 200 input inbox)
    ≡ write_notification 2 200 input inbox
write_notification_twice_example = write_notification_twice 2 9 200 300 input inbox

unread_count-mark_all_read_example :
    ((mark_all_read 3 none 500 inbox).0 ≡ unread_count 3 none 500 inbox)
    × (unread_count 3 none 500 (mark_all_read 3 none 500 inbox).1 ≡ 0)
unread_count-mark_all_read_example = unread_count-mark_all_read 3 none 500 inbox
