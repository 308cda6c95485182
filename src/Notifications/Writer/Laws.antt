-- ===== src/Notifications/Writer/Laws.antt =====
-- What a notice that is written is, and what writing it never does.
use shipflow.Common.{
  Bool, not, refl, ℕ, ◌+◌, ◌≤◌, ◌<◌, leb, ◌≡◌, true, false, ◌&&◌, none, some, List, [], ◌∷◌, any,
  All, arith, ◌⊎◌, length, ==_refl,
}
use shipflow.Database.{count, delete_many}
use shipflow.Database.Laws.{count-delete_many}
use shipflow.Notifications.{
  invitation_accepted, role_changed, member_removed, ownership_transferred, stripe, is_organization,
  DedupeKey, Notification, Notices, same_key, place,
}
use shipflow.Notifications.Writer.{
  WriteNotificationInput, muted, has_key, write_notification, prune,
}

same_key_refl : (k : DedupeKey) → same_key k k ≡ true
same_key_refl (invitation_accepted a) = ==_refl a
same_key_refl (role_changed a) = ==_refl a
same_key_refl (member_removed a) = ==_refl a
same_key_refl (ownership_transferred a) = ==_refl a
same_key_refl (DedupeKey.password_changed a) = ==_refl a
same_key_refl (stripe a t) = ground (arith, ==_refl a, ==_refl (place t))

delete_many-expired :
    (now : ℕ) (ns : List Notification)
    → All (λ n. now < n.expires_at) (delete_many (λ n. leb n.expires_at now) ns)
delete_many-expired now [] = tt
delete_many-expired now (n ∷ ns) = ground (arith, delete_many-expired now ns)

count-unexpired :
    (now : ℕ) (p : Notification → Bool) (ns : List Notification)
    → count (λ n. p n && not (leb n.expires_at now)) (delete_many (λ n. leb n.expires_at now) ns)
      ≡ count (λ n. p n && not (leb n.expires_at now)) ns
count-unexpired now p [] = refl
count-unexpired now p (n ∷ ns) = ground (arith, count-unexpired now p ns)

-- The constraint `notifications_lifecycle_check` of backend/prisma/migrations.
abbrev pub IsChecked : Notification → Type 0
IsChecked n =
    (n.created_at < n.expires_at) × elim n.read_at [ none ↦ Unit {0} | some t ↦ n.created_at ≤ t ]

-- The unique index on user and dedupe key.
abbrev pub UniqueKeys : List Notification → Type 0
UniqueKeys [] = Unit
UniqueKeys (n ∷ ns) = (any (has_key n.user_id n.dedupe_key) ns ≡ false) × UniqueKeys ns

pub record IsSound (s : Notices) : Type 0 where
  pub unique : UniqueKeys s.notifications
  pub checked : All IsChecked s.notifications

-- Writing a notice keeps the table's unique key and its lifecycle constraint.
pub write_notification-IsSound :
    (id now : ℕ) (input : WriteNotificationInput) (s : Notices)
    → IsSound s
    → IsSound (write_notification id now input s)
unfolding write_notification
write_notification-IsSound id now input s h = record {
  unique = ground arith;
  checked = ground arith;
}

-- Writing the same notice again changes nothing, whenever it is done and whatever id the row would get.
pub write_notification_twice :
    (id id' now now' : ℕ) (input : WriteNotificationInput) (s : Notices)
    → write_notification id' now' input (write_notification id now input s)
      ≡ write_notification id now input s
unfolding write_notification
write_notification_twice id id' now now' input s = ground (arith, same_key_refl input.dedupe_key)

-- After a write the user has the notice, unless it is about an organization and the user has muted
-- those; then nothing is written.
pub write_notification_there :
    (id now : ℕ) (input : WriteNotificationInput) (s : Notices)
    → ((is_organization input.category && muted input.user_id s.preferences ≡ true)
        × (write_notification id now input s ≡ s))
      ⊎ ((is_organization input.category && muted input.user_id s.preferences ≡ false)
          × (any
                (has_key input.user_id input.dedupe_key)
                (write_notification id now input s).notifications
              ≡ true))
unfolding write_notification
write_notification_there id now input s = ground (arith, same_key_refl input.dedupe_key)

-- After pruning every notice left has still to expire, the number reported is that of the notices that
-- are gone, and of the notices that have still to expire, as many as before satisfy any test. Where the
-- database fails, nothing is reported and nothing is gone.
pub prune_lem :
    (now : ℕ) (p : Notification → Bool) (s : Notices)
    → All (λ n. now < n.expires_at) (prune true now s).1.notifications
      × ((prune true now s).0 + length (prune true now s).1.notifications ≡ length s.notifications)
      × (count (λ n. p n && not (leb n.expires_at now)) (prune true now s).1.notifications
          ≡ count (λ n. p n && not (leb n.expires_at now)) s.notifications)
      × (prune false now s ≡ (0, s))
unfolding prune
prune_lem now p s = (
  delete_many-expired now s.notifications,
  count-delete_many (λ n. leb n.expires_at now) s.notifications,
  count-unexpired now p s.notifications,
  refl,
)
