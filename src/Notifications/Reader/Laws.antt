-- ===== src/Notifications/Reader/Laws.antt =====
-- What a reader sees after reading, and that reading keeps the table's constraints.
use shipflow.Common.{
  ℕ, ◌≤◌, ◌==◌, ◌≡◌, refl, Bool, true, false, ◌&&◌, not, Option, List, [], ◌∷◌, any, All, arith,
  is_some, if◌then◌else◌,
}
use shipflow.Database.{find_first, count, update_many}
use shipflow.Notifications.{Notification, NotificationPreference, Notices}
use shipflow.Notifications.Writer.{muted, has_key}
use shipflow.Notifications.Writer.Laws.{IsChecked, IsSound, UniqueKeys}
use shipflow.Notifications.Reader.{
  active_where, is_unread, set_read, unread_count, mark_all_read, update_preferences,
}

none_left :
    (user : ℕ) (organization : Option ℕ) (now : ℕ) (ns : List Notification)
    → count
        (λ n. active_where user organization now n && is_unread n)
        (update_many (λ n. active_where user organization now n && is_unread n) (set_read now) ns)
      ≡ 0
none_left user organization now [] = refl
none_left user organization now (n ∷ ns) = ground (arith, none_left user organization now ns)

-- Marking all as read reports the number of notices that were unread, and leaves none.
pub unread_count-mark_all_read :
    (user : ℕ) (organization : Option ℕ) (now : ℕ) (s : Notices)
    → ((mark_all_read user organization now s).0 ≡ unread_count user organization now s)
      × (unread_count user organization now (mark_all_read user organization now s).1 ≡ 0)
unfolding mark_all_read unread_count
unread_count-mark_all_read user organization now s =
    (refl, none_left user organization now s.notifications)

any-update_many :
    (p : Notification → Bool) (now user : ℕ) (ns : List Notification) (m : Notification)
    → any (has_key m.user_id m.dedupe_key) (update_many p (set_read now) ns)
      ≡ any (has_key m.user_id m.dedupe_key) ns
any-update_many p now user [] m = refl
any-update_many p now user (n ∷ ns) m = ground (arith, any-update_many p now user ns m)

UniqueKeys-update_many :
    (p : Notification → Bool) (now : ℕ) (ns : List Notification)
    → UniqueKeys ns
    → UniqueKeys (update_many p (set_read now) ns)
UniqueKeys-update_many p now [] u = tt
UniqueKeys-update_many p now (n ∷ ns) u =
    ground (arith, UniqueKeys-update_many p now ns u.1, any-update_many p now 0 ns n)

All-IsChecked-update_many :
    (p : Notification → Bool) (now : ℕ) (ns : List Notification)
    → ((n : Notification) → p n ≡ true → n.created_at ≤ now)
    → All IsChecked ns
    → All IsChecked (update_many p (set_read now) ns)
All-IsChecked-update_many p now [] past h = tt
All-IsChecked-update_many p now (n ∷ ns) past h =
    ground (arith, past n, All-IsChecked-update_many p now ns past h.1)

-- Marking all as read keeps a sound table sound: the notices of a user have distinct keys, and none is
-- read before it was created.
pub mark_all_read-IsSound :
    (user : ℕ) (organization : Option ℕ) (now : ℕ) (s : Notices)
    → IsSound s
    → IsSound (mark_all_read user organization now s).1
unfolding mark_all_read
mark_all_read-IsSound user organization now s h = record {
  unique =
      UniqueKeys-update_many (λ n. active_where user organization now n && is_unread n) now
        s.notifications h.unique;
  checked =
      All-IsChecked-update_many (λ n. active_where user organization now n && is_unread n) now
        s.notifications (λ n e. ground arith) h.checked;
}

abbrev set_enabled : ℕ → Bool → List NotificationPreference → List NotificationPreference
set_enabled user enabled =
    update_many (λ p. p.user_id == user) (λ p. record p { organization_enabled = enabled })

muted-set_other :
    (user other : ℕ) (enabled : Bool) (ps : List NotificationPreference)
    → (user == other) ≡ false
    → muted other (set_enabled user enabled ps) ≡ muted other ps
muted-set_other user other enabled [] h = refl
muted-set_other user other enabled (p ∷ ps) h =
    ground (arith, muted-set_other user other enabled ps)

muted-set_own :
    (user : ℕ) (enabled : Bool) (ps : List NotificationPreference)
    → is_some (find_first (λ p. p.user_id == user) ps) ≡ true
    → muted user (set_enabled user enabled ps) ≡ not enabled
muted-set_own user enabled [] h = absurd (cc)
muted-set_own user enabled (p ∷ ps) h = ground (arith, muted-set_own user enabled ps)

-- What a user sets is what the writer asks: organization notices are muted for the user exactly if
-- they were disabled, and nobody else's setting changes.
pub muted-update_preferences :
    (user other : ℕ) (enabled : Bool) (s : Notices)
    → muted other (update_preferences user enabled s).1.preferences
      ≡ (if user == other then not enabled else muted other s.preferences)
unfolding update_preferences
muted-update_preferences user other enabled s = ground (
  arith,
  muted-set_own user enabled s.preferences,
  muted-set_other user other enabled s.preferences,
)
