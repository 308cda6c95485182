-- ===== src/Notifications/Reader.antt =====
-- backend/src/notifications/notifications.service.ts: a user lists, counts and reads notices. The
-- cursor of a page is taken decoded; its base64 form is not modelled.
pub mod Laws
use shipflow.Common.{
  ℕ, suc, ◌+◌, leb, ltb, ◌==◌, Bool, true, false, ◌&&◌, ◌||◌, not, if◌then◌else◌, or_else, is_some,
  Option, none, some, List, [], ◌∷◌, length, take, Action, ok, err, pure, or_throw, gets, modify,
  transaction, ◌>>=◌, ◌>>◌, not_found,
}
use shipflow.Database.{find_first, find_many, count, update_many}
use shipflow.Database.Ordering.{order_by}
use shipflow.Notifications.{Notification, NotificationPreference, Notices}

pub record NotificationCursor : Type 0 where
  pub created_at : ℕ
  pub id : ℕ

-- A filter that is left out lets every notice pass.
abbrev pub in_organization : Option ℕ → Notification → Bool
in_organization none n = true
in_organization (some organization) n = elim n.organization_id [
  | none ↦ false
  | some o ↦ o == organization
]

abbrev pub active_where : ℕ → Option ℕ → ℕ → Notification → Bool
active_where user organization now n =
    n.user_id == user
    && (in_organization organization n && (leb n.created_at now && ltb now n.expires_at))

abbrev pub is_unread : Notification → Bool
is_unread n = not (is_some n.read_at)

-- Older than the cursor, or of the same time with a lesser id.
abbrev pub past_cursor : Option NotificationCursor → Notification → Bool
past_cursor none n = true
past_cursor (some c) n =
    ltb n.created_at c.created_at || (n.created_at == c.created_at && ltb n.id c.id)

-- `orderBy: [{ createdAt: 'desc' }, { id: 'desc' }]`
abbrev pub newest_first : Notification → Notification → Bool
newest_first m n = ltb n.created_at m.created_at || (n.created_at == m.created_at && leb n.id m.id)

abbrev pub last : List Notification → Option Notification
last [] = none
last (n ∷ []) = some n
last (n ∷ m ∷ ns) = last (m ∷ ns)

pub record NotificationPage : Type 0 where
  pub items : List Notification
  pub next_cursor : Option NotificationCursor

abbrev pub page_of : ℕ → List Notification → NotificationPage
page_of limit records =
    let has_more = ltb limit (length records) in
    let page = if has_more then take limit records else records in
    record {
      items = page;
      next_cursor =
          if has_more
          then elim (last page) [
            | none ↦ none
            | some n ↦ some (record { created_at = n.created_at; id = n.id })
          ]
          else none;
    }

unfoldable pub list :
    ℕ → Option ℕ → Bool → Option NotificationCursor → ℕ → ℕ → Notices → NotificationPage
list user organization unread_only cursor limit now s = page_of limit (
    take (limit + 1) (
      order_by newest_first (
        find_many
          (λ n.
            active_where user organization now n
            && ((if unread_only then is_unread n else true) && past_cursor cursor n))
          s.notifications)))

unfoldable pub unread_count : ℕ → Option ℕ → ℕ → Notices → ℕ
unread_count user organization now s =
    count (λ n. active_where user organization now n && is_unread n) s.notifications

abbrev pub set_read : ℕ → Notification → Notification
set_read now n = record n { read_at = some now }

unfoldable pub mark_read : ℕ → ℕ → ℕ → Action Notices Notification
mark_read user id now = transaction (do
  n ← gets (λ s. find_first (λ n. n.id == id && active_where user none now n) s.notifications)
  found ← or_throw n not_found
  if is_some found.read_at then pure found else do
    modify λ s. record s {
      notifications = update_many (λ n. n.id == found.id) (set_read now) s.notifications;
    }
    pure (set_read now found))

unfoldable pub mark_all_read : ℕ → Option ℕ → ℕ → Notices → ℕ × Notices
mark_all_read user organization cutoff s =
    let unread = λ (n : Notification). active_where user organization cutoff n && is_unread n in
    (
      count unread s.notifications,
      record s { notifications = update_many unread (set_read cutoff) s.notifications },
    )

unfoldable pub get_preferences : ℕ → Notices → Bool
get_preferences user s = elim (find_first (λ p. p.user_id == user) s.preferences) [
  | none ↦ true
  | some p ↦ p.organization_enabled
]

-- `upsert`
unfoldable pub update_preferences : ℕ → Bool → Notices → Bool × Notices
update_preferences user enabled s = (
  enabled,
  record s {
    preferences =
        if is_some (find_first (λ p. p.user_id == user) s.preferences)
        then update_many (λ p. p.user_id == user) (λ p. record p { organization_enabled = enabled })
            s.preferences
        else record { user_id = user; organization_enabled = enabled } ∷ s.preferences;
  },
)
