-- ===== src/Organizations/Rows.antt =====
-- The lookups of backend/src/authorization/organization-context.service.ts, and the writes of rows with
-- the unique indexes of backend/prisma/migrations/20260807094653_initial_identity_tenancy: one
-- membership for a user and an organization, one owner for an organization.
use shipflow.Common.{
  ℕ, ◌==◌, Bool, ◌&&◌, ◌||◌, not, if◌then◌else◌, is_some, none, some, List, ◌∷◌, any, Action, ok,
  err, or_throw, not_found, missing_row, unique_violation,
}
use shipflow.Database.{find_first, count, update_many, delete_many}
use shipflow.Authorization.{MembershipRole, is_owner}
use shipflow.Notifications.Writer.{WriteNotificationInput, write_notification}
use shipflow.Organizations.Model.{
  Organization, Membership, Invitation, Tenancy, OrganizationContext,
}

abbrev pub set_memberships : List Membership → Tenancy → Tenancy
set_memberships ms s = record s { memberships = ms }

abbrev pub set_invitations : List Invitation → Tenancy → Tenancy
set_invitations is s = record s { invitations = is }

-- An organization that is there and not deleted.
abbrev pub is_live : ℕ → List Organization → Bool
is_live id organizations =
    is_some (find_first (λ o. o.id == id && not (is_some o.deleted_at)) organizations)

unfoldable pub resolve : ℕ → ℕ → Action Tenancy OrganizationContext
resolve organization user s =
    elim (find_first
      (λ m.
        m.organization_id == organization
        && (m.user_id == user && is_live organization s.organizations))
      s.memberships) [
        | none ↦ (err not_found, s)
        | some m ↦ elim (find_first (λ o. o.id == organization) s.organizations) [
          | none ↦ (err not_found, s)
          | some o ↦ (
            ok (record {
              membership_id = m.id;
              role = m.role;
              organization = o;
              member_count = count (λ n. n.organization_id == organization) s.memberships;
            }),
            s,
          )
        ]
      ]

unfoldable pub find_membership_by_id : ℕ → ℕ → Action Tenancy Membership
find_membership_by_id organization id s =
    or_throw (find_first (λ m. m.id == id && m.organization_id == organization) s.memberships)
      not_found s

-- A write that would leave an organization with two owners violates the index.
abbrev pub clashes : Membership → List Membership → Bool
clashes m = any λ n.
    not (n.id == m.id)
    && (n.organization_id == m.organization_id
        && (n.user_id == m.user_id || is_owner n.role && is_owner m.role))

-- `membership.update` of the role.
unfoldable pub set_role : ℕ → MembershipRole → Action Tenancy Membership
set_role id role s = elim (find_first (λ m. m.id == id) s.memberships) [
  | none ↦ (err missing_row, s)
  | some m ↦
      if clashes (record m { role = role }) s.memberships then (err unique_violation, s) else (
        ok (record m { role = role }),
        set_memberships
            (update_many (λ n. n.id == id) (λ n. record n { role = role }) s.memberships) s,
      )
]

-- `membership.delete`
unfoldable pub delete_membership : ℕ → Action Tenancy (Unit {0})
delete_membership id s =
    if any (λ m. m.id == id) s.memberships
    then (ok tt, set_memberships (delete_many (λ m. m.id == id) s.memberships) s)
    else (err missing_row, s)

-- `membership.create`
unfoldable pub create_membership : Membership → Action Tenancy Membership
create_membership m s =
    if any (λ n. n.id == m.id) s.memberships || clashes m s.memberships
    then (err unique_violation, s)
    else (ok m, set_memberships (m ∷ s.memberships) s)

-- `organization.update` of the owner.
unfoldable pub set_owner : ℕ → ℕ → Action Tenancy (Unit {0})
set_owner id owner s =
    if any (λ o. o.id == id) s.organizations
    then (
      ok tt,
      record s {
        organizations =
            update_many (λ o. o.id == id) (λ o. record o { owner_id = owner }) s.organizations;
      },
    )
    else (err missing_row, s)

-- `writeNotification` in the transaction of the caller.
unfoldable pub notify : ℕ → ℕ → WriteNotificationInput → Action Tenancy (Unit {0})
unfolding write_notification
notify id now input s = (ok tt, record s { notices = write_notification id now input s.notices })
