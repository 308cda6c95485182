-- ===== src/Organizations/Members/Ownership.antt =====
-- An organization keeps its owner: only a transfer moves the ownership, and it moves it as a whole.
use shipflow.Common.{ℕ, ◌==◌, ◌≡◌, false, ◌&&◌, some, List, arith, inl, inr, ok, Option-cases}
use shipflow.Database.{find_first, count}
use shipflow.Database.Keys.{has_id, UniqueIds, find_first-id, count-update_one, count-delete_one}
use shipflow.Authorization.{
  MembershipRole, is_owner, assert_can_manage_membership, assert_can_assign_membership_role,
  assert_can_leave_organization, membership_change_role, membership_remove, Capability,
}
use shipflow.Notifications.{
  NotificationType, DedupeKey, organization_role_changed, organization_member_removed, role_changed,
  member_removed,
}
use shipflow.Organizations.{
  Tenancy, OrganizationContext, Membership, find_membership_by_id, set_role, delete_membership,
}
use shipflow.Organizations.Members.{
  notify_change, update_member_role, remove_member, leave_organization,
}

-- The number of owners of an organization.
abbrev pub owners : ℕ → List Membership → ℕ
owners organization = count (λ m. m.organization_id == organization && is_owner m.role)

abbrev pub IsKeyed : List Membership → Type 0
IsKeyed = UniqueIds (λ m. m.id)

-- A role that is assigned is not the owner's.
assigned-owner :
    (actor role : MembershipRole)
    → assert_can_assign_membership_role actor role ≡ ok tt
    → is_owner role ≡ false
unfolding assert_can_assign_membership_role
assigned-owner actor role h = ground arith

-- A membership that is managed is not the owner's.
managed-owner :
    (actor : MembershipRole) (actor_id target_id : ℕ) (target : MembershipRole) (c : Capability)
    → assert_can_manage_membership actor actor_id target_id target c ≡ ok tt
    → is_owner target ≡ false
unfolding assert_can_manage_membership
managed-owner actor actor_id target_id target c h = ground arith

left-owner :
    (role : MembershipRole) → assert_can_leave_organization role ≡ ok tt → is_owner role ≡ false
unfolding assert_can_leave_organization
left-owner role h = ground arith

notify_change_members :
    (context : OrganizationContext) (target : Membership) (type : NotificationType)
    (key : DedupeKey) (first second now : ℕ) (s : Tenancy)
    → (notify_change context target type key first second now s).1.memberships ≡ s.memberships
unfolding notify_change
notify_change_members context target type key first second now s = ground arith

set_role-owners :
    (organization id : ℕ) (role : MembershipRole) (s : Tenancy) (m : Membership)
    → IsKeyed s.memberships
    → find_first (has_id (λ n. n.id) id) s.memberships ≡ some m
    → is_owner m.role ≡ false
    → is_owner role ≡ false
    → owners organization (set_role id role s).1.memberships ≡ owners organization s.memberships
unfolding set_role
set_role-owners organization id role s m u e h k = ground (
  arith,
  count-update_one (λ n. n.id) (λ n. n.organization_id == organization && is_owner n.role) id
      (λ n. record n { role = role }) s.memberships m u e,
)

delete_membership-owners :
    (organization id : ℕ) (s : Tenancy) (m : Membership)
    → IsKeyed s.memberships
    → find_first (has_id (λ n. n.id) id) s.memberships ≡ some m
    → is_owner m.role ≡ false
    → owners organization (delete_membership id s).1.memberships ≡ owners organization s.memberships
unfolding delete_membership
delete_membership-owners organization id s m u e h = ground (
  arith,
  count-delete_one (λ n. n.id) (λ n. n.organization_id == organization && is_owner n.role) id
      s.memberships m u e,
)

-- In a table with distinct ids, changing a member's role leaves the number of owners of every organization as it is, on success
-- and on each error.
pub update_member_role-owners :
    (context : OrganizationContext) (membership : ℕ) (role : MembershipRole)
    (operation first second now organization : ℕ) (s : Tenancy)
    → IsKeyed s.memberships
    → owners organization
        (update_member_role context membership role operation first second now s).1.memberships
      ≡ owners organization s.memberships
unfolding update_member_role find_membership_by_id
update_member_role-owners context membership role operation first second now organization s u =
    elim (Option-cases (
      find_first (λ m. m.id == membership && m.organization_id == context.organization.id)
        s.memberships)) [
          | inl e ↦ ground arith
          | inr (m, e) ↦ ground (
            arith,
            managed-owner context.role context.membership_id m.id m.role membership_change_role,
            assigned-owner context.role role,
            set_role-owners organization membership role s m u (
                find_first-id (λ n. n.id) membership
                  (λ n. n.organization_id == context.organization.id) s.memberships m u e),
            notify_change_members context m organization_role_changed (role_changed operation) first
                second now (set_role membership role s).1,
          )
        ]

-- In a table with distinct ids, removing a member leaves the number of owners of every organization as it is, on success and on
-- each error.
pub remove_member-owners :
    (context : OrganizationContext) (membership operation first second now organization : ℕ)
    (s : Tenancy)
    → IsKeyed s.memberships
    → owners organization
        (remove_member context membership operation first second now s).1.memberships
      ≡ owners organization s.memberships
unfolding remove_member find_membership_by_id
remove_member-owners context membership operation first second now organization s u =
    elim (Option-cases (
      find_first (λ m. m.id == membership && m.organization_id == context.organization.id)
        s.memberships)) [
          | inl e ↦ ground arith
          | inr (m, e) ↦ ground (
            arith,
            managed-owner context.role context.membership_id m.id m.role membership_remove,
            delete_membership-owners organization membership s m u (
                find_first-id (λ n. n.id) membership
                  (λ n. n.organization_id == context.organization.id) s.memberships m u e),
            notify_change_members context m organization_member_removed (member_removed operation)
                first second now (delete_membership membership s).1,
          )
        ]

-- In a table with distinct ids, leaving an organization keeps the number of owners of every organization, for a context whose
-- membership is in the table with the role that the context has.
pub leave_organization-owners :
    (context : OrganizationContext) (organization : ℕ) (s : Tenancy) (m : Membership)
    → IsKeyed s.memberships
    → find_first (has_id (λ n. n.id) context.membership_id) s.memberships ≡ some m
    → m.role ≡ context.role
    → owners organization (leave_organization context s).1.memberships
      ≡ owners organization s.memberships
unfolding leave_organization
leave_organization-owners context organization s m u e r = ground (
  arith,
  left-owner context.role,
  delete_membership-owners organization context.membership_id s m u e,
)
