-- ===== src/Organizations/Members.antt =====
-- The members of an organization: `updateMemberRole`, `removeMember`, `leaveOrganization` and
-- `transferOwnership` of backend/src/organizations/organizations.service.ts. `operation` is the id
-- that `randomUUID` gives the operation; the database gives the notices theirs.
pub mod Ownership
pub mod Transfer
use shipflow.Common.{
  ℕ, ◌==◌, Bool, true, false, ◌&&◌, not, if◌then◌else◌, Option, none, some, Action, ok, err, pure,
  lift, transaction, throw_if, modify, ◌>>=◌, ◌>>◌, bad_request,
}
use shipflow.Authorization.{
  MembershipRole, owner, admin, is_owner, membership_change_role, membership_remove,
  assert_can_manage_membership, assert_can_assign_membership_role, assert_can_leave_organization,
}
use shipflow.Notifications.{
  organization, NotificationType, DedupeKey, role_changed, member_removed, ownership_transferred,
  organization_role_changed, organization_member_removed, organization_ownership_transferred,
}
use shipflow.Notifications.Writer.{WriteNotificationInput}
use shipflow.Organizations.{
  Tenancy, OrganizationContext, Membership, Organization, resolve, find_membership_by_id, set_role,
  delete_membership, set_owner, notify,
}

-- A notice about an organization, which is created when it is written.
abbrev pub organization_notice : ℕ → ℕ → NotificationType → DedupeKey → WriteNotificationInput
organization_notice user id type key = record {
  user_id = user;
  organization_id = some id;
  category = organization;
  type = type;
  dedupe_key = key;
  created_at = none;
}

-- The notices of a change to a member: to the member, and to the owner, if neither the actor nor the
-- member is the owner.
unfoldable pub notify_change :
    OrganizationContext
    → Membership
    → NotificationType
    → DedupeKey
    → ℕ
    → ℕ
    → ℕ
    → Action Tenancy (Unit {0})
unfolding notify
notify_change context target type key first second now = do
  notify first now (organization_notice target.user_id context.organization.id type key)
  if not (is_owner context.role) && not (context.organization.owner_id == target.user_id)
      then notify second now
          (organization_notice context.organization.owner_id context.organization.id type key)
      else pure tt

unfoldable pub update_member_role :
    OrganizationContext → ℕ → MembershipRole → ℕ → ℕ → ℕ → ℕ → Action Tenancy Membership
update_member_role context membership role operation first second now = do
  target ← find_membership_by_id context.organization.id membership
  lift (
      assert_can_manage_membership context.role context.membership_id target.id target.role
        membership_change_role)
  lift (assert_can_assign_membership_role context.role role)
  transaction (do
    updated ← set_role membership role
    notify_change context target organization_role_changed (role_changed operation) first second now
    pure updated)

unfoldable pub remove_member : OrganizationContext → ℕ → ℕ → ℕ → ℕ → ℕ → Action Tenancy (Unit {0})
remove_member context membership operation first second now = do
  target ← find_membership_by_id context.organization.id membership
  lift (
      assert_can_manage_membership context.role context.membership_id target.id target.role
        membership_remove)
  transaction (do
    delete_membership membership
    notify_change context target organization_member_removed (member_removed operation) first second
        now)

unfoldable pub leave_organization : OrganizationContext → Action Tenancy (Unit {0})
leave_organization context = do
  lift (assert_can_leave_organization context.role)
  delete_membership context.membership_id

-- The transaction of `transferOwnership`: the old owner is demoted first, since an organization has
-- room for one owner.
unfoldable pub hand_over : OrganizationContext → Membership → ℕ → ℕ → ℕ → Action Tenancy (Unit {0})
hand_over context target operation first now = transaction (do
  set_role context.membership_id admin
  set_role target.id owner
  set_owner context.organization.id target.user_id
  notify first now (
      organization_notice target.user_id context.organization.id organization_ownership_transferred
        (ownership_transferred operation)))

unfoldable pub transfer_ownership :
    OrganizationContext → ℕ → ℕ → ℕ → ℕ → ℕ → Action Tenancy OrganizationContext
transfer_ownership context user membership operation first now = do
  target ← find_membership_by_id context.organization.id membership
  throw_if (target.user_id == user) bad_request
  hand_over context target operation first now
  resolve context.organization.id user
