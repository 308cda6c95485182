-- ===== src/Authorization.antt =====
-- backend/src/authorization: the capability table of each membership role (`ROLE_CAPABILITIES`) and
-- the checks of `AuthorizationService`. A check returns a value or the exception class it throws.
mod Roles
pub mod Laws
mod Tests
pub use Roles.*
use shipflow.Common.{
  ℕ, ◌==◌, Bool, true, false, ◌&&◌, ◌||◌, not, if◌then◌else◌, List, [], ◌∷◌, any, Result, ok, err,
  Error, bad_request, forbidden, conflict,
}

-- `ROLE_CAPABILITIES`
unfoldable pub role_capabilities : MembershipRole → List Capability
role_capabilities owner = all_capabilities
role_capabilities admin =
    organization_read ∷ organization_update ∷ organization_leave ∷ membership_read
    ∷ membership_change_role ∷ membership_remove ∷ invitation_read ∷ invitation_create
    ∷ invitation_resend ∷ invitation_revoke ∷ notification_read ∷ notification_manage ∷ file_read
    ∷ file_upload ∷ file_delete ∷ []
role_capabilities member =
    organization_read ∷ organization_leave ∷ membership_read ∷ notification_read
    ∷ notification_manage ∷ file_read ∷ file_upload ∷ file_delete ∷ []
role_capabilities viewer =
    organization_read ∷ organization_leave ∷ membership_read ∷ notification_read
    ∷ notification_manage ∷ file_read ∷ []

unfoldable pub has_capability : MembershipRole → Capability → Bool
unfolding role_capabilities
has_capability role capability = any (same_capability capability) (role_capabilities role)

unfoldable pub assert_capabilities : MembershipRole → List Capability → Result (Unit {0})
assert_capabilities role capabilities =
    if any (λ capability. not (has_capability role capability)) capabilities
    then err forbidden
    else ok tt

unfoldable pub assert_can_assign_membership_role :
    MembershipRole → MembershipRole → Result (Unit {0})
assert_can_assign_membership_role actor assigned =
    let owner_can_assign = is_owner actor && not (is_owner assigned) in
    let admin_can_assign = is_admin actor && (is_member assigned || is_viewer assigned) in
    if not owner_can_assign && not admin_can_assign then err forbidden else ok tt

-- The ids are those of the actor's and of the target's membership.
unfoldable pub assert_can_manage_membership :
    MembershipRole → ℕ → ℕ → MembershipRole → Capability → Result (Unit {0})
unfolding assert_capabilities
assert_can_manage_membership actor actor_id target_id target capability =
    elim (assert_capabilities actor (capability ∷ [])) [
      | err e ↦ err e
      | ok _ ↦
          if is_owner target
          then err conflict
          else if actor_id == target_id
          then err bad_request
          else if is_admin actor && is_admin target
          then err forbidden
          else ok tt
    ]

unfoldable pub assert_can_leave_organization : MembershipRole → Result (Unit {0})
unfolding assert_capabilities
assert_can_leave_organization role = elim (assert_capabilities role (organization_leave ∷ [])) [
  | err e ↦ err e
  | ok _ ↦ if is_owner role then err conflict else ok tt
]
