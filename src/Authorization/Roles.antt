-- ===== src/Authorization/Roles.antt =====
-- The enums `MembershipRole` (backend/src/generated/prisma/enums.ts) and `Capability`.
use shipflow.Common.{ℕ, ◌==◌, Bool, true, false, List, [], ◌∷◌}

pub data MembershipRole : Type 0 where
  owner admin member viewer : MembershipRole

abbrev pub is_owner : MembershipRole → Bool
is_owner owner = true
is_owner _ = false

abbrev pub is_admin : MembershipRole → Bool
is_admin admin = true
is_admin _ = false

abbrev pub is_member : MembershipRole → Bool
is_member member = true
is_member _ = false

abbrev pub is_viewer : MembershipRole → Bool
is_viewer viewer = true
is_viewer _ = false

pub data Capability : Type 0 where
  organization_read organization_update organization_delete organization_leave : Capability
  membership_read membership_change_role membership_remove : Capability
  invitation_read invitation_create invitation_resend invitation_revoke : Capability
  ownership_transfer billing_read billing_manage : Capability
  notification_read notification_manage file_read file_upload file_delete : Capability

-- `Object.values(Capability)`
abbrev pub all_capabilities : List Capability
all_capabilities =
    organization_read ∷ organization_update ∷ organization_delete ∷ organization_leave
    ∷ membership_read ∷ membership_change_role ∷ membership_remove ∷ invitation_read
    ∷ invitation_create ∷ invitation_resend ∷ invitation_revoke ∷ ownership_transfer ∷ billing_read
    ∷ billing_manage ∷ notification_read ∷ notification_manage ∷ file_read ∷ file_upload
    ∷ file_delete ∷ []

-- The place of a capability in the enum: two capabilities are the same if it is.
abbrev pub place : Capability → ℕ
place organization_read = 0
place organization_update = 1
place organization_delete = 2
place organization_leave = 3
place membership_read = 4
place membership_change_role = 5
place membership_remove = 6
place invitation_read = 7
place invitation_create = 8
place invitation_resend = 9
place invitation_revoke = 10
place ownership_transfer = 11
place billing_read = 12
place billing_manage = 13
place notification_read = 14
place notification_manage = 15
place file_read = 16
place file_upload = 17
place file_delete = 18

abbrev pub same_capability : Capability → Capability → Bool
same_capability a b = place a == place b
