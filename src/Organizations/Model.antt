-- ===== src/Organizations/Model.antt =====
-- The rows of `User`, `Organization`, `Membership` and `Invitation` (backend/prisma/schema.prisma) with
-- the columns that the organization services read or write. Names and avatars of users are not kept
-- here, nor is `updatedAt`. The name and the slug of an organization are lists of UTF-16 code units.
use shipflow.Common.{ℕ, ◌*◌, Bool, true, false, Option, List, String}
use shipflow.Authorization.{MembershipRole}
use shipflow.Notifications.{Notices}

pub data InvitationStatus : Type 0 where
  pending accepted revoked expired : InvitationStatus

abbrev pub is_pending : InvitationStatus → Bool
is_pending pending = true
is_pending _ = false

abbrev pub is_accepted : InvitationStatus → Bool
is_accepted accepted = true
is_accepted _ = false

abbrev pub is_revoked : InvitationStatus → Bool
is_revoked revoked = true
is_revoked _ = false

abbrev pub is_expired : InvitationStatus → Bool
is_expired expired = true
is_expired _ = false

pub record User : Type 0 where
  pub id : ℕ
  pub email : String

pub record Organization : Type 0 where
  pub id : ℕ
  pub owner_id : ℕ
  pub name : List ℕ
  pub slug : List ℕ
  pub created_at : ℕ
  pub deleted_at : Option ℕ

pub record Membership : Type 0 where
  pub id : ℕ
  pub organization_id : ℕ
  pub user_id : ℕ
  pub role : MembershipRole
  pub created_at : ℕ

pub record Invitation : Type 0 where
  pub id : ℕ
  pub organization_id : ℕ
  pub invited_by_id : ℕ
  pub email : String
  pub role : MembershipRole
  pub token_hash : String
  pub status : InvitationStatus
  pub expires_at : ℕ
  pub accepted_by_id : Option ℕ
  pub accepted_at : Option ℕ
  pub revoked_at : Option ℕ
  pub created_at : ℕ

-- A mail handed to `TransactionalEmailDelivery`: the address and the token in the link.
pub record InvitationMail : Type 0 where
  pub address : String
  pub token : String

pub record Tenancy : Type 0 where
  pub users : List User
  pub organizations : List Organization
  pub memberships : List Membership
  pub invitations : List Invitation
  pub notices : Notices
  pub outbox : List InvitationMail

-- What `OrganizationContextService.resolve` gives: the caller's membership and the organization, with the
-- number of its members at that time.
pub record OrganizationContext : Type 0 where
  pub membership_id : ℕ
  pub role : MembershipRole
  pub organization : Organization
  pub member_count : ℕ

-- `AuthenticatedUser`
pub record AuthenticatedUser : Type 0 where
  pub id : ℕ
  pub email : String
  pub email_verified : Bool

-- `ORGANIZATION_INVITATION_TTL_DAYS`, in milliseconds
abbrev pub organization_invitation_ttl_ms : ℕ
organization_invitation_ttl_ms = 7 * 24 * 60 * 60 * 1000
