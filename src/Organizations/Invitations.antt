-- ===== src/Organizations/Invitations.antt =====
-- The invitations of backend/src/organizations/organizations.service.ts: created, sent again, revoked,
-- expired and accepted. The clock's readings are arguments in the order in which a call makes them.
pub mod Acceptance
use shipflow.Common.{
  ℕ, ◌+◌, leb, ltb, ◌==◌, Bool, true, false, ◌&&◌, ◌||◌, not, if◌then◌else◌, is_some, Option, none,
  some, List, [], ◌∷◌, any, String, str_eq, Action, ok, err, pure, throw, gets, or_throw, lift,
  transaction, catch, throw_if, modify, ◌>>=◌, ◌>>◌, Error, bad_request, forbidden, not_found,
  conflict, gone, unique_violation, missing_row,
}
use shipflow.Database.{find_first, update_many, count}
use shipflow.Authorization.{MembershipRole, assert_can_assign_membership_role}
use shipflow.Notifications.{organization_invitation_accepted, invitation_accepted}
use shipflow.Organizations.{
  Tenancy, OrganizationContext, Organization, Membership, Invitation, InvitationStatus, pending,
  accepted, revoked, expired, is_pending, is_accepted, is_revoked, is_expired, AuthenticatedUser,
  InvitationMail, set_invitations, create_membership, notify, organization_invitation_ttl_ms, User,
}
use shipflow.Organizations.Members.{organization_notice}

-- What the service takes from elsewhere: `email.trim().toLowerCase()` over Unicode, the SHA-256 of an
-- opaque token, and whether the deployment is the public demo, which sends no mail.
pub record Environment : Type 0 where
  pub normalize_email : String → String
  pub hash_opaque_token : String → String
  pub public_demo : Bool

-- `expireInvitations`
unfoldable pub expire_invitations : ℕ → Option String → ℕ → Action Tenancy (Unit {0})
expire_invitations organization email now = modify λ s.
    set_invitations
      (update_many
        (λ i.
          i.organization_id == organization
          && (is_pending i.status
              && (leb i.expires_at now && elim email [ none ↦ true | some e ↦ str_eq i.email e ])))
        (λ i. record i { status = expired }) s.invitations)
      s

-- The unique index on the pending invitations of an organization and an address.
abbrev pub is_open_for : ℕ → String → Invitation → Bool
is_open_for organization email i =
    i.organization_id == organization && (str_eq i.email email && is_pending i.status)

-- `invitation.create`
unfoldable pub create_row : Invitation → Action Tenancy Invitation
create_row i s =
    if any (λ j. j.id == i.id || str_eq j.token_hash i.token_hash) s.invitations
      || any (is_open_for i.organization_id i.email) s.invitations
    then (err unique_violation, s)
    else (ok i, set_invitations (i ∷ s.invitations) s)

-- `invitation.update`
unfoldable pub update_row : ℕ → (Invitation → Invitation) → Action Tenancy Invitation
update_row id change s = elim (find_first (λ i. i.id == id) s.invitations) [
  | none ↦ (err missing_row, s)
  | some i ↦ (ok (change i), set_invitations (update_many (λ j. j.id == id) change s.invitations) s)
]

unfoldable pub find_invitation : ℕ → ℕ → Action Tenancy Invitation
find_invitation organization id s =
    or_throw (find_first (λ i. i.id == id && i.organization_id == organization) s.invitations)
      not_found s

-- `membership.findFirst({ where: { organizationId, user: { email } } })`
abbrev pub is_member : ℕ → String → Tenancy → Bool
is_member organization email s =
    any
      (λ m.
        m.organization_id == organization
        && any (λ u. u.id == m.user_id && str_eq u.email email) s.users)
      s.memberships

-- The `catch` of the creation: the index's violation is a conflict, anything else is thrown on.
abbrev pub unique_as_conflict : Error → Error
unique_as_conflict unique_violation = conflict
unique_as_conflict e = e

-- What accepting an invitation writes into it.
abbrev pub accept : ℕ → ℕ → Invitation → Invitation
accept user now i = record i {
  status = accepted;
  accepted_by_id = some user;
  accepted_at = some now;
}

-- What sending an invitation again writes into it.
abbrev pub reopen : ℕ → String → ℕ → Invitation → Invitation
reopen user hash now i = record i {
  invited_by_id = user;
  status = pending;
  token_hash = hash;
  expires_at = now + organization_invitation_ttl_ms;
  accepted_at = none;
  accepted_by_id = none;
  revoked_at = none;
}

module _ (env : Environment) where
  -- `if (!this.isPublicDemo()) await this.delivery.sendOrganizationInvitation(...)`
  unfoldable pub deliver : String → String → Action Tenancy (Unit {0})
  deliver address token =
      if env.public_demo
      then pure tt
      else modify λ s. record s { outbox = record { address = address; token = token } ∷ s.outbox }

  abbrev pub new_invitation : ℕ → ℕ → ℕ → String → MembershipRole → String → ℕ → Invitation
  new_invitation organization user id email role token now = record {
    id = id;
    organization_id = organization;
    invited_by_id = user;
    email = email;
    role = role;
    token_hash = env.hash_opaque_token token;
    status = pending;
    expires_at = now + organization_invitation_ttl_ms;
    accepted_by_id = none;
    accepted_at = none;
    revoked_at = none;
    created_at = now;
  }

  unfoldable pub create_invitation :
      OrganizationContext
      → ℕ
      → String
      → MembershipRole
      → ℕ
      → String
      → ℕ
      → ℕ
      → Action Tenancy Invitation
  create_invitation context user raw_email role id token now created = do
    lift (assert_can_assign_membership_role context.role role)
    let organization = context.organization.id
    let email = env.normalize_email raw_email
    expire_invitations organization (some email) now
    throw_if (← gets (is_member organization email)) conflict
    invitation ←
        catch (create_row (new_invitation organization user id email role token created))
          (λ e. throw (unique_as_conflict e))
    deliver invitation.email token
    pure invitation

  unfoldable pub resend_invitation :
      OrganizationContext → ℕ → ℕ → String → ℕ → ℕ → Action Tenancy Invitation
  resend_invitation context id user token now reopened = do
    let organization = context.organization.id
    expire_invitations organization none now
    existing ← find_invitation organization id
    lift (assert_can_assign_membership_role context.role existing.role)
    throw_if (is_accepted existing.status || is_revoked existing.status) conflict
    others ← gets (λ s. s.invitations)
    throw_if (any (λ i. is_open_for organization existing.email i && not (i.id == id)) others)
        conflict
    invitation ← update_row id (reopen user (env.hash_opaque_token token) reopened)
    deliver invitation.email token
    pure invitation

  unfoldable pub revoke_invitation : OrganizationContext → ℕ → ℕ → ℕ → Action Tenancy (Unit {0})
  revoke_invitation context id now revoked_now = do
    let organization = context.organization.id
    expire_invitations organization none now
    invitation ← find_invitation organization id
    lift (assert_can_assign_membership_role context.role invitation.role)
    throw_if (not (is_pending invitation.status)) conflict
    update_row id (λ i. record i { status = revoked; revoked_at = some revoked_now })
    pure tt

  -- The transaction of `acceptInvitation`.
  unfoldable pub join : AuthenticatedUser → Invitation → ℕ → ℕ → ℕ → ℕ → Action Tenancy Membership
  join user invitation owner id notice now = transaction (do
    members ← gets (λ s. s.memberships)
    throw_if
        (any (λ m. m.organization_id == invitation.organization_id && m.user_id == user.id) members)
        conflict
    let available =
        λ (i : Invitation). i.id == invitation.id && (is_pending i.status && ltb now i.expires_at)
    claimed ← gets (λ s. count available s.invitations)
    modify (λ s. set_invitations (update_many available (accept user.id now) s.invitations) s)
    throw_if (not (claimed == 1)) conflict
    membership ← create_membership (record {
      id = id;
      organization_id = invitation.organization_id;
      user_id = user.id;
      role = invitation.role;
      created_at = now;
    })
    notify notice now (
        organization_notice owner invitation.organization_id organization_invitation_accepted
          (invitation_accepted invitation.id))
    pure membership)

  -- The update of an invitation that is found expired.
  unfoldable pub expire_found : Invitation → Action Tenancy (Unit {0})
  expire_found invitation = modify λ s.
      set_invitations
        (update_many (λ i. i.id == invitation.id && is_pending i.status)
          (λ i. record i { status = expired }) s.invitations)
        s

  -- `acceptInvitation` on the invitation and the organization that it has found.
  unfoldable pub accept_found :
      AuthenticatedUser → Invitation → Organization → ℕ → ℕ → ℕ → ℕ → Action Tenancy Membership
  accept_found user invitation organization id notice now joined = do
    throw_if (is_some organization.deleted_at || is_revoked invitation.status) not_found
    throw_if (is_accepted invitation.status) conflict
    if is_expired invitation.status || leb invitation.expires_at now
        then (do expire_found invitation; throw gone)
        else do
          throw_if (not (str_eq invitation.email (env.normalize_email user.email))) forbidden
          join user invitation organization.owner_id id notice joined

  unfoldable pub accept_invitation :
      AuthenticatedUser → String → ℕ → ℕ → ℕ → ℕ → Action Tenancy Membership
  accept_invitation user token id notice now joined = do
    throw_if (not user.email_verified) forbidden
    let hash = env.hash_opaque_token token
    found ← gets (λ s. find_first (λ i. str_eq i.token_hash hash) s.invitations)
    invitation ← or_throw found bad_request
    organizations ← gets (λ s. s.organizations)
    organization ←
        or_throw (find_first (λ o. o.id == invitation.organization_id) organizations) bad_request
    accept_found user invitation organization id notice now joined
