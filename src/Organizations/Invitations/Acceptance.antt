-- ===== src/Organizations/Invitations/Acceptance.antt =====
-- Who can accept an invitation, and what that makes of the tables.
use shipflow.Common.{
  ◌≤◌, ℕ, ◌<◌, ◌==◌, ◌≡◌, refl, Bool, true, false, ◌&&◌, some, List, [], ◌∷◌, arith, any, ◌⊎◌, inl,
  inr, ok, Option-cases, Result-cases, is_ok, String, str_eq, ltb,
}
use shipflow.Database.{find_first, count, update_many}
use shipflow.Organizations.{
  Tenancy, Membership, Organization, Invitation, AuthenticatedUser, create_membership, notify,
  is_pending, pending, set_invitations,
}
use shipflow.Organizations.Invitations.{Environment, accept_invitation, accept_found, join, accept}

abbrev available : Invitation → ℕ → Invitation → Bool
available invitation now i = i.id == invitation.id && (is_pending i.status && ltb now i.expires_at)

abbrev pub joined : AuthenticatedUser → Invitation → ℕ → ℕ → Membership
joined user invitation id now = record {
  id = id;
  organization_id = invitation.organization_id;
  user_id = user.id;
  role = invitation.role;
  created_at = now;
}

create_membership_ok :
    (m n : Membership) (s : Tenancy)
    → (create_membership m s).0 ≡ ok n
    → (n ≡ m) × ((create_membership m s).1 ≡ record s { memberships = m ∷ s.memberships })
unfolding create_membership
create_membership_ok m n s h = (ground arith, ground arith)

-- Joining succeeds only while the user is no member and the invitation is the one row that is pending
-- and unexpired; it adds the membership with the invited role and marks the invitation accepted by the
-- user. Where it fails, nothing has changed.
pub join_lem :
    (env : Environment) (user : AuthenticatedUser) (invitation : Invitation)
    (owner id notice now : ℕ) (s : Tenancy)
    → ((is_ok (join env user invitation owner id notice now s).0 ≡ false)
        × ((join env user invitation owner id notice now s).1 ≡ s))
      ⊎ (((join env user invitation owner id notice now s).0 ≡ ok (joined user invitation id now))
          × (any
                (λ m. m.organization_id == invitation.organization_id && m.user_id == user.id)
                s.memberships
              ≡ false)
          × (count (available invitation now) s.invitations ≡ 1)
          × ((join env user invitation owner id notice now s).1.memberships
              ≡ joined user invitation id now ∷ s.memberships)
          × ((join env user invitation owner id notice now s).1.invitations
              ≡ update_many (available invitation now) (accept user.id now) s.invitations))
unfolding join notify
join_lem env user invitation owner id notice now s =
    elim (Result-cases
      (create_membership (joined user invitation id now) (
        set_invitations (update_many (available invitation now) (accept user.id now) s.invitations)
          s)).0) [
            | inl (e, refused) ↦ ground arith
            | inr (m, made) ↦ ground (
              arith,
              create_membership_ok (joined user invitation id now) m
                  (set_invitations
                    (update_many (available invitation now) (accept user.id now) s.invitations) s)
                  made,
            )
          ]

none_available :
    (invitation : Invitation) (user now later : ℕ) (is : List Invitation)
    → now ≤ later
    → count
        (available invitation later)
        (update_many (available invitation now) (accept user now) is)
      ≡ 0
none_available invitation user now later [] le = refl
none_available invitation user now later (i ∷ is) le =
    ground (arith, none_available invitation user now later is le)

-- Of two transactions that accept an invitation, which both callers may have read while it was pending,
-- the one that comes second, at the same time or later, fails and changes nothing if the first one went
-- through.
pub join_once :
    (env : Environment) (first second : AuthenticatedUser) (invitation : Invitation)
    (owner id notice id' notice' now later : ℕ) (s : Tenancy) (m : Membership)
    → now ≤ later
    → (join env first invitation owner id notice now s).0 ≡ ok m
    → let s' = (join env first invitation owner id notice now s).1 in
      (is_ok (join env second invitation owner id' notice' later s').0 ≡ false)
      × ((join env second invitation owner id' notice' later s').1 ≡ s')
join_once env first second invitation owner id notice id' notice' now later s m le h = ground (
  arith,
  join_lem env first invitation owner id notice now s,
  join_lem env second invitation owner id' notice' later
      (join env first invitation owner id notice now s).1,
  none_available invitation first.id now later s.invitations le,
)

accept_found_only :
    (env : Environment) (user : AuthenticatedUser) (i : Invitation) (o : Organization)
    (id notice now later : ℕ) (s : Tenancy) (m : Membership)
    → (accept_found env user i o id notice now later s).0 ≡ ok m
    → (str_eq i.email (env.normalize_email user.email) ≡ true)
      × (now < i.expires_at)
      × (i.status ≡ pending)
      × (m ≡ joined user i id later)
      × ((accept_found env user i o id notice now later s).1.memberships ≡ m ∷ s.memberships)
unfolding accept_found
accept_found_only env user i o id notice now later s m h = (
  ground arith,
  ground arith,
  ground arith,
  ground (arith, join_lem env user i o.owner_id id notice later s),
  ground (arith, join_lem env user i o.owner_id id notice later s),
)

-- If accepting an invitation by its token succeeds, there is a pending and unexpired invitation with this
-- token, the user's address is verified and is the invited one, and exactly one membership is added: the
-- user's in the inviting organization, with the role that was offered.
pub accept_invitation_only :
    (env : Environment) (user : AuthenticatedUser) (token : String) (id notice now later : ℕ)
    (s : Tenancy) (m : Membership)
    → (accept_invitation env user token id notice now later s).0 ≡ ok m
    → (i : Invitation) × (find_first
          (λ j. str_eq j.token_hash (env.hash_opaque_token token))
          s.invitations
        ≡ some i)
      × (user.email_verified ≡ true)
      × (str_eq i.email (env.normalize_email user.email) ≡ true)
      × (now < i.expires_at)
      × (i.status ≡ pending)
      × (m ≡ joined user i id later)
      × ((accept_invitation env user token id notice now later s).1.memberships ≡ m ∷ s.memberships)
unfolding accept_invitation
accept_invitation_only env user token id notice now later s m h =
    elim (Option-cases
      (find_first (λ j. str_eq j.token_hash (env.hash_opaque_token token)) s.invitations)) [
        | inl e ↦ absurd (ground arith)
        | inr (i, e) ↦
            elim (Option-cases (find_first (λ o. o.id == i.organization_id) s.organizations)) [
              | inl e' ↦ absurd (ground arith)
              | inr (o, e') ↦
                  let found : (accept_found env user i o id notice now later s).0 ≡ ok m =
                    ground arith in
                  let (address, time, state, row, added) =
                    accept_found_only env user i o id notice now later s m found in
                  (i, e, ground arith, address, time, state, row, ground (arith, e, e', added))
            ]
      ]
