-- ===== src/Organizations/Tests.antt =====
-- An organization with an owner, an admin and a member, and an invitation to it.
use shipflow.Common.{
  arith, ◌<◌, ◌==◌, ◌≡◌, refl, true, false, ◌⊎◌, none, some, [], ◌∷◌, is_ok, str_eq,
}
use shipflow.Database.{find_first, update_many}
use shipflow.Authorization.{owner, admin, member, viewer}
use shipflow.Organizations.{
  Tenancy, Organization, Membership, Invitation, OrganizationContext, AuthenticatedUser, pending,
  create_membership, notify,
}
use shipflow.Organizations.Members.{update_member_role, remove_member, hand_over}
use shipflow.Organizations.Members.Ownership.{
  owners, update_member_role-owners, remove_member-owners,
}
use shipflow.Organizations.Members.Transfer.{hand_over_lem, by_id, with_role}
use shipflow.Organizations.Invitations.{Environment, accept_invitation, accept_found, join}
use shipflow.Organizations.Invitations.Acceptance.{accept_invitation_only, join_once, joined}

abbrev acme : Organization
acme = record { id = 7; owner_id = 1; name = []; slug = []; created_at = 0; deleted_at = none }

abbrev first : Membership
first = record { id = 11; organization_id = 7; user_id = 1; role = owner; created_at = 0 }

abbrev second : Membership
second = record { id = 12; organization_id = 7; user_id = 2; role = admin; created_at = 1 }

abbrev third : Membership
third = record { id = 13; organization_id = 7; user_id = 3; role = member; created_at = 2 }

abbrev invitation : Invitation
invitation = record {
  id = 21;
  organization_id = 7;
  invited_by_id = 1;
  email = "d@acme";
  role = viewer;
  token_hash = "hash";
  status = pending;
  expires_at = 900;
  accepted_by_id = none;
  accepted_at = none;
  revoked_at = none;
  created_at = 100;
}

abbrev tenancy : Tenancy
tenancy = record {
  users = [];
  organizations = acme ∷ [];
  memberships = first ∷ second ∷ third ∷ [];
  invitations = invitation ∷ [];
  notices = record { notifications = []; preferences = [] };
  outbox = [];
}

abbrev as_owner : OrganizationContext
as_owner = record { membership_id = 11; role = owner; organization = acme; member_count = 2 }

abbrev as_admin : OrganizationContext
as_admin = record { membership_id = 12; role = admin; organization = acme; member_count = 2 }

abbrev env : Environment
env = record { normalize_email = λ e. e; hash_opaque_token = λ _. "hash"; public_demo = true }

abbrev guest : AuthenticatedUser
guest = record { id = 4; email = "d@acme"; email_verified = true }

update_member_role-owners_example :
    owners 7 (update_member_role as_admin 13 viewer 30 31 32 500 tenancy).1.memberships ≡ 1
update_member_role-owners_example =
    update_member_role-owners as_admin 13 viewer 30 31 32 500 7 tenancy (refl, (refl, (refl, tt)))

remove_member-owners_example :
    owners 7 (remove_member as_owner 12 30 31 32 500 tenancy).1.memberships ≡ 1
remove_member-owners_example =
    remove_member-owners as_owner 12 30 31 32 500 7 tenancy (refl, (refl, (refl, tt)))

hand_over_lem_example :
    let s' = (hand_over as_owner third 30 31 500 tenancy).1 in
    (owners 7 s'.memberships ≡ 1)
    × ((s' ≡ tenancy)
        ⊎ ((find_first (by_id 11) s'.memberships ≡ some (with_role admin first))
            × (find_first (by_id 13) s'.memberships ≡ some (with_role owner third))
            × (s'.organizations
                ≡ update_many (λ o. o.id == 7) (λ o. record o { owner_id = 3 }) (acme ∷ []))))
hand_over_lem_example =
    hand_over_lem as_owner third 30 31 500 7 tenancy first (refl, (refl, (refl, tt))) refl refl refl
      refl refl refl

join_once_example :
    let s' = (join env guest invitation 1 14 31 500 tenancy).1 in
    (is_ok (join env (record guest { id = 5 }) invitation 1 15 32 600 s').0 ≡ false)
    × ((join env (record guest { id = 5 }) invitation 1 15 32 600 s').1 ≡ s')
unfolding join create_membership notify
join_once_example =
    join_once env guest (record guest { id = 5 }) invitation 1 14 31 15 32 500 600 tenancy
      (joined guest invitation 14 500) (omega arith) refl

accept_invitation_only_example :
    (i : Invitation) × (find_first (λ j. str_eq j.token_hash "hash") (invitation ∷ []) ≡ some i)
    × (true ≡ true)
    × (str_eq i.email "d@acme" ≡ true)
    × (400 < i.expires_at)
    × (i.status ≡ pending)
    × (joined guest invitation 14 500 ≡ joined guest i 14 500)
    × ((accept_invitation env guest "token" 14 31 400 500 tenancy).1.memberships
        ≡ joined guest invitation 14 500 ∷ tenancy.memberships)
unfolding accept_invitation accept_found join create_membership notify
accept_invitation_only_example =
    accept_invitation_only env guest "token" 14 31 400 500 tenancy (joined guest invitation 14 500)
      refl
