-- ===== src/Organizations/TenantTests.antt =====
-- Two organizations of one name, and the deletion of the first.
use shipflow.Common.{ℕ, ◌≤◌, ◌≡◌, refl, true, none, [], ◌∷◌, List, length, err, not_found}
use shipflow.Database.{count}
use shipflow.Authorization.{owner}
use shipflow.Organizations.Model.{
  Organization, Membership, Tenancy, OrganizationContext, AuthenticatedUser,
}
use shipflow.Organizations.Rows.{resolve}
use shipflow.Organizations.Slugs.{slugify, slug_with_suffix}
use shipflow.Organizations.Slugs.Format.{matches, slug_with_suffix-matches}
use shipflow.Organizations.Tenants.{
  Draw, create_organization, delete_organization, is_open_invitation, update_row,
}
use shipflow.Organizations.Tenants.Creation.{
  slug_for, first_free, created, create_organization-first_free,
}
use shipflow.Organizations.Tenants.Deletion.{delete_organization-resolve}

-- `a b!`
abbrev name : List ℕ
name = 97 ∷ 32 ∷ 98 ∷ 33 ∷ []

abbrev same : List ℕ → List ℕ
same cs = cs

-- `a-b` and `a-b-2`
a_b_2 : slug_with_suffix (slugify same same name) 2 ≡ 97 ∷ 45 ∷ 98 ∷ 45 ∷ 50 ∷ []
a_b_2 = refl

slug_with_suffix-matches_example :
    (length (slug_with_suffix (slugify same same name) 2) ≤ 63)
    × (matches true (slug_with_suffix (slugify same same name) 2) ≡ true)
slug_with_suffix-matches_example = slug_with_suffix-matches same same name 2

abbrev first : Organization
first = record {
  id = 7;
  owner_id = 1;
  name = name;
  slug = 97 ∷ 45 ∷ 98 ∷ [];
  created_at = 0;
  deleted_at = none;
}

abbrev first_owner : Membership
first_owner = record { id = 11; organization_id = 7; user_id = 1; role = owner; created_at = 0 }

abbrev tenancy : Tenancy
tenancy = record {
  users = [];
  organizations = first ∷ [];
  memberships = first_owner ∷ [];
  invitations = [];
  notices = record { notifications = []; preferences = [] };
  outbox = [];
}

abbrev draw : ℕ → Draw
draw suffix = record { organization_id = 8; membership_id = 12; now = 5 }

abbrev verified : AuthenticatedUser
verified = record { id = 2; email = "b@acme"; email_verified = true }

create_organization-first_free_example :
    create_organization same same verified name draw tenancy
    ≡ created 2 name
        (slug_for same same name)
        draw
        tenancy
        (first_free (slug_for same same name) (first ∷ []) 100 1)
create_organization-first_free_example =
    create_organization-first_free same same name verified draw tenancy (λ k. (refl, refl))

abbrev context : OrganizationContext
context = record { membership_id = 11; role = owner; organization = first; member_count = 1 }

delete_organization-resolve_example :
    let run = delete_organization context 9 tenancy in
    (resolve 7 1 run.1 ≡ (err not_found, run.1))
    × (count (is_open_invitation 7) run.1.invitations ≡ 0)
unfolding delete_organization update_row
delete_organization-resolve_example = delete_organization-resolve context 9 1 tenancy refl
