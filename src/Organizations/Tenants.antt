-- ===== src/Organizations/Tenants.antt =====
-- backend/src/organizations/organizations.service.ts: creation, lists, changes and deletion of
-- organizations. The ids and the time of a creation are drawn anew for each suffix that is tried.
pub mod Creation
pub mod Deletion
use shipflow.Common.{
  ℕ, zero, suc, ◌+◌, ◌-◌, ◌*◌, ◌/◌, ltb, ◌==◌, Bool, true, false, ◌&&◌, ◌||◌, not, if◌then◌else◌,
  is_some, Option, none, some, List, [], ◌∷◌, take, drop, any, ok, err, Error, Action, pure, throw,
  gets, or_throw, transaction, catch, throw_if, modify, ◌>>=◌, ◌>>◌, conflict, forbidden,
  missing_row, unique_violation,
}
use shipflow.Database.{find_first, find_many, count, update_many}
use shipflow.Database.Ordering.{order_by}
use shipflow.Authorization.{MembershipRole, owner, Capability, role_capabilities}
use shipflow.Organizations.Model.{
  InvitationStatus, is_pending, Organization, Membership, Invitation, Tenancy, OrganizationContext,
  AuthenticatedUser,
}
use shipflow.Organizations.Rows.{create_membership, set_invitations, is_live}
use shipflow.Organizations.Slugs.{slugify, slug_with_suffix, same_slug}

-- `OrganizationResponseDto`, with the count of the members where the answer is of a row.
pub record OrganizationResponse : Type 0 where
  pub organization : Organization
  pub membership_id : ℕ
  pub current_user_role : MembershipRole
  pub current_user_capabilities : List Capability
  pub member_count : ℕ

-- `toOrganizationResponse`
abbrev pub to_organization_response : Organization → ℕ → MembershipRole → ℕ → OrganizationResponse
to_organization_response organization membership role members = record {
  organization = organization;
  membership_id = membership;
  current_user_role = role;
  current_user_capabilities = role_capabilities role;
  member_count = members;
}

-- `_count` of the memberships
abbrev pub member_count : ℕ → List Membership → ℕ
member_count organization = count (λ m. m.organization_id == organization)

-- What one suffix draws: the ids of the two rows and the time.
pub record Draw : Type 0 where
  pub organization_id : ℕ
  pub membership_id : ℕ
  pub now : ℕ

-- `organization.create`, with the unique keys of the table.
unfoldable pub create_row : Organization → Action Tenancy Organization
create_row row s =
    if any (λ o. o.id == row.id || same_slug o.slug row.slug) s.organizations
    then (err unique_violation, s)
    else (ok row, record s { organizations = row ∷ s.organizations })

abbrev pub new_organization : ℕ → List ℕ → List ℕ → Draw → Organization
new_organization user name slug d = record {
  id = d.organization_id;
  owner_id = user;
  name = name;
  slug = slug;
  created_at = d.now;
  deleted_at = none;
}

abbrev pub owner_membership : ℕ → Draw → Membership
owner_membership user d = record {
  id = d.membership_id;
  organization_id = d.organization_id;
  user_id = user;
  role = owner;
  created_at = d.now;
}

-- The transaction of one suffix.
unfoldable pub create_with_slug : ℕ → List ℕ → List ℕ → Draw → Action Tenancy OrganizationResponse
create_with_slug user name slug d = transaction (do
  organization ← create_row (new_organization user name slug d)
  membership ← create_membership (owner_membership user d)
  pure (to_organization_response organization membership.id membership.role 1))

abbrev pub is_unique_constraint_error : Error → Bool
is_unique_constraint_error unique_violation = true
is_unique_constraint_error _ = false

-- What follows an attempt: its answer, the next suffix after a unique violation, or the error.
abbrev pub or_next :
    Action Tenancy OrganizationResponse
    → Action Tenancy OrganizationResponse
    → Action Tenancy OrganizationResponse
or_next attempt next =
    catch attempt (λ e. elim (is_unique_constraint_error e) [ true ↦ next | false ↦ throw e ])

module _ (decompose to_lower_case : List ℕ → List ℕ) where
  -- The loop, with the number of suffixes left and the next one.
  unfoldable pub create_from : ℕ → List ℕ → (ℕ → Draw) → ℕ → ℕ → Action Tenancy OrganizationResponse
  create_from user name draw zero suffix = throw conflict
  create_from user name draw (suc left) suffix =
      let next = create_from user name draw left (suffix + 1) in
      or_next
        (create_with_slug user name (slug_with_suffix (slugify decompose to_lower_case name) suffix)
          (draw suffix))
        next

  unfoldable pub create_organization :
      AuthenticatedUser → List ℕ → (ℕ → Draw) → Action Tenancy OrganizationResponse
  create_organization user name draw = do
    throw_if (not user.email_verified) forbidden
    create_from user.id name draw 100 1

-- `pagination`
pub record PaginationMeta : Type 0 where
  pub page : ℕ
  pub limit : ℕ
  pub total : ℕ
  pub total_pages : ℕ

abbrev pub pagination : ℕ → ℕ → ℕ → PaginationMeta
pagination page limit total = record {
  page = page;
  limit = limit;
  total = total;
  total_pages = if total == 0 then 0 else (total + limit - 1) / limit;
}

-- The membership with its organization, as the list selects them.
abbrev pub organization_of : Tenancy → Membership → Option Organization
organization_of s m = find_first (λ o. o.id == m.organization_id) s.organizations

abbrev pub created_at_of : Tenancy → Membership → ℕ
created_at_of s m = elim (organization_of s m) [ none ↦ 0 | some o ↦ o.created_at ]

-- `orderBy: [{ organization: { createdAt: 'desc' } }, { id: 'desc' }]`
abbrev pub newest_organization_first : Tenancy → Membership → Membership → Bool
newest_organization_first s a b =
    ltb (created_at_of s b) (created_at_of s a)
    || (created_at_of s b == created_at_of s a && ltb b.id a.id)

abbrev pub responses : Tenancy → List Membership → List OrganizationResponse
responses s [] = []
responses s (m ∷ ms) =
    let rest = responses s ms in
    elim (organization_of s m) [
      | none ↦ rest
      | some o ↦ to_organization_response o m.id m.role (member_count o.id s.memberships) ∷ rest
    ]

abbrev pub listed : ℕ → Tenancy → Membership → Bool
listed user s m = m.user_id == user && is_live m.organization_id s.organizations

unfoldable pub list_organizations :
    ℕ → ℕ → ℕ → Action Tenancy (List OrganizationResponse × PaginationMeta)
list_organizations user page limit = gets λ s. (
  responses s (
      take limit (
        drop ((page - 1) * limit)
          (order_by (newest_organization_first s) (find_many (listed user s) s.memberships)))),
  pagination page limit (count (listed user s) s.memberships),
)

-- `getOrganization`, with the number of members that the context has.
abbrev pub get_organization : OrganizationContext → OrganizationResponse
get_organization context =
    to_organization_response context.organization context.membership_id context.role
      context.member_count

-- `organization.update`
unfoldable pub update_row : ℕ → (Organization → Organization) → Action Tenancy Organization
update_row id f s = elim (find_first (λ o. o.id == id) s.organizations) [
  | none ↦ (err missing_row, s)
  | some o ↦
      (ok (f o), record s { organizations = update_many (λ o. o.id == id) f s.organizations })
]

unfoldable pub update_organization :
    OrganizationContext → List ℕ → Action Tenancy OrganizationResponse
update_organization context name = do
  organization ← update_row context.organization.id (λ o. record o { name = name })
  members ← gets (λ s. member_count context.organization.id s.memberships)
  pure (to_organization_response organization context.membership_id context.role members)

-- The invitations that a deletion revokes.
abbrev pub is_open_invitation : ℕ → Invitation → Bool
is_open_invitation organization i = i.organization_id == organization && is_pending i.status

unfoldable pub delete_organization : OrganizationContext → ℕ → Action Tenancy (Unit {0})
delete_organization context now = transaction (do
  modify (λ s.
      set_invitations
        (update_many (is_open_invitation context.organization.id)
          (λ i. record i { status = InvitationStatus.revoked; revoked_at = some now })
          s.invitations)
        s)
  update_row context.organization.id (λ o. record o { deleted_at = some now })
  pure tt)
