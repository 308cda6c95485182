-- ===== src/Organizations/Tenants/Creation.antt =====
-- Which slug a new organization gets.
use shipflow.Common.{
  ℕ, zero, suc, ◌+◌, ◌==◌, ◌≡◌, refl, sym, ap, ◌∙◌, Bool, true, false, ◌||◌, if◌then◌else◌, Option,
  none, some, List, [], ◌∷◌, any, arith, inl, inr, ok, err, Result, Action, Bool-cases, conflict,
  forbidden, unique_violation,
}
use shipflow.Authorization.{owner}
use shipflow.Organizations.Model.{Organization, Membership, Tenancy, AuthenticatedUser}
use shipflow.Organizations.Rows.{create_membership, clashes}
use shipflow.Organizations.Slugs.{slugify, slug_with_suffix, same_slug}
use shipflow.Organizations.Tenants.{
  OrganizationResponse, to_organization_response, Draw, create_row, new_organization,
  owner_membership, create_with_slug, or_next, create_from, create_organization,
}

-- A slug that the table has.
abbrev pub is_taken : List Organization → List ℕ → Bool
is_taken os slug = any (λ o. same_slug o.slug slug) os

-- The ids of a draw are in no row.
abbrev pub IsFresh : Tenancy → Draw → Type 0
IsFresh s d =
    (any (λ o. o.id == d.organization_id) s.organizations ≡ false)
    × (any (λ (m : Membership). m.id == d.membership_id || m.organization_id == d.organization_id)
          s.memberships
        ≡ false)

-- The specification: the first of the suffixes that are left whose slug is free.
abbrev pub first_free : (ℕ → List ℕ) → List Organization → ℕ → ℕ → Option ℕ
first_free slug os zero suffix = none
first_free slug os (suc left) suffix =
    let later = first_free slug os left (suffix + 1) in
    if is_taken os (slug suffix) then later else some suffix

-- What a suffix, or none, makes of the tables: the organization and the membership of its owner.
abbrev pub created :
    ℕ
    → List ℕ
    → (ℕ → List ℕ)
    → (ℕ → Draw)
    → Tenancy
    → Option ℕ
    → Result OrganizationResponse × Tenancy
created user name slug draw s none = (err conflict, s)
created user name slug draw s (some suffix) =
    let d = draw suffix in
    let organization = new_organization user name (slug suffix) d in
    (
      ok (to_organization_response organization d.membership_id owner 1),
      record s {
        organizations = organization ∷ s.organizations;
        memberships = owner_membership user d ∷ s.memberships;
      },
    )

any-or :
    (p q : Organization → Bool) (os : List Organization)
    → any p os ≡ false
    → any (λ o. p o || q o) os ≡ any q os
any-or p q [] h = refl
any-or p q (o ∷ os) h = ground (arith, h, any-or p q os)

fresh_membership :
    (m : Membership) (ms : List Membership)
    → any (λ (n : Membership). n.id == m.id || n.organization_id == m.organization_id) ms ≡ false
    → (any (λ (n : Membership). n.id == m.id) ms || clashes m ms) ≡ false
fresh_membership m [] h = refl
fresh_membership m (n ∷ ms) h = ground (arith, h, fresh_membership m ms)

create_row_taken :
    (row : Organization) (s : Tenancy)
    → any (λ o. o.id == row.id || same_slug o.slug row.slug) s.organizations ≡ true
    → create_row row s ≡ (err unique_violation, s)
unfolding create_row
create_row_taken row s h = rw (h, create_row) refl

create_row_free :
    (row : Organization) (s : Tenancy)
    → any (λ o. o.id == row.id || same_slug o.slug row.slug) s.organizations ≡ false
    → create_row row s ≡ (ok row, record s { organizations = row ∷ s.organizations })
unfolding create_row
create_row_free row s h = rw (h, create_row) refl

create_membership_free :
    (m : Membership) (s : Tenancy)
    → (any (λ (n : Membership). n.id == m.id) s.memberships || clashes m s.memberships) ≡ false
    → create_membership m s ≡ (ok m, record s { memberships = m ∷ s.memberships })
unfolding create_membership
create_membership_free m s h = rw (h, create_membership) refl

module _ (user : ℕ) (name : List ℕ) (slug : List ℕ) (d : Draw) (s : Tenancy)
    (fresh : IsFresh s d) where
  create_with_slug_taken :
      is_taken s.organizations slug ≡ true
      → create_with_slug user name slug d s ≡ (err unique_violation, s)
  unfolding create_with_slug
  create_with_slug_taken taken =
      let organization = new_organization user name slug d in
      ground (
        arith,
        create_row_taken organization s (
            any-or (λ o. o.id == d.organization_id) (λ o. same_slug o.slug slug) s.organizations
              fresh.0
            ∙ taken),
      )

  create_with_slug_free :
      is_taken s.organizations slug ≡ false
      → create_with_slug user name slug d s ≡ (
        ok (to_organization_response (new_organization user name slug d) d.membership_id owner 1),
        record s {
          organizations = new_organization user name slug d ∷ s.organizations;
          memberships = owner_membership user d ∷ s.memberships;
        },
      )
  unfolding create_with_slug
  create_with_slug_free free =
      let organization = new_organization user name slug d in
      let with_row = record s { organizations = organization ∷ s.organizations } in
      ground (
        arith,
        create_row_free organization s (
            any-or (λ o. o.id == d.organization_id) (λ o. same_slug o.slug slug) s.organizations
              fresh.0
            ∙ free),
        create_membership_free (owner_membership user d) with_row
            (fresh_membership (owner_membership user d) s.memberships fresh.1),
      )

or_next_taken :
    (attempt next : Action Tenancy OrganizationResponse) (s : Tenancy)
    → attempt s ≡ (err unique_violation, s)
    → or_next attempt next s ≡ next s
or_next_taken attempt next s h = ground (arith, h)

or_next_free :
    (attempt next : Action Tenancy OrganizationResponse) (s t : Tenancy) (r : OrganizationResponse)
    → attempt s ≡ (ok r, t)
    → or_next attempt next s ≡ (ok r, t)
or_next_free attempt next s t r h = ground (arith, h)

module _ (decompose to_lower_case : List ℕ → List ℕ) (name : List ℕ) where
  -- The slug that a suffix tries.
  abbrev pub slug_for : ℕ → List ℕ
  slug_for suffix = slug_with_suffix (slugify decompose to_lower_case name) suffix

  create_from-first_free :
      (user : ℕ) (draw : ℕ → Draw) (s : Tenancy) (left suffix : ℕ)
      → ((k : ℕ) → IsFresh s (draw k))
      → create_from decompose to_lower_case user name draw left suffix s
        ≡ created user name slug_for draw s (first_free slug_for s.organizations left suffix)
  unfolding create_from
  create_from-first_free user draw s zero suffix fresh = refl
  create_from-first_free user draw s (suc left) suffix fresh =
      let rest = create_from-first_free user draw s left (suffix + 1) fresh in
      let slug = slug_for suffix in
      elim (Bool-cases (is_taken s.organizations slug)) [
        | inl taken ↦
            or_next_taken (create_with_slug user name slug (draw suffix))
              (create_from decompose to_lower_case user name draw left (suffix + 1)) s
              (create_with_slug_taken user name slug (draw suffix) s (fresh suffix) taken)
            ∙ rest
            ∙ ap (created user name slug_for draw s) (
                sym (
                  ap
                    (λ b.
                      if b
                      then first_free slug_for s.organizations left (suffix + 1)
                      else some suffix)
                    taken))
        | inr free ↦
            or_next_free (create_with_slug user name slug (draw suffix))
              (create_from decompose to_lower_case user name draw left (suffix + 1)) s _ _
              (create_with_slug_free user name slug (draw suffix) s (fresh suffix) free)
            ∙ ap (created user name slug_for draw s) (
                sym (
                  ap
                    (λ b.
                      if b
                      then first_free slug_for s.organizations left (suffix + 1)
                      else some suffix)
                    free))
      ]

  -- A user whose address is verified gets an organization with the first slug, of a hundred, that no
  -- organization has, and a membership as its owner; if all of them are taken, a conflict. Nothing else is
  -- written. The ids that are drawn have to be new.
  pub create_organization-first_free :
      (user : AuthenticatedUser) (draw : ℕ → Draw) (s : Tenancy)
      → ((k : ℕ) → IsFresh s (draw k))
      → create_organization decompose to_lower_case user name draw s ≡ (
          if user.email_verified
          then created user.id name slug_for draw s (first_free slug_for s.organizations 100 1)
          else (err forbidden, s))
  unfolding create_organization
  create_organization-first_free user draw s fresh = elim (Bool-cases user.email_verified) [
    | inl verified ↦ rw verified (create_from-first_free user.id draw s 100 1 fresh)
    | inr unverified ↦ rw unverified refl
  ]
