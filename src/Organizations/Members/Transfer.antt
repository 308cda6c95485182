-- ===== src/Organizations/Members/Transfer.antt =====
-- The transfer of an organization: all of it happens, or none.
use shipflow.Common.{
  ℕ, ◌==◌, ◌≡◌, ◌≢◌, refl, Bool, true, false, ◌&&◌, some, List, arith, ◌⊎◌, inl, inr, ok,
  Result-cases, is_ok,
}
use shipflow.Database.{find_first, update_many}
use shipflow.Database.Keys.{has_id, count-update_one, find_first-update, UniqueIds-update}
use shipflow.Authorization.{MembershipRole, owner, admin, is_owner}
use shipflow.Organizations.{
  Tenancy, OrganizationContext, Membership, set_role, set_owner, notify, set_memberships,
}
use shipflow.Organizations.Members.{hand_over}
use shipflow.Organizations.Members.Ownership.{owners, IsKeyed}

abbrev pub with_role : MembershipRole → Membership → Membership
with_role role m = record m { role = role }

abbrev pub by_id : ℕ → Membership → Bool
by_id = has_id (λ m. m.id)

-- A role that is set leaves the index's check behind.
set_role_ok :
    (id : ℕ) (role : MembershipRole) (s : Tenancy) (m n : Membership)
    → find_first (by_id id) s.memberships ≡ some m
    → (set_role id role s).0 ≡ ok n
    → (set_role id role s).1
      ≡ set_memberships (update_many (by_id id) (with_role role) s.memberships) s
unfolding set_role
set_role_ok id role s m n e h = ground arith

-- The two writes of roles.
abbrev swapped : ℕ → ℕ → List Membership → List Membership
swapped old new ms =
    update_many (by_id new) (with_role owner) (update_many (by_id old) (with_role admin) ms)

module _ (oi ni : ℕ) (old new : Membership) (ms : List Membership) (u : IsKeyed ms)
    (eo : find_first (by_id oi) ms ≡ some old) (en : find_first (by_id ni) ms ≡ some new)
    (io : old.id ≡ oi) (jn : new.id ≡ ni) (differ : oi ≢ ni) where
  found_new : find_first (by_id ni) (update_many (by_id oi) (with_role admin) ms) ≡ some new
  found_new = ground (arith, find_first-update (λ m. m.id) ni oi (with_role admin) ms (λ r. refl))

  found_old : find_first (by_id oi) (swapped oi ni ms) ≡ some (with_role admin old)
  found_old = ground (
    arith,
    find_first-update (λ m. m.id) oi oi (with_role admin) ms (λ r. refl),
    find_first-update (λ m. m.id) oi ni (with_role owner)
        (update_many (by_id oi) (with_role admin) ms) (λ r. refl),
  )

  found_promoted : find_first (by_id ni) (swapped oi ni ms) ≡ some (with_role owner new)
  found_promoted = ground (
    arith,
    found_new,
    find_first-update (λ m. m.id) ni ni (with_role owner)
        (update_many (by_id oi) (with_role admin) ms) (λ r. refl),
  )

  owners-swapped :
      (organization : ℕ)
      → old.organization_id ≡ new.organization_id
      → is_owner old.role ≡ true
      → is_owner new.role ≡ false
      → owners organization (swapped oi ni ms) ≡ owners organization ms
  owners-swapped organization same o n = ground (
    arith,
    found_new,
    count-update_one (λ m. m.id) (λ m. m.organization_id == organization && is_owner m.role) oi
        (with_role admin) ms old u eo,
    count-update_one (λ m. m.id) (λ m. m.organization_id == organization && is_owner m.role) ni
        (with_role owner) (update_many (by_id oi) (with_role admin) ms) new
        (UniqueIds-update (λ m. m.id) (by_id oi) (with_role admin) ms (λ r. refl) u),
  )

set_owner_lem :
    (id user : ℕ) (s : Tenancy)
    → ((set_owner id user s).0 ≡ ok tt)
    → ((set_owner id user s).1 ≡ record s {
      organizations =
          update_many (λ o. o.id == id) (λ o. record o { owner_id = user }) s.organizations;
    })
unfolding set_owner
set_owner_lem id user s h = ground arith

-- What a transfer makes of the tables that it writes.
abbrev Transferred : OrganizationContext → Membership → Tenancy → Tenancy → Type 0
Transferred context target s s' =
    (s'.memberships ≡ swapped context.membership_id target.id s.memberships)
    × (s'.organizations
        ≡ update_many (λ o. o.id == context.organization.id)
            (λ o. record o { owner_id = target.user_id }) s.organizations)

-- The transaction either leaves everything as it was, or the roles are swapped and the organization
-- belongs to the new owner.
hand_over_cases :
    (context : OrganizationContext) (target : Membership) (operation first now : ℕ) (s : Tenancy)
    (old : Membership)
    → IsKeyed s.memberships
    → old.id ≡ context.membership_id
    → find_first (by_id context.membership_id) s.memberships ≡ some old
    → find_first (by_id target.id) s.memberships ≡ some target
    → context.membership_id ≢ target.id
    → ((is_ok (hand_over context target operation first now s).0 ≡ false)
        × ((hand_over context target operation first now s).1 ≡ s))
      ⊎ (((hand_over context target operation first now s).0 ≡ ok tt)
          × Transferred context target s (hand_over context target operation first now s).1)
unfolding hand_over notify
hand_over_cases context target operation first now s old u own eo en differ =
    elim (Result-cases (set_role context.membership_id admin s).0) [
      | inl (e, refused) ↦ ground arith
      | inr (n, demoted) ↦
          let s1 : Tenancy =
            set_memberships
              (update_many (by_id context.membership_id) (with_role admin) s.memberships) s in
          let at1 : (set_role context.membership_id admin s).1 ≡ s1 =
            set_role_ok context.membership_id admin s old n eo demoted in
          elim (Result-cases (set_role target.id owner s1).0) [
            | inl (e, refused) ↦ ground arith
            | inr (k, promoted) ↦
                let at2 =
                  set_role_ok target.id owner s1 target k
                    (found_new context.membership_id target.id old target s.memberships u eo en own
                      refl differ)
                    promoted in
                ground (
                  arith,
                  at2,
                  set_owner_lem context.organization.id target.user_id
                      (set_role target.id owner s1).1,
                )
          ]
    ]

-- A transfer, by a membership that is an owner's to one of the same organization that is not, in a table
-- of memberships with distinct ids, leaves the number of owners of every organization as it is; and
-- either nothing has changed, or the old owner is an admin, the other member is an owner, and the
-- organization's record names his user as its owner.
pub hand_over_lem :
    (context : OrganizationContext) (target : Membership) (operation first now organization : ℕ)
    (s : Tenancy) (old : Membership)
    → IsKeyed s.memberships
    → old.id ≡ context.membership_id
    → find_first (by_id context.membership_id) s.memberships ≡ some old
    → find_first (by_id target.id) s.memberships ≡ some target
    → old.organization_id ≡ target.organization_id
    → is_owner old.role ≡ true
    → is_owner target.role ≡ false
    → let s' = (hand_over context target operation first now s).1 in
      (owners organization s'.memberships ≡ owners organization s.memberships)
      × ((s' ≡ s)
          ⊎ ((find_first (by_id context.membership_id) s'.memberships ≡ some (with_role admin old))
              × (find_first (by_id target.id) s'.memberships ≡ some (with_role owner target))
              × (s'.organizations
                  ≡ update_many
                      (λ o. o.id == context.organization.id)
                      (λ o. record o { owner_id = target.user_id })
                      s.organizations)))
hand_over_lem context target operation first now organization s old u own eo en same o n =
    let differ : context.membership_id ≢ target.id = ground arith in
    elim (hand_over_cases context target operation first now s old u own eo en differ) [
      | inl (_, kept) ↦ ground arith
      | inr (_, (roles, owned)) ↦ ground (
        arith,
        found_old context.membership_id target.id old target s.memberships u eo en own refl differ,
        found_promoted context.membership_id target.id old target s.memberships u eo en own refl
            differ,
        owners-swapped context.membership_id target.id old target s.memberships u eo en own refl
            differ organization same o n,
      )
    ]
