-- ===== src/Authorization/Laws.antt =====
-- What the role checks of `AuthorizationService` guarantee.
use shipflow.Common.{
  ℕ, ◌<◌, ◌≤◌, ◌≡◌, ◌≢◌, ◌↔◌, refl, true, ◌⊎◌, inl, inr, List, [], ◌∷◌, All, ok, err, forbidden,
  conflict, arith,
}
use shipflow.Authorization.{
  MembershipRole, owner, admin, member, viewer, Capability, organization_read, has_capability,
  assert_capabilities, assert_can_assign_membership_role, assert_can_manage_membership,
  assert_can_leave_organization,
}

-- How far a role reaches, from the viewer up to the owner.
abbrev pub level : MembershipRole → ℕ
level viewer = 0
level member = 1
level admin = 2
level owner = 3

assert_capabilities-All :
    (role : MembershipRole) (cs : List Capability)
    → assert_capabilities role cs ≡ ok tt
    → All (λ c. has_capability role c ≡ true) cs
unfolding assert_capabilities
assert_capabilities-All role [] h = tt
assert_capabilities-All role (c ∷ cs) h = ground (arith, assert_capabilities-All role cs)

All-assert_capabilities :
    (role : MembershipRole) (cs : List Capability)
    → All (λ c. has_capability role c ≡ true) cs
    → assert_capabilities role cs ≡ ok tt
unfolding assert_capabilities
All-assert_capabilities role [] h = refl
All-assert_capabilities role (c ∷ cs) h = ground (arith, All-assert_capabilities role cs h.1)

-- The check of a list of capabilities passes exactly when the role has each of them, and what it
-- throws otherwise is Forbidden.
pub assert_capabilities_iff :
    (role : MembershipRole) (cs : List Capability)
    → ((assert_capabilities role cs ≡ ok tt) ↔ All (λ c. has_capability role c ≡ true) cs)
      × ((assert_capabilities role cs ≡ ok tt) ⊎ (assert_capabilities role cs ≡ err forbidden))
unfolding assert_capabilities
assert_capabilities_iff role cs =
    ((assert_capabilities-All role cs, All-assert_capabilities role cs), ground arith)

owner_has_all : (c : Capability) → has_capability owner c ≡ true
unfolding has_capability
owner_has_all organization_read = refl
owner_has_all _ = refl

viewer_member : (c : Capability) → has_capability viewer c ≡ true → has_capability member c ≡ true
unfolding has_capability
viewer_member organization_read h = refl
viewer_member _ h = ground arith

member_admin : (c : Capability) → has_capability member c ≡ true → has_capability admin c ≡ true
unfolding has_capability
member_admin organization_read h = refl
member_admin _ h = ground arith

-- The roles are nested: a role that reaches further has every capability of one that reaches less
-- far.
pub has_capability_mono :
    (low high : MembershipRole) (c : Capability)
    → level low ≤ level high
    → has_capability low c ≡ true
    → has_capability high c ≡ true
has_capability_mono low owner c h k = owner_has_all c
has_capability_mono viewer viewer c h k = k
has_capability_mono viewer member c h k = viewer_member c k
has_capability_mono viewer admin c h k = member_admin c (viewer_member c k)
has_capability_mono member member c h k = k
has_capability_mono member admin c h k = member_admin c k
has_capability_mono admin admin c h k = k
has_capability_mono _ _ c h k = absurd (omega arith)

-- A role may be assigned exactly by an owner, if it is not the owner's, and by an admin, if it is
-- the member's or the viewer's.
pub assert_can_assign_iff :
    (actor assigned : MembershipRole)
    → (assert_can_assign_membership_role actor assigned ≡ ok tt) ↔ (
        ((actor ≡ owner) × (assigned ≢ owner))
        ⊎ ((actor ≡ admin) × ((assigned ≡ member) ⊎ (assigned ≡ viewer))))
unfolding assert_can_assign_membership_role
assert_can_assign_iff actor assigned = (λ h. ground arith, λ h. ground arith)

-- Whoever may assign a role has one that reaches further than it.
pub assign-level-lt :
    (actor assigned : MembershipRole)
    → assert_can_assign_membership_role actor assigned ≡ ok tt
    → level assigned < level actor
unfolding assert_can_assign_membership_role
assign-level-lt actor assigned h = ground arith

-- A membership can be managed only by a role with the capability, never the owner's membership, never
-- one's own, and never an admin's by an admin.
pub manage_only :
    (actor target : MembershipRole) (actor_id target_id : ℕ) (c : Capability)
    → assert_can_manage_membership actor actor_id target_id target c ≡ ok tt
    → (has_capability actor c ≡ true)
      × (target ≢ owner)
      × (actor_id ≢ target_id)
      × ((actor ≢ admin) ⊎ (target ≢ admin))
unfolding assert_can_manage_membership assert_capabilities
manage_only actor target actor_id target_id c h =
    (ground arith, ground arith, ground arith, ground arith)

-- Every role but the owner's may leave the organization; the owner is told to transfer it first.
pub leave_iff :
    (role : MembershipRole)
    → ((role ≢ owner) × (assert_can_leave_organization role ≡ ok tt))
      ⊎ ((role ≡ owner) × (assert_can_leave_organization role ≡ err conflict))
unfolding assert_can_leave_organization has_capability
leave_iff owner = inr (refl, refl)
leave_iff _ = inl (λ e. cc, refl)
