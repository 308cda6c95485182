-- ===== src/Authorization/Tests.antt =====
-- The role checks at some roles.
use shipflow.Common.{ℕ, ◌<◌, ◌≡◌, ◌≢◌, refl, true, ◌⊎◌}
use shipflow.Authorization.{
  owner, admin, member, membership_remove, has_capability, assert_can_assign_membership_role,
  assert_can_manage_membership,
}
use shipflow.Authorization.Laws.{level, assign-level-lt, manage_only}

assign-level-lt_example : level member < level admin
unfolding assert_can_assign_membership_role
assign-level-lt_example = assign-level-lt admin member refl

manage_only_example :
    (has_capability admin membership_remove ≡ true)
    × (member ≢ owner)
    × (◌≢◌ {A = ℕ} 1 2)
    × ((admin ≢ admin) ⊎ (member ≢ admin))
unfolding assert_can_manage_membership has_capability
manage_only_example = manage_only admin member 1 2 membership_remove refl
