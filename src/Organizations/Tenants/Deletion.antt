-- ===== src/Organizations/Tenants/Deletion.antt =====
-- What a deleted organization leaves.
use shipflow.Common.{
  ℕ, ◌==◌, ◌≡◌, refl, ap, ◌∙◌, Bool, false, ◌&&◌, none, some, List, [], ◌∷◌, arith, inl, inr, ok,
  err, ◌⊎◌, Option-cases, not_found, missing_row,
}
use shipflow.Database.{find_first, count, update_many}
use shipflow.Organizations.Model.{
  InvitationStatus, Organization, Membership, Invitation, Tenancy, OrganizationContext,
}
use shipflow.Organizations.Rows.{resolve, is_live, set_invitations}
use shipflow.Organizations.Tenants.{update_row, delete_organization, is_open_invitation}

abbrev deleted : ℕ → Organization → Organization
deleted now o = record o { deleted_at = some now }

abbrev revoked : ℕ → Invitation → Invitation
revoked now i = record i { status = InvitationStatus.revoked; revoked_at = some now }

-- The state after a deletion.
abbrev after : ℕ → ℕ → Tenancy → Tenancy
after id now s = record s {
  organizations = update_many (λ o. o.id == id) (deleted now) s.organizations;
  invitations = update_many (is_open_invitation id) (revoked now) s.invitations;
}

update_row_cases :
    (id : ℕ) (f : Organization → Organization) (s : Tenancy)
    → (update_row id f s ≡ (err missing_row, s))
      ⊎ ((o : Organization) × (update_row id f s
            ≡ (ok o, record s { organizations = update_many (λ o. o.id == id) f s.organizations })))
unfolding update_row
update_row_cases id f s = elim (Option-cases (find_first (λ o. o.id == id) s.organizations)) [
  | inl missing ↦ inl (rw (missing, update_row) refl)
  | inr (o, found) ↦ inr (f o, rw (found, update_row) refl)
]

delete_organization_lem :
    (context : OrganizationContext) (now : ℕ) (s : Tenancy)
    → (delete_organization context now s).0 ≡ ok tt
    → (delete_organization context now s).1 ≡ after context.organization.id now s
unfolding delete_organization
delete_organization_lem context now s done =
    let id = context.organization.id in
    let revoked_all =
      set_invitations (update_many (is_open_invitation id) (revoked now) s.invitations) s in
    elim (update_row_cases id (deleted now) revoked_all) [
      | inl missing ↦ ground (arith, missing, done)
      | inr (o, updated) ↦ ground (arith, updated)
    ]

is_live-deleted :
    (id now : ℕ) (os : List Organization)
    → is_live id (update_many (λ o. o.id == id) (deleted now) os) ≡ false
is_live-deleted id now [] = refl
is_live-deleted id now (o ∷ os) = ground (arith, is_live-deleted id now os)

find_first-never :
    (p : Membership → Bool) (ms : List Membership)
    → ((m : Membership) → p m ≡ false)
    → find_first p ms ≡ none
find_first-never p [] never = refl
find_first-never p (m ∷ ms) never = rw (never m) (find_first-never p ms never)

count-revoked :
    (id now : ℕ) (is : List Invitation)
    → count (is_open_invitation id) (update_many (is_open_invitation id) (revoked now) is) ≡ 0
count-revoked id now [] = refl
count-revoked id now (i ∷ is) = ground (arith, count-revoked id now is)

and_never : (a b c : Bool) → c ≡ false → (a && (b && c)) ≡ false
and_never a b c = ground arith

resolve-gone :
    (id user : ℕ) (s : Tenancy)
    → is_live id s.organizations ≡ false
    → resolve id user s ≡ (err not_found, s)
unfolding resolve
resolve-gone id user s gone =
    let nobody =
      find_first-never
        (λ m. m.organization_id == id && (m.user_id == user && is_live id s.organizations))
        s.memberships (λ m. and_never (m.organization_id == id) (m.user_id == user) _ gone) in
    rw (nobody, resolve) refl

-- After an organization is deleted no user, not even its owner, gets a context of it any more, and none of
-- its invitations is open.
pub delete_organization-resolve :
    (context : OrganizationContext) (now user : ℕ) (s : Tenancy)
    → let run = delete_organization context now s in
      run.0 ≡ ok tt
      → (resolve context.organization.id user run.1 ≡ (err not_found, run.1))
        × (count (is_open_invitation context.organization.id) run.1.invitations ≡ 0)
delete_organization-resolve context now user s done =
    let id = context.organization.id in
    let e = delete_organization_lem context now s done in
    (
      resolve-gone id user (delete_organization context now s).1
          (ap (λ t. is_live id t.organizations) e ∙ is_live-deleted id now s.organizations),
      ap (λ t. count (is_open_invitation id) t.invitations) e ∙ count-revoked id now s.invitations,
    )
