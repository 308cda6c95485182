-- ===== src/Auth/Sessions/Reuse.antt =====
-- What becomes of a refresh token that is presented again after its rotation.
use shipflow.Common.{
  ℕ, ◌==◌, ◌≡◌, refl, true, false, ◌&&◌, some, is_some, List, any, String, str_eq, arith, sym, inl,
  inr, ok, err, Bool-cases, unauthorized, eq_iff,
}
use shipflow.Database.{find_first}
use shipflow.Database.Laws.{find_first-holds}
use shipflow.Database.Writes.{find_first-write, any-find_first}
use shipflow.Auth.Model.{Session, Accounts, Issue, Environment, IssuedAuthentication, is_rotated}
use shipflow.Auth.Sessions.{
  revoke_sessions, set_sessions, is_live, rotate, revoke_token_family, refuse_revoked,
  refresh_current, refresh_found, refresh, find_user, by_token,
}
use shipflow.Auth.Sessions.Rotation.{
  live, taken, rotated_sessions, rotate_session_cases, revoke_token_family-live,
}

refresh_known :
    (env : Environment) (token : String) (issue : Issue) (now rotated_now revoked_now : ℕ)
    (s : Accounts) (session : Session)
    → find_first (by_token env token) s.sessions ≡ some session
    → refresh env token issue now rotated_now revoked_now s
      ≡ refresh_found env session issue now rotated_now revoked_now s
unfolding refresh
refresh_known env token issue now rotated_now revoked_now s session found = rw found refl

refuse_rotated :
    (env : Environment) (session : Session) (now : ℕ) (s : Accounts)
    → is_rotated session.revocation_reason ≡ true
    → refuse_revoked env session now s
      ≡ (err unauthorized, (revoke_token_family session.token_family_id now s).1)
unfolding refuse_revoked revoke_token_family revoke_sessions
refuse_rotated env session now s h = rw h refl

refresh_found_revoked :
    (env : Environment) (session : Session) (issue : Issue) (now rotated_now revoked_now : ℕ)
    (s : Accounts)
    → is_some session.revoked_at ≡ true
    → refresh_found env session issue now rotated_now revoked_now s
      ≡ refuse_revoked env session revoked_now s
unfolding refresh_found
refresh_found_revoked env session issue now rotated_now revoked_now s h = rw h refl

-- A refresh token whose session has been rotated is refused, and presenting it revokes every session of
-- its family.
pub refresh_rotated :
    (env : Environment) (token : String) (issue : Issue) (now rotated_now revoked_now : ℕ)
    (s : Accounts) (session : Session)
    → find_first (by_token env token) s.sessions ≡ some session
    → is_some session.revoked_at ≡ true
    → is_rotated session.revocation_reason ≡ true
    → ((refresh env token issue now rotated_now revoked_now s).0 ≡ err unauthorized)
      × (live session.token_family_id
            (refresh env token issue now rotated_now revoked_now s).1.sessions
          ≡ 0)
refresh_rotated env token issue now rotated_now revoked_now s session found revoked reason =
    ground (
      arith,
      refresh_known env token issue now rotated_now revoked_now s session found,
      refresh_found_revoked env session issue now rotated_now revoked_now s revoked,
      refuse_rotated env session revoked_now s reason,
      revoke_token_family-live session.token_family_id revoked_now s,
    )

refresh_current_ok :
    (env : Environment) (session : Session) (issue : Issue) (now rotated_now revoked_now : ℕ)
    (s : Accounts) (a : IssuedAuthentication)
    → (refresh_current env session issue now rotated_now revoked_now s).0 ≡ ok a
    → (any (taken env issue) s.sessions ≡ false)
      × ((refresh_current env session issue now rotated_now revoked_now s).1
          ≡ set_sessions (rotated_sessions env session issue rotated_now s.sessions) s)
unfolding refresh_current find_user
refresh_current_ok env session issue now rotated_now revoked_now s a h =
    elim (rotate_session_cases env session issue rotated_now s) [
      | inl (x, failed) ↦ ground arith
      | inr (free, done) ↦ ground arith
    ]

-- A new token whose hash is not taken has another hash than one that was found.
taken-other :
    (env : Environment) (token : String) (session : Session) (issue : Issue) (ts : List Session)
    → find_first (by_token env token) ts ≡ some session
    → any (taken env issue) ts ≡ false
    → str_eq (env.hash_opaque_token issue.token) (env.hash_opaque_token token) ≡ true
    → ⊥
taken-other env token session issue ts found free same =
    let equal = (eq_iff (env.hash_opaque_token issue.token) (env.hash_opaque_token token)).0 same in
    let own = find_first-holds (by_token env token) ts session found in
    ground (arith, equal, any-find_first (by_token env token) (taken env issue) ts session found)

-- The row of a token after its rotation.
rotated_sessions-found :
    (env : Environment) (token : String) (session : Session) (issue : Issue) (now : ℕ)
    (ts : List Session)
    → find_first (by_token env token) ts ≡ some session
    → is_live session ≡ true
    → any (taken env issue) ts ≡ false
    → find_first (by_token env token) (rotated_sessions env session issue now ts)
      ≡ some (rotate issue.id now session)
rotated_sessions-found env token session issue now ts found alive free =
    elim (Bool-cases (str_eq (env.hash_opaque_token issue.token) (env.hash_opaque_token token))) [
      | inl same ↦ absurd (taken-other env token session issue ts found free same)
      | inr other ↦ ground (
        arith,
        find_first-write (by_token env token) (λ t. t.id == session.id && is_live t)
            (rotate issue.id now) ts session (λ x. refl) found,
      )
    ]

refuse_revoked-error :
    (env : Environment) (session : Session) (now : ℕ) (s : Accounts)
    → (refuse_revoked env session now s).0 ≡ err unauthorized
unfolding refuse_revoked revoke_token_family revoke_sessions
refuse_revoked-error env session now s = elim (Bool-cases (is_rotated session.revocation_reason)) [
  | inl h ↦ rw h refl
  | inr h ↦ rw h refl
]

refresh_found_ok :
    (env : Environment) (token : String) (session : Session) (issue : Issue)
    (now rotated_now revoked_now : ℕ) (s : Accounts) (a : IssuedAuthentication)
    → find_first (by_token env token) s.sessions ≡ some session
    → (refresh_found env session issue now rotated_now revoked_now s).0 ≡ ok a
    → find_first
        (by_token env token)
        (refresh_found env session issue now rotated_now revoked_now s).1.sessions
      ≡ some (rotate issue.id rotated_now session)
unfolding refresh_found
refresh_found_ok env token session issue now rotated_now revoked_now s a found done =
    elim (Bool-cases (is_some session.revoked_at)) [
      | inl revoked ↦ ground (arith, refuse_revoked-error env session revoked_now s)
      | inr current ↦ ground (
        arith,
        refresh_current_ok env session issue now rotated_now revoked_now s a,
        rotated_sessions-found env token session issue rotated_now s.sessions found,
      )
    ]

-- After a refresh that went through, presenting the same token again is refused, whatever the clock and
-- the generators give, and leaves no session of the family live: neither the thief nor the owner of the
-- token stays signed in.
pub refresh_twice :
    (env : Environment) (token : String) (issue again : Issue)
    (now rotated_now revoked_now then_now then_rotated then_revoked : ℕ) (s : Accounts)
    (session : Session) (a : IssuedAuthentication)
    → find_first (by_token env token) s.sessions ≡ some session
    → (refresh env token issue now rotated_now revoked_now s).0 ≡ ok a
    → let s' = (refresh env token issue now rotated_now revoked_now s).1 in
      ((refresh env token again then_now then_rotated then_revoked s').0 ≡ err unauthorized)
      × (live session.token_family_id
            (refresh env token again then_now then_rotated then_revoked s').1.sessions
          ≡ 0)
refresh_twice env token issue again now rotated_now revoked_now then_now then_rotated then_revoked s
      session a found done =
    let known = refresh_known env token issue now rotated_now revoked_now s session found in
    refresh_rotated env token again then_now then_rotated then_revoked
      (refresh env token issue now rotated_now revoked_now s).1
      (rotate issue.id rotated_now session)
      (rw known (
        refresh_found_ok env token session issue now rotated_now revoked_now s a found
          (rw (sym known) done)))
      refl refl
