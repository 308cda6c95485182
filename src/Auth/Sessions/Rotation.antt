-- ===== src/Auth/Sessions/Rotation.antt =====
-- The rotation of refresh tokens: how many sessions of a family are live, and what becomes of a token
-- that is presented again.
use shipflow.Common.{
  ℕ, ◌≤◌, ◌==◌, ◌≡◌, refl, Bool, true, false, ◌&&◌, ◌||◌, some, List, ◌∷◌, any, String, str_eq,
  arith, inl, inr, ok, err, Bool-cases, Option-cases, unauthorized, unique_violation, Error, ◌⊎◌,
}
use shipflow.Database.{find_first, count, update_many}
use shipflow.Database.Writes.{count-update_le, count-update_lt, count-update_none, any-find_first}
use shipflow.Auth.Model.{SessionRevocationReason, Session, Accounts, Issue, Environment}
use shipflow.Auth.Sessions.{
  set_sessions, is_live, revoke, rotate, create_session, new_session, revoke_sessions,
  revoke_token_family, rotate_session, refuse_revoked, refresh_current, refresh_found, by_token,
  refresh, find_user,
}

-- The live sessions of a token family.
abbrev pub live : ℕ → List Session → ℕ
live family = count (λ t. t.token_family_id == family && is_live t)

revoke_sessions-live :
    (reason : SessionRevocationReason) (now family : ℕ) (p : Session → Bool) (s : Accounts)
    → live family (revoke_sessions reason now p s).1.sessions ≤ live family s.sessions
unfolding revoke_sessions
revoke_sessions-live reason now family p s =
    count-update_le (λ t. t.token_family_id == family && is_live t) (λ t. p t && is_live t)
      (revoke reason now) s.sessions (λ r. ground arith)

pub revoke_token_family-live :
    (family now : ℕ) (s : Accounts) → live family (revoke_token_family family now s).1.sessions ≡ 0
unfolding revoke_token_family revoke_sessions
revoke_token_family-live family now s =
    count-update_none (λ t. t.token_family_id == family && is_live t)
      (λ t. t.token_family_id == family && is_live t)
      (revoke SessionRevocationReason.reuse_detected now) s.sessions (λ r. ground arith) (λ r h. h)

-- The sessions after a rotation that went through.
abbrev pub rotated_sessions : Environment → Session → Issue → ℕ → List Session → List Session
rotated_sessions env session issue now ts =
    update_many (λ t. t.id == session.id && is_live t) (rotate issue.id now)
      (new_session env session.user_id session.token_family_id issue ∷ ts)

-- The test of `session.create` for a row with the same key.
abbrev pub taken : Environment → Issue → Session → Bool
taken env issue t = t.id == issue.id || str_eq t.token_hash (env.hash_opaque_token issue.token)

create_session_taken :
    (session : Session) (s : Accounts)
    → any (λ t. t.id == session.id || str_eq t.token_hash session.token_hash) s.sessions ≡ true
    → create_session session s ≡ (err unique_violation, s)
unfolding create_session
create_session_taken session s h = rw h refl

create_session_ok :
    (session : Session) (s : Accounts)
    → any (λ t. t.id == session.id || str_eq t.token_hash session.token_hash) s.sessions ≡ false
    → create_session session s ≡ (ok tt, set_sessions (session ∷ s.sessions) s)
unfolding create_session
create_session_ok session s h = rw h refl

pub rotate_session_cases :
    (env : Environment) (session : Session) (issue : Issue) (now : ℕ) (s : Accounts)
    → ((e : Error) × (rotate_session env session issue now s ≡ (err e, s)))
      ⊎ ((any (taken env issue) s.sessions ≡ false)
          × (rotate_session env session issue now s
              ≡ (ok tt, set_sessions (rotated_sessions env session issue now s.sessions) s)))
unfolding rotate_session
rotate_session_cases env session issue now s =
    elim (Bool-cases (any (taken env issue) s.sessions)) [
      | inl clash ↦ inl (
        unique_violation,
        ground (
          arith,
          create_session_taken (new_session env session.user_id session.token_family_id issue) s
              clash,
        ),
      )
      | inr free ↦
          elim (Bool-cases (
            count (λ t. t.id == session.id && is_live t)
              (new_session env session.user_id session.token_family_id issue ∷ s.sessions)
            == 1)) [
              | inl one ↦ inr (
                free,
                ground (
                  arith,
                  create_session_ok (new_session env session.user_id session.token_family_id issue)
                      s free,
                ),
              )
              | inr other ↦ inl (
                unauthorized,
                ground (
                  arith,
                  create_session_ok (new_session env session.user_id session.token_family_id issue)
                      s free,
                ),
              )
            ]
    ]

rotated_sessions-live :
    (env : Environment) (session : Session) (issue : Issue) (now family : ℕ) (ts : List Session)
    → any
        (λ t. t.id == session.id && is_live t && (t.token_family_id == session.token_family_id))
        ts
      ≡ true
    → live family (rotated_sessions env session issue now ts) ≤ live family ts
rotated_sessions-live env session issue now family ts there =
    elim (Bool-cases (session.token_family_id == family)) [
      | inl own ↦ ground (
        arith,
        count-update_lt (λ t. t.token_family_id == family && is_live t)
            (λ t. t.id == session.id && is_live t) (rotate issue.id now) ts (λ r. ground arith),
      )
      | inr other ↦ ground (
        arith,
        count-update_le (λ t. t.token_family_id == family && is_live t)
            (λ t. t.id == session.id && is_live t) (rotate issue.id now) ts (λ r. ground arith),
      )
    ]

-- A rotation that fails writes nothing, and one that goes through leaves no more sessions live.
rotate_session-live :
    (env : Environment) (session : Session) (issue : Issue) (now family : ℕ) (s : Accounts)
    (p : Session → Bool)
    → find_first p s.sessions ≡ some session
    → is_live session ≡ true
    → live family (rotate_session env session issue now s).1.sessions ≤ live family s.sessions
rotate_session-live env session issue now family s p e h =
    elim (rotate_session_cases env session issue now s) [
      | inl (e, failed) ↦ ground arith
      | inr (free, done) ↦ ground (
        arith,
        rotated_sessions-live env session issue now family s.sessions (
            any-find_first p
              (λ t.
                t.id == session.id && is_live t && (t.token_family_id == session.token_family_id))
              s.sessions session e (ground arith)),
      )
    ]

refuse_revoked-live :
    (env : Environment) (session : Session) (now family : ℕ) (s : Accounts)
    → live family (refuse_revoked env session now s).1.sessions ≤ live family s.sessions
unfolding refuse_revoked revoke_token_family
refuse_revoked-live env session now family s = ground (
  arith,
  revoke_sessions-live SessionRevocationReason.reuse_detected now family
      (λ t. t.token_family_id == session.token_family_id) s,
)

refresh_current-live :
    (env : Environment) (session : Session) (issue : Issue) (now rotated_now revoked_now family : ℕ)
    (s : Accounts) (p : Session → Bool)
    → find_first p s.sessions ≡ some session
    → is_live session ≡ true
    → live family (refresh_current env session issue now rotated_now revoked_now s).1.sessions
      ≤ live family s.sessions
unfolding refresh_current find_user revoke_token_family
refresh_current-live env session issue now rotated_now revoked_now family s p e h =
    elim (rotate_session_cases env session issue rotated_now s) [
      | inl (x, failed) ↦ ground (
        arith,
        revoke_sessions-live SessionRevocationReason.reuse_detected revoked_now family
            (λ t. t.token_family_id == session.token_family_id) s,
      )
      | inr (free, done) ↦
          ground (arith, rotate_session-live env session issue rotated_now family s p e h)
    ]

-- Refreshing, however it ends, leaves no more sessions of any token family live than there were before:
-- the replacement that it creates comes with the revocation of a session of its family.
pub refresh-live :
    (env : Environment) (token : String) (issue : Issue) (now rotated_now revoked_now family : ℕ)
    (s : Accounts)
    → live family (refresh env token issue now rotated_now revoked_now s).1.sessions
      ≤ live family s.sessions
unfolding refresh refresh_found
refresh-live env token issue now rotated_now revoked_now family s =
    elim (Option-cases (find_first (by_token env token) s.sessions)) [
      | inl missing ↦ ground arith
      | inr (session, found) ↦ ground (
        arith,
        refuse_revoked-live env session revoked_now family s,
        refresh_current-live env session issue now rotated_now revoked_now family s
            (by_token env token) found,
      )
    ]
