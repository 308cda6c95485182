-- ===== src/Auth/Sessions.antt =====
-- The sessions of backend/src/auth/auth.service.ts: sign-in after the first factor, the rotation of
-- refresh tokens and signing out. A session is live until it is revoked.
pub mod Rotation
pub mod Reuse
use shipflow.Common.{
  ℕ, ◌+◌, ◌*◌, leb, ◌==◌, Bool, true, false, ◌&&◌, ◌||◌, not, if◌then◌else◌, Option, none, some,
  is_some, List, ◌∷◌, String, str_eq, any, ok, err, Error, Action, pure, throw, gets, or_throw,
  transaction, catch, throw_if, when, modify, ◌>>=◌, ◌>>◌, unauthorized, unique_violation,
  missing_row, failure,
}
use shipflow.Database.{find_first, count, update_many, delete_many}
use shipflow.Auth.Model.{
  is_active, SessionRevocationReason, rotated, logout, logout_all, reuse_detected, is_rotated, User,
  Session, TwoFactorChallenge, Accounts, login_challenge_ttl_seconds, IssuedAuthentication,
  AuthenticationAttempt, authenticated, two_factor, Issue, Environment,
}

abbrev pub set_sessions : List Session → Accounts → Accounts
set_sessions sessions s = record s { sessions = sessions }

abbrev pub is_live : Session → Bool
is_live session = not (is_some session.revoked_at)

-- `user.status !== ACTIVE || user.deletedAt !== null`, denied
abbrev pub may_sign_in : User → Bool
may_sign_in user = is_active user.status && not (is_some user.deleted_at)

-- The user that a row refers to, which the foreign key provides.
unfoldable pub find_user : ℕ → Action Accounts User
find_user id s = or_throw (find_first (λ u. u.id == id) s.users) failure s

-- `session.create`, with the unique keys of the table.
unfoldable pub create_session : Session → Action Accounts (Unit {0})
create_session session s =
    if any (λ t. t.id == session.id || str_eq t.token_hash session.token_hash) s.sessions
    then (err unique_violation, s)
    else (ok tt, set_sessions (session ∷ s.sessions) s)

-- What revoking writes into a session.
abbrev pub revoke : SessionRevocationReason → ℕ → Session → Session
revoke reason now session = record session {
  revoked_at = some now;
  revocation_reason = some reason;
}

-- `session.updateMany` on live sessions.
unfoldable pub revoke_sessions :
    SessionRevocationReason → ℕ → (Session → Bool) → Action Accounts (Unit {0})
revoke_sessions reason now p =
    modify λ s. set_sessions (update_many (λ t. p t && is_live t) (revoke reason now) s.sessions) s

unfoldable pub revoke_token_family : ℕ → ℕ → Action Accounts (Unit {0})
revoke_token_family family now =
    revoke_sessions reuse_detected now (λ t. t.token_family_id == family)

-- `logoutAll`
unfoldable pub logout_everywhere : ℕ → ℕ → Action Accounts (Unit {0})
logout_everywhere user now = do
  revoke_sessions logout_all now (λ t. t.user_id == user)
  modify (λ s. record s { challenges = delete_many (λ c. c.user_id == user) s.challenges })

-- The session that replaces another in its rotation.
abbrev pub rotate : ℕ → ℕ → Session → Session
rotate replacement now session = record session {
  revoked_at = some now;
  revocation_reason = some rotated;
  replaced_by_id = some replacement;
  last_used_at = some now;
}

module _ (env : Environment) where
  -- `getRefreshExpiration`
  abbrev pub refresh_expiration : Issue → ℕ
  refresh_expiration issue = issue.issued_at + env.refresh_token_ttl_days * 24 * 60 * 60 * 1000

  -- The row of a new session.
  abbrev pub new_session : ℕ → ℕ → Issue → Session
  new_session user family issue = record {
    id = issue.id;
    user_id = user;
    token_hash = env.hash_opaque_token issue.token;
    token_family_id = family;
    replaced_by_id = none;
    expires_at = refresh_expiration issue;
    last_used_at = none;
    revoked_at = none;
    revocation_reason = none;
  }

  abbrev pub build_authentication : User → Issue → IssuedAuthentication
  build_authentication user issue = record {
    user = user;
    refresh_token = issue.token;
    refresh_expires_at = refresh_expiration issue;
  }

  -- The transaction of `refresh`.
  unfoldable pub rotate_session : Session → Issue → ℕ → Action Accounts (Unit {0})
  rotate_session session issue now = transaction (do
    create_session (new_session session.user_id session.token_family_id issue)
    let current = λ (t : Session). t.id == session.id && is_live t
    rotation ← gets (λ s. count current s.sessions)
    modify (λ s. set_sessions (update_many current (rotate issue.id now) s.sessions) s)
    throw_if (not (rotation == 1)) unauthorized)

  abbrev pub is_unauthorized : Error → Bool
  is_unauthorized unauthorized = true
  is_unauthorized _ = false

  -- `refresh` with a session that is not revoked. A lost race for the rotation revokes the family.
  unfoldable pub refresh_current :
      Session → Issue → ℕ → ℕ → ℕ → Action Accounts IssuedAuthentication
  refresh_current session issue now rotated_now revoked_now = do
    user ← find_user session.user_id
    throw_if (leb session.expires_at now || not (may_sign_in user)) unauthorized
    catch (rotate_session session issue rotated_now) (λ e. do
      when (is_unauthorized e) (revoke_token_family session.token_family_id revoked_now)
      throw e)
    pure (build_authentication user issue)

  -- `refresh` with a session that is revoked: one that was rotated gives its family away.
  unfoldable pub refuse_revoked : Session → ℕ → Action Accounts IssuedAuthentication
  refuse_revoked session revoked_now = do
    when (is_rotated session.revocation_reason)
        (revoke_token_family session.token_family_id revoked_now)
    throw unauthorized

  -- `refresh` on the session that it has found.
  unfoldable pub refresh_found : Session → Issue → ℕ → ℕ → ℕ → Action Accounts IssuedAuthentication
  refresh_found session issue now rotated_now revoked_now s =
      if is_some session.revoked_at
      then refuse_revoked session revoked_now s
      else refresh_current session issue now rotated_now revoked_now s

  -- The query of `refresh`, on a unique column.
  abbrev pub by_token : String → Session → Bool
  by_token token t = str_eq t.token_hash (env.hash_opaque_token token)

  unfoldable pub refresh : String → Issue → ℕ → ℕ → ℕ → Action Accounts IssuedAuthentication
  refresh token issue now rotated_now revoked_now = do
    found ← gets (λ s. find_first (by_token token) s.sessions)
    session ← or_throw found unauthorized
    refresh_found session issue now rotated_now revoked_now

  -- `logout` with a token; without one it does nothing.
  unfoldable pub sign_out : Option String → ℕ → Action Accounts (Unit {0})
  sign_out none now = pure tt
  sign_out (some token) now = revoke_sessions logout now (by_token token)

  abbrev pub is_spent : ℕ → ℕ → TwoFactorChallenge → Bool
  is_spent user now c = c.user_id == user && (leb c.expires_at now || is_some c.consumed_at)

  -- The row of a new challenge.
  abbrev pub new_challenge : ℕ → ℕ → String → ℕ → TwoFactorChallenge
  new_challenge user id token now = record {
    id = id;
    user_id = user;
    token_hash = env.hash_opaque_token token;
    expires_at = now + login_challenge_ttl_seconds * 1000;
    consumed_at = none;
  }

  -- `createLoginChallenge`, with the unique keys of the table.
  unfoldable pub create_login_challenge : ℕ → ℕ → String → ℕ → Action Accounts AuthenticationAttempt
  create_login_challenge user id token now = do
    kept ← gets (λ s. delete_many (is_spent user now) s.challenges)
    throw_if (any (λ c. c.id == id || str_eq c.token_hash (env.hash_opaque_token token)) kept)
        unique_violation
    modify (λ s. record s { challenges = new_challenge user id token now ∷ kept })
    pure (two_factor token)

  -- `isEnabled`
  abbrev pub is_enabled : ℕ → Accounts → Bool
  is_enabled user s = elim (find_first (λ c. c.user_id == user) s.credentials) [
    | none ↦ false
    | some credential ↦ is_some credential.enabled_at
  ]

  -- `user.update` by id
  unfoldable pub update_user : ℕ → (User → User) → Action Accounts (Unit {0})
  update_user id change s =
      if any (λ u. u.id == id) s.users
      then (ok tt, record s { users = update_many (λ u. u.id == id) change s.users })
      else (err missing_row, s)

  -- The transaction of `completeFirstFactor`.
  unfoldable pub start_session : ℕ → Issue → ℕ → Action Accounts (Unit {0})
  start_session user issue now = transaction (do
    update_user user (λ u. record u { last_login_at = some now })
    create_session (new_session user issue.family issue))

  -- `completeFirstFactor`. The challenge, or the session, is given `issue`.
  unfoldable pub complete_first_factor : User → Issue → ℕ → Action Accounts AuthenticationAttempt
  complete_first_factor user issue now = do
    enabled ← gets (is_enabled user.id)
    if enabled then create_login_challenge user.id issue.id issue.token now else do
      transaction (do
        update_user user.id (λ u. record u { last_login_at = some now })
        create_session (new_session user.id issue.family issue))
      pure (authenticated (build_authentication user issue))

  -- The query of `login`, on a unique column.
  abbrev pub by_email : String → User → Bool
  by_email email u = str_eq u.email (env.normalize_email email)

  -- `passwordValid`
  abbrev pub password_valid : User → String → Bool
  password_valid user password = elim user.password_hash [
    | none ↦ false
    | some hash ↦ env.verify_password hash password
  ]

  -- `login`
  unfoldable pub login : String → String → Issue → ℕ → Action Accounts AuthenticationAttempt
  login email password issue now = do
    found ← gets (λ s. find_first (by_email email) s.users)
    user ← or_throw found unauthorized
    throw_if
        (not (
          elim user.password_hash [ none ↦ false | some h ↦ env.verify_password h password ]
          && may_sign_in user))
        unauthorized
    complete_first_factor user issue now
