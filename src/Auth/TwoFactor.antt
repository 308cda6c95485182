-- ===== src/Auth/TwoFactor.antt =====
-- backend/src/auth/two-factor/two-factor.service.ts: the second factor at sign-in, and switching it on
-- and off. A code of the authenticator proves a time step, a backup code its row.
pub mod Claims
pub mod FirstFactor
pub mod Setup
use shipflow.Common.{
  ℕ, ltb, leb, ◌==◌, Bool, true, false, ◌&&◌, ◌||◌, not, if◌then◌else◌, Option, none, some, is_some,
  List, [], ◌∷◌, length, map, ◌++◌, String, str_eq, Action, pure, throw, gets, or_throw,
  transaction, throw_if, modify, ◌>>=◌, ◌>>◌, unauthorized, conflict,
}
use shipflow.Database.{find_first, count, update_many, delete_many}
use shipflow.Auth.Model.{
  administrative, logout_all, User, Session, TwoFactorCredential, TwoFactorBackupCode,
  TwoFactorChallenge, Accounts, IssuedAuthentication, Issue, SecondFactorProof, totp, backup_code,
  Environment,
}
use shipflow.Auth.Sessions.{
  may_sign_in, find_user, create_session, revoke_sessions, new_session, build_authentication,
  update_user,
}

abbrev pub is_open : TwoFactorChallenge → Bool
is_open challenge = not (is_some challenge.consumed_at)

-- The credentials on which a time step can still be used.
abbrev pub accepts_step : ℕ → ℕ → TwoFactorCredential → Bool
accepts_step credential step c =
    c.id == credential
    && is_some c.enabled_at
    && elim c.last_used_time_step [ none ↦ true | some used ↦ ltb used step ]

abbrev pub is_unused : ℕ → ℕ → TwoFactorBackupCode → Bool
is_unused credential code c =
    c.id == code && c.credential_id == credential && not (is_some c.consumed_at)

-- `claimSecondFactor`
unfoldable pub claim_second_factor : ℕ → SecondFactorProof → ℕ → Action Accounts (Unit {0})
claim_second_factor credential (totp step) now = do
  claimed ← gets (λ s. count (accepts_step credential step) s.credentials)
  modify (λ s. record s {
    credentials =
        update_many (accepts_step credential step)
          (λ c. record c { last_used_time_step = some step }) s.credentials;
  })
  throw_if (not (claimed == 1)) unauthorized
claim_second_factor credential (backup_code code) now = do
  claimed ← gets (λ s. count (is_unused credential code) s.backup_codes)
  modify (λ s. record s {
    backup_codes =
        update_many (is_unused credential code) (λ c. record c { consumed_at = some now })
          s.backup_codes;
  })
  throw_if (not (claimed == 1)) unauthorized

module _ (env : Environment) where
  -- `resolveSecondFactor`
  unfoldable pub resolve_second_factor :
      TwoFactorCredential → String → Accounts → Option SecondFactorProof
  resolve_second_factor credential code s =
      if env.is_totp_code code
      then elim (env.verify_totp credential.encrypted_secret code credential.last_used_time_step) [
        | none ↦ none
        | some step ↦ some (totp step)
      ]
      else elim (env.hash_backup_code code credential.user_id) [
        | none ↦ none
        | some hash ↦ elim (find_first (λ c. str_eq c.code_hash hash) s.backup_codes) [
          | none ↦ none
          | some c ↦
              if c.credential_id == credential.id && not (is_some c.consumed_at)
              then some (backup_code c.id)
              else none
        ]
      ]

  -- The transaction of `verifyLoginChallenge`.
  unfoldable pub sign_in :
      TwoFactorChallenge → ℕ → SecondFactorProof → Issue → ℕ → Action Accounts (Unit {0})
  sign_in challenge credential proof issue now = transaction (do
    let pending =
        λ (c : TwoFactorChallenge). c.id == challenge.id && (is_open c && ltb now c.expires_at)
    consumed ← gets (λ s. count pending s.challenges)
    modify (λ s. record s {
      challenges = update_many pending (λ c. record c { consumed_at = some now }) s.challenges;
    })
    throw_if (not (consumed == 1)) unauthorized
    claim_second_factor credential proof now
    update_user env challenge.user_id (λ u. record u { last_login_at = some now })
    create_session (new_session env challenge.user_id issue.family issue))

  -- `verifyLoginChallenge` on the challenge and the user that it has found.
  unfoldable pub verify_found :
      TwoFactorChallenge → User → String → Issue → ℕ → Action Accounts IssuedAuthentication
  verify_found challenge user code issue now = do
    throw_if (not (is_open challenge) || leb challenge.expires_at now || not (may_sign_in user))
        unauthorized
    found ← gets (λ s. find_first (λ c. c.user_id == challenge.user_id) s.credentials)
    credential ← or_throw found unauthorized
    throw_if (not (is_some credential.enabled_at)) unauthorized
    resolved ← gets (resolve_second_factor credential code)
    proof ← or_throw resolved unauthorized
    sign_in challenge credential.id proof issue now
    pure (build_authentication env user issue)

  unfoldable pub verify_login_challenge :
      String → String → Issue → ℕ → Action Accounts IssuedAuthentication
  verify_login_challenge token code issue now = do
    let hash = env.hash_opaque_token token
    found ← gets (λ s. find_first (λ c. str_eq c.token_hash hash) s.challenges)
    challenge ← or_throw found unauthorized
    user ← find_user challenge.user_id
    verify_found challenge user code issue now

  -- `verifyStepUp`: the password again, if the user has one, and a second factor.
  unfoldable pub verify_step_up :
      ℕ → Option String → String → Action Accounts (TwoFactorCredential × SecondFactorProof)
  verify_step_up id password code = do
    found ← gets (λ s. find_first (λ u. u.id == id && may_sign_in u) s.users)
    user ← or_throw found conflict
    credentials ← gets (λ s. find_first (λ c. c.user_id == user.id) s.credentials)
    credential ← or_throw credentials conflict
    throw_if (not (is_some credential.enabled_at)) conflict
    throw_if
        (elim user.password_hash [
          | none ↦ false
          | some hash ↦ elim password [
            | none ↦ true
            | some p ↦ str_eq p "" || not (env.verify_password hash p)
          ]
        ])
        unauthorized
    resolved ← gets (resolve_second_factor credential code)
    proof ← or_throw resolved unauthorized
    pure (credential, proof)

  -- `disable`. The backup codes go with their credential.
  unfoldable pub disable : ℕ → Option String → String → ℕ → Action Accounts (Unit {0})
  disable user password code now = do
    verified ← verify_step_up user password code
    transaction (do
      claim_second_factor verified.0.id verified.1 now
      modify (λ s. record s { challenges = delete_many (λ c. c.user_id == user) s.challenges })
      modify (λ s. record s {
        credentials = delete_many (λ c. c.id == verified.0.id) s.credentials;
        backup_codes = delete_many (λ c. c.credential_id == verified.0.id) s.backup_codes;
      })
      revoke_sessions logout_all now (λ t. t.user_id == user))

-- The credentials that are still to be confirmed.
abbrev pub is_pending : ℕ → TwoFactorCredential → Bool
is_pending credential c = c.id == credential && not (is_some c.enabled_at)

-- The rows that `createMany` adds for the hashes of new backup codes, with their ids.
abbrev pub new_backup_codes : ℕ → (ℕ → ℕ) → List String → List TwoFactorBackupCode
new_backup_codes credential ids [] = []
new_backup_codes credential ids (hash ∷ hashes) =
    record {
      id = ids (length hashes);
      credential_id = credential;
      code_hash = hash;
      consumed_at = none;
    }
    ∷ new_backup_codes credential ids hashes

-- `deleteMany` and `createMany`: new codes in place of the old ones of a credential.
abbrev pub replace_codes :
    ℕ → (ℕ → ℕ) → List String → List TwoFactorBackupCode → List TwoFactorBackupCode
replace_codes credential ids hashes old =
    new_backup_codes credential ids hashes ++ delete_many (λ c. c.credential_id == credential) old

-- The transaction of `confirmSetup`, given the time step of the verified code, the hashes of the new backup
-- codes and the ids of their rows.
unfoldable pub enable : ℕ → ℕ → ℕ → List String → (ℕ → ℕ) → ℕ → Action Accounts (Unit {0})
enable user credential step hashes ids now = transaction (do
  enabled ← gets (λ s. count (is_pending credential) s.credentials)
  modify (λ s. record s {
    credentials =
        update_many (is_pending credential)
          (λ c. record c { enabled_at = some now; last_used_time_step = some step }) s.credentials;
  })
  throw_if (not (enabled == 1)) conflict
  modify (λ s. record s { backup_codes = replace_codes credential ids hashes s.backup_codes })
  revoke_sessions administrative now (λ t. t.user_id == user))
