-- ===== src/Auth/Registration.antt =====
-- Sign-up and the verification of addresses in backend/src/auth/auth.service.ts.
pub mod Addresses
use shipflow.Common.{
  ℕ, ◌+◌, ◌*◌, leb, ◌==◌, Bool, true, false, ◌&&◌, ◌||◌, not, if◌then◌else◌, Option, none, some,
  is_some, ◌∷◌, String, str_eq, any, Result, ok, err, Error, Action, pure, throw, gets, or_throw,
  transaction, catch, throw_if, when, modify, ◌>>=◌, ◌>>◌, bad_request, conflict, unique_violation,
}
use shipflow.Database.{find_first, count, update_many, delete_many}
use shipflow.Auth.Model.{
  active, User, EmailVerificationToken, Accounts, IssuedAuthentication, Issue, Environment,
}
use shipflow.Auth.Sessions.{
  may_sign_in, find_user, create_session, new_session, build_authentication, update_user,
}

-- `user.create`; the address is unique.
unfoldable pub create_user : User → Action Accounts (Unit {0})
create_user user s =
    if any (λ u. u.id == user.id || str_eq u.email user.email) s.users
    then (err unique_violation, s)
    else (ok tt, record s { users = user ∷ s.users })

-- `emailVerificationToken.create`
unfoldable pub create_verification_token : EmailVerificationToken → Action Accounts (Unit {0})
create_verification_token token s =
    if any (λ t. t.id == token.id || str_eq t.token_hash token.token_hash) s.verification_tokens
    then (err unique_violation, s)
    else (ok tt, record s { verification_tokens = token ∷ s.verification_tokens })

-- `isUniqueConstraintError`, which turns into a Conflict.
abbrev pub as_conflict : Error → Error
as_conflict unique_violation = conflict
as_conflict e = e

module _ (env : Environment) where
  -- The row of a new verification token.
  abbrev pub new_verification_token : ℕ → String → ℕ → String → ℕ → EmailVerificationToken
  new_verification_token user email id token now = record {
    id = id;
    user_id = user;
    email = email;
    token_hash = env.hash_opaque_token token;
    expires_at = now + env.email_verification_token_ttl_hours * 60 * 60 * 1000;
    consumed_at = none;
  }

  -- The row of a new user.
  abbrev pub new_user : ℕ → String → String → ℕ → User
  new_user id email password now = record {
    id = id;
    email = env.normalize_email email;
    password_hash = some (env.hash_password password);
    status = active;
    email_verified_at = none;
    last_login_at = some now;
    deleted_at = none;
  }

  -- The transaction of `register`.
  unfoldable pub sign_up : User → EmailVerificationToken → Issue → Action Accounts (Unit {0})
  sign_up user token issue = transaction (do
    create_user user
    create_verification_token token
    create_session (new_session env user.id issue.family issue))

  -- `register`: the user, the verification token that the mail carries, and the first session.
  unfoldable pub register :
      String → String → ℕ → ℕ → String → ℕ → Issue → ℕ → Action Accounts IssuedAuthentication
  register email password user token_id token token_now issue now = do
    let row = new_user user email password now
    catch (sign_up row (new_verification_token user row.email token_id token token_now) issue)
        (λ e. throw (as_conflict e))
    pure (build_authentication env row issue)

  -- `requestEmailVerification`, which answers the address and the token of the mail, if there is one.
  unfoldable pub request_email_verification :
      ℕ → ℕ → String → ℕ → Action Accounts (Option (String × String))
  request_email_verification id token_id token now = do
    found ← gets (λ s. find_first (λ u. u.id == id && may_sign_in u) s.users)
    elim found [
      | none ↦ pure none
      | some user ↦
          if is_some user.email_verified_at
          then pure none
          else transaction (do
            modify (λ s. record s {
              verification_tokens =
                  delete_many (λ t. t.user_id == id && not (is_some t.consumed_at))
                    s.verification_tokens;
            })
            create_verification_token (new_verification_token id user.email token_id token now)
            pure (some (user.email, token)))
    ]

  -- The transaction of `confirmEmailVerification`.
  unfoldable pub verify_address : EmailVerificationToken → ℕ → ℕ → Action Accounts (Unit {0})
  verify_address token consumed_now verified_now = transaction (do
    let unused = λ (t : EmailVerificationToken). t.id == token.id && not (is_some t.consumed_at)
    consumed ← gets (λ s. count unused s.verification_tokens)
    modify (λ s. record s {
      verification_tokens =
          update_many unused (λ t. record t { consumed_at = some consumed_now })
            s.verification_tokens;
    })
    throw_if (not (consumed == 1)) bad_request
    update_user env token.user_id (λ u. record u { email_verified_at = some verified_now }))

  -- The query of `confirmEmailVerification`, on a unique column.
  abbrev pub by_verification : String → EmailVerificationToken → Bool
  by_verification text t = str_eq t.token_hash (env.hash_opaque_token text)

  unfoldable pub confirm_email_verification : String → ℕ → ℕ → ℕ → Action Accounts (Unit {0})
  confirm_email_verification text now consumed_now verified_now = do
    found ← gets (λ s. find_first (by_verification text) s.verification_tokens)
    token ← or_throw found bad_request
    user ← find_user token.user_id
    throw_if
        (is_some token.consumed_at
          || leb token.expires_at now
          || not (str_eq user.email token.email)
          || not (may_sign_in user))
        bad_request
    verify_address token consumed_now verified_now
