-- ===== src/Auth/Passwords.antt =====
-- Password reset in backend/src/auth/auth.service.ts.
pub mod Reset
use shipflow.Common.{
  ℕ, ◌+◌, ◌*◌, leb, ◌==◌, ◌&&◌, ◌||◌, not, if◌then◌else◌, Option, none, some, is_some, ◌∷◌, String,
  str_eq, any, Action, pure, throw, gets, or_throw, transaction, throw_if, modify, ◌>>=◌, ◌>>◌,
  bad_request, unique_violation,
}
use shipflow.Database.{find_first, count, update_many, delete_many}
use shipflow.Auth.Model.{logout_all, PasswordResetToken, Accounts, Environment}
use shipflow.Auth.Sessions.{may_sign_in, find_user, revoke_sessions, update_user}
use shipflow.Notifications.{DedupeKey, NotificationCategory, NotificationType}
use shipflow.Notifications.Writer.{WriteNotificationInput, write_notification}

-- The notice of `resetPassword`.
abbrev pub password_notice : ℕ → ℕ → ℕ → WriteNotificationInput
password_notice user token now = record {
  user_id = user;
  organization_id = none;
  category = NotificationCategory.security;
  type = NotificationType.password_changed;
  dedupe_key = DedupeKey.password_changed token;
  created_at = some now;
}

module _ (env : Environment) where
  -- `forgotPassword`. The answer is the address and token of the mail, and the caller sees neither.
  unfoldable pub forgot_password :
      String → ℕ → String → ℕ → Action Accounts (Option (String × String))
  forgot_password email id token now = do
    found ← gets (λ s.
        find_first
          (λ u.
            str_eq u.email (env.normalize_email email) && is_some u.password_hash && may_sign_in u)
          s.users)
    elim found [
      | none ↦ pure none
      | some user ↦ do
        kept ← gets (λ s.
            delete_many (λ t. t.user_id == user.id && not (is_some t.consumed_at)) s.reset_tokens)
        throw_if (any (λ t. t.id == id || str_eq t.token_hash (env.hash_opaque_token token)) kept)
            unique_violation
        modify (λ s. record s {
          reset_tokens =
              record {
                id = id;
                user_id = user.id;
                token_hash = env.hash_opaque_token token;
                expires_at = now + env.password_reset_token_ttl_minutes * 60 * 1000;
                consumed_at = none;
              }
              ∷ kept;
        })
        pure (some (user.email, token))
    ]

  -- The transaction of `resetPassword`.
  unfoldable pub change_password :
      PasswordResetToken → String → ℕ → ℕ → ℕ → Action Accounts (Unit {0})
  change_password token password notice now written_now = transaction (do
    let unused = λ (t : PasswordResetToken). t.id == token.id && not (is_some t.consumed_at)
    consumed ← gets (λ s. count unused s.reset_tokens)
    modify (λ s. record s {
      reset_tokens = update_many unused (λ t. record t { consumed_at = some now }) s.reset_tokens;
    })
    throw_if (not (consumed == 1)) bad_request
    update_user env token.user_id
        (λ u. record u { password_hash = some (env.hash_password password) })
    modify (λ s. record s {
      reset_tokens =
          delete_many (λ t. t.user_id == token.user_id && not (t.id == token.id)) s.reset_tokens;
    })
    revoke_sessions logout_all now (λ t. t.user_id == token.user_id)
    modify
        (λ s. record s { challenges = delete_many (λ c. c.user_id == token.user_id) s.challenges })
    modify (λ s. record s {
      notices =
          write_notification notice written_now (password_notice token.user_id token.id now)
            s.notices;
    }))

  unfoldable pub reset_password : String → String → ℕ → ℕ → ℕ → ℕ → Action Accounts (Unit {0})
  reset_password text password notice now changed_now written_now = do
    let hash = env.hash_opaque_token text
    found ← gets (λ s. find_first (λ t. str_eq t.token_hash hash) s.reset_tokens)
    token ← or_throw found bad_request
    user ← find_user token.user_id
    throw_if (is_some token.consumed_at || leb token.expires_at now || not (may_sign_in user))
        bad_request
    change_password token password notice changed_now written_now
