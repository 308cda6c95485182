-- ===== src/Auth/Tests.antt =====
-- Examples of sign-in, sessions, password reset and the second factor.
use shipflow.Common.{
  ◌≤◌, true, false, ◌≡◌, refl, none, some, [], ◌∷◌, str_eq, arith, ok, err, unauthorized,
}
use shipflow.Auth.Model.{
  active, User, Session, PasswordResetToken, TwoFactorCredential, TwoFactorChallenge, Accounts,
  AuthenticationAttempt, authenticated, Issue, totp, Environment,
}
use shipflow.Auth.Sessions.{
  may_sign_in, is_enabled, password_valid, refresh, login, build_authentication, rotate,
  refresh_found, refresh_current, find_user, rotate_session, create_session, update_user,
  complete_first_factor, start_session, create_login_challenge, revoke_sessions,
}
use shipflow.Auth.Sessions.Rotation.{live, refresh-live}
use shipflow.Auth.Sessions.Reuse.{refresh_twice}
use shipflow.Auth.TwoFactor.{claim_second_factor, sign_in}
use shipflow.Auth.TwoFactor.Claims.{claim_second_factor_once, sign_in_once}
use shipflow.Auth.TwoFactor.FirstFactor.{login_authenticated}
use shipflow.Auth.Passwords.{reset_password, change_password}
use shipflow.Auth.Passwords.Reset.{IsSignedOut, reset_password-IsSignedOut}
use shipflow.Auth.Model.{EmailVerificationToken}

abbrev env : Environment
env = record {
  normalize_email = λ e. e;
  hash_opaque_token = λ t. t;
  hash_password = λ p. p;
  verify_password = str_eq;
  refresh_token_ttl_days = 30;
  password_reset_token_ttl_minutes = 60;
  email_verification_token_ttl_hours = 24;
  is_totp_code = λ c. str_eq c "123456";
  verify_totp = λ secret code used. some 7;
  hash_backup_code = λ code user. some code;
}

abbrev anna : User
anna = record {
  id = 1;
  email = "a@acme";
  password_hash = some "secret";
  status = active;
  email_verified_at = none;
  last_login_at = none;
  deleted_at = none;
}

abbrev session : Session
session = record {
  id = 5;
  user_id = 1;
  token_hash = "first";
  token_family_id = 50;
  replaced_by_id = none;
  expires_at = 1000;
  last_used_at = none;
  revoked_at = none;
  revocation_reason = none;
}

abbrev reset_token : PasswordResetToken
reset_token = record {
  id = 3;
  user_id = 1;
  token_hash = "reset";
  expires_at = 1000;
  consumed_at = none;
}

abbrev credential : TwoFactorCredential
credential = record {
  id = 8;
  user_id = 1;
  encrypted_secret = "key";
  enabled_at = some 10;
  last_used_time_step = some 6;
}

abbrev challenge : TwoFactorChallenge
challenge = record {
  id = 9;
  user_id = 1;
  token_hash = "challenge";
  expires_at = 1000;
  consumed_at = none;
}

abbrev accounts : Accounts
accounts = record {
  users = anna ∷ [];
  sessions = session ∷ [];
  verification_tokens = [];
  reset_tokens = reset_token ∷ [];
  credentials = [];
  backup_codes = [];
  challenges = challenge ∷ [];
  notices = record { notifications = []; preferences = [] };
}

abbrev protected : Accounts
protected = record accounts { credentials = credential ∷ [] }

abbrev second : Issue
second = record { id = 6; family = 60; token = "second"; issued_at = 100 }

abbrev third : Issue
third = record { id = 7; family = 70; token = "third"; issued_at = 200 }

refresh-live_example :
    live 50 (refresh env "first" second 100 100 100 accounts).1.sessions ≤ live 50 accounts.sessions
refresh-live_example = refresh-live env "first" second 100 100 100 50 accounts

abbrev stale : Session
stale = rotate 6 100 session

refresh_done :
    (refresh env "first" second 100 100 100 accounts).0 ≡ ok (build_authentication env anna second)
unfolding refresh refresh_found refresh_current find_user rotate_session create_session
refresh_done = refl

refresh_twice_example :
    ((refresh env "first" third 200 200 200 (refresh env "first" second 100 100 100 accounts).1).0
      ≡ err unauthorized)
    × (live 50
          (refresh env "first" third 200 200 200
            (refresh env "first" second 100 100 100 accounts).1).1.sessions
        ≡ 0)
refresh_twice_example =
    refresh_twice env "first" second third 100 100 100 200 200 200 accounts session
      (build_authentication env anna second) refl refresh_done

claim_done : (claim_second_factor 8 (totp 7) 100 protected).0 ≡ ok tt
unfolding claim_second_factor
claim_done = refl

claim_second_factor_once_example :
    (claim_second_factor 8 (totp 7) 130 (claim_second_factor 8 (totp 7) 100 protected).1).0
    ≡ err unauthorized
claim_second_factor_once_example = claim_second_factor_once 8 (totp 7) 100 130 protected claim_done

sign_in_done : (sign_in env challenge 8 (totp 7) second 100 protected).0 ≡ ok tt
unfolding sign_in claim_second_factor update_user create_session
sign_in_done = refl

sign_in_once_example :
    (sign_in env challenge 8
      (totp 8)
      third
      130
      (sign_in env challenge 8 (totp 7) second 100 protected).1).0
    ≡ err unauthorized
sign_in_once_example =
    sign_in_once env challenge 8 8 (totp 7) (totp 8) second third 100 130 protected (omega arith)
      sign_in_done

login_done :
    (login env "a@acme" "secret" second 100 accounts).0
    ≡ ok (authenticated (build_authentication env anna second))
unfolding login complete_first_factor start_session update_user create_session
login_done = refl

login_authenticated_example :
    (is_enabled env 1 accounts ≡ false)
    × (may_sign_in anna ≡ true)
    × (password_valid env anna "secret" ≡ true)
login_authenticated_example =
    login_authenticated env "a@acme" "secret" second 100 accounts
      (build_authentication env anna second) login_done

-- With the second factor on, the same sign-in gets a challenge.
login-two_factor :
    (login env "a@acme" "secret" second 100 protected).0
    ≡ ok (AuthenticationAttempt.two_factor "second")
unfolding login complete_first_factor create_login_challenge
login-two_factor = refl

reset_done : (reset_password env "reset" "new" 1 100 100 100 accounts).0 ≡ ok tt
unfolding reset_password find_user change_password update_user revoke_sessions
reset_done = refl

reset_password-IsSignedOut_example :
    IsSignedOut 1 (reset_password env "reset" "new" 1 100 100 100 accounts).1
reset_password-IsSignedOut_example =
    reset_password-IsSignedOut env "reset" "new" 1 100 100 100 accounts reset_token refl reset_done

abbrev verification : EmailVerificationToken
verification = record {
  id = 4;
  user_id = 1;
  email = "a@acme";
  token_hash = "verify";
  expires_at = 1000;
  consumed_at = none;
}

abbrev unverified : Accounts
unverified = record accounts { verification_tokens = verification ∷ [] }
