-- ===== src/Auth/Model.antt =====
-- The rows of backend/prisma/schema.prisma that sign-in works on. The address and the agent of the
-- client are only recorded, and are not kept.
use shipflow.Common.{ℕ, ◌*◌, Bool, true, false, Option, some, List, String}
use shipflow.Notifications.{Notices}

pub data UserStatus : Type 0 where
  active suspended : UserStatus

abbrev pub is_active : UserStatus → Bool
is_active active = true
is_active suspended = false

pub data SessionRevocationReason : Type 0 where
  rotated logout logout_all reuse_detected administrative : SessionRevocationReason

abbrev pub is_rotated : Option SessionRevocationReason → Bool
is_rotated (some rotated) = true
is_rotated _ = false

pub record User : Type 0 where
  pub id : ℕ
  pub email : String
  pub password_hash : Option String
  pub status : UserStatus
  pub email_verified_at : Option ℕ
  pub last_login_at : Option ℕ
  pub deleted_at : Option ℕ

pub record Session : Type 0 where
  pub id : ℕ
  pub user_id : ℕ
  pub token_hash : String
  pub token_family_id : ℕ
  pub replaced_by_id : Option ℕ
  pub expires_at : ℕ
  pub last_used_at : Option ℕ
  pub revoked_at : Option ℕ
  pub revocation_reason : Option SessionRevocationReason

pub record EmailVerificationToken : Type 0 where
  pub id : ℕ
  pub user_id : ℕ
  pub email : String
  pub token_hash : String
  pub expires_at : ℕ
  pub consumed_at : Option ℕ

pub record PasswordResetToken : Type 0 where
  pub id : ℕ
  pub user_id : ℕ
  pub token_hash : String
  pub expires_at : ℕ
  pub consumed_at : Option ℕ

-- The secret of a credential, as it is kept: encrypted, with what its decryption needs.
pub record TwoFactorCredential : Type 0 where
  pub id : ℕ
  pub user_id : ℕ
  pub encrypted_secret : String
  pub enabled_at : Option ℕ
  pub last_used_time_step : Option ℕ

pub record TwoFactorBackupCode : Type 0 where
  pub id : ℕ
  pub credential_id : ℕ
  pub code_hash : String
  pub consumed_at : Option ℕ

-- Of the one purpose that there is, signing in.
pub record TwoFactorChallenge : Type 0 where
  pub id : ℕ
  pub user_id : ℕ
  pub token_hash : String
  pub expires_at : ℕ
  pub consumed_at : Option ℕ

pub record Accounts : Type 0 where
  pub users : List User
  pub sessions : List Session
  pub verification_tokens : List EmailVerificationToken
  pub reset_tokens : List PasswordResetToken
  pub credentials : List TwoFactorCredential
  pub backup_codes : List TwoFactorBackupCode
  pub challenges : List TwoFactorChallenge
  pub notices : Notices

-- `LOGIN_CHALLENGE_TTL_SECONDS`
abbrev pub login_challenge_ttl_seconds : ℕ
login_challenge_ttl_seconds = 5 * 60

-- The answer of a sign-in: `IssuedAuthentication`, whose signed access token is a function of the
-- user, or the challenge for the second factor with its token.
pub record IssuedAuthentication : Type 0 where
  pub user : User
  pub refresh_token : String
  pub refresh_expires_at : ℕ

pub data AuthenticationAttempt : Type 0 where
  authenticated : IssuedAuthentication → AuthenticationAttempt
  two_factor : String → AuthenticationAttempt

-- What a new session gets from the generators and the clock: its id, its family if it starts one, the
-- opaque token and the time at which its expiry is computed.
pub record Issue : Type 0 where
  pub id : ℕ
  pub family : ℕ
  pub token : String
  pub issued_at : ℕ

-- `verifyToken` of the authenticator, which gives the time step of a valid code.
pub data SecondFactorProof : Type 0 where
  totp backup_code : ℕ → SecondFactorProof

-- The services that sign-in is given: hashing, password hashes, one-time codes and the configured
-- lifetime of refresh tokens.
pub record Environment : Type 0 where
  pub normalize_email : String → String
  pub hash_opaque_token : String → String
  pub hash_password : String → String
  pub verify_password : String → String → Bool
  pub refresh_token_ttl_days : ℕ
  pub password_reset_token_ttl_minutes : ℕ
  pub email_verification_token_ttl_hours : ℕ
  pub is_totp_code : String → Bool
  pub verify_totp : String → String → Option ℕ → Option ℕ
  pub hash_backup_code : String → ℕ → Option String
