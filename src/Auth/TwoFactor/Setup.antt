-- ===== src/Auth/TwoFactor/Setup.antt =====
-- backend/src/auth/two-factor/two-factor.service.ts: the status of the second factor, its setup and new
-- backup codes. The codes that were generated come with the ids of their rows.
pub mod Status
use shipflow.Common.{
  ℕ, ◌==◌, Bool, true, false, ◌&&◌, ◌||◌, not, if◌then◌else◌, Option, none, some, is_some, List, [],
  ◌∷◌, ◌++◌, String, any, Action, pure, throw, gets, or_throw, transaction, throw_if, modify, ◌>>=◌,
  ◌>>◌, unauthorized, conflict, failure,
}
use shipflow.Database.{find_first, count, update_many, delete_many}
use shipflow.Auth.Model.{User, TwoFactorCredential, TwoFactorBackupCode, Accounts, Environment}
use shipflow.Auth.Sessions.{may_sign_in}
use shipflow.Auth.TwoFactor.{claim_second_factor, verify_step_up, replace_codes, enable}
use shipflow.Auth.BackupCodes.{GeneratedBackupCodes, generate}

-- `TwoFactorStatusResponseDto`
pub record TwoFactorStatus : Type 0 where
  pub enabled : Bool
  pub setup_pending : Bool
  pub backup_codes_remaining : ℕ

abbrev pub of_user : ℕ → TwoFactorCredential → Bool
of_user user c = c.user_id == user

abbrev pub of_credential : ℕ → TwoFactorBackupCode → Bool
of_credential credential c = c.credential_id == credential

-- `_count` of the backup codes
abbrev pub remaining : ℕ → TwoFactorBackupCode → Bool
remaining credential c = of_credential credential c && not (is_some c.consumed_at)

-- The status of a credential with the codes of the table.
abbrev pub status_of : Option TwoFactorCredential → List TwoFactorBackupCode → TwoFactorStatus
status_of none codes = record { enabled = false; setup_pending = false; backup_codes_remaining = 0 }
status_of (some c) codes = record {
  enabled = is_some c.enabled_at;
  setup_pending = not (is_some c.enabled_at);
  backup_codes_remaining = if is_some c.enabled_at then count (remaining c.id) codes else 0;
}

unfoldable pub get_status : ℕ → Action Accounts TwoFactorStatus
get_status user = gets (λ s. status_of (find_first (of_user user) s.credentials) s.backup_codes)

-- `twoFactorCredential.upsert` of `beginSetup`: a new secret, with which nothing is confirmed yet.
abbrev pub start_over : ℕ → String → ℕ → Accounts → Accounts
start_over user encrypted id s =
    if any (of_user user) s.credentials
    then record s {
      credentials =
          update_many (of_user user)
            (λ c. record c {
              encrypted_secret = encrypted;
              enabled_at = none;
              last_used_time_step = none;
            })
            s.credentials;
      backup_codes =
          delete_many (λ b. any (λ c. of_user user c && of_credential c.id b) s.credentials)
            s.backup_codes;
    }
    else record s {
      credentials =
          record {
            id = id;
            user_id = user;
            encrypted_secret = encrypted;
            enabled_at = none;
            last_used_time_step = none;
          }
          ∷ s.credentials;
    }

-- `beginSetup`, with the secret, encrypted, and the id of a new credential.
unfoldable pub begin_setup : ℕ → String → String → ℕ → Action Accounts String
begin_setup user secret encrypted id = do
  found ← gets (λ s. find_first (λ u. u.id == user && may_sign_in u) s.users)
  u ← or_throw found unauthorized
  existing ← gets (λ s. find_first (of_user u.id) s.credentials)
  throw_if (elim existing [ none ↦ false | some c ↦ is_some c.enabled_at ]) conflict
  modify (start_over u.id encrypted id)
  pure secret

-- `TwoFactorEnabledResponseDto`; the field `enabled` is always true.
pub record TwoFactorEnabled : Type 0 where
  pub enabled : Bool
  pub backup_codes : List (List ℕ)

-- The new backup codes come of `generate`, with its random numbers and the ids of the rows as arguments. The
-- error `failure` stands for random numbers that end before the loop of `generate` does.
module _ (env : Environment) (to_upper_case : List ℕ → List ℕ)
    (hash_backup_code : List ℕ → ℕ → String) where
  -- `confirmSetup`
  unfoldable pub confirm_setup :
      ℕ → String → List (List ℕ) → (ℕ → ℕ) → ℕ → Action Accounts TwoFactorEnabled
  confirm_setup user code draws ids now = do
    found ← gets (λ s. find_first (of_user user) s.credentials)
    credential ← or_throw found conflict
    throw_if (is_some credential.enabled_at) conflict
    step ← or_throw (env.verify_totp credential.encrypted_secret code none) unauthorized
    codes ← or_throw (generate to_upper_case hash_backup_code user draws) failure
    enable user credential.id step codes.code_hashes ids now
    pure (record { enabled = true; backup_codes = codes.plaintext_codes })

  -- `regenerateBackupCodes`
  unfoldable pub regenerate_backup_codes :
      ℕ → Option String → String → List (List ℕ) → (ℕ → ℕ) → ℕ → Action Accounts TwoFactorEnabled
  regenerate_backup_codes user password code draws ids now = do
    verified ← verify_step_up env user password code
    codes ← or_throw (generate to_upper_case hash_backup_code user draws) failure
    transaction (do
      claim_second_factor verified.0.id verified.1 now
      modify (λ s. record s {
        backup_codes = replace_codes verified.0.id ids codes.code_hashes s.backup_codes;
      }))
    pure (record { enabled = true; backup_codes = codes.plaintext_codes })
