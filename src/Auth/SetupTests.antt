-- ===== src/Auth/SetupTests.antt =====
-- Backup codes of repeated characters, and a setup that is confirmed.
use shipflow.Common.{
  ℕ, leb, ◌==◌, ◌<◌, arith, ◌≡◌, refl, true, false, none, some, List, [], ◌∷◌, map, String, take,
  length, if◌then◌else◌, ok, length,
}
use shipflow.Auth.Model.{TwoFactorCredential, Accounts, Environment}
use shipflow.Auth.Sessions.{revoke_sessions}
use shipflow.Auth.TwoFactor.{enable}
use shipflow.Auth.TwoFactor.Setup.{TwoFactorEnabled, get_status, confirm_setup}
use shipflow.Auth.TwoFactor.Setup.Status.{confirm_setup-get_status}
use shipflow.Auth.BackupCodes.{
  backup_code_count, dash, create_code, without, hash, generate, GeneratedBackupCodes,
}
use shipflow.Auth.BackupCodes.Accepted.{IsDraw}
use shipflow.Auth.BackupCodes.Distinct.{all_codes}
use shipflow.Auth.BackupCodes.Generated.{AllDistinct, generate_lem, generate-all_codes}

-- The random numbers of a code that repeats one character.
abbrev draw : ℕ → List ℕ
draw i = i ∷ i ∷ i ∷ i ∷ i ∷ i ∷ i ∷ i ∷ i ∷ i ∷ i ∷ i ∷ i ∷ i ∷ i ∷ i ∷ []

-- The third is a repetition.
abbrev draws : List (List ℕ)
draws = map draw (0 ∷ 1 ∷ 1 ∷ 2 ∷ 3 ∷ 4 ∷ 5 ∷ 6 ∷ 7 ∷ 8 ∷ 31 ∷ [])

abbrev plain : List ℕ → ℕ → String
plain code user = "hash"

abbrev ten : GeneratedBackupCodes
ten = record {
  plaintext_codes =
      map (λ (i : ℕ). create_code (draw i)) (0 ∷ 1 ∷ 2 ∷ 3 ∷ 4 ∷ 5 ∷ 6 ∷ 7 ∷ 8 ∷ 31 ∷ []);
  code_hashes = map (λ (i : ℕ). "hash") (0 ∷ 1 ∷ 2 ∷ 3 ∷ 4 ∷ 5 ∷ 6 ∷ 7 ∷ 8 ∷ 31 ∷ []);
}

fit : (i : ℕ) → i < 32 → IsDraw (draw i)
fit i h = (refl, (h, (h, (h, (h, (h, (h, (h, (h, (h, (h, (h, (h, (h, (h, (h, (h, tt)))))))))))))))))

generate_lem_example :
    (length ten.plaintext_codes ≡ 10)
    × (AllDistinct ten.plaintext_codes
        × (map (λ code. hash (λ cs. cs) plain code 1) ten.plaintext_codes
            ≡ map some ten.code_hashes))
generate_lem_example =
    generate_lem (λ cs. cs) plain (λ cs _. refl) 1 draws ten
      (
        fit 0 (omega arith),
        (
          fit 1 (omega arith),
          (
            fit 1 (omega arith),
            (
              fit 2 (omega arith),
              (
                fit 3 (omega arith),
                (
                  fit 4 (omega arith),
                  (
                    fit 5 (omega arith),
                    (
                      fit 6 (omega arith),
                      (fit 7 (omega arith), (fit 8 (omega arith), (fit 31 (omega arith), tt))),
                    ),
                  ),
                ),
              ),
            ),
          ),
        ),
      )
      refl

generate-all_codes_example : generate (λ cs. cs) plain 1 draws ≡ (
    if leb backup_code_count (length (all_codes draws))
    then some (record {
      plaintext_codes = take backup_code_count (all_codes draws);
      code_hashes =
          map
            (λ code. plain (without (λ c. c == dash) code) 1)
            (take backup_code_count (all_codes draws));
    })
    else none)
generate-all_codes_example = generate-all_codes (λ cs. cs) plain 1 draws

abbrev pending : TwoFactorCredential
pending = record {
  id = 5;
  user_id = 1;
  encrypted_secret = "secret";
  enabled_at = none;
  last_used_time_step = none;
}

abbrev accounts : Accounts
accounts = record {
  users = [];
  sessions = [];
  verification_tokens = [];
  reset_tokens = [];
  credentials = pending ∷ [];
  backup_codes = [];
  challenges = [];
  notices = record { notifications = []; preferences = [] };
}

abbrev env : Environment
env = record {
  normalize_email = λ e. e;
  hash_opaque_token = λ t. t;
  hash_password = λ p. p;
  verify_password = λ p q. true;
  refresh_token_ttl_days = 30;
  password_reset_token_ttl_minutes = 60;
  email_verification_token_ttl_hours = 24;
  is_totp_code = λ c. true;
  verify_totp = λ secret code used. some 7;
  hash_backup_code = λ code user. some code;
}

-- The user has a code of an earlier setup, which goes.
abbrev old_accounts : Accounts
old_accounts = record accounts {
  backup_codes = record { id = 9; credential_id = 5; code_hash = "old"; consumed_at = none } ∷ [];
}

abbrev enabled : TwoFactorEnabled
enabled = record { enabled = true; backup_codes = ten.plaintext_codes }

confirm_setup-get_status_example :
    (length enabled.backup_codes ≡ 10)
    × ((get_status 1
          (confirm_setup env (λ cs. cs) plain 1 "123456" draws (λ n. n) 100 old_accounts).1).0
        ≡ ok (record { enabled = true; setup_pending = false; backup_codes_remaining = 10 }))
unfolding confirm_setup enable revoke_sessions
confirm_setup-get_status_example =
    confirm_setup-get_status env (λ cs. cs) plain 1 "123456" draws (λ n. n) 100 old_accounts enabled
      refl
