-- ===== src/Auth/TwoFactor/Setup/Status.antt =====
-- The status after a setup.
use shipflow.Common.{
  ℕ, ◌==◌, ==_refl, ◌≡◌, refl, sym, ap, ◌∙◌, Bool, true, false, if◌then◌else◌, Option, none, some,
  is_some, List, [], ◌∷◌, length, String, arith, inl, inr, ok, Bool-cases, Option-cases,
  Result-cases, Action, pure, ◌>>◌, bind_state,
}
use shipflow.Database.{find_first, count, update_many}
use shipflow.Auth.Model.{TwoFactorCredential, TwoFactorBackupCode, Accounts, Environment}
use shipflow.Auth.Sessions.{revoke_sessions}
use shipflow.Auth.TwoFactor.{is_pending, replace_codes, enable}
use shipflow.Auth.BackupCodes.{GeneratedBackupCodes, generate}
use shipflow.Auth.BackupCodes.Generated.{length-generate}
use shipflow.Auth.TwoFactor.Setup.{
  of_user, remaining, status_of, TwoFactorEnabled, get_status, confirm_setup,
}

-- A credential that is confirmed.
abbrev pub confirmed : ℕ → ℕ → TwoFactorCredential → TwoFactorCredential
confirmed step now c = record c { enabled_at = some now; last_used_time_step = some step }

enable_lem :
    (user credential step : ℕ) (hashes : List String) (ids : ℕ → ℕ) (now : ℕ) (s : Accounts)
    → (enable user credential step hashes ids now s).0 ≡ ok tt
    → ((enable user credential step hashes ids now s).1.credentials
        ≡ update_many (is_pending credential) (confirmed step now) s.credentials)
      × ((enable user credential step hashes ids now s).1.backup_codes
          ≡ replace_codes credential ids hashes s.backup_codes)
unfolding enable revoke_sessions
enable_lem user credential step hashes ids now s done =
    elim (Bool-cases (count (is_pending credential) s.credentials == 1)) [
      | inl one ↦ (ground (arith, one), ground (arith, one))
      | inr other ↦ absurd (refused other)
    ]
  where
    refused : (count (is_pending credential) s.credentials == 1) ≡ false → ⊥
    refused other = ground (arith, other, done)

then_found :
    (b : Bool) (x c : TwoFactorCredential) (rest : Option TwoFactorCredential)
    → b ≡ true
    → (if b then some x else rest) ≡ some c
    → x ≡ c
then_found b x c rest = ground arith

else_found :
    (b : Bool) (x c : TwoFactorCredential) (rest : Option TwoFactorCredential)
    → b ≡ false
    → (if b then some x else rest) ≡ some c
    → rest ≡ some c
else_found b x c rest = ground arith

-- An update that keeps what a search reads finds the row that was found, updated.
find_first-updated :
    (p q : TwoFactorCredential → Bool) (f : TwoFactorCredential → TwoFactorCredential)
    → ((c : TwoFactorCredential) → p (f c) ≡ p c)
    → (xs : List TwoFactorCredential) (c : TwoFactorCredential) → find_first p xs ≡ some c
    → q c ≡ true
    → find_first p (update_many q f xs) ≡ some (f c)
find_first-updated p q f keeps [] c h e = ground (arith, h)
find_first-updated p q f keeps (x ∷ xs) c h e = elim (Bool-cases (p x)) [
  | inl here ↦ at_head here (then_found (p x) x c (find_first p xs) here h)
  | inr later ↦
      past_head later
        (find_first-updated p q f keeps xs c (else_found (p x) x c (find_first p xs) later h) e)
]
  where
    at_head : p x ≡ true → x ≡ c → find_first p (update_many q f (x ∷ xs)) ≡ some (f c)
    at_head here same = rw (ap q same ∙ e, keeps x, here) (ap (λ r. some (f r)) same)

    past_head :
        p x ≡ false
        → find_first p (update_many q f xs) ≡ some (f c)
        → find_first p (update_many q f (x ∷ xs)) ≡ some (f c)
    past_head later rest = elim (Bool-cases (q x)) [
      | inl hit ↦ rw (hit, keeps x, later) rest
      | inr miss ↦ rw (miss, later) rest
    ]

-- The rows of the new codes are the unused ones of the credential.
count-replace_codes :
    (credential : ℕ) (ids : ℕ → ℕ) (hashes : List String) (old : List TwoFactorBackupCode)
    → count (remaining credential) (replace_codes credential ids hashes old) ≡ length hashes
count-replace_codes credential ids [] [] = refl
count-replace_codes credential ids [] (c ∷ old) =
    ground (arith, count-replace_codes credential ids [] old)
count-replace_codes credential ids (hash ∷ hashes) old =
    ground (arith, ==_refl credential, count-replace_codes credential ids hashes old)

module _ (env : Environment) (to_upper_case : List ℕ → List ℕ)
    (hash_backup_code : List ℕ → ℕ → String) where
  -- What is found and given on the way of a setup that is confirmed.
  abbrev IsConfirmed :
      ℕ → String → List (List ℕ) → (ℕ → ℕ) → ℕ → Accounts → TwoFactorEnabled → Type 0
  IsConfirmed user code draws ids now s answer =
      (credential : TwoFactorCredential) × (codes : GeneratedBackupCodes) × (step : ℕ) × (find_first
          (of_user user) s.credentials
        ≡ some credential)
      × (is_some credential.enabled_at ≡ false)
      × (generate to_upper_case hash_backup_code user draws ≡ some codes)
      × (answer.backup_codes ≡ codes.plaintext_codes)
      × ((enable user credential.id step codes.code_hashes ids now s).0 ≡ ok tt)
      × ((confirm_setup env to_upper_case hash_backup_code user code draws ids now s).1
          ≡ (enable user credential.id step codes.code_hashes ids now s).1)

  then_enabled :
      (m : Action Accounts (Unit {0})) (x answer : TwoFactorEnabled) (s : Accounts)
      → ((m >> pure x) s).0 ≡ ok answer
      → ((m s).0 ≡ ok tt) × (x ≡ answer)
  then_enabled m x answer s h = elim (Result-cases (m s).0) [
    | inl (e, failed) ↦ ground (arith, failed, h)
    | inr (tt, went) ↦ (went, ground (arith, went, h))
  ]

  confirm_setup_cases :
      (user : ℕ) (code : String) (draws : List (List ℕ)) (ids : ℕ → ℕ) (now : ℕ) (s : Accounts)
      (answer : TwoFactorEnabled)
      → (confirm_setup env to_upper_case hash_backup_code user code draws ids now s).0 ≡ ok answer
      → IsConfirmed user code draws ids now s answer
  unfolding confirm_setup
  confirm_setup_cases user code draws ids now s answer done =
      elim (Option-cases (find_first (of_user user) s.credentials)) [
        | inl missing ↦ ground (arith, missing, done)
        | inr (credential, found) ↦ elim (Bool-cases (is_some credential.enabled_at)) [
          | inl already ↦ ground (arith, found, already, done)
          | inr pending ↦
              elim (Option-cases (env.verify_totp credential.encrypted_secret code none)) [
                | inl wrong ↦ ground (arith, found, pending, wrong, done)
                | inr (step, right) ↦
                    elim (Option-cases (generate to_upper_case hash_backup_code user draws)) [
                      | inl stopped ↦ ground (arith, found, pending, right, stopped, done)
                      | inr (codes, made) ↦
                          let switch = enable user credential.id step codes.code_hashes ids now in
                          let reply : TwoFactorEnabled = record {
                            enabled = true;
                            backup_codes = codes.plaintext_codes;
                          } in
                          let runs : confirm_setup env to_upper_case hash_backup_code user code
                                draws ids now s
                              ≡ (switch >> pure reply) s =
                            ground (arith, found, pending, right, made) in
                          let (went, same) =
                            then_enabled switch reply answer s (sym (ap (λ r. r.0) runs) ∙ done) in
                          (
                            credential,
                            codes,
                            step,
                            found,
                            pending,
                            made,
                            ap (λ r. r.backup_codes) (sym same),
                            went,
                            ap (λ r. r.1) runs ∙ bind_state switch reply s,
                          )
                    ]
              ]
        ]
      ]

  -- A setup that is confirmed gives the user ten backup codes, has switched the second factor on, and the
  -- ten codes are what the status counts, whatever codes the table had before.
  pub confirm_setup-get_status :
      (user : ℕ) (code : String) (draws : List (List ℕ)) (ids : ℕ → ℕ) (now : ℕ) (s : Accounts)
      (answer : TwoFactorEnabled)
      → let run = confirm_setup env to_upper_case hash_backup_code user code draws ids now s in
        run.0 ≡ ok answer
        → (length answer.backup_codes ≡ 10)
          × ((get_status user run.1).0
              ≡ ok (record { enabled = true; setup_pending = false; backup_codes_remaining = 10 }))
  unfolding get_status
  confirm_setup-get_status user code draws ids now s answer done =
      let run = confirm_setup env to_upper_case hash_backup_code user code draws ids now s in
      let (credential, codes, step, found, pending, made, given, went, after) =
        confirm_setup_cases user code draws ids now s answer done in
      let (ten, hashes) = length-generate to_upper_case hash_backup_code user draws codes made in
      let (credentials, kept) =
        enable_lem user credential.id step codes.code_hashes ids now s went in
      let row =
        ap (find_first (of_user user)) (ap (λ t. t.credentials) after ∙ credentials)
        ∙ find_first-updated (of_user user) (is_pending credential.id) (confirmed step now)
            (λ c. refl) s.credentials credential found
            (ground (arith, pending, ==_refl credential.id)) in
      (
        ap length given ∙ ten,
        ap (λ o. ok (status_of o run.1.backup_codes)) row
            ∙ ap
                (λ n.
                  ok (record { enabled = true; setup_pending = false; backup_codes_remaining = n }))
                (ap (λ t. count (remaining credential.id) t.backup_codes) after
                  ∙ ap (count (remaining credential.id)) kept
                  ∙ count-replace_codes credential.id ids codes.code_hashes s.backup_codes
                  ∙ hashes),
      )
