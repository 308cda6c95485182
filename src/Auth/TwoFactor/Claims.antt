-- ===== src/Auth/TwoFactor/Claims.antt =====
-- The second factor at sign-in: each code, and each challenge, serves once.
use shipflow.Common.{
  ℕ, ◌≤◌, ltb, ◌==◌, ◌≡◌, refl, Bool, false, ◌&&◌, ◌||◌, some, str_eq, any, arith, inl, inr, ok,
  err, Bool-cases, unauthorized,
}
use shipflow.Database.{count, update_many}
use shipflow.Database.Writes.{count-update_none}
use shipflow.Auth.Model.{
  User, Session, TwoFactorChallenge, Accounts, Issue, SecondFactorProof, totp, backup_code,
  Environment,
}
use shipflow.Auth.Sessions.{update_user, create_session, new_session}
use shipflow.Auth.TwoFactor.{accepts_step, is_unused, is_open, claim_second_factor, sign_in}

ltb_irrefl : (n : ℕ) → ltb n n ≡ false
ltb_irrefl n = ground arith

-- A second factor that has been claimed cannot be claimed again: neither a time step of the
-- authenticator nor a backup code serves twice, at whatever later time.
pub claim_second_factor_once :
    (credential : ℕ) (proof : SecondFactorProof) (now later : ℕ) (s : Accounts)
    → (claim_second_factor credential proof now s).0 ≡ ok tt
    → (claim_second_factor credential proof later (claim_second_factor credential proof now s).1).0
      ≡ err unauthorized
unfolding claim_second_factor
claim_second_factor_once credential (totp step) now later s h = ground (
  arith,
  count-update_none (accepts_step credential step) (accepts_step credential step)
      (λ c. record c { last_used_time_step = some step }) s.credentials
      (λ r. ground (arith, ltb_irrefl step)) (λ r e. e),
)
claim_second_factor_once credential (backup_code code) now later s h = ground (
  arith,
  count-update_none (is_unused credential code) (is_unused credential code)
      (λ c. record c { consumed_at = some now }) s.backup_codes (λ r. ground arith) (λ r e. e),
)

-- The test for a challenge that can still be answered.
abbrev pending : TwoFactorChallenge → ℕ → TwoFactorChallenge → Bool
pending challenge now c = c.id == challenge.id && (is_open c && ltb now c.expires_at)

claim-challenges :
    (credential : ℕ) (proof : SecondFactorProof) (now : ℕ) (s : Accounts)
    → (claim_second_factor credential proof now s).1.challenges ≡ s.challenges
unfolding claim_second_factor
claim-challenges credential (totp step) now s = ground arith
claim-challenges credential (backup_code code) now s = ground arith

update_user-challenges :
    (env : Environment) (id : ℕ) (change : User → User) (s : Accounts)
    → (update_user env id change s).1.challenges ≡ s.challenges
unfolding update_user
update_user-challenges env id change s = elim (Bool-cases (any (λ u. u.id == id) s.users)) [
  | inl h ↦ rw h refl
  | inr h ↦ rw h refl
]

create_session-challenges :
    (session : Session) (s : Accounts) → (create_session session s).1.challenges ≡ s.challenges
unfolding create_session
create_session-challenges session s =
    elim (Bool-cases
      (any (λ t. t.id == session.id || str_eq t.token_hash session.token_hash) s.sessions)) [
        | inl h ↦ rw h refl
        | inr h ↦ rw h refl
      ]

sign_in_ok :
    (env : Environment) (challenge : TwoFactorChallenge) (credential : ℕ)
    (proof : SecondFactorProof) (issue : Issue) (now : ℕ) (s : Accounts)
    → (sign_in env challenge credential proof issue now s).0 ≡ ok tt
    → (sign_in env challenge credential proof issue now s).1.challenges
      ≡ update_many (pending challenge now) (λ c. record c { consumed_at = some now }) s.challenges
unfolding sign_in
sign_in_ok env challenge credential proof issue now s h =
    let s' = record s {
      challenges =
          update_many (pending challenge now) (λ c. record c { consumed_at = some now })
            s.challenges;
    } in
    let claimed = (claim_second_factor credential proof now s').1 in
    let updated =
      (update_user env challenge.user_id (λ u. record u { last_login_at = some now }) claimed).1 in
    ground (
      arith,
      claim-challenges credential proof now s',
      update_user-challenges env challenge.user_id (λ u. record u { last_login_at = some now })
          claimed,
      create_session-challenges (new_session env challenge.user_id issue.family issue) updated,
    )

sign_in_spent :
    (env : Environment) (challenge : TwoFactorChallenge) (credential : ℕ)
    (proof : SecondFactorProof) (issue : Issue) (now : ℕ) (s : Accounts)
    → count (pending challenge now) s.challenges ≡ 0
    → (sign_in env challenge credential proof issue now s).0 ≡ err unauthorized
unfolding sign_in
sign_in_spent env challenge credential proof issue now s h = ground arith

-- A challenge that was answered once cannot be answered again, at the same time or later, be it with another code or in a race of
-- two requests that both read it while it was open.
pub sign_in_once :
    (env : Environment) (challenge : TwoFactorChallenge) (credential other : ℕ)
    (proof another : SecondFactorProof) (issue again : Issue) (now later : ℕ) (s : Accounts)
    → now ≤ later
    → (sign_in env challenge credential proof issue now s).0 ≡ ok tt
    → (sign_in env challenge other another again later
        (sign_in env challenge credential proof issue now s).1).0
      ≡ err unauthorized
sign_in_once env challenge credential other proof another issue again now later s le h =
    sign_in_spent env challenge other another again later
      (sign_in env challenge credential proof issue now s).1
      (rw (sign_in_ok env challenge credential proof issue now s h) (
        count-update_none (pending challenge later) (pending challenge now)
          (λ c. record c { consumed_at = some now }) s.challenges (λ r. ground arith)
          (λ r e. ground arith)))
