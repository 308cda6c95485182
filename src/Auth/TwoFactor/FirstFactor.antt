-- ===== src/Auth/TwoFactor/FirstFactor.antt =====
-- What the first factor alone gives.
use shipflow.Common.{
  ℕ, ◌≡◌, true, false, String, arith, inl, inr, ok, Bool-cases, Option-cases, Result-cases,
}
use shipflow.Database.{find_first}
use shipflow.Auth.Model.{User, Accounts, IssuedAuthentication, authenticated, Issue, Environment}
use shipflow.Auth.Sessions.{
  may_sign_in, is_enabled, complete_first_factor, create_login_challenge, login, by_email,
  password_valid, start_session,
}

challenge_only :
    (env : Environment) (user id : ℕ) (token : String) (now : ℕ) (s : Accounts)
    (a : IssuedAuthentication)
    → (create_login_challenge env user id token now s).0 ≡ ok (authenticated a)
    → ⊥
unfolding create_login_challenge
challenge_only env user id token now s a h = ground arith

complete_first_factor_only :
    (env : Environment) (user : User) (issue : Issue) (now : ℕ) (s : Accounts)
    (a : IssuedAuthentication)
    → (complete_first_factor env user issue now s).0 ≡ ok (authenticated a)
    → (is_enabled env user.id s ≡ false) × (a.user ≡ user)
unfolding complete_first_factor
complete_first_factor_only env user issue now s a h = elim (Bool-cases (is_enabled env user.id s)) [
  | inl enabled ↦ absurd (challenge_only env user.id issue.id issue.token now s a (rw enabled at h))
  | inr disabled ↦ elim (Result-cases (start_session env user.id issue now s).0) [
    | inl (e, failed) ↦ ground arith
    | inr (u, done) ↦ ground arith
  ]
]

-- A password alone signs nobody in whose second factor is on: a sign-in that returns a session is of an
-- active user whose password was right and who has no second factor.
pub login_authenticated :
    (env : Environment) (email password : String) (issue : Issue) (now : ℕ) (s : Accounts)
    (a : IssuedAuthentication)
    → (login env email password issue now s).0 ≡ ok (authenticated a)
    → (is_enabled env a.user.id s ≡ false)
      × (may_sign_in a.user ≡ true)
      × (password_valid env a.user password ≡ true)
unfolding login
login_authenticated env email password issue now s a h =
    elim (Option-cases (find_first (by_email env email) s.users)) [
      | inl missing ↦ ground arith
      | inr (user, found) ↦ ground (arith, complete_first_factor_only env user issue now s a)
    ]
