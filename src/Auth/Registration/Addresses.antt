-- ===== src/Auth/Registration/Addresses.antt =====
-- Whose address is verified, and that an address has one account.
use shipflow.Common.{
  ℕ, ◌==◌, ◌≡◌, refl, true, ◌||◌, String, str_eq, any, arith, err, conflict, unique_violation,
}
use shipflow.Auth.Model.{User, EmailVerificationToken, Accounts, Environment, Issue}
use shipflow.Auth.Registration.{new_user, new_verification_token, create_user, sign_up, register}

create_user_taken :
    (user : User) (s : Accounts)
    → any (λ u. u.id == user.id || str_eq u.email user.email) s.users ≡ true
    → create_user user s ≡ (err unique_violation, s)
unfolding create_user
create_user_taken user s h = rw h refl

sign_up_taken :
    (env : Environment) (user : User) (token : EmailVerificationToken) (issue : Issue)
    (s : Accounts)
    → any (λ u. u.id == user.id || str_eq u.email user.email) s.users ≡ true
    → sign_up env user token issue s ≡ (err unique_violation, s)
unfolding sign_up
sign_up_taken env user token issue s h = ground (arith, create_user_taken user s h)

-- Signing up with an address that has an account, or with an id that is in use, is a conflict and
-- leaves everything as it was.
pub register_taken :
    (env : Environment) (email password : String) (id token_id : ℕ) (token : String) (token_now : ℕ)
    (issue : Issue) (now : ℕ) (s : Accounts)
    → any (λ u. u.id == id || str_eq u.email (env.normalize_email email)) s.users ≡ true
    → register env email password id token_id token token_now issue now s ≡ (err conflict, s)
unfolding register
register_taken env email password id token_id token token_now issue now s h =
    let user = new_user env id email password now in
    ground (
      arith,
      sign_up_taken env user (new_verification_token env id user.email token_id token token_now)
          issue s h,
    )
