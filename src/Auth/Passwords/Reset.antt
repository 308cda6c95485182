-- ===== src/Auth/Passwords/Reset.antt =====
-- What a password reset leaves behind.
use shipflow.Common.{
  ℕ, ◌==◌, ◌≡◌, refl, Bool, ◌&&◌, not, some, is_some, List, [], ◌∷◌, String, str_eq, any, arith,
  inl, inr, ok, Bool-cases, Option-cases,
}
use shipflow.Database.{find_first, count, update_many, delete_many}
use shipflow.Database.Writes.{count-update_none}
use shipflow.Auth.Model.{SessionRevocationReason, PasswordResetToken, Accounts, Environment}
use shipflow.Auth.Sessions.{is_live, revoke, revoke_sessions, update_user, find_user}
use shipflow.Auth.Passwords.{change_password, reset_password}

-- Nobody is signed in as the user, or about to be, and no token can reset the password again.
pub record IsSignedOut (user : ℕ) (s : Accounts) : Type 0 where
  pub no_session : count (λ t. t.user_id == user && is_live t) s.sessions ≡ 0
  pub no_challenge : count (λ c. c.user_id == user) s.challenges ≡ 0
  pub no_token : count (λ t. t.user_id == user && not (is_some t.consumed_at)) s.reset_tokens ≡ 0

count-delete_none : {R : Type 0} (p : R → Bool) (rs : List R) → count p (delete_many p rs) ≡ 0
count-delete_none p [] = refl
count-delete_none p (r ∷ rs) = ground (arith, count-delete_none p rs)

-- The tokens that a reset with `token` leaves.
abbrev used_up : PasswordResetToken → ℕ → List PasswordResetToken → List PasswordResetToken
used_up token now ts =
    delete_many (λ t. t.user_id == token.user_id && not (t.id == token.id))
      (update_many (λ t. t.id == token.id && not (is_some t.consumed_at))
        (λ t. record t { consumed_at = some now }) ts)

used_up_none :
    (token : PasswordResetToken) (now : ℕ) (ts : List PasswordResetToken)
    → count (λ t. t.user_id == token.user_id && not (is_some t.consumed_at)) (used_up token now ts)
      ≡ 0
used_up_none token now [] = refl
used_up_none token now (t ∷ ts) = ground (arith, used_up_none token now ts)

change_password_ok :
    (env : Environment) (token : PasswordResetToken) (password : String)
    (notice now written_now : ℕ) (s : Accounts)
    → (change_password env token password notice now written_now s).0 ≡ ok tt
    → let s' = (change_password env token password notice now written_now s).1 in
      (s'.sessions
        ≡ update_many
            (λ t. t.user_id == token.user_id && is_live t)
            (revoke SessionRevocationReason.logout_all now)
            s.sessions)
      × (s'.challenges ≡ delete_many (λ c. c.user_id == token.user_id) s.challenges)
      × (s'.reset_tokens ≡ used_up token now s.reset_tokens)
unfolding change_password update_user revoke_sessions
change_password_ok env token password notice now written_now s h =
    elim (Bool-cases (any (λ u. u.id == token.user_id) s.users)) [
      | inl there ↦ ground arith
      | inr missing ↦ ground arith
    ]

-- A password reset that goes through signs the token's user out everywhere: none of his sessions stays
-- live, no sign-in stays half done, and none of his reset tokens can be used any more.
pub reset_password-IsSignedOut :
    (env : Environment) (text password : String) (notice now changed_now written_now : ℕ)
    (s : Accounts) (token : PasswordResetToken)
    → find_first (λ t. str_eq t.token_hash (env.hash_opaque_token text)) s.reset_tokens ≡ some token
    → (reset_password env text password notice now changed_now written_now s).0 ≡ ok tt
    → IsSignedOut token.user_id
        (reset_password env text password notice now changed_now written_now s).1
unfolding reset_password find_user
reset_password-IsSignedOut env text password notice now changed_now written_now s token found done =
    elim (Option-cases (find_first (λ u. u.id == token.user_id) s.users)) [
      | inl missing ↦ ground arith
      | inr (user, there) ↦ record {
        no_session = ground (
          arith,
          change_password_ok env token password notice changed_now written_now s,
          count-update_none (λ t. t.user_id == token.user_id && is_live t)
              (λ t. t.user_id == token.user_id && is_live t)
              (revoke SessionRevocationReason.logout_all changed_now) s.sessions (λ r. ground arith)
              (λ r h. h),
        );
        no_challenge = ground (
          arith,
          change_password_ok env token password notice changed_now written_now s,
          count-delete_none (λ c. c.user_id == token.user_id) s.challenges,
        );
        no_token = ground (
          arith,
          change_password_ok env token password notice changed_now written_now s,
          used_up_none token changed_now s.reset_tokens,
        );
      }
    ]
