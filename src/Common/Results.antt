-- ===== src/Common/Results.antt =====
-- The outcome of a service call. A NestJS HTTP exception is the class that the service throws; its
-- message text is not kept. `unique_violation` is the database error with code P2002, `missing_row`
-- the one for an update or delete of a row that is not there, and `failure` any other thrown value.
use mathlib.Core.List.{List, [], ◌∷◌}
use mathlib.Core.Bool.{Bool, true, false}
use mathlib.Core.Option.{Option, none, some}
use mathlib.Core.Path.{◌≡◌, refl}
use mathlib.Core.Logic.{◌⊎◌, inl, inr}
use native.Mathlib.Omega.{arith}

pub data Error : Type 0 where
  bad_request unauthorized payment_required forbidden not_found : Error
  conflict gone service_unavailable unique_violation missing_row failure : Error

pub data Result {ℓ} (A : Type ℓ) : Type ℓ where
  ok : A → Result A
  err : Error → Result A

-- A call in state `S`: what was written before a throw stays written.
abbrev pub Action : Type 0 → Type 0 → Type 0
Action S A = S → Result A × S

module _ {S A : Type 0} where
  abbrev pub pure : A → Action S A
  pure a s = (ok a, s)

  abbrev pub throw : Error → Action S A
  throw e s = (err e, s)

  abbrev pub gets : (S → A) → Action S A
  gets f s = (ok (f s), s)

  -- `if (!row) throw ...`
  abbrev pub or_throw : Option A → Error → Action S A
  or_throw none e s = (err e, s)
  or_throw (some a) e s = (ok a, s)

  -- A value or an error that pure code has computed.
  abbrev pub lift : Result A → Action S A
  lift r s = (r, s)

  -- `prisma.$transaction(...)`: a throw inside undoes what the transaction wrote.
  abbrev pub transaction : Action S A → Action S A
  transaction m s = let (r, s') = m s in elim r [ ok a ↦ (ok a, s') | err e ↦ (err e, s) ]

  -- `try { ... } catch (error) { ... }`
  abbrev pub catch : Action S A → (Error → Action S A) → Action S A
  catch m handler s = let (r, s') = m s in elim r [ ok a ↦ (ok a, s') | err e ↦ handler e s' ]

infixl 5 ◌>>=◌ ◌>>◌
abbrev pub ◌>>=◌ : {S A B : Type 0} → Action S A → (A → Action S B) → Action S B
◌>>=◌ m f s = let (r, s') = m s in elim r [ ok a ↦ f a s' | err e ↦ (err e, s') ]

abbrev pub ◌>>◌ : {S A B : Type 0} → Action S A → Action S B → Action S B
m >> k = m >>= λ _. k

-- `if (test) throw ...`
abbrev pub throw_if : {S : Type 0} → Bool → Error → Action S (Unit {0})
throw_if true e s = (err e, s)
throw_if false e s = (ok tt, s)

-- `if (test) await action`
abbrev pub when : {S : Type 0} → Bool → Action S (Unit {0}) → Action S (Unit {0})
when true action s = action s
when false action s = (ok tt, s)

abbrev pub modify : {S : Type 0} → (S → S) → Action S (Unit {0})
modify f s = (ok tt, f s)

abbrev pub is_ok {ℓ} : {A : Type ℓ} → Result A → Bool
is_ok (ok a) = true
is_ok (err e) = false

-- `for (const x of xs) await body(x)`
abbrev pub for_each : {S A : Type 0} → List A → (A → Action S (Unit {0})) → Action S (Unit {0})
for_each [] body s = (ok tt, s)
for_each (x ∷ xs) body s =
    let (r, s') = body x s in elim r [ ok _ ↦ for_each xs body s' | err e ↦ (err e, s') ]

-- What follows a call and writes nothing leaves the state of the call.
pub bind_state :
    {S A B : Type 0} (m : Action S A) (b : B) (s : S) → ((m >>= λ _. pure b) s).1 ≡ (m s).1
bind_state m b s = ground arith

pub Result-cases {ℓ} :
    {A : Type ℓ} (r : Result A) → ((e : Error) × (r ≡ err e)) ⊎ ((a : A) × (r ≡ ok a))
Result-cases (ok a) = inr (a, refl)
Result-cases (err e) = inl (e, refl)

-- The first body of a loop that does not throw did not throw, and the rest of the loop follows it.
pub for_each_first :
    {S A : Type 0} (x : A) (xs : List A) (body : A → Action S (Unit {0})) (s : S)
    → (for_each (x ∷ xs) body s).0 ≡ ok tt
    → ((body x s).0 ≡ ok tt) × (for_each (x ∷ xs) body s ≡ for_each xs body (body x s).1)
for_each_first x xs body s h = elim (Result-cases (body x s).0) [
  | inl (e, failed) ↦ ground (arith, failed)
  | inr (tt, went) ↦ (went, ground (arith, went))
]
