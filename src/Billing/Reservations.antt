-- ===== src/Billing/Reservations.antt =====
-- backend/src/billing/billing.service.ts: `reserveCheckout`. It reads the table, and then writes; what other
-- requests do to the table between the two is an argument.
pub mod Usable
use shipflow.Common.{
  ℕ, ◌+◌, ◌*◌, ltb, leb, ◌==◌, Bool, true, false, ◌&&◌, ◌||◌, not, if◌then◌else◌, or_else, Option,
  none, some, is_some, List, [], ◌∷◌, String, any, ok, err, Error, Action, pure, throw, gets,
  or_throw, catch, throw_if, modify, ◌>>=◌, ◌>>◌, conflict, not_found, failure, unique_violation,
}
use shipflow.Database.{find_first, count, update_many, delete_many}
use shipflow.Billing.Model.{
  BillingInterval, monthly, annual, same_interval, SubscriptionStatus, incomplete, trialing, active,
  past_due, StripeCustomer, BillingCheckoutSession, Ledger, BillingConfig, ProviderCheckoutSession,
  BillingProvider,
}
use shipflow.Billing.Entitlements.{by_organization}

-- `CHECKOUT_CREATION_LOCK_MS`
abbrev pub checkout_creation_lock_ms : ℕ
checkout_creation_lock_ms = 5 * 60 * 1000

abbrev pub day_ms : ℕ
day_ms = 24 * 60 * 60 * 1000

abbrev pub checkout_of : ℕ → BillingCheckoutSession → Bool
checkout_of organization c = c.organization_id == organization

abbrev pub set_checkouts : List BillingCheckoutSession → Ledger → Ledger
set_checkouts checkouts s = record s { checkouts = checkouts }

-- A reservation that got no session within the time that its creation may take.
abbrev pub stale_creation : ℕ → BillingCheckoutSession → Bool
stale_creation now c =
    not (is_some c.stripe_session_id)
    && not (is_some c.checkout_url)
    && leb (c.created_at + checkout_creation_lock_ms) now

-- `billingCheckoutSession.create`, with the unique keys of the table.
unfoldable pub create_checkout : BillingCheckoutSession → Action Ledger BillingCheckoutSession
create_checkout row s =
    if any
      (λ c. c.id == row.id || checkout_of row.organization_id c || c.request_key == row.request_key)
      s.checkouts
    then (err unique_violation, s)
    else (ok row, set_checkouts (row ∷ s.checkouts) s)

-- One pass of the loop in `reserveCheckout`: its clock, the ids that it draws, and what others do to the
-- table after it has read it.
pub record Attempt : Type 0 where
  pub now : ℕ
  pub id : ℕ
  pub request_key : ℕ
  pub meanwhile : List BillingCheckoutSession → List BillingCheckoutSession

-- The row that an attempt creates.
abbrev pub new_checkout : ℕ → BillingInterval → Attempt → BillingCheckoutSession
new_checkout organization interval a = record {
  id = a.id;
  organization_id = organization;
  request_key = a.request_key;
  interval = interval;
  stripe_session_id = none;
  checkout_url = none;
  expires_at = a.now + day_ms;
  created_at = a.now;
}

-- What an attempt does about the row that it has read.
pub data Choice : Type 0 where
  reuse refuse : BillingCheckoutSession → Choice
  replace : (BillingCheckoutSession → Bool) → Bool → Choice
  start : Choice

-- The deletions of an attempt, each by its own `where`.
abbrev pub is_abandoned : ℕ → ℕ → BillingCheckoutSession → Bool
is_abandoned id now c = c.id == id && stale_creation now c

abbrev pub is_expired : ℕ → ℕ → BillingCheckoutSession → Bool
is_expired id now c = c.id == id && leb c.expires_at now

-- `replace p strict` deletes the rows that satisfy `p`; if it is strict and there is none any more, the
-- attempt is over.
abbrev pub choose : BillingInterval → ℕ → Option BillingCheckoutSession → Choice
choose interval now none = start
choose interval now (some c) =
    if ltb now c.expires_at
    then (if stale_creation now c
        then replace (is_abandoned c.id now) true
        else if same_interval c.interval interval
        then reuse c
        else refuse c)
    else replace (is_expired c.id now) false

abbrev pub is_unique_violation : Error → Bool
is_unique_violation unique_violation = true
is_unique_violation _ = false

-- The `try` of an attempt: nothing if another request got there first.
unfoldable pub try_create :
    ℕ → BillingInterval → Attempt → Action Ledger (Option BillingCheckoutSession)
try_create organization interval a =
    catch (do row ← create_checkout (new_checkout organization interval a); pure (some row))
      (λ e. if is_unique_violation e then pure none else throw e)

-- What an attempt does after its choice; nothing means that the loop goes on.
unfoldable pub act_on :
    ℕ → BillingInterval → Attempt → Choice → Action Ledger (Option BillingCheckoutSession)
act_on organization interval a (reuse c) = pure (some c)
act_on organization interval a (refuse c) = throw conflict
act_on organization interval a start = try_create organization interval a
act_on organization interval a (replace p strict) = do
  deleted ← gets (λ s. count p s.checkouts)
  modify (λ s. set_checkouts (delete_many p s.checkouts) s)
  elim (strict && deleted == 0) [ true ↦ pure none | false ↦ try_create organization interval a ]

-- One pass of the loop.
unfoldable pub attempt :
    ℕ → BillingInterval → Attempt → Action Ledger (Option BillingCheckoutSession)
attempt organization interval a = do
  existing ← gets (λ s. find_first (checkout_of organization) s.checkouts)
  modify (λ s. set_checkouts (a.meanwhile s.checkouts) s)
  act_on organization interval a (choose interval a.now existing)

-- The loop over the attempts that are left.
unfoldable pub reserve_from :
    ℕ → BillingInterval → List Attempt → Action Ledger BillingCheckoutSession
reserve_from organization interval [] = throw conflict
reserve_from organization interval (a ∷ rest) = do
  reserved ← attempt organization interval a
  elim reserved [ some row ↦ pure row | none ↦ reserve_from organization interval rest ]

-- `reserveCheckout`, which makes three attempts.
unfoldable pub reserve_checkout :
    ℕ → BillingInterval → Attempt → Attempt → Attempt → Action Ledger BillingCheckoutSession
unfolding reserve_from
reserve_checkout organization interval first second third =
    reserve_from organization interval (first ∷ second ∷ third ∷ [])
