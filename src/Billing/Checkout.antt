-- ===== src/Billing/Checkout.antt =====
-- backend/src/billing/billing.service.ts: the checkout and the portal of an organization.
use shipflow.Common.{
  ℕ, ◌+◌, ◌==◌, Bool, true, false, ◌&&◌, ◌||◌, not, if◌then◌else◌, or_else, Option, none, some,
  is_some, ◌∷◌, String, any, ok, err, Action, pure, throw, gets, or_throw, catch, throw_if, modify,
  ◌>>=◌, ◌>>◌, conflict, not_found, failure, unique_violation,
}
use shipflow.Database.{find_first, update_many, delete_many}
use shipflow.Billing.Model.{
  BillingInterval, monthly, annual, SubscriptionStatus, incomplete, trialing, active, past_due,
  StripeCustomer, BillingCheckoutSession, Ledger, BillingConfig, ProviderCheckoutSession,
  BillingProvider,
}
use shipflow.Billing.Reservations.{
  Attempt, reserve_checkout, set_checkouts, create_checkout, day_ms,
}
use shipflow.Billing.Entitlements.{by_organization}

-- `isManagedSubscription`
abbrev pub is_managed_subscription : SubscriptionStatus → Bool
is_managed_subscription active = true
is_managed_subscription trialing = true
is_managed_subscription past_due = true
is_managed_subscription incomplete = true
is_managed_subscription _ = false

abbrev pub price_id : BillingConfig → BillingInterval → ℕ
price_id config annual = config.pro_annual_price_id
price_id config monthly = config.pro_monthly_price_id

abbrev pub customer_of : ℕ → StripeCustomer → Bool
customer_of organization c = c.organization_id == organization

-- `stripeCustomer.create`, with the unique keys of the table.
unfoldable pub create_customer_row : StripeCustomer → Action Ledger StripeCustomer
create_customer_row row s =
    if any
      (λ c. customer_of row.organization_id c || c.stripe_customer_id == row.stripe_customer_id)
      s.customers
    then (err unique_violation, s)
    else (ok row, record s { customers = row ∷ s.customers })

-- `ensureCustomer`. Its upsert changes nothing of a row that is there by then.
unfoldable pub ensure_customer : BillingProvider → ℕ → Action Ledger StripeCustomer
ensure_customer provider organization = do
  existing ← gets (λ s. find_first (customer_of organization) s.customers)
  elim existing [
    | some customer ↦ pure customer
    | none ↦ do
      created ← or_throw (provider.create_customer organization) failure
      create_customer_row (record {
        organization_id = organization;
        stripe_customer_id = created;
        trial_used_at = none;
      })
  ]

-- `trialUsedAt ? undefined : BILLING_TRIAL_DAYS`
abbrev pub offered_trial : BillingConfig → StripeCustomer → Option ℕ
offered_trial config customer =
    if is_some customer.trial_used_at then none else some config.trial_days

-- The upsert that keeps the session of a reservation.
unfoldable pub keep_session :
    ℕ
    → BillingInterval
    → BillingCheckoutSession
    → ProviderCheckoutSession
    → ℕ
    → ℕ
    → Action Ledger (Unit {0})
unfolding create_checkout
keep_session organization interval reservation session id now s =
    let expires_at = or_else session.expires_at (now + day_ms) in
    let with_session = λ (c : BillingCheckoutSession). record c {
      stripe_session_id = some session.session_id;
      checkout_url = some session.url;
      expires_at = expires_at;
    } in
    if any (λ c. c.request_key == reservation.request_key) s.checkouts
    then (
      ok tt,
      set_checkouts
          (update_many (λ c. c.request_key == reservation.request_key) with_session s.checkouts) s,
    )
    else (do
      create_checkout (
          with_session (record reservation {
            id = id;
            organization_id = organization;
            interval = interval;
            created_at = now;
          }))
      pure tt)
        s

-- `createCheckoutSession` with a reservation that has no session yet.
unfoldable pub open_checkout :
    BillingProvider
    → BillingConfig
    → StripeCustomer
    → ℕ
    → BillingInterval
    → BillingCheckoutSession
    → ℕ
    → ℕ
    → Action Ledger ProviderCheckoutSession
unfolding keep_session
open_checkout provider config customer organization interval reservation id now = do
  session ←
      catch
        (or_throw
          (provider.create_checkout_session customer.stripe_customer_id organization interval
            (price_id config interval) (offered_trial config customer) reservation.request_key)
          failure)
        (λ e. do
          modify (λ s.
              set_checkouts
                (delete_many
                  (λ c.
                    c.id == reservation.id
                    && c.request_key == reservation.request_key
                    && not (is_some c.stripe_session_id))
                  s.checkouts)
                s)
          throw e)
  keep_session organization interval reservation session id now
  pure session

-- The answer for a reservation, whose session may be there already.
unfoldable pub checkout_for :
    BillingProvider
    → BillingConfig
    → StripeCustomer
    → ℕ
    → BillingInterval
    → BillingCheckoutSession
    → ℕ
    → ℕ
    → Action Ledger ProviderCheckoutSession
unfolding open_checkout
checkout_for provider config customer organization interval reservation id now =
    elim reservation.stripe_session_id [
      | none ↦ open_checkout provider config customer organization interval reservation id now
      | some session ↦ elim reservation.checkout_url [
        | none ↦ open_checkout provider config customer organization interval reservation id now
        | some url ↦
            pure
              (record { session_id = session; url = url; expires_at = some reservation.expires_at })
      ]
    ]

unfoldable pub create_checkout_session :
    BillingProvider
    → BillingConfig
    → ℕ
    → BillingInterval
    → Attempt
    → Attempt
    → Attempt
    → ℕ
    → ℕ
    → Action Ledger ProviderCheckoutSession
create_checkout_session provider config organization interval first second third id now = do
  existing ← gets (λ s. find_first (by_organization organization) s.subscriptions)
  throw_if (elim existing [ none ↦ false | some x ↦ is_managed_subscription x.status ]) conflict
  customer ← ensure_customer provider organization
  reservation ← reserve_checkout organization interval first second third
  checkout_for provider config customer organization interval reservation id now

unfoldable pub create_portal_session : BillingProvider → ℕ → Action Ledger String
create_portal_session provider organization = do
  found ← gets (λ s. find_first (customer_of organization) s.customers)
  customer ← or_throw found not_found
  or_throw (provider.create_portal_session customer.stripe_customer_id) failure
