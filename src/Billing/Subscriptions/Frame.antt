-- ===== src/Billing/Subscriptions/Frame.antt =====
-- What a synchronisation leaves alone.
use shipflow.Common.{
  ℕ, ◌==◌, ◌∙◌, ◌≡◌, refl, ◌&&◌, not, if◌then◌else◌, Option, none, some, is_some, List, [], ◌∷◌,
  any, arith, ◌>>◌, ◌>>=◌, or_throw, ◌⊎◌, inl, inr, ok, err, Error, Action, for_each, Bool-cases,
  Result-cases, unique_violation, missing_row, transaction,
}
use shipflow.Database.{find_first, update_many, delete_many}
use shipflow.Notifications.{NotificationType, Notices}
use shipflow.Organizations.{Organization}
use shipflow.Billing.Model.{
  StripeCustomer, BillingCheckoutSession, Subscription, Ledger, ProviderSubscription,
}
use shipflow.Billing.Entitlements.{by_organization}
use shipflow.Billing.Checkout.{customer_of}
use shipflow.Billing.Reservations.{checkout_of, set_checkouts}
use shipflow.Billing.Subscriptions.{
  Cause, cause_type, SyncContext, write, find_organization, upsert_customer, upsert_subscription,
  mark_trial, take_over, announce, write_subscription, write_billing_cause,
}

-- The table after an upsert.
abbrev pub put : Subscription → List Subscription → List Subscription
put row xs =
    if any (by_organization row.organization_id) xs
    then update_many (by_organization row.organization_id) (λ _. row) xs
    else row ∷ xs

pub upsert_subscription_cases :
    (row : Subscription) (s : Ledger)
    → (upsert_subscription row s ≡ (err unique_violation, s))
      ⊎ (upsert_subscription row s ≡ (ok tt, record s { subscriptions = put row s.subscriptions }))
unfolding upsert_subscription
upsert_subscription_cases row s =
    elim (Bool-cases (
      any
        (λ x.
          not (by_organization row.organization_id x)
          && x.stripe_subscription_id == row.stripe_subscription_id)
        s.subscriptions)) [
          | inl clash ↦ inl (rw clash refl)
          | inr free ↦
              elim (Bool-cases (any (by_organization row.organization_id) s.subscriptions)) [
                | inl there ↦ inr (ground arith)
                | inr missing ↦ inr (ground arith)
              ]
        ]

-- What the calls around the upsert leave alone: all that reads neither the customers nor the checkouts nor
-- the notices.
module _ {X : Type 0} (f : Ledger → X)
    (no_customers : (s : Ledger) (xs : List StripeCustomer) → f (record s { customers = xs }) ≡ f s)
    (no_checkouts : (s : Ledger) (xs : List BillingCheckoutSession)
      → f (record s { checkouts = xs }) ≡ f s)
    (no_notices : (s : Ledger) (n : Notices) → f (record s { notices = n }) ≡ f s) where
  pub then-keeps :
      (m k : Action Ledger (Unit {0})) (s : Ledger)
      → f (m s).1 ≡ f s
      → ((t : Ledger) → f (k t).1 ≡ f t)
      → f ((m >> k) s).1 ≡ f s
  then-keeps m k s first second = elim (Result-cases (m s).0) [
    | inl (e, h) ↦ ground (arith)
    | inr (u, h) ↦ ground (arith, second (m s).1)
  ]

  pub upsert_customer-keeps :
      (organization customer : ℕ) (trial : Option ℕ) (s : Ledger)
      → f (upsert_customer organization customer trial s).1 ≡ f s
  unfolding upsert_customer
  upsert_customer-keeps organization customer trial s =
      elim (Bool-cases (
        any (λ c. not (customer_of organization c) && c.stripe_customer_id == customer)
          s.customers)) [
            | inl clash ↦ rw clash refl
            | inr free ↦ rw free (elim (Bool-cases (any (customer_of organization) s.customers)) [
              | inl there ↦ rw there (no_customers s _)
              | inr missing ↦
                  rw missing (elim (Bool-cases (any (λ o. o.id == organization) s.organizations)) [
                    | inl known ↦ rw known (no_customers s _)
                    | inr unknown ↦ rw unknown refl
                  ])
            ])
          ]

  mark_trial-keeps :
      (sub : ProviderSubscription) (organization created_at : ℕ) (s : Ledger)
      → f (mark_trial sub organization created_at s).1 ≡ f s
  unfolding mark_trial
  mark_trial-keeps sub organization created_at s = elim (Bool-cases (is_some sub.trial_start)) [
    | inl h ↦ rw h (no_customers s _)
    | inr h ↦ rw h refl
  ]

  pub take_over-keeps :
      (sub : ProviderSubscription) (organization created_at : ℕ) (s : Ledger)
      → f (take_over sub organization created_at s).1 ≡ f s
  unfolding take_over
  take_over-keeps sub organization created_at s =
      let cleared = set_checkouts (delete_many (checkout_of organization) s.checkouts) s in
      let trial = if is_some sub.trial_start then some created_at else none in
      then-keeps (upsert_customer organization sub.customer_id trial)
        (mark_trial sub organization created_at) cleared
        (upsert_customer-keeps organization sub.customer_id trial cleared)
        (mark_trial-keeps sub organization created_at)
      ∙ no_checkouts s (delete_many (checkout_of organization) s.checkouts)

  write-keeps :
      (context : SyncContext) (organization : Organization) (t : NotificationType) (s : Ledger)
      → f (write context organization t s).1 ≡ f s
  unfolding write
  write-keeps context organization t s = no_notices s _

  for_each-write-keeps :
      (context : SyncContext) (organization : Organization) (types : List NotificationType)
      → (s : Ledger) → f (for_each types (write context organization) s).1 ≡ f s
  unfolding write
  for_each-write-keeps context organization [] s = refl
  for_each-write-keeps context organization (t ∷ ts) s =
      for_each-write-keeps context organization ts (write context organization t s).1
      ∙ write-keeps context organization t s

  pub announce-keeps :
      (organization : ℕ) (types : List NotificationType) (context : SyncContext) (s : Ledger)
      → f (announce organization types context s).1 ≡ f s
  unfolding announce find_organization
  announce-keeps organization types context s =
      found (find_first (λ o. o.id == organization) s.organizations)
    where
      found :
          (o : Option Organization)
          → f ((or_throw o missing_row >>= λ x. for_each types (write context x)) s).1 ≡ f s
      found none = refl
      found (some x) = for_each-write-keeps context x types s

  pub write_billing_cause-keeps :
      (organization : ℕ) (context : SyncContext) (cause : Cause) (s : Ledger)
      → ((e : Error) × (write_billing_cause organization context cause s ≡ (err e, s)))
        ⊎ (((write_billing_cause organization context cause s).0 ≡ ok tt)
            × (f (write_billing_cause organization context cause s).1 ≡ f s))
  unfolding write_billing_cause find_organization
  write_billing_cause-keeps organization context cause s =
      found (find_first (λ o. o.id == organization) s.organizations)
    where
      run : Option Organization → Action Ledger (Unit {0})
      run o = transaction (or_throw o missing_row >>= λ x. write context x (cause_type cause))

      found :
          (o : Option Organization)
          → ((e : Error) × (run o s ≡ (err e, s))) ⊎ ((run o s).0 ≡ ok tt) × (f (run o s).1 ≡ f s)
      found none = inl (missing_row, refl)
      found (some x) = inr (refl, write-keeps context x (cause_type cause) s)

  -- If it does not read the subscriptions either, then the whole transaction leaves it alone.
  module _
      (no_subscriptions : (s : Ledger) (xs : List Subscription)
        → f (record s { subscriptions = xs }) ≡ f s) where
    upsert_subscription-keeps :
        (row : Subscription) (s : Ledger) → f (upsert_subscription row s).1 ≡ f s
    upsert_subscription-keeps row s = elim (upsert_subscription_cases row s) [
      | inl clash ↦ rw clash refl
      | inr written ↦ rw written (no_subscriptions s _)
    ]

    pub write_subscription-keeps :
        (sub : ProviderSubscription) (row : Subscription) (types : List NotificationType)
        → (context : SyncContext) (s : Ledger)
        → f (write_subscription sub row types context s).1 ≡ f s
    unfolding write_subscription
    write_subscription-keeps sub row types context s =
        let a = take_over sub row.organization_id context.created_at in
        let c = announce row.organization_id types context in
        transaction-keeps (a >> (upsert_subscription row >> c)) s (
          then-keeps a (upsert_subscription row >> c) s
            (take_over-keeps sub row.organization_id context.created_at s)
            (λ t.
              then-keeps (upsert_subscription row) c t (upsert_subscription-keeps row t)
                (announce-keeps row.organization_id types context)))
      where
        transaction-keeps :
            (m : Action Ledger (Unit {0})) (s : Ledger)
            → f (m s).1 ≡ f s
            → f (transaction m s).1 ≡ f s
        transaction-keeps m s h = elim (Result-cases (m s).0) [
          | inl (e, h') ↦ ground arith
          | inr (u, h') ↦ ground arith
        ]
