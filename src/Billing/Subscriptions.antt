-- ===== src/Billing/Subscriptions.antt =====
-- backend/src/billing/stripe-webhook.service.ts: the synchronisation of a subscription. It is taken as the
-- provider has it when the event is processed; the time of the event says whether it is news.
pub mod Frame
pub mod Rows
pub mod Replay
pub mod Order
pub mod History
pub mod Access
use shipflow.Common.{
  ℕ, ◌+◌, ◌*◌, leb, ◌==◌, Bool, true, false, ◌&&◌, ◌||◌, not, if◌then◌else◌, Option, none, some,
  is_some, List, [], ◌∷◌, ◌++◌, String, any, ok, err, Error, Action, pure, throw, gets, or_throw,
  transaction, catch, when, for_each, modify, ◌>>=◌, ◌>>◌, unauthorized, missing_row, failure,
  unique_violation,
}
use shipflow.Database.{find_first, update_many, delete_many}
use shipflow.Organizations.{Organization}
use shipflow.Notifications.{NotificationType, NotificationCategory, DedupeKey}
use shipflow.Notifications.NotificationType.{
  billing_trial_started, billing_payment_failed, billing_grace_period_started,
  billing_cancellation_scheduled, billing_subscription_canceled, billing_full_refund,
  billing_dispute,
}
use shipflow.Notifications.Writer.{WriteNotificationInput, write_notification}
use shipflow.Billing.Model.{
  BillingInterval, monthly, annual, SubscriptionStatus, is_trialing, is_past_due, is_canceled, Plan,
  is_pro, StripeCustomer, Subscription, Ledger, BillingConfig, ProviderSubscription, EventKind,
  checkout_completed, subscription_changed, invoice_changed, charge_refunded, charge_disputed,
  unsupported, BillingWebhookEvent, BillingProvider,
}
use shipflow.Billing.Entitlements.{by_organization}
use shipflow.Billing.Checkout.{customer_of}
use shipflow.Billing.Reservations.{day_ms, checkout_of, set_checkouts, is_unique_violation}

-- `BillingNotificationCause`
pub data Cause : Type 0 where
  full_refund dispute : Cause

-- The event for which a subscription is synchronised: its id and time, a cause if it is about a charge,
-- the reading of the clock, and the ids that the notices of each type would get.
pub record SyncContext : Type 0 where
  pub event_id : ℕ
  pub created_at : ℕ
  pub cause : Option Cause
  pub now : ℕ
  pub notice_id : NotificationType → ℕ

abbrev pub cause_type : Cause → NotificationType
cause_type full_refund = billing_full_refund
cause_type dispute = billing_dispute

-- The notice to the owner of the organization.
abbrev pub billing_notice : SyncContext → Organization → NotificationType → WriteNotificationInput
billing_notice context organization type = record {
  user_id = organization.owner_id;
  organization_id = some organization.id;
  category = NotificationCategory.billing;
  type = type;
  dedupe_key = DedupeKey.stripe context.event_id type;
  created_at = some context.created_at;
}

unfoldable pub write : SyncContext → Organization → NotificationType → Action Ledger (Unit {0})
write context organization type = modify λ s. record s {
  notices =
      write_notification (context.notice_id type) context.now
        (billing_notice context organization type) s.notices;
}

unfoldable pub find_organization : ℕ → Action Ledger Organization
find_organization id s = or_throw (find_first (λ o. o.id == id) s.organizations) missing_row s

-- `writeBillingCause`
unfoldable pub write_billing_cause : ℕ → SyncContext → Cause → Action Ledger (Unit {0})
unfolding find_organization write
write_billing_cause organization context cause =
    transaction (do found ← find_organization organization; write context found (cause_type cause))

-- `intervalForPrice`
abbrev pub interval_for_price : BillingConfig → ℕ → Option BillingInterval
interval_for_price config price =
    if price == config.pro_monthly_price_id
    then some monthly
    else if price == config.pro_annual_price_id
    then some annual
    else none

-- The end of the grace period: a subscription that stays past due keeps the one it has.
abbrev pub grace_period : BillingConfig → ProviderSubscription → ℕ → Option Subscription → Option ℕ
grace_period config sub created_at existing =
    if is_past_due sub.status
    then elim (existing_grace existing) [
      | none ↦ some (created_at + config.grace_period_days * day_ms)
      | some ends ↦ some ends
    ]
    else none
  where
    existing_grace : Option Subscription → Option ℕ
    existing_grace none = none
    existing_grace (some x) = x.grace_period_ends_at

-- The row that a synchronisation leaves.
abbrev pub synced :
    BillingConfig
    → ProviderSubscription
    → ℕ
    → BillingInterval
    → Plan
    → ℕ
    → Option Subscription
    → Subscription
synced config sub organization interval plan created_at existing = record {
  organization_id = organization;
  plan_id = plan.id;
  stripe_subscription_id = sub.id;
  stripe_price_id = sub.price_id;
  stripe_latest_invoice_id = sub.latest_invoice_id;
  interval = interval;
  status = sub.status;
  automatic_tax_enabled = sub.automatic_tax_enabled;
  cancel_at_period_end = sub.cancel_at_period_end;
  current_period_start = sub.current_period_start;
  current_period_end = sub.current_period_end;
  trial_start = sub.trial_start;
  trial_end = sub.trial_end;
  grace_period_ends_at = grace_period config sub created_at existing;
  canceled_at = sub.canceled_at;
  ended_at = sub.ended_at;
  last_stripe_event_created_at = created_at;
}

-- Whether a status is news against the row that was there.
abbrev pub newly : (SubscriptionStatus → Bool) → SubscriptionStatus → Option Subscription → Bool
newly test status existing =
    test status && not (elim existing [ none ↦ false | some x ↦ test x.status ])

-- The notices of a synchronisation, in the order in which they are written.
abbrev pub notices_of :
    ProviderSubscription → Option Cause → Option Subscription → List NotificationType
notices_of sub cause existing =
    first cause
    ++ ((if newly is_trialing sub.status existing then billing_trial_started ∷ [] else [])
        ++ ((if newly is_past_due sub.status existing
              then billing_payment_failed ∷ billing_grace_period_started ∷ []
              else [])
            ++ (if sub.cancel_at_period_end
                  && not (elim existing [ none ↦ false | some x ↦ x.cancel_at_period_end ])
                then billing_cancellation_scheduled ∷ []
                else [])))
  where
    first : Option Cause → List NotificationType
    first (some c) = cause_type c ∷ []
    first none =
        if newly is_canceled sub.status existing then billing_subscription_canceled ∷ [] else []

-- `stripeCustomer.upsert` by organization, with the unique key on Stripe's id and the foreign key on the
-- organization.
unfoldable pub upsert_customer : ℕ → ℕ → Option ℕ → Action Ledger (Unit {0})
upsert_customer organization customer trial s =
    if any (λ c. not (customer_of organization c) && c.stripe_customer_id == customer) s.customers
    then (err unique_violation, s)
    else if any (customer_of organization) s.customers
    then (
      ok tt,
      record s {
        customers =
            update_many (customer_of organization) (λ c. record c { stripe_customer_id = customer })
              s.customers;
      },
    )
    else if not (any (λ o. o.id == organization) s.organizations)
    then (err failure, s)
    else (
      ok tt,
      record s {
        customers =
            record {
              organization_id = organization;
              stripe_customer_id = customer;
              trial_used_at = trial;
            }
            ∷ s.customers;
      },
    )

-- `subscription.upsert` by organization, with the unique key on Stripe's id.
unfoldable pub upsert_subscription : Subscription → Action Ledger (Unit {0})
upsert_subscription row s =
    if any
      (λ x.
        not (by_organization row.organization_id x)
        && x.stripe_subscription_id == row.stripe_subscription_id)
      s.subscriptions
    then (err unique_violation, s)
    else if any (by_organization row.organization_id) s.subscriptions
    then (
      ok tt,
      record s {
        subscriptions =
            update_many (by_organization row.organization_id) (λ _. row) s.subscriptions;
      },
    )
    else (ok tt, record s { subscriptions = row ∷ s.subscriptions })

-- The first use of a trial is kept.
unfoldable pub mark_trial : ProviderSubscription → ℕ → ℕ → Action Ledger (Unit {0})
mark_trial sub organization created_at = when (is_some sub.trial_start) (
    modify λ s. record s {
      customers =
          update_many (λ c. customer_of organization c && not (is_some c.trial_used_at))
            (λ c. record c { trial_used_at = some created_at }) s.customers;
    })

-- The start of the transaction of `syncSubscription`: the checkout is over, and the customer is known.
unfoldable pub take_over : ProviderSubscription → ℕ → ℕ → Action Ledger (Unit {0})
take_over sub organization created_at = do
  modify (λ s. set_checkouts (delete_many (checkout_of organization) s.checkouts) s)
  upsert_customer organization sub.customer_id
      (if is_some sub.trial_start then some created_at else none)
  mark_trial sub organization created_at

-- Its end: the notices to the owner.
unfoldable pub announce : ℕ → List NotificationType → SyncContext → Action Ledger (Unit {0})
announce organization types context = do
  found ← find_organization organization
  for_each types (write context found)

unfoldable pub write_subscription :
    ProviderSubscription
    → Subscription
    → List NotificationType
    → SyncContext
    → Action Ledger (Unit {0})
write_subscription sub row types context = transaction (do
  take_over sub row.organization_id context.created_at
  upsert_subscription row
  announce row.organization_id types context)

-- `existing.lastStripeEventCreatedAt >= eventCreatedAt`
abbrev pub is_stale : ℕ → Option Subscription → Bool
is_stale created_at none = false
is_stale created_at (some x) = leb created_at x.last_stripe_event_created_at

module _ (config : BillingConfig) where
  -- `syncSubscription` for a known organization and price.
  unfoldable pub sync_known :
      ProviderSubscription → ℕ → BillingInterval → SyncContext → Action Ledger (Unit {0})
  sync_known sub organization interval context = do
    plans ← gets (λ s. s.plans)
    plan ← or_throw (find_first (λ p. is_pro p.code) plans) missing_row
    existing ← gets (λ s. find_first (by_organization organization) s.subscriptions)
    elim (is_stale context.created_at existing) [
      | true ↦ elim context.cause [
        | none ↦ pure tt
        | some cause ↦ write_billing_cause organization context cause
      ]
      | false ↦
          write_subscription sub
            (synced config sub organization interval plan context.created_at existing)
            (notices_of sub context.cause existing) context
    ]

  -- `providerSubscription.organizationId ?? customer?.organizationId`
  abbrev pub organization_of : ProviderSubscription → List StripeCustomer → Option ℕ
  organization_of sub customers = elim sub.organization_id [
    | some organization ↦ some organization
    | none ↦ elim (find_first (λ c. c.stripe_customer_id == sub.customer_id) customers) [
      | none ↦ none
      | some customer ↦ some customer.organization_id
    ]
  ]

  unfoldable pub sync_subscription : ProviderSubscription → SyncContext → Action Ledger (Unit {0})
  sync_subscription sub context = do
    found ← gets (λ s. organization_of sub s.customers)
    elim found [
      | none ↦ pure tt
      | some organization ↦ elim (sub.product_id == config.pro_product_id) [
        | false ↦ pure tt
        | true ↦ elim (interval_for_price config sub.price_id) [
          | none ↦ pure tt
          | some interval ↦ sync_known sub organization interval context
        ]
      ]
    ]
