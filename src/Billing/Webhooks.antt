-- ===== src/Billing/Webhooks.antt =====
-- backend/src/billing/stripe-webhook.service.ts: the events that Stripe reports.
pub mod Once
pub mod Deliveries
use shipflow.Common.{
  ℕ, ◌+◌, ◌*◌, leb, ◌==◌, Bool, true, false, ◌&&◌, ◌||◌, not, if◌then◌else◌, Option, none, some,
  is_some, List, [], ◌∷◌, ◌++◌, String, any, ok, err, Error, Action, pure, throw, gets, or_throw,
  transaction, catch, when, for_each, modify, ◌>>=◌, ◌>>◌, unauthorized, missing_row, failure,
  unique_violation,
}
use shipflow.Database.{find_first, update_many, delete_many}
use shipflow.Organizations.{Organization}
use shipflow.Notifications.{NotificationType, NotificationCategory, DedupeKey}
use shipflow.Notifications.NotificationType.{
  billing_trial_started, billing_payment_failed, billing_grace_period_started,
  billing_cancellation_scheduled, billing_subscription_canceled, billing_full_refund,
  billing_dispute,
}
use shipflow.Notifications.Writer.{WriteNotificationInput, write_notification}
use shipflow.Billing.Model.{
  BillingInterval, monthly, annual, SubscriptionStatus, is_trialing, is_past_due, is_canceled, Plan,
  is_pro, StripeCustomer, Subscription, Ledger, BillingConfig, ProviderSubscription, EventKind,
  checkout_completed, subscription_changed, invoice_changed, charge_refunded, charge_disputed,
  unsupported, BillingWebhookEvent, BillingProvider,
}
use shipflow.Billing.Entitlements.{by_organization}
use shipflow.Billing.Checkout.{customer_of}
use shipflow.Billing.Reservations.{day_ms, checkout_of, set_checkouts, is_unique_violation}
use shipflow.Billing.Subscriptions.{
  Cause, full_refund, dispute, SyncContext, sync_subscription, upsert_customer,
}

module _ (config : BillingConfig) (provider : BillingProvider) where
  -- `retrieveSubscription`, if the event names one.
  unfoldable pub sync_retrieved : Option ℕ → SyncContext → Action Ledger (Unit {0})
  sync_retrieved none context = pure tt
  sync_retrieved (some id) context = do
    sub ← or_throw (provider.retrieve_subscription id) failure
    sync_subscription config sub context

  -- `cancelForCharge`
  unfoldable pub cancel_for_charge : ℕ → SyncContext → Action Ledger (Unit {0})
  cancel_for_charge charge context = do
    found ← or_throw (provider.resolve_subscription_for_charge charge) failure
    elim found [
      | none ↦ pure tt
      | some id ↦ do
        sub ← or_throw (provider.cancel_subscription_now id) failure
        sync_subscription config sub context
    ]

  -- `processCheckout`
  unfoldable pub process_checkout :
      ℕ → ℕ → Option ℕ → Option ℕ → SyncContext → Action Ledger (Unit {0})
  process_checkout session customer organization subscription context = do
    modify (λ s.
        set_checkouts
          (delete_many (λ c. elim c.stripe_session_id [ none ↦ false | some id ↦ id == session ])
            s.checkouts)
          s)
    elim organization [ none ↦ pure tt | some id ↦ upsert_customer id customer none ]
    sync_retrieved subscription context

  unfoldable pub process_event : EventKind → SyncContext → Action Ledger (Unit {0})
  process_event (checkout_completed session customer organization subscription) context =
      process_checkout session customer organization subscription context
  process_event (subscription_changed sub) context = sync_retrieved (some sub.id) context
  process_event (invoice_changed subscription) context = sync_retrieved subscription context
  process_event (charge_refunded charge true) context =
      cancel_for_charge charge (record context { cause = some full_refund })
  process_event (charge_refunded charge false) context = pure tt
  process_event (charge_disputed none) context = pure tt
  process_event (charge_disputed (some charge)) context =
      cancel_for_charge charge (record context { cause = some dispute })
  process_event unsupported context = pure tt

  -- The record of a processed event; another delivery may have made it in the meantime.
  unfoldable pub record_event : BillingWebhookEvent → Action Ledger (Unit {0})
  record_event event s = if any (λ e. e.id == event.id) s.processed then (ok tt, s) else (
    ok tt,
    record s {
      processed = record { id = event.id; event_created_at = event.created_at } ∷ s.processed;
    },
  )

  -- `process` on a verified event.
  unfoldable pub process_verified :
      BillingWebhookEvent → ℕ → (NotificationType → ℕ) → Action Ledger (Unit {0})
  process_verified event now notice_id = do
    processed ← gets (λ s. any (λ e. e.id == event.id) s.processed)
    elim processed [
      | true ↦ pure tt
      | false ↦ do
        process_event event.kind (record {
          event_id = event.id;
          created_at = event.created_at;
          cause = none;
          now = now;
          notice_id = notice_id;
        })
        record_event event
    ]

  unfoldable pub process :
      List ℕ → String → ℕ → ℕ → (NotificationType → ℕ) → Action Ledger (Unit {0})
  process body signature verified_at now notice_id = do
    event ← or_throw (provider.verify_webhook body signature verified_at) unauthorized
    process_verified event now notice_id
