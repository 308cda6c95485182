-- ===== src/Billing/Webhooks/Deliveries.antt =====
-- Every delivery moves on.
use shipflow.Common.{
  ℕ, ◌==◌, refl, Bool, true, false, Option, none, some, List, String, any, inl, inr, Action, pure,
  or_throw, modify, unauthorized, failure, ◌>>◌, ◌>>=◌, Bool-cases,
}
use shipflow.Database.{delete_many}
use shipflow.Notifications.{NotificationType}
use shipflow.Billing.Model.{
  Ledger, BillingConfig, BillingProvider, BillingWebhookEvent, EventKind, checkout_completed,
  subscription_changed, invoice_changed, charge_refunded, charge_disputed, unsupported,
}
use shipflow.Billing.Reservations.{set_checkouts}
use shipflow.Billing.Subscriptions.{
  SyncContext, full_refund, dispute, sync_subscription, upsert_customer,
}
use shipflow.Billing.Webhooks.{
  sync_retrieved, cancel_for_charge, process_checkout, process_event, record_event,
  process_verified, process,
}
use shipflow.Billing.Subscriptions.Frame.{upsert_customer-keeps}
use shipflow.Billing.Subscriptions.History.{
  MovesOn, Advances, MovesOn-refl, same-MovesOn, then-Advances, or_throw-Advances,
  sync_subscription-Advances,
}
use shipflow.Billing.Webhooks.Once.{context_of, checked}

module _ (config : BillingConfig) (provider : BillingProvider) where
  sync_retrieved-Advances :
      (id : Option ℕ) (context : SyncContext) → Advances (sync_retrieved config provider id context)
  unfolding sync_retrieved
  sync_retrieved-Advances none context = λ s. MovesOn-refl s.subscriptions
  sync_retrieved-Advances (some id) context =
      then-Advances (or_throw (provider.retrieve_subscription id) failure)
        (λ sub. sync_subscription config sub context)
        (or_throw-Advances (provider.retrieve_subscription id) failure)
        (λ sub. sync_subscription-Advances config sub context)

  cancel_for_charge-Advances :
      (charge : ℕ) (context : SyncContext)
      → Advances (cancel_for_charge config provider charge context)
  unfolding cancel_for_charge
  cancel_for_charge-Advances charge context =
      then-Advances (or_throw (provider.resolve_subscription_for_charge charge) failure) body
        (or_throw-Advances (provider.resolve_subscription_for_charge charge) failure) found
    where
      body : Option ℕ → Action Ledger (Unit {0})
      body id = elim id [
        | none ↦ pure tt
        | some k ↦ or_throw (provider.cancel_subscription_now k) failure >>= λ sub.
            sync_subscription config sub context
      ]

      found : (id : Option ℕ) → Advances (body id)
      found none = λ s. MovesOn-refl s.subscriptions
      found (some k) =
          then-Advances (or_throw (provider.cancel_subscription_now k) failure)
            (λ sub. sync_subscription config sub context)
            (or_throw-Advances (provider.cancel_subscription_now k) failure)
            (λ sub. sync_subscription-Advances config sub context)

  process_checkout-Advances :
      (session customer : ℕ) (organization subscription : Option ℕ) (context : SyncContext)
      → Advances
          (process_checkout config provider session customer organization subscription context)
  unfolding process_checkout
  process_checkout-Advances session customer organization subscription context =
      then-Advances
        (modify λ s.
          set_checkouts
            (delete_many (λ c. elim c.stripe_session_id [ none ↦ false | some id ↦ id == session ])
              s.checkouts)
            s)
        (λ _. bind_customer organization >> sync_retrieved config provider subscription context)
        (λ s. MovesOn-refl s.subscriptions)
        (λ _.
          then-Advances (bind_customer organization)
            (λ _. sync_retrieved config provider subscription context) (bound organization)
            (λ _. sync_retrieved-Advances subscription context))
    where
      bind_customer : Option ℕ → Action Ledger (Unit {0})
      bind_customer o = elim o [ none ↦ pure tt | some id ↦ upsert_customer id customer none ]

      bound : (o : Option ℕ) → Advances (bind_customer o)
      bound none = λ s. MovesOn-refl s.subscriptions
      bound (some id) = λ s. same-MovesOn (
          upsert_customer-keeps (λ t. t.subscriptions) (λ t xs. refl) (λ t xs. refl) (λ t n. refl)
            id customer none s)

  process_event-Advances :
      (kind : EventKind) (context : SyncContext)
      → Advances (process_event config provider kind context)
  unfolding process_event
  process_event-Advances (checkout_completed session customer organization subscription) context =
      process_checkout-Advances session customer organization subscription context
  process_event-Advances (subscription_changed sub) context =
      sync_retrieved-Advances (some sub.id) context
  process_event-Advances (invoice_changed subscription) context =
      sync_retrieved-Advances subscription context
  process_event-Advances (charge_refunded charge true) context =
      cancel_for_charge-Advances charge (record context { cause = some full_refund })
  process_event-Advances (charge_refunded charge false) context = λ s. MovesOn-refl s.subscriptions
  process_event-Advances (charge_disputed none) context = λ s. MovesOn-refl s.subscriptions
  process_event-Advances (charge_disputed (some charge)) context =
      cancel_for_charge-Advances charge (record context { cause = some dispute })
  process_event-Advances unsupported context = λ s. MovesOn-refl s.subscriptions

  record_event-Advances :
      (event : BillingWebhookEvent) → Advances (record_event config provider event)
  unfolding record_event
  record_event-Advances event s = elim (Bool-cases (any (λ e. e.id == event.id) s.processed)) [
    | inl known ↦ same-MovesOn (rw known refl)
    | inr fresh ↦ same-MovesOn (rw fresh refl)
  ]

  process_verified-Advances :
      (event : BillingWebhookEvent) (now : ℕ) (notice_id : NotificationType → ℕ)
      → Advances (process_verified config provider event now notice_id)
  unfolding process_verified
  process_verified-Advances event now notice_id s = known (any (λ e. e.id == event.id) s.processed)
    where
      known :
          (b : Bool)
          → MovesOn s.subscriptions
              (checked config provider event now notice_id b s).1.subscriptions
      known true = MovesOn-refl s.subscriptions
      known false =
          then-Advances
            (process_event config provider event.kind
              (context_of config provider event now notice_id))
            (λ _. record_event config provider event)
            (process_event-Advances event.kind (context_of config provider event now notice_id))
            (λ _. record_event-Advances event) s

  -- No delivery, whatever it reports and whether it succeeds or not, takes a subscription away or sets
  -- the time of its last event back.
  pub process-Advances :
      (body : List ℕ) (signature : String) (verified_at now : ℕ) (notice_id : NotificationType → ℕ)
      → (s : Ledger)
      → MovesOn s.subscriptions
          (process config provider body signature verified_at now notice_id s).1.subscriptions
  unfolding process
  process-Advances body signature verified_at now notice_id =
      then-Advances (or_throw (provider.verify_webhook body signature verified_at) unauthorized)
        (λ event. process_verified config provider event now notice_id)
        (or_throw-Advances (provider.verify_webhook body signature verified_at) unauthorized)
        (λ event. process_verified-Advances event now notice_id)
