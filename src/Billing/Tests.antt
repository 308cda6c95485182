-- ===== src/Billing/Tests.antt =====
-- An organization that pays, and what Stripe reports of it.
use shipflow.Common.{
  ℕ, leb, str_eq, ◌≡◌, refl, true, false, none, some, [], ◌∷◌, ok, ltb, if◌then◌else◌, ◌+◌, ◌*◌,
}
use mathlib.Core.List.{Permᴰ}
use shipflow.Files.{free, pro}
use shipflow.Billing.Model.{
  monthly, SubscriptionStatus, active, canceled, Plan, Ledger, BillingConfig, ProviderSubscription,
  BillingProvider, BillingWebhookEvent, subscription_changed,
}
use shipflow.Billing.Entitlements.{get_snapshot, has_paid_access}
use shipflow.Billing.Reservations.{
  Attempt, reserve_checkout, new_checkout, attempt, try_create, act_on, create_checkout, day_ms,
  reserve_from,
}
use shipflow.Billing.Reservations.Usable.{UsableDuring, reserve_checkout_usable}
use shipflow.Billing.Subscriptions.{
  SyncContext, sync_known, synced, sync_subscription, upsert_subscription, upsert_customer,
  mark_trial, take_over, announce, write_subscription, find_organization, write,
}
use shipflow.Billing.Subscriptions.Rows.{subscription_of}
use shipflow.Billing.Subscriptions.Replay.{Delivery, report, replay}
use shipflow.Billing.Subscriptions.Order.{
  deliver_all, deliveries, deliver_all_lem, deliver_all-any_order,
}
use shipflow.Billing.Subscriptions.History.{MovesOn}
use shipflow.Billing.Subscriptions.Access.{lapsed_lem, grace_lem}
use shipflow.Billing.Webhooks.{
  process, process_verified, process_event, sync_retrieved, record_event,
}
use shipflow.Billing.Webhooks.Once.{process_twice}
use shipflow.Billing.Webhooks.Deliveries.{process-Advances}

abbrev free_plan : Plan
free_plan = record { id = 1; code = free; features = [] }

abbrev pro_plan : Plan
pro_plan = record { id = 2; code = pro; features = "files" ∷ [] }

abbrev config : BillingConfig
config = record {
  trial_days = 14;
  grace_period_days = 7;
  pro_product_id = 50;
  pro_monthly_price_id = 51;
  pro_annual_price_id = 52;
}

abbrev ledger : Ledger
ledger = record {
  plans = free_plan ∷ pro_plan ∷ [];
  customers = [];
  checkouts = [];
  subscriptions = [];
  processed = [];
  organizations =
      record { id = 7; owner_id = 1; name = []; slug = []; created_at = 0; deleted_at = none } ∷ [];
  notices = record { notifications = []; preferences = [] };
}

abbrev paid : SubscriptionStatus → ProviderSubscription
paid status = record {
  id = 60;
  customer_id = 70;
  organization_id = some 7;
  product_id = 50;
  price_id = 51;
  status = status;
  automatic_tax_enabled = true;
  cancel_at_period_end = false;
  current_period_start = 0;
  current_period_end = 100;
  trial_start = none;
  trial_end = none;
  canceled_at = none;
  ended_at = none;
  latest_invoice_id = none;
}

abbrev at : ℕ → SyncContext
at t = record { event_id = t; created_at = t; cause = none; now = t; notice_id = λ _. t }

abbrev delivery : SubscriptionStatus → ℕ → Delivery
delivery status t = record { sub = paid status; interval = monthly; context = at t }

abbrev started : Delivery
started = delivery active 10

abbrev ended : Delivery
ended = delivery canceled 20

deliver_all_lem_example :
    subscription_of 7 (deliver_all config 7 (ended ∷ started ∷ []) ledger).1
    ≡ replay config none (report 7 pro_plan ended ∷ report 7 pro_plan started ∷ [])
unfolding deliver_all sync_known write_subscription take_over upsert_customer mark_trial
    upsert_subscription announce find_organization write
deliver_all_lem_example = deliver_all_lem config 7 pro_plan (ended ∷ started ∷ []) ledger refl refl

-- Two events of a subscription that has ended by the time they are processed.
deliver_all-any_order_example :
    subscription_of 7
      (deliver_all config 7 (deliveries (paid canceled) monthly (at 20 ∷ at 10 ∷ [])) ledger).1
    ≡ subscription_of 7
        (deliver_all config 7 (deliveries (paid canceled) monthly (at 10 ∷ at 20 ∷ [])) ledger).1
unfolding deliver_all sync_known write_subscription take_over upsert_customer mark_trial
    upsert_subscription announce find_organization write
deliver_all-any_order_example =
    deliver_all-any_order config 7 pro_plan (paid canceled) monthly refl (at 20 ∷ at 10 ∷ [])
      (at 10 ∷ at 20 ∷ []) ledger (Permᴰ.swap refl refl) refl refl refl

-- A provider that knows the subscription, and takes every body for the event that it has started, signed
-- at 11 or at 900 and good for 300.
abbrev provider : BillingProvider
provider = record {
  create_customer = λ _. some 70;
  create_checkout_session = λ _ _ _ _ _ _. none;
  create_portal_session = λ _. none;
  verify_webhook = λ _ signature t.
      if leb t (if str_eq signature "again" then 1200 else 311)
      then some (record { id = 90; created_at = 10; kind = subscription_changed (paid active) })
      else none;
  retrieve_subscription = λ _. some (paid active);
  cancel_subscription_now = λ _. some (paid canceled);
  resolve_subscription_for_charge = λ _. some (some 60);
}

abbrev changed : BillingWebhookEvent
changed = record { id = 90; created_at = 10; kind = subscription_changed (paid active) }

process-Advances_example :
    MovesOn [] (process config provider [] "signature" 11 11 (λ _. 1) ledger).1.subscriptions
process-Advances_example = process-Advances config provider [] "signature" 11 11 (λ _. 1) ledger

process_twice_example :
    let run = process config provider [] "signature" 11 11 (λ _. 1) ledger in
    process config provider [] "again" 901 902 (λ _. 2) run.1 ≡ (ok tt, run.1)
unfolding process process_verified process_event sync_retrieved sync_subscription record_event
    sync_known write_subscription take_over upsert_customer mark_trial upsert_subscription announce
    find_organization write
process_twice_example =
    process_twice config provider [] [] "signature" "again" 11 11 901 902 (λ _. 1) (λ _. 2) changed
      changed refl refl refl ledger refl

lapsed_lem_example :
    let run = sync_known config (paid canceled) 7 monthly (at 20) ledger in
    get_snapshot 7 30 run.1 ≡ (
      ok (record {
        plan = free_plan;
        subscription = some (synced config (paid canceled) 7 monthly pro_plan 20 none);
        has_paid_access = false;
      }),
      run.1,
    )
unfolding sync_known write_subscription take_over upsert_customer mark_trial upsert_subscription
    announce find_organization write
lapsed_lem_example = lapsed_lem config 7 pro_plan ended free_plan 30 ledger refl refl refl refl refl

abbrev late : ℕ → Delivery
late t = delivery SubscriptionStatus.past_due t

grace_lem_example :
    has_paid_access 500 (subscription_of 7 (deliver_all config 7 (late 10 ∷ late 20 ∷ []) ledger).1)
    ≡ ltb 500 (10 + 7 * day_ms)
unfolding deliver_all sync_known write_subscription take_over upsert_customer mark_trial
    upsert_subscription announce find_organization write
grace_lem_example =
    grace_lem config 7 pro_plan (late 10) (late 20 ∷ []) 500 ledger refl refl (refl, (refl, tt))
      refl

abbrev try_at : ℕ → Attempt
try_at t = record { now = t; id = t; request_key = t; meanwhile = λ xs. xs }

reserve_checkout_usable_example :
    UsableDuring 7 monthly (try_at 5 ∷ try_at 6 ∷ try_at 7 ∷ []) (new_checkout 7 monthly (try_at 5))
unfolding reserve_checkout reserve_from attempt act_on try_create create_checkout
reserve_checkout_usable_example =
    reserve_checkout_usable 7 monthly (try_at 5) (try_at 6) (try_at 7) ledger
      (new_checkout 7 monthly (try_at 5)) refl
