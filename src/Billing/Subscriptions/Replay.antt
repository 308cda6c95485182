-- ===== src/Billing/Subscriptions/Replay.antt =====
-- The specification of the deliveries about a subscription: the rows that they report, one after another.
use shipflow.Common.{
  ℕ, ◌+◌, ◌*◌, or_else, leb, ◌≡◌, ap, if◌then◌else◌, Option, none, some, List, [], ◌∷◌, arith,
}
use shipflow.Billing.Model.{
  BillingInterval, is_past_due, Plan, Subscription, BillingConfig, ProviderSubscription,
}
use shipflow.Billing.Reservations.{day_ms}
use shipflow.Billing.Subscriptions.{SyncContext}

-- A delivery about a subscription: what the provider had when it was processed, and its event.
pub record Delivery : Type 0 where
  pub sub : ProviderSubscription
  pub interval : BillingInterval
  pub context : SyncContext

-- What a delivery says of the organization's subscription, but for the end of a grace period.
abbrev pub report : ℕ → Plan → Delivery → Subscription
report organization plan d = record {
  organization_id = organization;
  plan_id = plan.id;
  stripe_subscription_id = d.sub.id;
  stripe_price_id = d.sub.price_id;
  stripe_latest_invoice_id = d.sub.latest_invoice_id;
  interval = d.interval;
  status = d.sub.status;
  automatic_tax_enabled = d.sub.automatic_tax_enabled;
  cancel_at_period_end = d.sub.cancel_at_period_end;
  current_period_start = d.sub.current_period_start;
  current_period_end = d.sub.current_period_end;
  trial_start = d.sub.trial_start;
  trial_end = d.sub.trial_end;
  grace_period_ends_at = none;
  canceled_at = d.sub.canceled_at;
  ended_at = d.sub.ended_at;
  last_stripe_event_created_at = d.context.created_at;
}

-- The specification of the grace period: an end that is known stays, and else the period begins with the
-- event.
abbrev pub with_grace : BillingConfig → Option ℕ → Subscription → Subscription
with_grace config ends r =
    if is_past_due r.status
    then record r {
      grace_period_ends_at =
          some (or_else ends (r.last_stripe_event_created_at + config.grace_period_days * day_ms));
    }
    else r

-- The specification of a delivery: its report replaces a row that is not as new.
abbrev pub accept_report : BillingConfig → Option Subscription → Subscription → Option Subscription
accept_report config none r = some (with_grace config none r)
accept_report config (some x) r =
    if leb r.last_stripe_event_created_at x.last_stripe_event_created_at
    then some x
    else some (with_grace config x.grace_period_ends_at r)

abbrev pub replay : BillingConfig → Option Subscription → List Subscription → Option Subscription
replay config x [] = x
replay config x (r ∷ rs) = replay config (accept_report config x r) rs

-- Rows that depend on their time only: the newer one counts.
abbrev pub accept_row : (ℕ → Subscription) → Option Subscription → ℕ → Option Subscription
accept_row row none t = some (row t)
accept_row row (some x) t = if leb t x.last_stripe_event_created_at then some x else some (row t)

pub accept_row_comm :
    (row : ℕ → Subscription)
    → ((t : ℕ) → (row t).last_stripe_event_created_at ≡ t)
    → (x : Option Subscription) (t u : ℕ)
    → accept_row row (accept_row row x t) u ≡ accept_row row (accept_row row x u) t
accept_row_comm row time none t u = ground (arith, time t, time u, ap row)
accept_row_comm row time (some x) t u = ground (arith, time t, time u, ap row)
