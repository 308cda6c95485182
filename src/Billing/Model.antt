-- ===== src/Billing/Model.antt =====
-- The rows of billing in backend/prisma/schema.prisma, and the provider of billing.types.ts. What Stripe
-- and the configuration name by texts are numbers here, since they are only compared.
use shipflow.Common.{ℕ, Bool, true, false, Option, List, String}
use shipflow.Files.{PlanCode, free, pro}
use shipflow.Organizations.{Organization}
use shipflow.Notifications.{Notices}

pub data BillingInterval : Type 0 where
  monthly annual : BillingInterval

abbrev pub same_interval : BillingInterval → BillingInterval → Bool
same_interval monthly monthly = true
same_interval annual annual = true
same_interval _ _ = false

pub data SubscriptionStatus : Type 0 where
  incomplete incomplete_expired trialing active past_due canceled unpaid paused : SubscriptionStatus

abbrev pub is_trialing : SubscriptionStatus → Bool
is_trialing trialing = true
is_trialing _ = false

abbrev pub is_active : SubscriptionStatus → Bool
is_active active = true
is_active _ = false

abbrev pub is_past_due : SubscriptionStatus → Bool
is_past_due past_due = true
is_past_due _ = false

abbrev pub is_canceled : SubscriptionStatus → Bool
is_canceled canceled = true
is_canceled _ = false

pub record Plan : Type 0 where
  pub id : ℕ
  pub code : PlanCode
  pub features : List String

abbrev pub is_free : PlanCode → Bool
is_free free = true
is_free pro = false

abbrev pub is_pro : PlanCode → Bool
is_pro pro = true
is_pro free = false

pub record StripeCustomer : Type 0 where
  pub organization_id : ℕ
  pub stripe_customer_id : ℕ
  pub trial_used_at : Option ℕ

pub record BillingCheckoutSession : Type 0 where
  pub id : ℕ
  pub organization_id : ℕ
  pub request_key : ℕ
  pub interval : BillingInterval
  pub stripe_session_id : Option ℕ
  pub checkout_url : Option String
  pub expires_at : ℕ
  pub created_at : ℕ

pub record Subscription : Type 0 where
  pub organization_id : ℕ
  pub plan_id : ℕ
  pub stripe_subscription_id : ℕ
  pub stripe_price_id : ℕ
  pub stripe_latest_invoice_id : Option ℕ
  pub interval : BillingInterval
  pub status : SubscriptionStatus
  pub automatic_tax_enabled : Bool
  pub cancel_at_period_end : Bool
  pub current_period_start : ℕ
  pub current_period_end : ℕ
  pub trial_start : Option ℕ
  pub trial_end : Option ℕ
  pub grace_period_ends_at : Option ℕ
  pub canceled_at : Option ℕ
  pub ended_at : Option ℕ
  pub last_stripe_event_created_at : ℕ

pub record ProcessedStripeEvent : Type 0 where
  pub id : ℕ
  pub event_created_at : ℕ

-- The tables that billing reads and writes.
pub record Ledger : Type 0 where
  pub plans : List Plan
  pub customers : List StripeCustomer
  pub checkouts : List BillingCheckoutSession
  pub subscriptions : List Subscription
  pub processed : List ProcessedStripeEvent
  pub organizations : List Organization
  pub notices : Notices

-- The values that `configService` gives.
pub record BillingConfig : Type 0 where
  pub trial_days : ℕ
  pub grace_period_days : ℕ
  pub pro_product_id : ℕ
  pub pro_monthly_price_id : ℕ
  pub pro_annual_price_id : ℕ

pub record ProviderCheckoutSession : Type 0 where
  pub session_id : ℕ
  pub url : String
  pub expires_at : Option ℕ

pub record ProviderSubscription : Type 0 where
  pub id : ℕ
  pub customer_id : ℕ
  pub organization_id : Option ℕ
  pub product_id : ℕ
  pub price_id : ℕ
  pub status : SubscriptionStatus
  pub automatic_tax_enabled : Bool
  pub cancel_at_period_end : Bool
  pub current_period_start : ℕ
  pub current_period_end : ℕ
  pub trial_start : Option ℕ
  pub trial_end : Option ℕ
  pub canceled_at : Option ℕ
  pub ended_at : Option ℕ
  pub latest_invoice_id : Option ℕ

-- `kind` of a webhook event with its fields; an id that is missing or empty is `none`.
pub data EventKind : Type 0 where
  checkout_completed : (session customer : ℕ) (organization subscription : Option ℕ) → EventKind
  subscription_changed : ProviderSubscription → EventKind
  invoice_changed : Option ℕ → EventKind
  charge_refunded : (charge : ℕ) (fully : Bool) → EventKind
  charge_disputed : Option ℕ → EventKind
  unsupported : EventKind

pub record BillingWebhookEvent : Type 0 where
  pub id : ℕ
  pub created_at : ℕ
  pub kind : EventKind

-- The provider as it answers one call; `none` is a call that throws. Whether the signature of a webhook
-- is good depends on the time at which it is checked.
pub record BillingProvider : Type 0 where
  pub create_customer : ℕ → Option ℕ
  pub create_checkout_session :
      ℕ → ℕ → BillingInterval → ℕ → Option ℕ → ℕ → Option ProviderCheckoutSession
  pub create_portal_session : ℕ → Option String
  pub verify_webhook : List ℕ → String → ℕ → Option BillingWebhookEvent
  pub retrieve_subscription : ℕ → Option ProviderSubscription
  pub cancel_subscription_now : ℕ → Option ProviderSubscription
  pub resolve_subscription_for_charge : ℕ → Option (Option ℕ)
