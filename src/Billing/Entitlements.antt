-- ===== src/Billing/Entitlements.antt =====
-- backend/src/billing/billing-entitlement.service.ts: which plan an organization has at a time.
use shipflow.Common.{
  ℕ, ltb, ◌==◌, Bool, false, ◌&&◌, ◌||◌, not, if◌then◌else◌, Option, none, some, List, String,
  str_eq, any, Action, pure, gets, or_throw, throw_if, ◌>>=◌, missing_row, payment_required,
}
use shipflow.Database.{find_first}
use shipflow.Billing.Model.{
  is_trialing, is_active, is_past_due, Plan, is_free, Subscription, Ledger,
}

-- `hasPaidAccess`
abbrev pub has_paid_access : ℕ → Option Subscription → Bool
has_paid_access now none = false
has_paid_access now (some x) =
    is_active x.status
    || is_trialing x.status
    || (is_past_due x.status
        && elim x.grace_period_ends_at [ none ↦ false | some ends ↦ ltb now ends ])

-- `BillingStateResponseDto`, without what is only displayed of the plan.
pub record BillingState : Type 0 where
  pub plan : Plan
  pub subscription : Option Subscription
  pub has_paid_access : Bool

abbrev pub by_organization : ℕ → Subscription → Bool
by_organization organization x = x.organization_id == organization

-- `include: { plan: true }`, which the foreign key provides.
abbrev pub plan_of : Subscription → List Plan → Option Plan
plan_of x plans = find_first (λ p. p.id == x.plan_id) plans

-- The plan of a snapshot: the subscription's while it is paid for, and the free plan otherwise.
unfoldable pub current_plan : ℕ → Option Subscription → Plan → List Plan → Option Plan
current_plan now subscription free_plan plans =
    if has_paid_access now subscription
    then elim subscription [ none ↦ some free_plan | some x ↦ plan_of x plans ]
    else some free_plan

unfoldable pub get_snapshot : ℕ → ℕ → Action Ledger BillingState
get_snapshot organization now = do
  plans ← gets (λ s. s.plans)
  free_plan ← or_throw (find_first (λ p. is_free p.code) plans) missing_row
  subscription ← gets (λ s. find_first (by_organization organization) s.subscriptions)
  plan ← or_throw (current_plan now subscription free_plan plans) missing_row
  pure (record {
    plan = plan;
    subscription = subscription;
    has_paid_access = has_paid_access now subscription;
  })

unfoldable pub has_feature : ℕ → String → ℕ → Action Ledger Bool
has_feature organization feature now = do
  snapshot ← get_snapshot organization now
  pure (any (str_eq feature) snapshot.plan.features)

unfoldable pub assert_feature : ℕ → String → ℕ → Action Ledger (Unit {0})
assert_feature organization feature now = do
  granted ← has_feature organization feature now
  throw_if (not granted) payment_required
