-- ===== src/Billing/Subscriptions/History.antt =====
-- Every delivery: the time of a subscription's last event, and what a second delivery does.
use shipflow.Common.{
  ℕ, ◌≤◌, ◌==◌, ==_iff, ◌≡◌, refl, sym, ap, ◌∙◌, Bool, true, false, Option, none, some, List, arith,
  inl, inr, ok, err, Error, Action, pure, or_throw, ◌>>=◌, Bool-cases, Option-cases, Result-cases,
}
use mathlib.Core.Path.{subst}
use shipflow.Database.{find_first}
use shipflow.Billing.Model.{
  BillingInterval, Plan, is_pro, Subscription, Ledger, BillingConfig, ProviderSubscription,
}
use shipflow.Billing.Entitlements.{by_organization}
use shipflow.Billing.Subscriptions.{
  SyncContext, sync_known, sync_subscription, interval_for_price, organization_of, synced, is_stale,
}
use shipflow.Billing.Subscriptions.Frame.{put}
use shipflow.Billing.Subscriptions.Rows.{
  find_first-put, find_first-put_others, refreshed, sync_known_cases,
}

-- Every subscription is still there, and its last event is not older.
abbrev pub MovesOn : List Subscription → List Subscription → Type 0
MovesOn before after =
    (organization : ℕ) (x : Subscription)
    → find_first (by_organization organization) before ≡ some x
    → (y : Subscription) × ((find_first (by_organization organization) after ≡ some y)
        × (x.last_stripe_event_created_at ≤ y.last_stripe_event_created_at))

pub MovesOn-refl : (xs : List Subscription) → MovesOn xs xs
MovesOn-refl xs organization x h = (x, (h, omega arith))

pub same-MovesOn : {xs ys : List Subscription} → ys ≡ xs → MovesOn xs ys
same-MovesOn {xs} e = subst (MovesOn xs) (sym e) (MovesOn-refl xs)

MovesOn-trans : (xs ys zs : List Subscription) → MovesOn xs ys → MovesOn ys zs → MovesOn xs zs
MovesOn-trans xs ys zs first second organization x h =
    let (y, (found, le)) = first organization x h in
    let (z, (found', le')) = second organization y found in (z, (found', omega (arith, le, le')))

-- What a call does to the subscriptions, whether it fails or not.
abbrev pub Advances : {A : Type 0} → Action Ledger A → Type 0
Advances m = (s : Ledger) → MovesOn s.subscriptions (m s).1.subscriptions

pub then-Advances :
    {A B : Type 0} (m : Action Ledger A) (k : A → Action Ledger B)
    → Advances m
    → ((a : A) → Advances (k a))
    → Advances (m >>= k)
then-Advances {A = A} m k first second s = elim (Result-cases (m s).0) [
  | inl (e, h) ↦ subst (MovesOn s.subscriptions) (failed e h) (first s)
  | inr (a, h) ↦ subst (MovesOn s.subscriptions) (went a h) (
      MovesOn-trans s.subscriptions (m s).1.subscriptions (k a (m s).1).1.subscriptions (first s)
        (second a (m s).1))
]
  where
    failed : (e : Error) → (m s).0 ≡ err e → (m s).1.subscriptions ≡ ((m >>= k) s).1.subscriptions
    failed e h = ground (arith, h)

    went : (a : A) → (m s).0 ≡ ok a → (k a (m s).1).1.subscriptions ≡ ((m >>= k) s).1.subscriptions
    went a h = ground (arith, h)

pub or_throw-Advances : {A : Type 0} (o : Option A) (e : Error) → Advances (or_throw o e)
or_throw-Advances none e s = MovesOn-refl s.subscriptions
or_throw-Advances (some a) e s = MovesOn-refl s.subscriptions

not_stale :
    (created_at : ℕ) (existing : Option Subscription) (x : Subscription)
    → is_stale created_at existing ≡ false
    → existing ≡ some x
    → x.last_stripe_event_created_at ≤ created_at
not_stale created_at none x news h = ground arith
not_stale created_at (some y) x news h = ground arith

module _ (config : BillingConfig) where
  refreshed-MovesOn :
      (sub : ProviderSubscription) (organization : ℕ) (interval : BillingInterval) (plan : Plan)
      → (created_at : ℕ) (xs : List Subscription)
      → MovesOn xs (refreshed config sub organization interval plan created_at xs)
  refreshed-MovesOn sub organization interval plan created_at xs =
      let existing = find_first (by_organization organization) xs in
      let row = synced config sub organization interval plan created_at existing in
      elim (Bool-cases (is_stale created_at existing)) [
        | inl old ↦ same-MovesOn (rw (old, refreshed) refl)
        | inr news ↦
            subst (MovesOn xs) {x = put row xs}
              {y = refreshed config sub organization interval plan created_at xs}
              (rw (news, refreshed) refl)
              (λ o x h. elim (Bool-cases (organization == o)) [
                | inl same ↦ (
                  row,
                  (
                    ap (λ k. find_first (by_organization k) (put row xs))
                          (sym ((==_iff organization o).0 same))
                        ∙ find_first-put row xs,
                    not_stale created_at existing x news (
                        ap (λ k. find_first (by_organization k) xs) ((==_iff organization o).0 same)
                        ∙ h),
                  ),
                )
                | inr other ↦ (x, (find_first-put_others o row xs other ∙ h, omega arith))
              ])
      ]

  sync_known_without :
      (sub : ProviderSubscription) (organization : ℕ) (interval : BillingInterval)
      → (context : SyncContext) (s : Ledger) → find_first (λ p. is_pro p.code) s.plans ≡ none
      → (sync_known config sub organization interval context s).1.subscriptions ≡ s.subscriptions
  unfolding sync_known
  sync_known_without sub organization interval context s missing = rw missing refl

  sync_known-Advances :
      (sub : ProviderSubscription) (organization : ℕ) (interval : BillingInterval)
      → (context : SyncContext) → Advances (sync_known config sub organization interval context)
  sync_known-Advances sub organization interval context s =
      elim (Option-cases (find_first (λ p. is_pro p.code) s.plans)) [
        | inl missing ↦
            same-MovesOn (sync_known_without sub organization interval context s missing)
        | inr (plan, found) ↦
            elim (sync_known_cases config sub organization interval context plan s found) [
              | inl (e, failed) ↦ same-MovesOn (ap (λ r. r.1.subscriptions) failed)
              | inr (_, (rows, _)) ↦ subst (MovesOn s.subscriptions) (sym rows) (
                  refreshed-MovesOn sub organization interval plan context.created_at
                    s.subscriptions)
            ]
      ]

  pub sync_subscription-Advances :
      (sub : ProviderSubscription) (context : SyncContext)
      → Advances (sync_subscription config sub context)
  unfolding sync_subscription
  sync_subscription-Advances sub context s =
      known (organization_of config sub s.customers) (sub.product_id == config.pro_product_id)
        (interval_for_price config sub.price_id) s
    where
      known :
          (organization : Option ℕ) (is_known : Bool) (interval : Option BillingInterval)
          → Advances (elim organization as (λ _. Action Ledger (Unit {0})) [
            | none ↦ pure tt
            | some o ↦ elim is_known as (λ _. Action Ledger (Unit {0})) [
              | false ↦ pure tt
              | true ↦ elim interval as (λ _. Action Ledger (Unit {0})) [
                | none ↦ pure tt
                | some i ↦ sync_known config sub o i context
              ]
            ]
          ])
      known none is_known interval s = MovesOn-refl s.subscriptions
      known (some o) false interval s = MovesOn-refl s.subscriptions
      known (some o) true none s = MovesOn-refl s.subscriptions
      known (some o) true (some i) s = sync_known-Advances sub o i context s
