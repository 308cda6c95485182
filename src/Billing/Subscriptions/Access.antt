-- ===== src/Billing/Subscriptions/Access.antt =====
-- What the reports of a subscription mean for the access of its organization.
use shipflow.Common.{
  ℕ, ltb, ◌+◌, ◌*◌, ◌≡◌, refl, sym, ap, ◌∙◌, true, false, ◌||◌, Option, none, some, List, [], ◌∷◌,
  arith, All, inl, inr, ok, for_each_first, Bool-cases,
}
use mathlib.Core.Path.{subst}
use shipflow.Database.{find_first}
use shipflow.Billing.Model.{
  SubscriptionStatus, is_active, is_trialing, is_past_due, Plan, is_pro, is_free, Subscription,
  Ledger, BillingConfig, ProviderSubscription,
}
use shipflow.Billing.Entitlements.{by_organization, has_paid_access, get_snapshot, current_plan}
use shipflow.Billing.Reservations.{day_ms}
use shipflow.Billing.Subscriptions.{sync_known, synced, is_stale, grace_period}
use shipflow.Billing.Subscriptions.Rows.{subscription_of, sync_known_cases}
use shipflow.Billing.Subscriptions.Replay.{Delivery}
use shipflow.Billing.Subscriptions.Order.{deliver_all, find_first-refreshed}

current_plan_free :
    (now : ℕ) (x : Option Subscription) (free_plan : Plan) (plans : List Plan)
    → has_paid_access now x ≡ false
    → current_plan now x free_plan plans ≡ some free_plan
unfolding current_plan
current_plan_free now x free_plan plans lapsed = rw lapsed refl

-- Without paid access a snapshot is the free plan.
get_snapshot_free :
    (organization now : ℕ) (free_plan : Plan) (s : Ledger)
    → find_first (λ p. is_free p.code) s.plans ≡ some free_plan
    → has_paid_access now (subscription_of organization s) ≡ false
    → get_snapshot organization now s ≡ (
      ok (record {
        plan = free_plan;
        subscription = subscription_of organization s;
        has_paid_access = false;
      }),
      s,
    )
unfolding get_snapshot
get_snapshot_free organization now free_plan s found lapsed =
    rw (found, current_plan_free now (subscription_of organization s) free_plan s.plans lapsed)
      (ap
        (λ b. (
          ok (record {
            plan = free_plan;
            subscription = subscription_of organization s;
            has_paid_access = b;
          }),
          s,
        ))
        lapsed)

not_paid :
    (now : ℕ) (x : Subscription)
    → (is_active x.status || is_trialing x.status || is_past_due x.status) ≡ false
    → has_paid_access now (some x) ≡ false
not_paid now x h = ground (arith, h)

grace_kept :
    (config : BillingConfig) (sub : ProviderSubscription) (created_at : ℕ)
    → (existing : Option Subscription) (x : Subscription) (ends : ℕ) → is_past_due sub.status ≡ true
    → existing ≡ some x
    → x.grace_period_ends_at ≡ some ends
    → grace_period config sub created_at existing ≡ some ends
grace_kept config sub created_at existing x ends late there grace =
    ap (grace_period config sub created_at) there ∙ rw (late, grace) refl

grace_begins :
    (config : BillingConfig) (sub : ProviderSubscription) (created_at : ℕ)
    → is_past_due sub.status ≡ true
    → grace_period config sub created_at none
      ≡ some (created_at + config.grace_period_days * day_ms)
grace_begins config sub created_at late = rw late refl

past_due_only :
    (status : SubscriptionStatus)
    → is_past_due status ≡ true
    → (is_active status ≡ false) × (is_trialing status ≡ false)
past_due_only SubscriptionStatus.past_due h = (refl, refl)
past_due_only status h = ground (arith, h)

past_due_paid :
    (now ends : ℕ) (x : Subscription)
    → is_past_due x.status ≡ true
    → x.grace_period_ends_at ≡ some ends
    → has_paid_access now (some x) ≡ ltb now ends
past_due_paid now ends x past_due grace =
    let (not_active, not_trialing) = past_due_only x.status past_due in
    rw (not_active, not_trialing, past_due, grace) refl

module _ (config : BillingConfig) (organization : ℕ) (plan : Plan) where
  -- The subscription and the plans after a delivery that succeeds.
  delivered_row :
      (d : Delivery) (s : Ledger)
      → find_first (λ p. is_pro p.code) s.plans ≡ some plan
      → let run = sync_known config d.sub organization d.interval d.context s in
        let existing = subscription_of organization s in
        run.0 ≡ ok tt
        → (subscription_of organization run.1 ≡ (elim (is_stale d.context.created_at existing) [
          | true ↦ existing
          | false ↦
              some (synced config d.sub organization d.interval plan d.context.created_at existing)
        ]))
          × (run.1.plans ≡ s.plans)
  delivered_row d s h done =
      elim (sync_known_cases config d.sub organization d.interval d.context plan s h) [
        | inl (e, failed) ↦ ground (arith, failed)
        | inr (_, (rows, plans)) ↦ (
          ap (find_first (by_organization organization)) rows
              ∙ find_first-refreshed config organization plan d s.subscriptions,
          plans,
        )
      ]

  stale_row :
      (d : Delivery) (s : Ledger)
      → let existing = subscription_of organization s in
        is_stale d.context.created_at existing ≡ true
        → (elim (is_stale d.context.created_at existing) [
          | true ↦ existing
          | false ↦
              some (synced config d.sub organization d.interval plan d.context.created_at existing)
        ])
          ≡ existing
  stale_row d s old = rw old refl

  news_row :
      (d : Delivery) (s : Ledger)
      → let existing = subscription_of organization s in
        is_stale d.context.created_at existing ≡ false
        → (elim (is_stale d.context.created_at existing) [
          | true ↦ existing
          | false ↦
              some (synced config d.sub organization d.interval plan d.context.created_at existing)
        ])
          ≡ some (synced config d.sub organization d.interval plan d.context.created_at existing)
  news_row d s news = rw news refl

  -- A report that is news and of a status without access ends the access: from then on, at any time, a
  -- snapshot is the free plan.
  pub lapsed_lem :
      (d : Delivery) (free_plan : Plan) (now : ℕ) (s : Ledger)
      → find_first (λ p. is_pro p.code) s.plans ≡ some plan
      → find_first (λ p. is_free p.code) s.plans ≡ some free_plan
      → is_stale d.context.created_at (subscription_of organization s) ≡ false
      → (is_active d.sub.status || is_trialing d.sub.status || is_past_due d.sub.status) ≡ false
      → let run = sync_known config d.sub organization d.interval d.context s in
        run.0 ≡ ok tt
        → get_snapshot organization now run.1 ≡ (
          ok (record {
            plan = free_plan;
            subscription = some (
                synced config d.sub organization d.interval plan d.context.created_at
                  (subscription_of organization s));
            has_paid_access = false;
          }),
          run.1,
        )
  lapsed_lem d free_plan now s found found_free news lapsed done =
      let run = sync_known config d.sub organization d.interval d.context s in
      let row =
        synced config d.sub organization d.interval plan d.context.created_at
          (subscription_of organization s) in
      let (kept, plans) = delivered_row d s found done in
      let there = kept ∙ news_row d s news in
      get_snapshot_free organization now free_plan run.1
        (ap (find_first (λ p. is_free p.code)) plans ∙ found_free)
        (ap (has_paid_access now) there ∙ not_paid now row lapsed)
      ∙ ap
          (λ x.
            (ok (record { plan = free_plan; subscription = x; has_paid_access = false }), run.1))
          there

  -- A subscription whose grace period ends at a time.
  abbrev pub InGrace : ℕ → Ledger → Type 0
  InGrace ends s =
      (x : Subscription) × ((subscription_of organization s ≡ some x)
        × ((is_past_due x.status ≡ true) × (x.grace_period_ends_at ≡ some ends)))

  paid-InGrace :
      (now ends : ℕ) (s : Ledger)
      → InGrace ends s
      → has_paid_access now (subscription_of organization s) ≡ ltb now ends
  paid-InGrace now ends s (x, (there, (past_due, grace))) =
      ap (has_paid_access now) there ∙ past_due_paid now ends x past_due grace

  -- Another failed payment leaves the end of the grace period as it is.
  past_due-InGrace :
      (d : Delivery) (ends : ℕ) (s : Ledger)
      → find_first (λ p. is_pro p.code) s.plans ≡ some plan
      → is_past_due d.sub.status ≡ true
      → InGrace ends s
      → let run = sync_known config d.sub organization d.interval d.context s in
        run.0 ≡ ok tt → InGrace ends run.1
  past_due-InGrace d ends s found late (x, (there, (past_due, grace))) done =
      let existing = subscription_of organization s in
      let kept = (delivered_row d s found done).0 in
      elim (Bool-cases (is_stale d.context.created_at existing)) [
        | inl old ↦ (x, (kept ∙ stale_row d s old ∙ there, (past_due, grace)))
        | inr news ↦ (
          synced config d.sub organization d.interval plan d.context.created_at existing,
          (
            kept ∙ news_row d s news,
            (late, grace_kept config d.sub d.context.created_at existing x ends late there grace),
          ),
        )
      ]

  grace_goes_on :
      (ds : List Delivery) (ends : ℕ) (s : Ledger)
      → find_first (λ p. is_pro p.code) s.plans ≡ some plan
      → All (λ e. is_past_due e.sub.status ≡ true) ds
      → InGrace ends s
      → (deliver_all config organization ds s).0 ≡ ok tt
      → InGrace ends (deliver_all config organization ds s).1
  unfolding deliver_all
  grace_goes_on [] ends s found late grace done = grace
  grace_goes_on (d ∷ ds) ends s found late grace done =
      let run = sync_known config d.sub organization d.interval d.context s in
      let (went, rest) =
        for_each_first d ds (λ e. sync_known config e.sub organization e.interval e.context) s
          done in
      subst (λ r. InGrace ends r.1) (sym rest)
        (grace_goes_on ds ends run.1
          (ap (find_first (λ p. is_pro p.code)) (delivered_row d s found went).1 ∙ found) late.1
          (past_due-InGrace d ends s found late.0 grace went) (sym (ap (λ r. r.0) rest) ∙ done))

  -- From the first failed payment of an organization without a subscription on, if every report is of a
  -- failed payment and every delivery succeeds, there is paid access exactly until the grace period of the
  -- first report ends, however many reports come.
  pub grace_lem :
      (d : Delivery) (ds : List Delivery) (now : ℕ) (s : Ledger)
      → find_first (λ p. is_pro p.code) s.plans ≡ some plan
      → subscription_of organization s ≡ none
      → All (λ e. is_past_due e.sub.status ≡ true) (d ∷ ds)
      → let run = deliver_all config organization (d ∷ ds) s in
        run.0 ≡ ok tt
        → has_paid_access now (subscription_of organization run.1)
          ≡ ltb now (d.context.created_at + config.grace_period_days * day_ms)
  unfolding deliver_all
  grace_lem d ds now s found none_yet late done =
      let run = sync_known config d.sub organization d.interval d.context s in
      let ends = d.context.created_at + config.grace_period_days * day_ms in
      let (went, rest) =
        for_each_first d ds (λ e. sync_known config e.sub organization e.interval e.context) s
          done in
      let (kept, plans) = delivered_row d s found went in
      let existing = subscription_of organization s in
      let begun : InGrace ends run.1 = (
        synced config d.sub organization d.interval plan d.context.created_at existing,
        (
          kept ∙ news_row d s (ap (is_stale d.context.created_at) none_yet),
          (
            late.0,
            ap (grace_period config d.sub d.context.created_at) none_yet
                ∙ grace_begins config d.sub d.context.created_at late.0,
          ),
        ),
      ) in
      ap (λ r. has_paid_access now (subscription_of organization r.1)) rest
      ∙ paid-InGrace now ends (deliver_all config organization ds run.1).1 (
          grace_goes_on ds ends run.1 (ap (find_first (λ p. is_pro p.code)) plans ∙ found) late.1
            begun (sym (ap (λ r. r.0) rest) ∙ done))
