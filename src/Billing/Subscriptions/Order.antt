-- ===== src/Billing/Subscriptions/Order.antt =====
-- Deliveries in any order: the row of an organization follows the newest event.
use shipflow.Common.{
  ℕ, Option-cases, leb, ◌≡◌, refl, sym, ap, ◌∙◌, true, false, Option, none, some, List, [], ◌∷◌,
  arith, inl, inr, ok, map, Action, for_each, for_each_first, Bool-cases,
}
use mathlib.Core.List.{Permᴰ}
use mathlib.Core.Path.{ap₂}
use shipflow.Database.{find_first}
use shipflow.Billing.Model.{
  BillingInterval, is_past_due, Plan, is_pro, Subscription, Ledger, BillingConfig,
  ProviderSubscription,
}
use shipflow.Billing.Entitlements.{by_organization}
use shipflow.Billing.Subscriptions.{SyncContext, sync_known, synced, is_stale}
use shipflow.Billing.Subscriptions.Replay.{
  Delivery, report, with_grace, accept_report, replay, accept_row, accept_row_comm,
}
use shipflow.Billing.Subscriptions.Rows.{
  subscription_of, find_first-put, refreshed, sync_known_cases,
}

unfoldable pub deliver_all : BillingConfig → ℕ → List Delivery → Action Ledger (Unit {0})
deliver_all config organization ds =
    for_each ds (λ d. sync_known config d.sub organization d.interval d.context)

abbrev grace_of : Option Subscription → Option ℕ
grace_of none = none
grace_of (some x) = x.grace_period_ends_at

module _ (config : BillingConfig) (organization : ℕ) (plan : Plan) where
  pub find_first-refreshed :
      (d : Delivery) (xs : List Subscription)
      → let existing = find_first (by_organization organization) xs in
        find_first
          (by_organization organization)
          (refreshed config d.sub organization d.interval plan d.context.created_at xs)
        ≡ (elim (is_stale d.context.created_at existing) [
          | true ↦ existing
          | false ↦
              some (synced config d.sub organization d.interval plan d.context.created_at existing)
        ])
  find_first-refreshed d xs =
      let existing = find_first (by_organization organization) xs in
      elim (Bool-cases (is_stale d.context.created_at existing)) [
        | inl old ↦ rw (old, refreshed) refl
        | inr news ↦
            rw (news, refreshed)
              (find_first-put
                (synced config d.sub organization d.interval plan d.context.created_at existing) xs)
      ]

  synced_lem :
      (d : Delivery) (existing : Option Subscription)
      → synced config d.sub organization d.interval plan d.context.created_at existing
        ≡ with_grace config (grace_of existing) (report organization plan d)
  synced_lem d none = elim (Bool-cases (is_past_due d.sub.status)) [
    | inl late ↦ rw late refl
    | inr other ↦ rw other refl
  ]
  synced_lem d (some x) = elim (Bool-cases (is_past_due d.sub.status)) [
    | inl late ↦ elim (Option-cases x.grace_period_ends_at) [
      | inl no_end ↦ rw (late, no_end) refl
      | inr (ends, known) ↦ rw (late, known) refl
    ]
    | inr other ↦ rw other refl
  ]

  accept_report_lem :
      (d : Delivery) (existing : Option Subscription)
      → (elim (is_stale d.context.created_at existing) [
        | true ↦ existing
        | false ↦
            some (synced config d.sub organization d.interval plan d.context.created_at existing)
      ])
        ≡ accept_report config existing (report organization plan d)
  accept_report_lem d none = ap some (synced_lem d none)
  accept_report_lem d (some x) =
      elim (Bool-cases (leb d.context.created_at x.last_stripe_event_created_at)) [
        | inl old ↦ rw old refl
        | inr news ↦ rw news (ap some (synced_lem d (some x)))
      ]

  delivered :
      (d : Delivery) (s : Ledger)
      → find_first (λ p. is_pro p.code) s.plans ≡ some plan
      → let run = sync_known config d.sub organization d.interval d.context s in
        run.0 ≡ ok tt
        → (subscription_of organization run.1
            ≡ accept_report config (subscription_of organization s) (report organization plan d))
          × (run.1.plans ≡ s.plans)
  delivered d s h done =
      elim (sync_known_cases config d.sub organization d.interval d.context plan s h) [
        | inl (e, failed) ↦ ground (arith, failed)
        | inr (_, (rows, plans)) ↦ (
          ap (find_first (by_organization organization)) rows
              ∙ find_first-refreshed d s.subscriptions
              ∙ accept_report_lem d (find_first (by_organization organization) s.subscriptions),
          plans,
        )
      ]

  -- Deliveries of events about an organization's subscription, in any number and order, that all succeed
  -- implement the replay of their reports, in which a report replaces the row only if it is newer than it,
  -- and a grace period that has begun keeps its end while the subscription stays past due.
  pub deliver_all_lem :
      (ds : List Delivery) (s : Ledger)
      → find_first (λ p. is_pro p.code) s.plans ≡ some plan
      → (deliver_all config organization ds s).0 ≡ ok tt
      → subscription_of organization (deliver_all config organization ds s).1
        ≡ replay config (subscription_of organization s) (map (report organization plan) ds)
  unfolding deliver_all
  deliver_all_lem [] s h done = refl
  deliver_all_lem (d ∷ ds) s h done =
      let run = sync_known config d.sub organization d.interval d.context s in
      let (went, rest) =
        for_each_first d ds (λ e. sync_known config e.sub organization e.interval e.context) s
          done in
      let (row_after, plans) = delivered d s h went in
      ap (λ r. subscription_of organization r.1) rest
      ∙ deliver_all_lem ds run.1 (ap (find_first (λ p. is_pro p.code)) plans ∙ h)
          (sym (ap (λ r. r.0) rest) ∙ done)
      ∙ ap (λ x. replay config x (map (report organization plan) ds)) row_after

-- Events that are processed while the provider has one state of the subscription, which it gives for each.
abbrev pub deliveries : ProviderSubscription → BillingInterval → List SyncContext → List Delivery
deliveries sub interval = map (λ c. record { sub = sub; interval = interval; context = c })

module _ (config : BillingConfig) (organization : ℕ) (plan : Plan) (sub : ProviderSubscription)
    (interval : BillingInterval) (settled : is_past_due sub.status ≡ false) where
  abbrev report_at : SyncContext → Subscription
  report_at c = report organization plan (record { sub = sub; interval = interval; context = c })

  abbrev row_at : ℕ → Subscription
  row_at t =
      report_at (record { event_id = 0; created_at = t; cause = none; now = t; notice_id = λ _. 0 })

  accept_report-settled :
      (x : Option Subscription) (c : SyncContext)
      → accept_report config x (report_at c) ≡ accept_row row_at x c.created_at
  accept_report-settled none c = rw settled refl
  accept_report-settled (some x) c =
      elim (Bool-cases (leb c.created_at x.last_stripe_event_created_at)) [
        | inl old ↦ rw old refl
        | inr news ↦ rw (news, settled) refl
      ]

  accept_report_comm :
      (x : Option Subscription) (a b : SyncContext)
      → accept_report config (accept_report config x (report_at a)) (report_at b)
        ≡ accept_report config (accept_report config x (report_at b)) (report_at a)
  accept_report_comm x a b =
      both a b ∙ accept_row_comm row_at (λ t. refl) x a.created_at b.created_at ∙ sym (both b a)
    where
      both :
          (a b : SyncContext)
          → accept_report config (accept_report config x (report_at a)) (report_at b)
            ≡ accept_row row_at (accept_row row_at x a.created_at) b.created_at
      both a b =
          ap (λ y. accept_report config y (report_at b)) (accept_report-settled x a)
          ∙ accept_report-settled (accept_row row_at x a.created_at) b

  replay-Perm :
      {l₁ l₂ : List SyncContext} (d : Permᴰ l₁ l₂) (x : Option Subscription)
      → replay config x (map (report organization plan) (deliveries sub interval l₁))
        ≡ replay config x (map (report organization plan) (deliveries sub interval l₂))
  replay-Perm Permᴰ.nil x = refl
  replay-Perm (Permᴰ.cons {l₂ = l₂} e d) x =
      replay-Perm d _
      ∙ ap
          (λ c.
            replay config (accept_report config x (report_at c))
              (map (report organization plan) (deliveries sub interval l₂)))
          e
  replay-Perm (Permᴰ.swap {a = a} {b = b} {l = l} e₁ e₂) x =
      ap (λ y. replay config y (map (report organization plan) (deliveries sub interval l)))
        (accept_report_comm x a b
          ∙ ap₂
              (λ b' a'. accept_report config (accept_report config x (report_at b')) (report_at a'))
              e₂ e₁)
  replay-Perm (Permᴰ.trans d₁ d₂) x = replay-Perm d₁ x ∙ replay-Perm d₂ x

  -- While the provider's subscription stays in one state, which is not past due, its events in two orders,
  -- each of which succeeds, leave the same row of the organization, whatever row it had.
  pub deliver_all-any_order :
      (cs es : List SyncContext) (s : Ledger)
      → Permᴰ cs es
      → find_first (λ p. is_pro p.code) s.plans ≡ some plan
      → (deliver_all config organization (deliveries sub interval cs) s).0 ≡ ok tt
      → (deliver_all config organization (deliveries sub interval es) s).0 ≡ ok tt
      → subscription_of organization
          (deliver_all config organization (deliveries sub interval cs) s).1
        ≡ subscription_of organization
            (deliver_all config organization (deliveries sub interval es) s).1
  deliver_all-any_order cs es s order found first second =
      deliver_all_lem config organization plan (deliveries sub interval cs) s found first
      ∙ replay-Perm order (subscription_of organization s)
      ∙ sym (deliver_all_lem config organization plan (deliveries sub interval es) s found second)
