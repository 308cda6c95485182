-- ===== src/Billing/Subscriptions/Rows.antt =====
-- The subscription of each organization after a synchronisation.
use shipflow.Common.{
  ℕ, ◌==◌, ==_refl, ap, ◌∙◌, ◌≡◌, refl, sym, true, false, if◌then◌else◌, Option, none, some, List,
  [], ◌∷◌, any, arith, pure, ◌>>◌, ◌⊎◌, inl, inr, ok, err, Result, Error, Action, Bool-cases,
  Result-cases, transaction,
}
use shipflow.Database.{find_first, update_many}
use shipflow.Notifications.{NotificationType}
use shipflow.Billing.Model.{
  BillingInterval, Plan, is_pro, Subscription, Ledger, BillingConfig, ProviderSubscription,
}
use shipflow.Billing.Entitlements.{by_organization}
use shipflow.Billing.Subscriptions.{
  Cause, SyncContext, upsert_subscription, take_over, announce, write_subscription,
  write_billing_cause, sync_known, synced, notices_of, is_stale,
}
use shipflow.Billing.Subscriptions.Frame.{
  put, take_over-keeps, announce-keeps, upsert_subscription_cases, write_subscription-keeps,
  write_billing_cause-keeps,
}

-- The subscription of an organization, as `findUnique` gives it.
abbrev pub subscription_of : ℕ → Ledger → Option Subscription
subscription_of organization s = find_first (by_organization organization) s.subscriptions

find_first-replaced :
    (row : Subscription) (xs : List Subscription)
    → any (by_organization row.organization_id) xs ≡ true
    → find_first
        (by_organization row.organization_id)
        (update_many (by_organization row.organization_id) (λ _. row) xs)
      ≡ some row
find_first-replaced row [] h = ground arith
find_first-replaced row (x ∷ xs) h = elim (Bool-cases (x.organization_id == row.organization_id)) [
  | inl here ↦ rw here (rw (==_refl row.organization_id) refl)
  | inr later ↦ rw later (rw later (find_first-replaced row xs (ground (arith, later))))
]

other_row : (a b c : ℕ) → (a == b) ≡ true → (b == c) ≡ false → (a == c) ≡ false
other_row a b c = ground arith

find_first-others :
    (organization : ℕ) (row : Subscription) (xs : List Subscription)
    → (row.organization_id == organization) ≡ false
    → find_first
        (by_organization organization)
        (update_many (by_organization row.organization_id) (λ _. row) xs)
      ≡ find_first (by_organization organization) xs
find_first-others organization row [] h = refl
find_first-others organization row (x ∷ xs) h =
    elim (Bool-cases (x.organization_id == row.organization_id)) [
      | inl here ↦ rw here (
          rw h (
            rw (other_row x.organization_id row.organization_id organization here h)
              (find_first-others organization row xs h)))
      | inr later ↦ rw later (
          ap (λ r. if x.organization_id == organization then some x else r)
            (find_first-others organization row xs h))
    ]

pub find_first-put :
    (row : Subscription) (xs : List Subscription)
    → find_first (by_organization row.organization_id) (put row xs) ≡ some row
find_first-put row xs = elim (Bool-cases (any (by_organization row.organization_id) xs)) [
  | inl there ↦ rw there (find_first-replaced row xs there)
  | inr missing ↦ rw missing (rw (==_refl row.organization_id) refl)
]

pub find_first-put_others :
    (organization : ℕ) (row : Subscription) (xs : List Subscription)
    → (row.organization_id == organization) ≡ false
    → find_first (by_organization organization) (put row xs)
      ≡ find_first (by_organization organization) xs
find_first-put_others organization row xs h =
    elim (Bool-cases (any (by_organization row.organization_id) xs)) [
      | inl there ↦ rw there (find_first-others organization row xs h)
      | inr missing ↦ rw missing (rw h refl)
    ]

-- An upsert between calls that leave the table alone.
around_upsert :
    (a c : Action Ledger (Unit {0})) (row : Subscription) (s : Ledger)
    → (a s).1.subscriptions ≡ s.subscriptions
    → ((t : Ledger) → (c t).1.subscriptions ≡ t.subscriptions)
    → ((a >> (upsert_subscription row >> c)) s).0 ≡ ok tt
    → ((a >> (upsert_subscription row >> c)) s).1.subscriptions ≡ put row s.subscriptions
around_upsert a c row s before after done = elim (Result-cases (a s).0) [
  | inl (e, h) ↦ ground (arith, h)
  | inr (u, h) ↦ elim (upsert_subscription_cases row (a s).1) [
    | inl clash ↦ ground (arith, h, clash)
    | inr written ↦ ground (arith, h, written, after (upsert_subscription row (a s).1).1)
  ]
]

-- The end of `syncSubscription`: it fails and changes nothing, or the row is the one of its organization
-- and every other organization's is as it was.
pub write_subscription_cases :
    (sub : ProviderSubscription) (row : Subscription) (types : List NotificationType)
    → (context : SyncContext) (s : Ledger)
    → ((e : Error) × (write_subscription sub row types context s ≡ (err e, s)))
      ⊎ (((write_subscription sub row types context s).0 ≡ ok tt)
          × ((write_subscription sub row types context s).1.subscriptions
              ≡ put row s.subscriptions))
unfolding write_subscription
write_subscription_cases sub row types context s =
    let a = take_over sub row.organization_id context.created_at in
    let c = announce row.organization_id types context in
    in_transaction (a >> (upsert_subscription row >> c)) s (put row s.subscriptions) (
      around_upsert a c row s
        (take_over-keeps (λ t. t.subscriptions) (λ t xs. refl) (λ t xs. refl) (λ t n. refl) sub
          row.organization_id context.created_at s)
        (announce-keeps (λ t. t.subscriptions) (λ t xs. refl) (λ t xs. refl) (λ t n. refl)
          row.organization_id types context))
  where
    in_transaction :
        (m : Action Ledger (Unit {0})) (s : Ledger) (xs : List Subscription)
        → ((m s).0 ≡ ok tt → (m s).1.subscriptions ≡ xs)
        → ((e : Error) × (transaction m s ≡ (err e, s)))
          ⊎ (((transaction m s).0 ≡ ok tt) × ((transaction m s).1.subscriptions ≡ xs))
    in_transaction m s xs h = elim (Result-cases (m s).0) [
      | inl (e, h') ↦ inl (e, ground arith)
      | inr (u, h') ↦ inr (ground arith, ground (arith, h h'))
    ]

-- The table after a synchronisation that succeeds.
abbrev pub refreshed :
    BillingConfig
    → ProviderSubscription
    → ℕ
    → BillingInterval
    → Plan
    → ℕ
    → List Subscription
    → List Subscription
refreshed config sub organization interval plan created_at xs =
    let existing = find_first (by_organization organization) xs in
    elim (is_stale created_at existing) [
      | true ↦ xs
      | false ↦ put (synced config sub organization interval plan created_at existing) xs
    ]

-- A call that fails and changes nothing, or that leaves these subscriptions and these plans.
abbrev pub Leaves : Result (Unit {0}) × Ledger → Ledger → List Subscription → Type 0
Leaves r s xs =
    ((e : Error) × (r ≡ (err e, s)))
    ⊎ ((r.0 ≡ ok tt) × ((r.1.subscriptions ≡ xs) × (r.1.plans ≡ s.plans)))

cause_cases :
    (organization : ℕ) (context : SyncContext) (cause : Option Cause) (s : Ledger)
    → Leaves
        (elim cause as (λ _. Action Ledger (Unit {0})) [
          | none ↦ pure tt
          | some c ↦ write_billing_cause organization context c
        ]
          s)
        s
        s.subscriptions
cause_cases organization context none s = inr (refl, (refl, refl))
cause_cases organization context (some c) s =
    elim (write_billing_cause-keeps {X = List Subscription × List Plan}
      (λ t. (t.subscriptions, t.plans)) (λ t xs. refl) (λ t xs. refl) (λ t n. refl) organization
      context c s) [
        | inl failed ↦ inl failed
        | inr (done, kept) ↦ inr (done, (ap (λ x. x.0) kept, ap (λ x. x.1) kept))
      ]

sync_row_cases :
    (sub : ProviderSubscription) (row : Subscription) (types : List NotificationType)
    → (context : SyncContext) (s : Ledger)
    → Leaves (write_subscription sub row types context s) s (put row s.subscriptions)
sync_row_cases sub row types context s = elim (write_subscription_cases sub row types context s) [
  | inl failed ↦ inl failed
  | inr (done, rows) ↦ inr (
    done,
    (
      rows,
      write_subscription-keeps (λ t. t.plans) (λ t xs. refl) (λ t xs. refl) (λ t n. refl)
          (λ t xs. refl) sub row types context s,
    ),
  )
]

Leaves-as :
    (r : Result (Unit {0}) × Ledger) (s : Ledger) {xs ys : List Subscription}
    → xs ≡ ys
    → Leaves r s ys
    → Leaves r s xs
Leaves-as r s e (inl failed) = inl failed
Leaves-as r s e (inr (done, (rows, plans))) = inr (done, (rows ∙ sym e, plans))

pub sync_known_cases :
    (config : BillingConfig) (sub : ProviderSubscription) (organization : ℕ)
    → (interval : BillingInterval) (context : SyncContext) (plan : Plan) (s : Ledger)
    → find_first (λ p. is_pro p.code) s.plans ≡ some plan
    → Leaves
        (sync_known config sub organization interval context s)
        s
        (refreshed config sub organization interval plan context.created_at s.subscriptions)
unfolding sync_known
sync_known_cases config sub organization interval context plan s h =
    let existing = find_first (by_organization organization) s.subscriptions in
    rw h (elim (Bool-cases (is_stale context.created_at existing)) [
      | inl old ↦ rw old (
          Leaves-as _ s (rw (old, refreshed) refl)
            (cause_cases organization context context.cause s))
      | inr news ↦ rw news (
          Leaves-as _ s (rw (news, refreshed) refl) (
            sync_row_cases sub
              (synced config sub organization interval plan context.created_at existing)
              (notices_of sub context.cause existing) context s))
    ])
