-- ===== src/Billing/Webhooks/Once.antt =====
-- A delivery that is repeated.
use shipflow.Common.{
  ℕ, ◌==◌, ==_refl, ◌≡◌, refl, sym, ap, ◌∙◌, Bool, true, false, none, some, List, String, any,
  arith, inl, inr, ok, Action, pure, or_throw, unauthorized, ◌>>◌, ◌>>=◌, Bool-cases, Result-cases,
}
use shipflow.Notifications.{NotificationType}
use shipflow.Billing.Model.{Ledger, BillingConfig, BillingProvider, BillingWebhookEvent}
use shipflow.Billing.Subscriptions.{SyncContext}
use shipflow.Billing.Webhooks.{process_event, record_event, process_verified, process}

module _ (config : BillingConfig) (provider : BillingProvider) where
  -- The context of a verified event, and what follows the check whether it was processed.
  abbrev pub context_of : BillingWebhookEvent → ℕ → (NotificationType → ℕ) → SyncContext
  context_of event now notice_id = record {
    event_id = event.id;
    created_at = event.created_at;
    cause = none;
    now = now;
    notice_id = notice_id;
  }

  abbrev pub checked :
      BillingWebhookEvent → ℕ → (NotificationType → ℕ) → Bool → Action Ledger (Unit {0})
  checked event now notice_id true = pure tt
  checked event now notice_id false =
      process_event config provider event.kind (context_of event now notice_id)
      >> record_event config provider event

  record_event_recorded :
      (event : BillingWebhookEvent) (s : Ledger)
      → any (λ e. e.id == event.id) (record_event config provider event s).1.processed ≡ true
  unfolding record_event
  record_event_recorded event s = elim (Bool-cases (any (λ e. e.id == event.id) s.processed)) [
    | inl known ↦ rw (known) known
    | inr fresh ↦ rw fresh (rw (==_refl event.id) refl)
  ]

  then_recorded :
      (m : Action Ledger (Unit {0})) (event : BillingWebhookEvent) (s : Ledger)
      → ((m >> record_event config provider event) s).0 ≡ ok tt
      → any (λ e. e.id == event.id) ((m >> record_event config provider event) s).1.processed ≡ true
  then_recorded m event s h = elim (Result-cases (m s).0) [
    | inl (e, failed) ↦ ground (arith, failed)
    | inr (u, went) ↦ ground (arith, went, record_event_recorded event (m s).1)
  ]

  process_verified_known :
      (event : BillingWebhookEvent) (now : ℕ) (notice_id : NotificationType → ℕ) (s : Ledger)
      → any (λ e. e.id == event.id) s.processed ≡ true
      → process_verified config provider event now notice_id s ≡ (ok tt, s)
  unfolding process_verified
  process_verified_known event now notice_id s known =
      ap (λ b. checked event now notice_id b s) known

  process_verified_recorded :
      (event : BillingWebhookEvent) (now : ℕ) (notice_id : NotificationType → ℕ) (s : Ledger)
      → (process_verified config provider event now notice_id s).0 ≡ ok tt
      → any
          (λ e. e.id == event.id)
          (process_verified config provider event now notice_id s).1.processed
        ≡ true
  unfolding process_verified
  process_verified_recorded event now notice_id s done =
      recorded (any (λ e. e.id == event.id) s.processed) refl done
    where
      recorded :
          (b : Bool)
          → any (λ e. e.id == event.id) s.processed ≡ b
          → (checked event now notice_id b s).0 ≡ ok tt
          → any (λ e. e.id == event.id) (checked event now notice_id b s).1.processed ≡ true
      recorded true known h = known
      recorded false fresh h =
          then_recorded (process_event config provider event.kind (context_of event now notice_id))
            event s h

  process_cases :
      (body : List ℕ) (signature : String) (verified_at now : ℕ) (notice_id : NotificationType → ℕ)
      (event : BillingWebhookEvent) (s : Ledger)
      → provider.verify_webhook body signature verified_at ≡ some event
      → process config provider body signature verified_at now notice_id s
        ≡ process_verified config provider event now notice_id s
  unfolding process
  process_cases body signature verified_at now notice_id event s e =
      ap
        (λ o. (or_throw o unauthorized >>= λ x. process_verified config provider x now notice_id) s)
        e

  -- A delivery that succeeds has been recorded: another delivery of the event, with a signature of its own,
  -- at any time at which that signature is good, succeeds and changes nothing.
  pub process_twice :
      (body body' : List ℕ) (signature signature' : String)
      (verified_at now verified_later later : ℕ) (notice_id later_id : NotificationType → ℕ)
      (event event' : BillingWebhookEvent)
      → provider.verify_webhook body signature verified_at ≡ some event
      → provider.verify_webhook body' signature' verified_later ≡ some event'
      → event'.id ≡ event.id
      → (s : Ledger)
      → let run = process config provider body signature verified_at now notice_id s in
        run.0 ≡ ok tt
        → process config provider body' signature' verified_later later later_id run.1
          ≡ (ok tt, run.1)
  process_twice body body' signature signature' verified_at now verified_later later notice_id
        later_id event event' first second same s done =
      let run = process config provider body signature verified_at now notice_id s in
      let e = process_cases body signature verified_at now notice_id event s first in
      let recorded : any (λ x. x.id == event.id) run.1.processed ≡ true =
        ap (λ r. any (λ x. x.id == event.id) r.1.processed) e
        ∙ process_verified_recorded event now notice_id s (sym (ap (λ r. r.0) e) ∙ done) in
      process_cases body' signature' verified_later later later_id event' run.1 second
      ∙ process_verified_known event' later later_id run.1
          (ap (λ n. any (λ x. x.id == n) run.1.processed) same ∙ recorded)
