-- ===== src/Email/Webhooks.antt =====
-- backend/src/email/resend-webhook.service.ts: what the mail provider reports. The check of a signature is
-- the provider's library, an argument.
pub mod Order
use shipflow.Common.{
  ℕ, ltb, ◌==◌, Bool, true, false, ◌&&◌, if◌then◌else◌, Option, none, some, List, ◌∷◌, any, ok, err,
  Error, Action, pure, throw, or_throw, transaction, catch, modify, ◌>>=◌, ◌>>◌, unauthorized,
  unique_violation,
}
use shipflow.Database.{update_many}
use shipflow.Email.Model.{
  EmailDeliveryStatus, sent, delivered, failed, bounced, complained, suppressed, EmailDelivery,
  EmailWebhookEvent, Mails,
}

-- `type` of an event; the number is the code that a failure is recorded with.
pub data EventType : Type 0 where
  email_bounced email_complained email_delivered email_failed email_scheduled email_sent : EventType
  email_suppressed : EventType
  other_event : EventType

-- `WebhookEventPayload`
pub record WebhookEventPayload : Type 0 where
  pub type : EventType
  pub code : ℕ
  pub created_at : ℕ
  pub email_id : Option ℕ

-- `deliveryStatus`
abbrev pub delivery_status : EventType → Option EmailDeliveryStatus
delivery_status email_bounced = some bounced
delivery_status email_complained = some complained
delivery_status email_delivered = some delivered
delivery_status email_failed = some failed
delivery_status email_scheduled = some sent
delivery_status email_sent = some sent
delivery_status email_suppressed = some suppressed
delivery_status other_event = none

-- `isFailureStatus`
abbrev pub is_failure_status : EmailDeliveryStatus → Bool
is_failure_status bounced = true
is_failure_status complained = true
is_failure_status failed = true
is_failure_status suppressed = true
is_failure_status _ = false

abbrev pub is_delivered : EmailDeliveryStatus → Bool
is_delivered delivered = true
is_delivered _ = false

-- The deliveries that an event is about and that have not heard of a later one.
abbrev pub is_news : ℕ → ℕ → EmailDelivery → Bool
is_news message at d =
    elim d.provider_message_id [ none ↦ false | some id ↦ id == message ]
    && elim d.last_event_at [ none ↦ true | some t ↦ ltb t at ]

-- The `data` of the update.
abbrev pub reported : EmailDeliveryStatus → WebhookEventPayload → EmailDelivery → EmailDelivery
reported status event d =
    let seen = record d { status = status; last_event_at = some event.created_at } in
    if is_delivered status
    then record seen {
      delivered_at = some event.created_at;
      failed_at = none;
      last_error_code = none;
    }
    else if is_failure_status status
    then record seen { failed_at = some event.created_at; last_error_code = some event.code }
    else seen

-- `emailWebhookEvent.create`
unfoldable pub create_event : ℕ → ℕ → Action Mails (Unit {0})
create_event id created_at s =
    if any (λ (e : EmailWebhookEvent). e.id == id) s.events
    then (err unique_violation, s)
    else (ok tt, record s { events = record { id = id; event_created_at = created_at } ∷ s.events })

-- What an event does to the deliveries.
abbrev pub apply_event : WebhookEventPayload → List EmailDelivery → List EmailDelivery
apply_event event ds = elim event.email_id [
  | none ↦ ds
  | some message ↦ elim (delivery_status event.type) [
    | none ↦ ds
    | some status ↦ update_many (is_news message event.created_at) (reported status event) ds
  ]
]

abbrev pub is_unique_constraint_error : Error → Bool
is_unique_constraint_error unique_violation = true
is_unique_constraint_error _ = false

-- `recordEvent`
unfoldable pub record_event : ℕ → WebhookEventPayload → Action Mails (Unit {0})
record_event id event =
    catch
      (transaction (do
        create_event id event.created_at
        modify (λ s. record s { deliveries = apply_event event s.deliveries })))
      (λ e. elim (is_unique_constraint_error e) [ true ↦ pure tt | false ↦ throw e ])

module _ (webhook_secret : Option ℕ) (verify : ℕ → ℕ → List ℕ → Option WebhookEventPayload) where
  unfoldable pub process : ℕ → List ℕ → Action Mails (Unit {0})
  process id body = do
    secret ← or_throw webhook_secret unauthorized
    event ← or_throw (verify secret id body) unauthorized
    record_event id event
