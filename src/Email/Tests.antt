-- ===== src/Email/Tests.antt =====
-- A mail that is sent at the second attempt, and what is reported of it.
use shipflow.Common.{
  ℕ, ◌≤◌, ◌≡◌, refl, true, none, some, [], ◌∷◌, map, length, ok, ◌+◌, arith, ◌==◌, if◌then◌else◌,
}
use shipflow.Email.Model.{EmailDelivery, sent, Mails}
use shipflow.Email.Webhooks.{WebhookEventPayload, email_sent, email_delivered, record_event}
use shipflow.Email.Webhooks.Order.{view, record_event_twice, record_event-any_order}
use shipflow.Email.Sending.{SendResult, accepted, refused, EmailDeliveryResult, deliver_mail}
use shipflow.Email.Sending.Totals.{Bounded, deliver_mail-Bounded}

abbrev mail : EmailDelivery
mail = record {
  id = 1;
  provider_message_id = some 50;
  idempotency_key = 9;
  status = sent;
  attempts = 1;
  last_error_code = none;
  sent_at = some 10;
  delivered_at = none;
  failed_at = none;
  last_event_at = none;
}

abbrev mails : Mails
mails = record { deliveries = mail ∷ []; events = []; sends = 9 ∷ [] }

abbrev was_handed : WebhookEventPayload
was_handed = record { type = email_sent; code = 0; created_at = 20; email_id = some 50 }

abbrev was_delivered : WebhookEventPayload
was_delivered = record { type = email_delivered; code = 1; created_at = 30; email_id = some 50 }

record_event_twice_example :
    let after = (record_event 7 was_delivered mails).1 in
    ((record_event 7 was_delivered mails).0 ≡ ok tt)
    × (record_event 7 was_delivered after ≡ (ok tt, after))
record_event_twice_example = record_event_twice 7 was_delivered was_delivered mails

record_event-any_order_example :
    map view (record_event 8 was_delivered (record_event 7 was_handed mails).1).1.deliveries
    ≡ map view (record_event 7 was_handed (record_event 8 was_delivered mails).1).1.deliveries
record_event-any_order_example =
    record_event-any_order 7 8 was_handed was_delivered mails refl refl refl (λ e. omega (arith, e))

-- The first attempt meets a failure that may pass.
abbrev send : ℕ → SendResult
send attempt = if attempt == 1 then refused 3 true else accepted 60

deliver_mail-Bounded_example :
    let run = deliver_mail send 4 5 100 true 12 2 mails in
    ((r : EmailDeliveryResult) × (run.0 ≡ ok r))
    × (Bounded run.1.deliveries × (length run.1.sends ≤ 1 + 3))
deliver_mail-Bounded_example =
    deliver_mail-Bounded send 4 5 100 true 12 2 mails (refl, tt) (omega arith, tt)
