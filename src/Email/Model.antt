-- ===== src/Email/Model.antt =====
-- The rows of e-mail deliveries in backend/prisma/schema.prisma. Ids, keys and error codes are numbers, since
-- they are only compared; recipients and error messages are left out.
use shipflow.Common.{ℕ, Option, List}

pub data EmailDeliveryStatus : Type 0 where
  pending sending sent delivered failed bounced complained suppressed : EmailDeliveryStatus

pub record EmailDelivery : Type 0 where
  pub id : ℕ
  pub provider_message_id : Option ℕ
  pub idempotency_key : ℕ
  pub status : EmailDeliveryStatus
  pub attempts : ℕ
  pub last_error_code : Option ℕ
  pub sent_at : Option ℕ
  pub delivered_at : Option ℕ
  pub failed_at : Option ℕ
  pub last_event_at : Option ℕ

pub record EmailWebhookEvent : Type 0 where
  pub id : ℕ
  pub event_created_at : ℕ

-- The tables, and the idempotency keys of the messages that the provider was given.
pub record Mails : Type 0 where
  pub deliveries : List EmailDelivery
  pub events : List EmailWebhookEvent
  pub sends : List ℕ
