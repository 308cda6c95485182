-- ===== src/Email/Sending.antt =====
-- backend/src/email/transactional-email.service.ts: a mail is sent in three attempts at most. The provider's
-- answers are an argument, by the number of the attempt; so are the times, since they are only kept. The
-- pauses between attempts are not modelled.
pub mod Bounds
pub mod Totals
use shipflow.Common.{
  ℕ, zero, suc, ◌+◌, ◌-◌, leb, ◌==◌, Bool, true, false, ◌&&◌, ◌||◌, not, if◌then◌else◌, Option,
  none, some, is_some, List, [], ◌∷◌, any, ok, err, Error, Action, pure, gets, throw_if, catch,
  modify, ◌>>=◌, ◌>>◌, missing_row, failure, unique_violation,
}
use shipflow.Database.{find_first, update_many}
use shipflow.Email.Model.{
  EmailDeliveryStatus, pending, sending, sent, delivered, failed, EmailDelivery, Mails,
}

-- `MAX_DELIVERY_ATTEMPTS`
abbrev pub max_delivery_attempts : ℕ
max_delivery_attempts = 3

-- How `provider.send` ends: with the message's id, or with an `EmailProviderError`.
pub data SendResult : Type 0 where
  accepted : ℕ → SendResult
  refused : (code : ℕ) (retryable : Bool) → SendResult

-- `EmailDeliveryResult`; a sent one has the provider's id of the message, if it is known.
pub data EmailDeliveryResult : Type 0 where
  was_sent : ℕ → Option ℕ → EmailDeliveryResult
  was_not_sent : Option ℕ → EmailDeliveryResult

-- How an attempt to deliver ends: it returns, or it throws an `EmailProviderError` with its code.
pub data SendOutcome : Type 0 where
  returned : EmailDeliveryResult → SendOutcome
  thrown : (code : ℕ) → SendOutcome

-- `emailDelivery.update`, with the unique key on the provider's id.
unfoldable pub update_delivery : ℕ → (EmailDelivery → EmailDelivery) → Action Mails (Unit {0})
update_delivery id f s =
    if any (λ (d : EmailDelivery). d.id == id) s.deliveries
    then (ok tt, record s { deliveries = update_many (λ d. d.id == id) f s.deliveries })
    else (err missing_row, s)

abbrev pub has_message : ℕ → EmailDelivery → Bool
has_message message d = elim d.provider_message_id [ none ↦ false | some id ↦ id == message ]

abbrev pub begun : EmailDelivery → EmailDelivery
begun d = record d { attempts = d.attempts + 1; status = sending }

abbrev pub sent_with : ℕ → ℕ → EmailDelivery → EmailDelivery
sent_with message now d = record d {
  failed_at = none;
  last_error_code = none;
  provider_message_id = some message;
  sent_at = some now;
  status = sent;
}

abbrev pub failed_with : ℕ → Bool → ℕ → EmailDelivery → EmailDelivery
failed_with code final now d = record d {
  failed_at = if final then some now else none;
  last_error_code = some code;
  status = if final then failed else pending;
}

-- The update after a message was accepted.
unfoldable pub keep_message : ℕ → ℕ → ℕ → Action Mails (Unit {0})
keep_message id message now s =
    if any (λ d. not (d.id == id) && has_message message d) s.deliveries
    then (err unique_violation, s)
    else update_delivery id (sent_with message now) s

-- `attemptDelivery` of a delivery with a key; `network_error` is the code of `toProviderError`.
module _ (send : ℕ → SendResult) (network_error now : ℕ) (id key : ℕ) where
  -- The `try` of an attempt: the message's id, or the code of an error and whether it may pass.
  unfoldable pub try_send : ℕ → Action Mails SendResult
  try_send attempt = do
    modify (λ s. record s { sends = key ∷ s.sends })
    catch
        (elim (send attempt) [
          | refused code retryable ↦ pure (refused code retryable)
          | accepted message ↦ do keep_message id message now; pure (accepted message)
        ])
        (λ e. pure (refused network_error true))

  -- What follows the `try`, where the rest of the loop is an argument.
  unfoldable pub settle_attempt :
      ℕ → Action Mails SendOutcome → SendResult → Action Mails SendOutcome
  settle_attempt attempt rest (accepted message) = pure (returned (was_sent id (some message)))
  settle_attempt attempt rest (refused code retryable) = do
    update_delivery id (failed_with code (not retryable || attempt == max_delivery_attempts) now)
    elim (not retryable || attempt == max_delivery_attempts) [
      | true ↦ pure (thrown code)
      | false ↦ rest
    ]

  -- The loop, with the number of attempts that are left and the number of the next one.
  unfoldable pub attempt_from : ℕ → ℕ → Action Mails SendOutcome
  attempt_from zero attempt = pure (returned (was_not_sent (some id)))
  attempt_from (suc left) attempt = do
    let rest = attempt_from left (attempt + 1)
    update_delivery id begun
    result ← try_send attempt
    settle_attempt attempt rest result

-- The row of a new mail.
abbrev pub new_delivery : ℕ → ℕ → EmailDelivery
new_delivery key id = record {
  id = id;
  provider_message_id = none;
  idempotency_key = key;
  status = pending;
  attempts = 0;
  last_error_code = none;
  sent_at = none;
  delivered_at = none;
  failed_at = none;
  last_event_at = none;
}

-- `emailDelivery.upsert` by the idempotency key, with the unique key on the id.
unfoldable pub find_or_create : ℕ → ℕ → Action Mails EmailDelivery
find_or_create key id s = elim (find_first (λ d. d.idempotency_key == key) s.deliveries) [
  | some d ↦ (ok d, s)
  | none ↦
      if any (λ (d : EmailDelivery). d.id == id) s.deliveries
      then (err unique_violation, s)
      else (ok (new_delivery key id), record s { deliveries = new_delivery key id ∷ s.deliveries })
]

abbrev pub is_sent : EmailDeliveryStatus → Bool
is_sent sent = true
is_sent delivered = true
is_sent _ = false

module _ (send : ℕ → SendResult) (network_error internal_error now : ℕ) where
  -- What `deliver` does with the delivery that it has; `built` says whether the message could be built.
  unfoldable pub deliver_existing : Bool → ℕ → EmailDelivery → Action Mails SendOutcome
  deliver_existing built key d =
      if is_sent d.status
      then pure (returned (was_sent d.id d.provider_message_id))
      else if is_some d.provider_message_id || leb max_delivery_attempts d.attempts
      then pure (returned (was_not_sent (some d.id)))
      else (do
        throw_if (not built) failure
        attempt_from send network_error now d.id key (max_delivery_attempts - d.attempts)
            (d.attempts + 1))

  -- `recordUnexpectedFailure`
  unfoldable pub record_unexpected_failure : ℕ → ℕ → Action Mails (Unit {0})
  record_unexpected_failure id code =
      catch (update_delivery id (failed_with code true now)) (λ e. pure tt)

  -- The `catch` of `deliver`.
  unfoldable pub answer_failure : ℕ → ℕ → Action Mails EmailDeliveryResult
  answer_failure id code = do record_unexpected_failure id code; pure (was_not_sent (some id))

  unfoldable pub answer : ℕ → SendOutcome → Action Mails EmailDeliveryResult
  answer id (returned result) = pure result
  answer id (thrown code) = answer_failure id code

  -- `deliver` of a delivery that it has.
  unfoldable pub deliver_found : Bool → ℕ → EmailDelivery → Action Mails EmailDeliveryResult
  deliver_found built key d s =
      let (outcome, s') = deliver_existing built key d s in
      elim outcome [ ok o ↦ answer d.id o s' | err e ↦ answer_failure d.id internal_error s' ]

  -- `deliver`, with the key of the mail and the id of a new row.
  unfoldable pub deliver_mail : Bool → ℕ → ℕ → Action Mails EmailDeliveryResult
  deliver_mail built key id s =
      let (found, s') = find_or_create key id s in
      elim found [ err e ↦ (ok (was_not_sent none), s') | ok d ↦ deliver_found built key d s' ]
