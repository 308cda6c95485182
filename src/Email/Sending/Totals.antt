-- ===== src/Email/Sending/Totals.antt =====
-- What a mail costs in all.
use shipflow.Common.{
  throw_if, ℕ, ◌+◌, ◌-◌, ◌≤◌, leb, ◌==◌, ◌≡◌, refl, sym, ap, Bool, true, false, ◌||◌, not,
  if◌then◌else◌, none, some, is_some, List, [], ◌∷◌, any, length, All, arith, ◌⊎◌, inl, inr, ok,
  err, Error, Result, Action, ◌>>◌, pure, Bool-cases, Option-cases, Result-cases, unique_violation,
  failure,
}
use mathlib.Core.Path.{subst}
use shipflow.Database.{find_first}
use shipflow.Email.Model.{EmailDelivery, Mails}
use shipflow.Email.Sending.{
  max_delivery_attempts, SendResult, EmailDeliveryResult, SendOutcome, returned, thrown, was_sent,
  was_not_sent, update_delivery, failed_with, attempt_from, find_or_create, deliver_existing,
  record_unexpected_failure, answer_failure, answer, deliver_found, deliver_mail,
}
use shipflow.Database.Keys.{UniqueIds, has_id, find_first-any}
use shipflow.Email.Sending.{new_delivery, is_sent}
use shipflow.Email.Sending.Bounds.{
  Within, Costs, weaken, pure-Costs, then-Costs, catch-Costs, update-Costs, attempt_from-Costs,
}

-- No delivery was attempted more often than three times.
abbrev pub Bounded : List EmailDelivery → Type 0
Bounded = All (λ d. d.attempts ≤ max_delivery_attempts)

absent-Within :
    (id left : ℕ) (ds : List EmailDelivery)
    → any (λ (d : EmailDelivery). d.id == id) ds ≡ false
    → Bounded ds
    → Within id left ds
absent-Within id left [] h bounded = tt
absent-Within id left (d ∷ ds) h bounded =
    (ground (arith, h, bounded.0), absent-Within id left ds (ground (arith, h)) bounded.1)

-- The attempts that are left for a delivery that was found.
found-Within :
    (p : EmailDelivery → Bool) (ds : List EmailDelivery) (d : EmailDelivery)
    → UniqueIds (λ (x : EmailDelivery). x.id) ds
    → Bounded ds
    → find_first p ds ≡ some d
    → Within d.id (3 - d.attempts) ds
found-Within p [] d unique bounded h = tt
found-Within p (x ∷ xs) d unique bounded h = elim (Bool-cases (p x)) [
  | inl here ↦
      subst (λ (k : EmailDelivery). Within k.id (3 - k.attempts) (x ∷ xs)) {x = x} {y = d}
        (ground (arith, h, here))
        (own x bounded.0, absent-Within x.id (3 - x.attempts) xs unique.0 bounded.1)
  | inr later ↦
      let there : find_first p xs ≡ some d = ground (arith, h, later) in
      let differs =
        find_first-any (λ (y : EmailDelivery). y.id) p (has_id (λ (y : EmailDelivery). y.id) x.id)
          xs d there unique.0 in
      (
        other x.id d.id x.attempts (3 - d.attempts) differs bounded.0,
        found-Within p xs d unique.1 bounded.1 there,
      )
]
  where
    own :
        (x : EmailDelivery)
        → x.attempts ≤ 3
        → x.attempts + (if x.id == x.id then 3 - x.attempts else 0) ≤ 3
    own x h = ground (arith, h)

    other : (a b n left : ℕ) → (b == a) ≡ false → n ≤ 3 → n + (if a == b then left else 0) ≤ 3
    other a b n left = ground arith

Bounded-after : (id left : ℕ) (ds : List EmailDelivery) → Within id left ds → Bounded ds
Bounded-after id left [] h = tt
Bounded-after id left (d ∷ ds) h = (omega (arith, h.0), Bounded-after id left ds h.1)

either-Costs :
    {A : Type 0} (id before after cost : ℕ) (b : Bool) (m k : Action Mails A)
    → Costs id before after cost m
    → Costs id before after cost k
    → Costs id before after cost (if b then m else k)
either-Costs id before after cost true m k cm ck = cm
either-Costs id before after cost false m k cm ck = ck

done-Costs : {A : Type 0} (id left cost : ℕ) (a : A) → Costs id left 0 cost (pure a)
done-Costs id left cost a s h = (weaken id left 0 s.deliveries (omega arith) h, omega arith)

throw_if-Costs : (id left : ℕ) (b : Bool) (e : Error) → Costs id left left 0 (throw_if b e)
throw_if-Costs id left true e s h = (h, omega arith)
throw_if-Costs id left false e s h = (h, omega arith)

module _ (send : ℕ → SendResult) (network_error internal_error now : ℕ) where
  deliver_existing-Costs :
      (built : Bool) (key : ℕ) (d : EmailDelivery)
      → Costs d.id
          (3 - d.attempts)
          0
          3
          (deliver_existing send network_error internal_error now built key d)
  unfolding deliver_existing
  deliver_existing-Costs built key d =
      let left = 3 - d.attempts in
      let loop =
        attempt_from send network_error now d.id key (max_delivery_attempts - d.attempts)
          (d.attempts + 1) in
      either-Costs d.id left 0 3 (is_sent d.status)
        (pure (returned (was_sent d.id d.provider_message_id))) _
        (done-Costs d.id left 3 (returned (was_sent d.id d.provider_message_id)))
        (either-Costs d.id left 0 3
          (is_some d.provider_message_id || leb max_delivery_attempts d.attempts)
          (pure (returned (was_not_sent (some d.id)))) (throw_if (not built) failure >> loop)
          (done-Costs d.id left 3 (returned (was_not_sent (some d.id))))
          (then-Costs d.id left left 0 0 left 3 (throw_if (not built) failure) (λ _. loop)
            (omega arith) (omega arith) (throw_if-Costs d.id left (not built) failure)
            (λ _. attempt_from-Costs d.id send network_error now key left (d.attempts + 1))))

  answer_failure-Costs :
      (id code : ℕ) → Costs id 0 0 0 (answer_failure send network_error internal_error now id code)
  unfolding answer_failure record_unexpected_failure
  answer_failure-Costs id code =
      then-Costs id 0 0 0 0 0 0
        (record_unexpected_failure send network_error internal_error now id code)
        (λ _. pure (was_not_sent (some id))) (omega arith) (omega arith)
        (catch-Costs id 0 0 0 (update_delivery id (failed_with code true now)) tt
          (update-Costs id id 0 (failed_with code true now) (λ d. (refl, refl))))
        (λ _. pure-Costs id 0 (was_not_sent (some id)))

  answer_failure_ok :
      (id code : ℕ) (s : Mails)
      → (answer_failure send network_error internal_error now id code s).0
        ≡ ok (was_not_sent (some id))
  unfolding answer_failure record_unexpected_failure
  answer_failure_ok id code s =
      elim (Result-cases (update_delivery id (failed_with code true now) s).0) [
        | inl (e, broken) ↦ ground (arith, broken)
        | inr (u, done) ↦ ground (arith, done)
      ]

  -- An answer, within the bounds.
  abbrev Answers : Mails → Result EmailDeliveryResult × Mails → Type 0
  Answers s run =
      ((r : EmailDeliveryResult) × (run.0 ≡ ok r))
      × (Bounded run.1.deliveries × (length run.1.sends ≤ length s.sends + 3))

  answer_failure-Answers :
      (id code : ℕ) (s t : Mails)
      → Within id 0 t.deliveries
      → length t.sends ≤ length s.sends + 3
      → Answers s (answer_failure send network_error internal_error now id code t)
  answer_failure-Answers id code s t within le =
      let (after, sends) = answer_failure-Costs id code t within in
      (
        (was_not_sent (some id), answer_failure_ok id code t),
        (Bounded-after id 0 _ after, omega (arith, le, sends)),
      )

  deliver_found-Answers :
      (built : Bool) (key : ℕ) (d : EmailDelivery) (s : Mails)
      → Within d.id (3 - d.attempts) s.deliveries
      → Answers s (deliver_found send network_error internal_error now built key d s)
  unfolding deliver_found answer
  deliver_found-Answers built key d s h =
      let run = deliver_existing send network_error internal_error now built key d s in
      let (within, sends) = deliver_existing-Costs built key d s h in
      outcome run.0 run.1 within sends
    where
      outcome :
          (r : Result SendOutcome) (t : Mails)
          → Within d.id 0 t.deliveries
          → length t.sends ≤ length s.sends + 3
          → Answers s (elim r as (λ _. Result EmailDeliveryResult × Mails) [
            | ok o ↦ answer send network_error internal_error now d.id o t
            | err e ↦ answer_failure send network_error internal_error now d.id internal_error t
          ])
      outcome (ok (returned r)) t within le =
          ((r, refl), (Bounded-after d.id 0 t.deliveries within, le))
      outcome (ok (thrown code)) t within le = answer_failure-Answers d.id code s t within le
      outcome (err e) t within le = answer_failure-Answers d.id internal_error s t within le

  -- The delivery of a mail: an old one, a new one, or none for an error.
  find_or_create_cases :
      (key id : ℕ) (s : Mails)
      → UniqueIds (λ (x : EmailDelivery). x.id) s.deliveries
      → Bounded s.deliveries
      → (find_or_create key id s ≡ (err unique_violation, s))
        ⊎ ((d : EmailDelivery) × ((t : Mails) × ((find_or_create key id s ≡ (ok d, t))
                × (Within d.id (3 - d.attempts) t.deliveries × (t.sends ≡ s.sends)))))
  unfolding find_or_create
  find_or_create_cases key id s unique bounded =
      elim (Option-cases (find_first (λ d. d.idempotency_key == key) s.deliveries)) [
        | inr (d, found) ↦ inr (
          d,
          (
            s,
            (
              rw (found, find_or_create) refl,
              (
                found-Within (λ d. d.idempotency_key == key) s.deliveries d unique bounded found,
                refl,
              ),
            ),
          ),
        )
        | inl missing ↦ elim (Bool-cases (any (λ (d : EmailDelivery). d.id == id) s.deliveries)) [
          | inl clash ↦ inl (rw (missing, clash, find_or_create) refl)
          | inr free ↦ inr (
            new_delivery key id,
            (
              record s { deliveries = new_delivery key id ∷ s.deliveries },
              (
                rw (missing, free, find_or_create) refl,
                ((ground arith, absent-Within id 3 s.deliveries free bounded), refl),
              ),
            ),
          )
        ]
      ]

  -- Sending a mail always returns an answer, however the provider answers; it hands the provider three
  -- messages at most, and no delivery is attempted more often than three times, counted over all calls. The ids
  -- of deliveries are a key.
  pub deliver_mail-Bounded :
      (built : Bool) (key id : ℕ) (s : Mails)
      → UniqueIds (λ (x : EmailDelivery). x.id) s.deliveries
      → Bounded s.deliveries
      → let run = deliver_mail send network_error internal_error now built key id s in
        ((r : EmailDeliveryResult) × (run.0 ≡ ok r))
        × (Bounded run.1.deliveries × (length run.1.sends ≤ length s.sends + 3))
  unfolding deliver_mail
  deliver_mail-Bounded built key id s unique bounded =
      elim (find_or_create_cases key id s unique bounded) [
        | inl clash ↦
            subst (λ (p : Result EmailDelivery × Mails). Answers s (go p.0 p.1)) (sym clash)
              ((was_not_sent none, refl), (bounded, omega arith))
        | inr (d, (t, (made, (within, same)))) ↦
            subst (λ (p : Result EmailDelivery × Mails). Answers s (go p.0 p.1)) (sym made)
              (as_before d t within same)
      ]
    where
      go : Result EmailDelivery → Mails → Result EmailDeliveryResult × Mails
      go found s' = elim found [
        | err e ↦ (ok (was_not_sent none), s')
        | ok d ↦ deliver_found send network_error internal_error now built key d s'
      ]

      as_before :
          (d : EmailDelivery) (t : Mails)
          → Within d.id (3 - d.attempts) t.deliveries
          → t.sends ≡ s.sends
          → Answers s (deliver_found send network_error internal_error now built key d t)
      as_before d t within same =
          let (answered, (after, sends)) = deliver_found-Answers built key d t within in
          (answered, (after, omega (arith, sends, ap length same)))
