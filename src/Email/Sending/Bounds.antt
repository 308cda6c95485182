-- ===== src/Email/Sending/Bounds.antt =====
-- How often a mail is sent.
use shipflow.Common.{
  ℕ, zero, suc, ◌+◌, ◌≤◌, ◌==◌, ◌≡◌, refl, Bool, true, false, ◌&&◌, ◌||◌, not, if◌then◌else◌, List,
  [], ◌∷◌, any, length, All, arith, inl, inr, ok, err, Result, Action, ◌>>=◌, ◌>>◌, pure, catch,
  Bool-cases, Result-cases,
}
use mathlib.Core.Path.{subst}
use shipflow.Database.{update_many}
use shipflow.Database.Laws.{update_many-All}
use shipflow.Email.Model.{EmailDelivery, Mails}
use shipflow.Email.Sending.{
  max_delivery_attempts, SendResult, accepted, refused, SendOutcome, thrown, update_delivery,
  has_message, keep_message, begun, sent_with, failed_with, try_send, settle_attempt, attempt_from,
}

-- With so many attempts left for one delivery, none is attempted more often than three times.
abbrev pub Within : ℕ → ℕ → List EmailDelivery → Type 0
Within id left = All (λ d. d.attempts + (if d.id == id then left else 0) ≤ max_delivery_attempts)

-- What a call does: at most so many messages more are sent, and so many attempts are left.
abbrev pub Costs : {A : Type 0} → ℕ → ℕ → ℕ → ℕ → Action Mails A → Type 0
Costs id before after cost m =
    (s : Mails)
    → Within id before s.deliveries
    → Within id after (m s).1.deliveries × (length (m s).1.sends ≤ length s.sends + cost)

pub weaken :
    (id before after : ℕ) (ds : List EmailDelivery)
    → after ≤ before
    → Within id before ds
    → Within id after ds
weaken id before after [] le h = tt
weaken id before after (d ∷ ds) le h =
    (less (d.id == id) d.attempts before after le h.0, weaken id before after ds le h.1)
  where
    less :
        (b : Bool) (n before after : ℕ)
        → after ≤ before
        → n + (if b then before else 0) ≤ 3
        → n + (if b then after else 0) ≤ 3
    less true n before after le h = omega (arith, le, h)
    less false n before after le h = h

counted :
    (id left : ℕ) (ds : List EmailDelivery)
    → Within id (suc left) ds
    → Within id left (update_many (λ d. d.id == id) begun ds)
counted id left [] h = tt
counted id left (d ∷ ds) h = elim (Bool-cases (d.id == id)) [
  | inl own ↦ (ground (arith, own, h.0), counted id left ds h.1)
  | inr other ↦ (ground (arith, other, h.0), counted id left ds h.1)
]

-- One call after another.
pub then-Costs :
    {A B : Type 0} (id before between after first second total : ℕ)
    → (m : Action Mails A) (k : A → Action Mails B) → after ≤ between
    → first + second ≤ total
    → Costs id before between first m
    → ((a : A) → Costs id between after second (k a))
    → Costs id before after total (m >>= k)
then-Costs {A = A} id before between after first second total m k le sum cm ck s h =
    elim (Result-cases (m s).0) [
      | inl (e, failed) ↦
          subst Fine {x = (m s).1} {y = ((m >>= k) s).1} (ground (arith, failed)) (
            weaken id between after (m s).1.deliveries le (cm s h).0,
            omega (arith, (cm s h).1, sum),
          )
      | inr (a, went) ↦
          subst Fine {x = (k a (m s).1).1} {y = ((m >>= k) s).1} (ground (arith, went)) (
            (ck a (m s).1 (cm s h).0).0,
            omega (arith, (cm s h).1, (ck a (m s).1 (cm s h).0).1, sum),
          )
    ]
  where
    Fine : Mails → Type 0
    Fine t = Within id after t.deliveries × (length t.sends ≤ length s.sends + total)

pub catch-Costs :
    {A : Type 0} (id before after cost : ℕ) (m : Action Mails A) (x : A)
    → Costs id before after cost m
    → Costs id before after cost (catch m (λ e. pure x))
catch-Costs {A = A} id before after cost m x cm s h =
    subst (λ t. Within id after t.deliveries × (length t.sends ≤ length s.sends + cost))
      {x = (m s).1} {y = (catch m (λ e. pure x) s).1} (same (m s).0 (m s).1) (cm s h)
  where
    same :
        (r : Result A) (t : Mails)
        → t ≡ (elim r as (λ _. Result A × Mails) [ ok a ↦ (ok a, t) | err e ↦ (ok x, t) ]).1
    same (ok a) t = refl
    same (err e) t = refl

pub pure-Costs : {A : Type 0} (id left : ℕ) (a : A) → Costs id left left 0 (pure a)
pure-Costs id left a s h = (h, omega arith)

module _ (id : ℕ) where
  -- An update of a delivery that does not count an attempt.
  pub update-Costs :
      (k left : ℕ) (f : EmailDelivery → EmailDelivery)
      → ((d : EmailDelivery) → ((f d).id ≡ d.id) × ((f d).attempts ≡ d.attempts))
      → Costs id left left 0 (update_delivery k f)
  unfolding update_delivery
  update-Costs k left f keeps s h =
      elim (Bool-cases (any (λ (d : EmailDelivery). d.id == k) s.deliveries)) [
        | inl there ↦ (
          rw there (
              update_many-All
                (λ d. d.attempts + (if d.id == id then left else 0) ≤ max_delivery_attempts)
                (λ d. d.id == k) f s.deliveries (λ d _ le. rw ((keeps d).0, (keeps d).1) le) h),
          rw there (omega arith),
        )
        | inr missing ↦ (rw missing h, rw missing (omega arith))
      ]

  -- The update that counts one.
  begun-Costs : (left : ℕ) → Costs id (suc left) left 0 (update_delivery id begun)
  unfolding update_delivery
  begun-Costs left s h = elim (Bool-cases (any (λ (d : EmailDelivery). d.id == id) s.deliveries)) [
    | inl there ↦ (rw there (counted id left s.deliveries h), rw there (omega arith))
    | inr missing ↦ (
      rw missing (weaken id (suc left) left s.deliveries (omega arith) h),
      rw missing (omega arith),
    )
  ]

  keep_message-Costs : (k message now left : ℕ) → Costs id left left 0 (keep_message k message now)
  unfolding keep_message
  keep_message-Costs k message now left s h =
      elim (Bool-cases (any (λ d. not (d.id == k) && has_message message d) s.deliveries)) [
        | inl clash ↦ (rw clash h, rw clash (omega arith))
        | inr free ↦
            let kept = update-Costs k left (sent_with message now) (λ d. (refl, refl)) s h in
            (rw free kept.0, rw free kept.1)
      ]

  module _ (send : ℕ → SendResult) (network_error now key : ℕ) where
    -- What is done with the provider's answer.
    abbrev handed : SendResult → Action Mails SendResult
    handed r = elim r [
      | refused code retryable ↦ pure (refused code retryable)
      | accepted message ↦ keep_message id message now >> pure (accepted message)
    ]

    handed-Costs : (r : SendResult) (left : ℕ) → Costs id left left 0 (handed r)
    handed-Costs (refused code retryable) left = pure-Costs id left (refused code retryable)
    handed-Costs (accepted message) left =
        then-Costs id left left left 0 0 0 (keep_message id message now)
          (λ _. pure (accepted message)) (omega arith) (omega arith)
          (keep_message-Costs id message now left) (λ _. pure-Costs id left (accepted message))

    try_send-Costs :
        (attempt left : ℕ) → Costs id left left 1 (try_send send network_error now id key attempt)
    unfolding try_send
    try_send-Costs attempt left s h =
        let t = record s { sends = key ∷ s.sends } in
        let (within, sends) =
          catch-Costs id left left 0 (handed (send attempt)) (refused network_error true)
            (handed-Costs (send attempt) left) t h in
        (within, omega (arith, sends))

    settle_attempt-Costs :
        (attempt left cost : ℕ) (rest : Action Mails SendOutcome) (r : SendResult)
        → Costs id left 0 cost rest
        → Costs id left 0 cost (settle_attempt send network_error now id key attempt rest r)
    unfolding settle_attempt
    settle_attempt-Costs attempt left cost rest (accepted message) h =
        λ s w. (weaken id left 0 s.deliveries (omega arith) w, omega arith)
    settle_attempt-Costs attempt left cost rest (refused code retryable) h =
        let final = not retryable || attempt == max_delivery_attempts in
        then-Costs id left left 0 0 cost cost (update_delivery id (failed_with code final now))
          (λ _. go_on final) (omega arith) (omega arith)
          (update-Costs id left (failed_with code final now) (λ d. (refl, refl)))
          (λ _. go_on-Costs final)
      where
        go_on : Bool → Action Mails SendOutcome
        go_on b = elim b [ true ↦ pure (thrown code) | false ↦ rest ]

        go_on-Costs : (b : Bool) → Costs id left 0 cost (go_on b)
        go_on-Costs true = λ s w. (weaken id left 0 s.deliveries (omega arith) w, omega arith)
        go_on-Costs false = h

    pub attempt_from-Costs :
        (left attempt : ℕ)
        → Costs id left 0 left (attempt_from send network_error now id key left attempt)
    unfolding attempt_from
    attempt_from-Costs zero attempt = λ s h. (h, omega arith)
    attempt_from-Costs (suc left) attempt =
        let rest = attempt_from send network_error now id key left (attempt + 1) in
        then-Costs id (suc left) left 0 0 (suc left) (suc left) (update_delivery id begun)
          (λ _.
            try_send send network_error now id key attempt
            >>= settle_attempt send network_error now id key attempt rest)
          (omega arith) (omega arith) (begun-Costs left)
          (λ _.
            then-Costs id left left 0 1 left (suc left)
              (try_send send network_error now id key attempt)
              (settle_attempt send network_error now id key attempt rest) (omega arith)
              (omega arith) (try_send-Costs attempt left)
              (λ r.
                settle_attempt-Costs attempt left left rest r
                  (attempt_from-Costs left (attempt + 1))))
