-- ===== src/Email/Webhooks/Order.antt =====
-- Events in any order and number.
use shipflow.Common.{
  ℕ, ltb, ◌==◌, ==_refl, ◌≡◌, ◌≢◌, refl, sym, ap, ◌∙◌, true, false, ◌&&◌, ◌||◌, if◌then◌else◌,
  Option, none, some, List, [], ◌∷◌, map, any, arith, inl, inr, ok, err, Bool-cases,
  unique_violation,
}
use mathlib.Core.Path.{ap₂}
use shipflow.Database.{update_many}
use shipflow.Email.Model.{EmailDeliveryStatus, EmailDelivery, EmailWebhookEvent, Mails}
use shipflow.Email.Webhooks.{
  WebhookEventPayload, delivery_status, is_news, reported, create_event, apply_event, record_event,
}

create_event_known :
    (id created_at : ℕ) (s : Mails)
    → any (λ (e : EmailWebhookEvent). e.id == id) s.events ≡ true
    → create_event id created_at s ≡ (err unique_violation, s)
unfolding create_event
create_event_known id created_at s known = rw (known, create_event) refl

create_event_fresh :
    (id created_at : ℕ) (s : Mails)
    → any (λ (e : EmailWebhookEvent). e.id == id) s.events ≡ false
    → create_event id created_at s
      ≡ (ok tt, record s { events = record { id = id; event_created_at = created_at } ∷ s.events })
unfolding create_event
create_event_fresh id created_at s fresh = rw (fresh, create_event) refl

-- The two ways in which an event is recorded.
record_event_known :
    (id : ℕ) (event : WebhookEventPayload) (s : Mails)
    → any (λ (e : EmailWebhookEvent). e.id == id) s.events ≡ true
    → record_event id event s ≡ (ok tt, s)
unfolding record_event
record_event_known id event s known = ground (arith, create_event_known id event.created_at s known)

record_event_fresh :
    (id : ℕ) (event : WebhookEventPayload) (s : Mails)
    → any (λ (e : EmailWebhookEvent). e.id == id) s.events ≡ false
    → record_event id event s ≡ (
      ok tt,
      record s {
        deliveries = apply_event event s.deliveries;
        events = record { id = id; event_created_at = event.created_at } ∷ s.events;
      },
    )
unfolding record_event
record_event_fresh id event s fresh = ground (arith, create_event_fresh id event.created_at s fresh)

-- An event that comes again, under the same id, is accepted and changes nothing.
pub record_event_twice :
    (id : ℕ) (event again : WebhookEventPayload) (s : Mails)
    → let after = (record_event id event s).1 in
      ((record_event id event s).0 ≡ ok tt) × (record_event id again after ≡ (ok tt, after))
record_event_twice id event again s =
    elim (Bool-cases (any (λ (e : EmailWebhookEvent). e.id == id) s.events)) [
      | inl known ↦
          let e = record_event_known id event s known in
          (
            ap (λ r. r.0) e,
            record_event_known id again (record_event id event s).1
                (ap (λ r. any (λ (x : EmailWebhookEvent). x.id == id) r.1.events) e ∙ known),
          )
      | inr fresh ↦
          let e = record_event_fresh id event s fresh in
          (
            ap (λ r. r.0) e,
            record_event_known id again (record_event id event s).1 (
                ap (λ r. any (λ (x : EmailWebhookEvent). x.id == id) r.1.events) e
                ∙ ap (λ b. b || any (λ (x : EmailWebhookEvent). x.id == id) s.events) (==_refl id)),
          )
    ]

-- What is compared of a delivery: which one it is, its status, and the time of its last event.
abbrev pub view : EmailDelivery → ℕ × (EmailDeliveryStatus × Option ℕ)
view d = (d.id, (d.status, d.last_event_at))

-- What a report of a status does to one delivery.
abbrev hit : ℕ → EmailDeliveryStatus → WebhookEventPayload → EmailDelivery → EmailDelivery
hit message status event d =
    if is_news message event.created_at d then reported status event d else d

reported_fields :
    (status : EmailDeliveryStatus) (event : WebhookEventPayload) (d : EmailDelivery)
    → ((reported status event d).id ≡ d.id)
      × (((reported status event d).provider_message_id ≡ d.provider_message_id)
          × (((reported status event d).status ≡ status)
              × ((reported status event d).last_event_at ≡ some event.created_at)))
reported_fields status event d = ground arith

-- The fields that decide, of a delivery and of what a report makes of it.
abbrev core : EmailDelivery → Option ℕ × (ℕ × (EmailDeliveryStatus × Option ℕ))
core d = (d.provider_message_id, view d)

abbrev core_hit :
    ℕ
    → EmailDeliveryStatus
    → ℕ
    → Option ℕ × (ℕ × (EmailDeliveryStatus × Option ℕ))
    → Option ℕ × (ℕ × (EmailDeliveryStatus × Option ℕ))
core_hit message status at (m, (id, (old, last))) =
    if elim m [ none ↦ false | some k ↦ k == message ]
      && elim last [ none ↦ true | some t ↦ ltb t at ]
    then (m, (id, (status, some at)))
    else (m, (id, (old, last)))

core-hit :
    (message : ℕ) (status : EmailDeliveryStatus) (event : WebhookEventPayload) (d : EmailDelivery)
    → core (hit message status event d) ≡ core_hit message status event.created_at (core d)
core-hit message status event d = ground (arith, reported_fields status event d)

core_hit_swap :
    (ma mb : ℕ) (sa sb : EmailDeliveryStatus) (ta tb : ℕ)
    → (c : Option ℕ × (ℕ × (EmailDeliveryStatus × Option ℕ))) → ta ≢ tb
    → core_hit mb sb tb (core_hit ma sa ta c) ≡ core_hit ma sa ta (core_hit mb sb tb c)
core_hit_swap ma mb sa sb ta tb (none, (id, (old, last))) differ = refl
core_hit_swap ma mb sa sb ta tb (some k, (id, (old, none))) differ = ground (arith, differ)
core_hit_swap ma mb sa sb ta tb (some k, (id, (old, some t))) differ = ground (arith, differ)

-- What an event does to the deciding fields of one delivery.
abbrev core_event :
    WebhookEventPayload
    → Option ℕ × (ℕ × (EmailDeliveryStatus × Option ℕ))
    → Option ℕ × (ℕ × (EmailDeliveryStatus × Option ℕ))
core_event event c = elim event.email_id [
  | none ↦ c
  | some message ↦ elim (delivery_status event.type) [
    | none ↦ c
    | some status ↦ core_hit message status event.created_at c
  ]
]

core_event_swap :
    (a b : WebhookEventPayload) (c : Option ℕ × (ℕ × (EmailDeliveryStatus × Option ℕ)))
    → a.created_at ≢ b.created_at
    → core_event b (core_event a c) ≡ core_event a (core_event b c)
core_event_swap a b c differ =
    swapped a.email_id b.email_id (delivery_status a.type) (delivery_status b.type)
  where
    run :
        Option ℕ
        → Option EmailDeliveryStatus
        → ℕ
        → Option ℕ × (ℕ × (EmailDeliveryStatus × Option ℕ))
        → Option ℕ × (ℕ × (EmailDeliveryStatus × Option ℕ))
    run o st at c = elim o [
      | none ↦ c
      | some message ↦ elim st [ none ↦ c | some status ↦ core_hit message status at c ]
    ]

    swapped :
        (oa ob : Option ℕ) (sa sb : Option EmailDeliveryStatus)
        → run ob sb b.created_at (run oa sa a.created_at c)
          ≡ run oa sa a.created_at (run ob sb b.created_at c)
    swapped none ob sa sb = refl
    swapped (some ma) none sa sb = refl
    swapped (some ma) (some mb) none sb = refl
    swapped (some ma) (some mb) (some sa) none = refl
    swapped (some ma) (some mb) (some sa) (some sb) =
        core_hit_swap ma mb sa sb a.created_at b.created_at c differ

core-update_many :
    (message : ℕ) (status : EmailDeliveryStatus) (event : WebhookEventPayload)
    → (ds : List EmailDelivery)
    → map core (update_many (is_news message event.created_at) (reported status event) ds)
      ≡ map (core_hit message status event.created_at) (map core ds)
core-update_many message status event [] = refl
core-update_many message status event (d ∷ ds) =
    ap₂ (λ x xs. x ∷ xs) (core-hit message status event d)
      (core-update_many message status event ds)

map_same : (xs : List (Option ℕ × (ℕ × (EmailDeliveryStatus × Option ℕ)))) → map (λ x. x) xs ≡ xs
map_same [] = refl
map_same (x ∷ xs) = ap (λ r. x ∷ r) (map_same xs)

core-apply_event :
    (event : WebhookEventPayload) (ds : List EmailDelivery)
    → map core (apply_event event ds) ≡ map (core_event event) (map core ds)
core-apply_event event ds = applied event.email_id (delivery_status event.type)
  where
    applied :
        (o : Option ℕ) (st : Option EmailDeliveryStatus)
        → map core (elim o [
          | none ↦ ds
          | some message ↦ elim st [
            | none ↦ ds
            | some status ↦
                update_many (is_news message event.created_at) (reported status event) ds
          ]
        ])
          ≡ map
              (λ c. elim o [
                | none ↦ c
                | some message ↦ elim st [
                  | none ↦ c
                  | some status ↦ core_hit message status event.created_at c
                ]
              ])
              (map core ds)
    applied none st = sym (map_same (map core ds))
    applied (some message) none = sym (map_same (map core ds))
    applied (some message) (some status) = core-update_many message status event ds

map_swap :
    (f g : Option ℕ × (ℕ × (EmailDeliveryStatus × Option ℕ))
      → Option ℕ × (ℕ × (EmailDeliveryStatus × Option ℕ)))
    → (xs : List (Option ℕ × (ℕ × (EmailDeliveryStatus × Option ℕ))))
    → ((x : Option ℕ × (ℕ × (EmailDeliveryStatus × Option ℕ))) → g (f x) ≡ f (g x))
    → map g (map f xs) ≡ map f (map g xs)
map_swap f g [] h = refl
map_swap f g (x ∷ xs) h = ap₂ (λ y ys. y ∷ ys) (h x) (map_swap f g xs h)

-- The deliveries after two events that are not known yet.
both :
    (ia ib : ℕ) (a b : WebhookEventPayload) (s : Mails)
    → any (λ (e : EmailWebhookEvent). e.id == ia) s.events ≡ false
    → any (λ (e : EmailWebhookEvent). e.id == ib) s.events ≡ false
    → (ia == ib) ≡ false
    → map core (record_event ib b (record_event ia a s).1).1.deliveries
      ≡ map (core_event b) (map (core_event a) (map core s.deliveries))
both ia ib a b s fresh_a fresh_b differ =
    let first = record_event_fresh ia a s fresh_a in
    let t = (record_event ia a s).1 in
    let known =
      ap (λ r. any (λ (x : EmailWebhookEvent). x.id == ib) r.1.events) first
      ∙ ap (λ k. k || any (λ (x : EmailWebhookEvent). x.id == ib) s.events) differ
      ∙ fresh_b in
    ap (λ r. map core r.1.deliveries) (record_event_fresh ib b t known)
    ∙ core-apply_event b t.deliveries
    ∙ ap (λ r. map (core_event b) (map core r.1.deliveries)) first
    ∙ ap (map (core_event b)) (core-apply_event a s.deliveries)

views : (xs ys : List EmailDelivery) → map core xs ≡ map core ys → map view xs ≡ map view ys
views xs ys h = sym (second xs) ∙ ap (map (λ c. c.1)) h ∙ second ys
  where
    second : (zs : List EmailDelivery) → map (λ c. c.1) (map core zs) ≡ map view zs
    second [] = refl
    second (z ∷ zs) = ap (λ r. view z ∷ r) (second zs)

-- Two new events of different times, reported in either order, leave every delivery with the same status
-- and the same time of its last event.
pub record_event-any_order :
    (ia ib : ℕ) (a b : WebhookEventPayload) (s : Mails)
    → any (λ (e : EmailWebhookEvent). e.id == ia) s.events ≡ false
    → any (λ (e : EmailWebhookEvent). e.id == ib) s.events ≡ false
    → (ia == ib) ≡ false
    → a.created_at ≢ b.created_at
    → map view (record_event ib b (record_event ia a s).1).1.deliveries
      ≡ map view (record_event ia a (record_event ib b s).1).1.deliveries
record_event-any_order ia ib a b s fresh_a fresh_b differ times =
    views (record_event ib b (record_event ia a s).1).1.deliveries
      (record_event ia a (record_event ib b s).1).1.deliveries
      (both ia ib a b s fresh_a fresh_b differ
        ∙ map_swap (core_event a) (core_event b) (map core s.deliveries)
            (λ c. core_event_swap a b c times)
        ∙ sym (both ib ia b a s fresh_b fresh_a (differs ia ib differ)))
  where
    differs : (m n : ℕ) → (m == n) ≡ false → (n == m) ≡ false
    differs m n = ground arith
