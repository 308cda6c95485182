-- ===== src/Billing/Reservations/Usable.antt =====
-- What `reserveCheckout` gives.
use shipflow.Common.{
  ℕ, ltb, ◌==◌, ==_iff, ◌≡◌, refl, sym, ap, ◌∙◌, Bool, true, false, ◌&&◌, ◌||◌, if◌then◌else◌,
  Option, none, some, List, [], ◌∷◌, any, arith, ◌⊎◌, inl, inr, ok, err, Result, Action, pure,
  throw, catch, ◌>>=◌, Bool-cases, Option-cases, conflict, unique_violation,
}
use mathlib.Core.Path.{subst}
use shipflow.Database.{find_first, count, delete_many}
use shipflow.Database.Laws.{find_first-holds}
use shipflow.Billing.Model.{
  BillingInterval, monthly, annual, same_interval, BillingCheckoutSession, Ledger,
}
use shipflow.Billing.Reservations.{
  Attempt, Choice, reuse, refuse, replace, start, choose, new_checkout, create_checkout, try_create,
  is_expired, is_abandoned, is_unique_violation, act_on, attempt, reserve_from, reserve_checkout,
  checkout_of, set_checkouts, stale_creation,
}

-- A reservation that a request for an organization and an interval may use at a time.
abbrev pub Usable : ℕ → BillingInterval → ℕ → BillingCheckoutSession → Type 0
Usable organization interval now row =
    (row.organization_id ≡ organization)
    × ((row.interval ≡ interval)
        × ((ltb now row.expires_at ≡ true) × (stale_creation now row ≡ false)))

-- At the time of one of the attempts.
abbrev pub UsableDuring : ℕ → BillingInterval → List Attempt → BillingCheckoutSession → Type 0
UsableDuring organization interval [] row = ⊥
UsableDuring organization interval (a ∷ rest) row =
    Usable organization interval a.now row ⊎ UsableDuring organization interval rest row

same_interval_eq : (a b : BillingInterval) → same_interval a b ≡ true → a ≡ b
same_interval_eq monthly monthly h = refl
same_interval_eq annual annual h = refl
same_interval_eq a b h = ground (arith, h)

-- The `try` around a creation.
abbrev tried : Action Ledger BillingCheckoutSession → Action Ledger (Option BillingCheckoutSession)
tried m =
    catch (m >>= λ row. pure (some row)) (λ e. if is_unique_violation e then pure none else throw e)

tried_clash :
    (m : Action Ledger BillingCheckoutSession) (s : Ledger)
    → m s ≡ (err unique_violation, s)
    → tried m s ≡ (ok none, s)
tried_clash m s h = ground (arith, h)

tried_free :
    (m : Action Ledger BillingCheckoutSession) (s : Ledger) (row : BillingCheckoutSession)
    → (t : Ledger) → m s ≡ (ok row, t)
    → tried m s ≡ (ok (some row), t)
tried_free m s row t h = ground (arith, h)

module _ (organization : ℕ) (interval : BillingInterval) where
  new_checkout-Usable :
      (a : Attempt) → Usable organization interval a.now (new_checkout organization interval a)
  new_checkout-Usable a = (refl, (refl, (ground arith, ground arith)))

  create_checkout_cases :
      (row : BillingCheckoutSession) (s : Ledger)
      → (create_checkout row s ≡ (err unique_violation, s))
        ⊎ (create_checkout row s ≡ (ok row, set_checkouts (row ∷ s.checkouts) s))
  unfolding create_checkout
  create_checkout_cases row s =
      elim (Bool-cases (
        any
          (λ c.
            c.id == row.id || checkout_of row.organization_id c || c.request_key == row.request_key)
          s.checkouts)) [ inl clash ↦ inl (rw clash refl) | inr free ↦ inr (rw free refl) ]

  try_create_cases :
      (a : Attempt) (s : Ledger)
      → (try_create organization interval a s ≡ (ok none, s))
        ⊎ (try_create organization interval a s ≡ (
          ok (some (new_checkout organization interval a)),
          set_checkouts (new_checkout organization interval a ∷ s.checkouts) s,
        ))
  unfolding try_create
  try_create_cases a s = elim (create_checkout_cases (new_checkout organization interval a) s) [
    | inl clash ↦ inl (tried_clash (create_checkout (new_checkout organization interval a)) s clash)
    | inr free ↦
        inr (tried_free (create_checkout (new_checkout organization interval a)) s _ _ free)
  ]

  -- What an attempt chooses about a row.
  choose_cases :
      (now : ℕ) (c : BillingCheckoutSession)
      → ((choose interval now (some c) ≡ reuse c)
          × ((c.interval ≡ interval)
              × ((ltb now c.expires_at ≡ true) × (stale_creation now c ≡ false))))
        ⊎ ((choose interval now (some c) ≡ refuse c)
            ⊎ ((p : BillingCheckoutSession → Bool) × ((strict : Bool) × (choose interval now
                      (some c)
                    ≡ replace p strict))))
  choose_cases now c = elim (Bool-cases (ltb now c.expires_at)) [
    | inr expired ↦ inr (inr (is_expired c.id now, (false, rw expired refl)))
    | inl unexpired ↦ elim (Bool-cases (stale_creation now c)) [
      | inl stale ↦ inr (inr (is_abandoned c.id now, (true, rw (unexpired, stale) refl)))
      | inr live ↦ elim (Bool-cases (same_interval c.interval interval)) [
        | inl same ↦ inl (
          rw (unexpired, live, same) refl,
          (same_interval_eq c.interval interval same, (unexpired, live)),
        )
        | inr other ↦ inr (inl (rw (unexpired, live, other) refl))
      ]
    ]
  ]

  -- How an attempt ends: the loop goes on, the request is refused, or there is a reservation for it.
  abbrev Ends : ℕ → Result (Option BillingCheckoutSession) → Type 0
  Ends now r =
      (r ≡ ok none)
      ⊎ ((r ≡ err conflict)
          ⊎ ((row : BillingCheckoutSession) × ((r ≡ ok (some row))
                × Usable organization interval now row)))

  try_create-Ends : (a : Attempt) (s : Ledger) → Ends a.now (try_create organization interval a s).0
  try_create-Ends a s = elim (try_create_cases a s) [
    | inl clash ↦ inl (ap (λ r. r.0) clash)
    | inr created ↦
        inr (
          inr
            (new_checkout organization interval a, (ap (λ r. r.0) created, new_checkout-Usable a)))
  ]

  replace-Ends :
      (a : Attempt) (p : BillingCheckoutSession → Bool) (strict : Bool) (s : Ledger)
      → Ends a.now (act_on organization interval a (replace p strict) s).0
  unfolding act_on
  replace-Ends a p strict s = gone (strict && count p s.checkouts == 0)
    where
      gone :
          (b : Bool)
          → Ends a.now
              (elim b as (λ _. Action Ledger (Option BillingCheckoutSession)) [
                | true ↦ pure none
                | false ↦ try_create organization interval a
              ]
                (set_checkouts (delete_many p s.checkouts) s)).0
      gone true = inl refl
      gone false = try_create-Ends a (set_checkouts (delete_many p s.checkouts) s)

  attempt_by :
      (a : Attempt) (s : Ledger) (existing : Option BillingCheckoutSession) (choice : Choice)
      → find_first (checkout_of organization) s.checkouts ≡ existing
      → choose interval a.now existing ≡ choice
      → attempt organization interval a s
        ≡ act_on organization interval a choice (set_checkouts (a.meanwhile s.checkouts) s)
  unfolding attempt
  attempt_by a s existing choice h e =
      ap (λ c. act_on organization interval a c (set_checkouts (a.meanwhile s.checkouts) s))
        (ap (choose interval a.now) h ∙ e)

  attempt-Ends : (a : Attempt) (s : Ledger) → Ends a.now (attempt organization interval a s).0
  unfolding act_on
  attempt-Ends a s =
      let s' = set_checkouts (a.meanwhile s.checkouts) s in
      elim (Option-cases (find_first (checkout_of organization) s.checkouts)) [
        | inl none_open ↦ by_choice none none_open start refl (try_create-Ends a s')
        | inr (c, there) ↦ elim (choose_cases a.now c) [
          | inl (e, (same, times)) ↦ by_choice (some c) there (reuse c) e (
              inr (
                inr (
                  c,
                  (
                    refl,
                    (
                      (==_iff c.organization_id organization).0
                          (find_first-holds (checkout_of organization) s.checkouts c there),
                      (same, times),
                    ),
                  ),
                )))
          | inr (inl e) ↦ by_choice (some c) there (refuse c) e (inr (inl refl))
          | inr (inr (p, (strict, e))) ↦
              by_choice (some c) there (replace p strict) e (replace-Ends a p strict s')
        ]
      ]
    where
      by_choice :
          (existing : Option BillingCheckoutSession)
          → find_first (checkout_of organization) s.checkouts ≡ existing
          → (choice : Choice) → choose interval a.now existing ≡ choice
          → Ends a.now
              (act_on organization interval a choice (set_checkouts (a.meanwhile s.checkouts) s)).0
          → Ends a.now (attempt organization interval a s).0
      by_choice existing there choice e ends =
          subst (λ r. Ends a.now r.0) (sym (attempt_by a s existing choice there e)) ends

  reserve_from_usable :
      (attempts : List Attempt) (s : Ledger) (row : BillingCheckoutSession)
      → (reserve_from organization interval attempts s).0 ≡ ok row
      → UsableDuring organization interval attempts row
  unfolding reserve_from
  reserve_from_usable [] s row h = ground arith
  reserve_from_usable (a ∷ rest) s row h = elim (attempt-Ends a s) [
    | inl on ↦
        inr (
          reserve_from_usable rest (attempt organization interval a s).1 row
            (ground (arith, on, h)))
    | inr (inl refused) ↦ ground (arith, refused, h)
    | inr (inr (found, (e, usable))) ↦ inl (
        subst (Usable organization interval a.now) {x = found} {y = row} (ground (arith, e, h))
          usable)
  ]

  -- A reservation that a request gets, whatever other requests do to the table while it makes its attempts,
  -- is for its organization and interval, and at the time of one of its attempts it has not expired and is
  -- not an abandoned one.
  pub reserve_checkout_usable :
      (first second third : Attempt) (s : Ledger) (row : BillingCheckoutSession)
      → (reserve_checkout organization interval first second third s).0 ≡ ok row
      → UsableDuring organization interval (first ∷ second ∷ third ∷ []) row
  unfolding reserve_checkout
  reserve_checkout_usable first second third s row h =
      reserve_from_usable (first ∷ second ∷ third ∷ []) s row h
