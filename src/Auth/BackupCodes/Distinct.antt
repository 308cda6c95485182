-- ===== src/Auth/BackupCodes/Distinct.antt =====
-- The set of the codes that are drawn, and the loop's step on it.
use shipflow.Common.{
  ℕ, ◌≡◌, refl, sym, ap, ◌∙◌, true, false, if◌then◌else◌, List, [], ◌∷◌, ◌++◌, map, any, arith, inl,
  inr, Bool-cases,
}
use mathlib.Core.List.{append_assoc}
use shipflow.Auth.BackupCodes.{create_code, same_text, add_code}

-- The specification: all the codes that the random numbers give, without those that came before.
abbrev pub drop_code : List ℕ → List (List ℕ) → List (List ℕ)
drop_code code [] = []
drop_code code (c ∷ cs) =
    let rest = drop_code code cs in if same_text code c then rest else c ∷ rest

abbrev pub distinct : List (List ℕ) → List (List ℕ)
distinct [] = []
distinct (c ∷ cs) = c ∷ drop_code c (distinct cs)

abbrev pub all_codes : List (List ℕ) → List (List ℕ)
all_codes draws = distinct (map create_code draws)

-- What a list has beyond the codes that are there.
abbrev pub drop_codes : List (List ℕ) → List (List ℕ) → List (List ℕ)
drop_codes [] cs = cs
drop_codes (code ∷ codes) cs = drop_codes codes (drop_code code cs)

drop_code_twice :
    (code : List ℕ) (cs : List (List ℕ)) → drop_code code (drop_code code cs) ≡ drop_code code cs
drop_code_twice code [] = refl
drop_code_twice code (c ∷ cs) = elim (Bool-cases (same_text code c)) [
  | inl same ↦ rw same (drop_code_twice code cs)
  | inr other ↦ rw (other, other) (ap (λ r. c ∷ r) (drop_code_twice code cs))
]

drop_code_comm :
    (a b : List ℕ) (cs : List (List ℕ))
    → drop_code a (drop_code b cs) ≡ drop_code b (drop_code a cs)
drop_code_comm a b [] = refl
drop_code_comm a b (c ∷ cs) = elim (Bool-cases (same_text a c)) [
  | inl has_a ↦ elim (Bool-cases (same_text b c)) [
    | inl has_b ↦ rw (has_a, has_b) (drop_code_comm a b cs)
    | inr not_b ↦ rw (has_a, not_b, has_a) (drop_code_comm a b cs)
  ]
  | inr not_a ↦ elim (Bool-cases (same_text b c)) [
    | inl has_b ↦ rw (not_a, has_b) (drop_code_comm a b cs)
    | inr not_b ↦ rw (not_a, not_b, not_a) (ap (λ r. c ∷ r) (drop_code_comm a b cs))
  ]
]

pub same_text_sym : (a b : List ℕ) → same_text a b ≡ same_text b a
same_text_sym [] [] = refl
same_text_sym [] (b ∷ bs) = refl
same_text_sym (a ∷ cs) [] = refl
same_text_sym (a ∷ cs) (b ∷ bs) = ground (arith, same_text_sym cs bs)

same_text-≡ : (a b : List ℕ) → same_text a b ≡ true → a ≡ b
same_text-≡ [] [] h = refl
same_text-≡ [] (b ∷ bs) h = ground (arith, h)
same_text-≡ (a ∷ cs) [] h = ground (arith, h)
same_text-≡ (a ∷ cs) (b ∷ bs) h = ground (arith, same_text-≡ cs bs)

pub drop_codes_nil : (codes : List (List ℕ)) → drop_codes codes [] ≡ []
drop_codes_nil [] = refl
drop_codes_nil (code ∷ codes) = drop_codes_nil codes

drop_codes-append :
    (codes : List (List ℕ)) (c : List ℕ) (cs : List (List ℕ))
    → drop_codes (codes ++ (c ∷ [])) cs ≡ drop_code c (drop_codes codes cs)
drop_codes-append [] c cs = refl
drop_codes-append (code ∷ codes) c cs = drop_codes-append codes c (drop_code code cs)

-- A code that is there adds nothing.
drop_codes_known :
    (codes : List (List ℕ)) (c : List ℕ) (cs : List (List ℕ))
    → any (same_text c) codes ≡ true
    → drop_codes codes (c ∷ drop_code c cs) ≡ drop_codes codes cs
drop_codes_known [] c cs h = ground (arith, h)
drop_codes_known (d ∷ codes) c cs h = elim (Bool-cases (same_text d c)) [
  | inl same ↦ rw same (
      ap (drop_codes codes) (
        ap (λ k. drop_code d (drop_code k cs)) (sym (same_text-≡ d c same)) ∙ drop_code_twice d cs))
  | inr other ↦ rw other (
      ap (λ r. drop_codes codes (c ∷ r)) (drop_code_comm d c cs)
      ∙ drop_codes_known codes c (drop_code d cs) (ground (arith, h, other, same_text_sym d c)))
]

-- A new one stays.
drop_codes_fresh :
    (codes : List (List ℕ)) (c : List ℕ) (cs : List (List ℕ))
    → any (same_text c) codes ≡ false
    → drop_codes codes (c ∷ drop_code c cs) ≡ c ∷ drop_code c (drop_codes codes cs)
drop_codes_fresh [] c cs h = refl
drop_codes_fresh (d ∷ codes) c cs h =
    let other : same_text d c ≡ false = ground (arith, h, same_text_sym d c) in
    rw other (
      ap (λ r. drop_codes codes (c ∷ r)) (drop_code_comm d c cs)
      ∙ drop_codes_fresh codes c (drop_code d cs) (ground (arith, h)))

pub add_code_fresh :
    (code : List ℕ) (codes : List (List ℕ))
    → any (same_text code) codes ≡ false
    → add_code code codes ≡ codes ++ (code ∷ [])
add_code_fresh code codes fresh = rw fresh refl

-- A step of the loop does not change what comes out in the end.
pub add_code-distinct :
    (c : List ℕ) (codes cs : List (List ℕ))
    → add_code c codes ++ drop_codes (add_code c codes) cs
      ≡ codes ++ drop_codes codes (c ∷ drop_code c cs)
add_code-distinct c codes cs = elim (Bool-cases (any (same_text c) codes)) [
  | inl known ↦ rw known (ap (λ r. codes ++ r) (sym (drop_codes_known codes c cs known)))
  | inr fresh ↦
      ap (λ k. k ++ drop_codes k cs) (add_code_fresh c codes fresh)
      ∙ ap (λ r. (codes ++ (c ∷ [])) ++ r) (drop_codes-append codes c cs)
      ∙ append_assoc codes (c ∷ []) (drop_code c (drop_codes codes cs))
      ∙ ap (λ r. codes ++ r) (sym (drop_codes_fresh codes c cs fresh))
]
