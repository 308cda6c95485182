-- ===== src/Auth/BackupCodes/Fill.antt =====
-- The loop of `generate` against the set of the codes that are drawn.
use shipflow.Common.{
  ℕ, suc, ◌+◌, ◌≤◌, leb, ◌≡◌, refl, sym, ap, ◌∙◌, Bool, true, false, if◌then◌else◌, Option, none,
  some, List, [], ◌∷◌, ◌++◌, take, length, length-append, any, arith, inl, inr, Bool-cases,
}
use mathlib.Core.Path.{subst}
use mathlib.Core.List.{append-nil}
use shipflow.Auth.BackupCodes.{backup_code_count, create_code, same_text, add_code, fill}
use shipflow.Auth.BackupCodes.Distinct.{all_codes, drop_codes, drop_codes_nil, add_code-distinct}

take_all : (xs ys : List (List ℕ)) → take (length xs) (xs ++ ys) ≡ xs
take_all [] ys = refl
take_all (x ∷ xs) ys = ap (λ r. x ∷ r) (take_all xs ys)

pub length-add_code :
    (code : List ℕ) (codes : List (List ℕ)) → length (add_code code codes) ≤ suc (length codes)
length-add_code code codes = elim (Bool-cases (any (same_text code) codes)) [
  | inl known ↦ rw known (omega arith)
  | inr fresh ↦ rw fresh (omega (arith, length-append codes (code ∷ [])))
]

-- The reference: ten codes of the set, if it has as many.
abbrev pub first_codes : List (List ℕ) → Option (List (List ℕ))
first_codes codes =
    if leb backup_code_count (length codes) then some (take backup_code_count codes) else none

first_codes-append :
    (codes more : List (List ℕ))
    → length codes ≡ backup_code_count
    → first_codes (codes ++ more) ≡ some codes
first_codes-append codes more h =
    rw (enough (length codes) (length more) (length (codes ++ more)) h (length-append codes more))
      (ap some (ap (λ n. take n (codes ++ more)) (sym h) ∙ take_all codes more))
  where
    enough : (m n k : ℕ) → m ≡ 10 → k ≡ m + n → leb 10 k ≡ true
    enough m n k = ground arith

pub exactly : (n : ℕ) → leb 10 n ≡ true → n ≤ 10 → n ≡ 10
exactly n = ground arith

pub below : (n k : ℕ) → leb 10 n ≡ false → k ≤ suc n → k ≤ 10
below n k = ground arith

-- The two outcomes of the test of the loop.
pub then_some :
    (b : Bool) (x r : List (List ℕ)) (rest : Option (List (List ℕ)))
    → b ≡ true
    → (if b then some x else rest) ≡ some r
    → x ≡ r
then_some b x r rest = ground arith

pub else_rest :
    (b : Bool) (x r : List (List ℕ)) (rest : Option (List (List ℕ)))
    → b ≡ false
    → (if b then some x else rest) ≡ some r
    → rest ≡ some r
else_rest b x r rest = ground arith

pub fill-all_codes :
    (draws codes : List (List ℕ))
    → length codes ≤ backup_code_count
    → fill codes draws ≡ first_codes (codes ++ drop_codes codes (all_codes draws))
fill-all_codes [] codes h = elim (Bool-cases (leb backup_code_count (length codes))) [
  | inl full ↦ rw full refl ∙ sym (first_codes-append codes _ (exactly (length codes) full h))
  | inr room ↦
      rw room refl
      ∙ ap first_codes (sym (ap (λ r. codes ++ r) (drop_codes_nil codes) ∙ append-nil codes))
]
fill-all_codes (draw ∷ draws) codes h = elim (Bool-cases (leb backup_code_count (length codes))) [
  | inl full ↦ rw full refl ∙ sym (first_codes-append codes _ (exactly (length codes) full h))
  | inr room ↦ rw room (
      fill-all_codes draws (add_code (create_code draw) codes) (
        below (length codes) (length (add_code (create_code draw) codes)) room
          (length-add_code (create_code draw) codes))
      ∙ ap first_codes (add_code-distinct (create_code draw) codes (all_codes draws)))
]

-- The loop ends with ten codes.
pub length-fill :
    (draws codes r : List (List ℕ))
    → length codes ≤ backup_code_count
    → fill codes draws ≡ some r
    → length r ≡ 10
length-fill [] codes r le h = elim (Bool-cases (leb backup_code_count (length codes))) [
  | inl full ↦
      subst (λ k. length k ≡ 10) (then_some _ codes r none full h) (exactly (length codes) full le)
  | inr room ↦ ground (arith, else_rest _ codes r none room h)
]
length-fill (draw ∷ draws) codes r le h =
    let next = add_code (create_code draw) codes in
    elim (Bool-cases (leb backup_code_count (length codes))) [
      | inl full ↦
          subst (λ k. length k ≡ 10) (then_some _ codes r (fill next draws) full h)
            (exactly (length codes) full le)
      | inr room ↦
          length-fill draws next r
            (below (length codes) (length next) room (length-add_code (create_code draw) codes))
            (else_rest _ codes r (fill next draws) room h)
    ]
