-- ===== src/Auth/BackupCodes/Generated.antt =====
-- The codes that `generate` gives.
use shipflow.Common.{
  ℕ, suc, ◌≤◌, leb, ◌==◌, ◌≡◌, refl, sym, ap, ◌∙◌, Bool, true, false, ◌||◌, if◌then◌else◌, Option,
  none, some, List, [], ◌∷◌, ◌++◌, map, String, take, length, any, All, arith, inl, inr, Bool-cases,
  Option-cases,
}
use mathlib.Core.Path.{ap₂, subst}
use mathlib.Core.Option.{map as option_map, some-injective}
use shipflow.Auth.BackupCodes.{
  backup_code_count, dash, create_code, without, same_text, add_code, fill, GeneratedBackupCodes,
  hash, generate,
}
use shipflow.Auth.BackupCodes.Distinct.{all_codes, same_text_sym}
use shipflow.Auth.BackupCodes.Fill.{
  exactly, below, fill-all_codes, length-fill, then_some, else_rest, length-add_code,
}
use shipflow.Auth.BackupCodes.Accepted.{IsDraw, IsCode, hash-create_code}

-- No code twice.
abbrev pub AllDistinct : List (List ℕ) → Type 0
AllDistinct [] = Unit
AllDistinct (c ∷ cs) = (any (same_text c) cs ≡ false) × AllDistinct cs

any-append : (p : List ℕ → Bool) (xs ys : List (List ℕ)) → any p (xs ++ ys) ≡ (any p xs || any p ys)
any-append p [] ys = refl
any-append p (x ∷ xs) ys = ground (arith, any-append p xs ys)

append-AllDistinct :
    (codes : List (List ℕ)) (code : List ℕ)
    → AllDistinct codes
    → any (same_text code) codes ≡ false
    → AllDistinct (codes ++ (code ∷ []))
append-AllDistinct [] code h fresh = (refl, tt)
append-AllDistinct (c ∷ cs) code h fresh = (
  ground (arith, any-append (same_text c) cs (code ∷ []), same_text_sym c code, h.0, fresh),
  append-AllDistinct cs code h.1 (ground (arith, fresh)),
)

-- A code of sixteen random numbers.
abbrev Created : List ℕ → Type 0
Created code = (draw : List ℕ) × (IsDraw draw × (code ≡ create_code draw))

append-All :
    (P : List ℕ → Type 0) (xs : List (List ℕ)) (x : List ℕ)
    → All P xs
    → P x
    → All P (xs ++ (x ∷ []))
append-All P [] x h p = (p, tt)
append-All P (y ∷ xs) x h p = (h.0, append-All P xs x h.1 p)

-- What holds of the codes while the loop runs, and, with the length, at its end.
abbrev Good : List (List ℕ) → Type 0
Good codes = All Created codes × AllDistinct codes

add_code-Good :
    (draw : List ℕ) (codes : List (List ℕ))
    → IsDraw draw
    → Good codes
    → Good (add_code (create_code draw) codes)
add_code-Good draw codes fit good = elim (Bool-cases (any (same_text (create_code draw)) codes)) [
  | inl known ↦ rw known good
  | inr fresh ↦ rw fresh (
    append-All Created codes (create_code draw) good.0 (draw, (fit, refl)),
    append-AllDistinct codes (create_code draw) good.1 fresh,
  )
]

fill-Good :
    (draws codes r : List (List ℕ))
    → All IsDraw draws
    → Good codes
    → length codes ≤ backup_code_count
    → fill codes draws ≡ some r
    → Good r × (length r ≡ 10)
fill-Good [] codes r fit good le h = elim (Bool-cases (leb backup_code_count (length codes))) [
  | inl full ↦
      subst (λ k. Good k × (length k ≡ 10)) (then_some _ codes r none full h)
        (good, exactly (length codes) full le)
  | inr room ↦ ground (arith, else_rest _ codes r none room h)
]
fill-Good (draw ∷ draws) codes r fit good le h =
    let next = add_code (create_code draw) codes in
    elim (Bool-cases (leb backup_code_count (length codes))) [
      | inl full ↦
          subst (λ k. Good k × (length k ≡ 10)) (then_some _ codes r (fill next draws) full h)
            (good, exactly (length codes) full le)
      | inr room ↦
          fill-Good draws next r fit.1 (add_code-Good draw codes fit.0 good)
            (below (length codes) (length next) room (length-add_code (create_code draw) codes))
            (else_rest _ codes r (fill next draws) room h)
    ]

module _ (to_upper_case : List ℕ → List ℕ) (hash_backup_code : List ℕ → ℕ → String) where
  abbrev generated : ℕ → List (List ℕ) → GeneratedBackupCodes
  generated user codes = record {
    plaintext_codes = codes;
    code_hashes = map (λ code. hash_backup_code (without (λ c. c == dash) code) user) codes;
  }

  as_map :
      (user : ℕ) (o : Option (List (List ℕ)))
      → option_map (generated user) o
        ≡ (elim o [ none ↦ none | some codes ↦ some (generated user codes) ])
  as_map user none = refl
  as_map user (some codes) = refl

  option_map_if :
      (f : List (List ℕ) → GeneratedBackupCodes) (b : Bool) (x : List (List ℕ))
      → option_map f (if b then some x else none) ≡ (if b then some (f x) else none)
  option_map_if f true x = refl
  option_map_if f false x = refl

  length-map-hashes : {A B : Type 0} (f : A → B) (xs : List A) → length (map f xs) ≡ length xs
  length-map-hashes f [] = refl
  length-map-hashes f (x ∷ xs) = ap suc (length-map-hashes f xs)

  pub length-generate :
      (user : ℕ) (draws : List (List ℕ)) (g : GeneratedBackupCodes)
      → generate to_upper_case hash_backup_code user draws ≡ some g
      → (length g.plaintext_codes ≡ 10) × (length g.code_hashes ≡ 10)
  length-generate user draws g h = elim (Option-cases (fill [] draws)) [
    | inl stopped ↦ ground (arith, stopped, h)
    | inr (codes, filled) ↦
        let ten = length-fill draws [] codes (omega arith) filled in
        subst (λ k. (length k.plaintext_codes ≡ 10) × (length k.code_hashes ≡ 10))
          {x = generated user codes} {y = g}
          (some-injective (generated user codes) g
            (sym (ap (option_map (generated user)) filled) ∙ as_map user (fill [] draws) ∙ h))
          (ten, length-map-hashes _ codes ∙ ten)
  ]

  -- The loop needs no more random numbers than give ten different codes, and it gives the first ten: it
  -- agrees with taking ten of all the codes, and gives nothing only if there are fewer.
  pub generate-all_codes :
      (user : ℕ) (draws : List (List ℕ))
      → generate to_upper_case hash_backup_code user draws ≡ (
          if leb backup_code_count (length (all_codes draws))
          then some (record {
            plaintext_codes = take backup_code_count (all_codes draws);
            code_hashes =
                map
                  (λ code. hash_backup_code (without (λ c. c == dash) code) user)
                  (take backup_code_count (all_codes draws));
          })
          else none)
  generate-all_codes user draws =
      sym (as_map user (fill [] draws))
      ∙ ap (option_map (generated user)) (fill-all_codes draws [] (omega arith))
      ∙ option_map_if (generated user) (leb backup_code_count (length (all_codes draws)))
          (take backup_code_count (all_codes draws))

  module _ (upper_code : (cs : List ℕ) → IsCode cs → to_upper_case cs ≡ cs) where
    hashes :
        (codes : List (List ℕ)) (user : ℕ)
        → All Created codes
        → map (λ code. hash to_upper_case hash_backup_code code user) codes
          ≡ map some (map (λ code. hash_backup_code (without (λ c. c == dash) code) user) codes)
    hashes [] user h = refl
    hashes (code ∷ codes) user h =
        let (draw, (fit, e)) = h.0 in
        ap₂ (λ x xs. x ∷ xs)
          (subst
            (λ k.
              hash to_upper_case hash_backup_code k user
              ≡ some (hash_backup_code (without (λ c. c == dash) k) user))
            (sym e) (hash-create_code to_upper_case hash_backup_code upper_code draw user fit))
          (hashes codes user h.1)

    -- The codes that are generated from random numbers below 32, sixteen a code, are ten, no two of them are the
    -- same, and each of them, as a user enters it, has the hash that is kept of it, if an upper-case conversion
    -- leaves the characters of codes as they are.
    pub generate_lem :
        (user : ℕ) (draws : List (List ℕ)) (g : GeneratedBackupCodes)
        → All IsDraw draws
        → generate to_upper_case hash_backup_code user draws ≡ some g
        → (length g.plaintext_codes ≡ 10)
          × (AllDistinct g.plaintext_codes
              × (map (λ code. hash to_upper_case hash_backup_code code user) g.plaintext_codes
                  ≡ map some g.code_hashes))
    generate_lem user draws g fit h = elim (Option-cases (fill [] draws)) [
      | inl stopped ↦ ground (arith, stopped, h)
      | inr (codes, filled) ↦
          let ((created, distinct), ten) =
            fill-Good draws [] codes fit (tt, tt) (omega arith) filled in
          subst
            (λ k.
              (length k.plaintext_codes ≡ 10)
              × (AllDistinct k.plaintext_codes
                  × (map (λ code. hash to_upper_case hash_backup_code code user) k.plaintext_codes
                      ≡ map some k.code_hashes)))
            {x = generated user codes} {y = g}
            (some-injective (generated user codes) g
              (sym (ap (option_map (generated user)) filled) ∙ as_map user (fill [] draws) ∙ h))
            (ten, (distinct, hashes codes user created))
    ]
