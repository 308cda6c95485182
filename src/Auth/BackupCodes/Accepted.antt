-- ===== src/Auth/BackupCodes/Accepted.antt =====
-- The codes that are drawn, as they are entered.
use shipflow.Common.{
  ℕ, zero, suc, ◌+◌, ◌≤◌, ◌<◌, ◌==◌, ◌≡◌, refl, sym, ap, ◌∙◌, Bool, true, false, ◌||◌, not,
  if◌then◌else◌, Option, none, some, List, [], ◌∷◌, ◌++◌, map, String, take, drop, length, any, All,
  arith, inl, inr, Bool-cases,
}
use mathlib.Core.List.{append-nil}
use shipflow.Auth.BackupCodes.{
  backup_code_alphabet, dash, character, characters, join_groups, group, create_code, is_space,
  without, is_code_character, is_normalized, normalize, hash,
}

-- What `randomInt` gives for one code.
abbrev pub IsDraw : List ℕ → Type 0
IsDraw draw = (length draw ≡ 16) × All (λ i. i < 32) draw

abbrev pub IsCode : List ℕ → Type 0
IsCode cs = All (λ c. is_code_character c ≡ true) cs

any-not-IsCode : (cs : List ℕ) → any (λ c. not (is_code_character c)) cs ≡ false → IsCode cs
any-not-IsCode [] h = tt
any-not-IsCode (c ∷ cs) h = elim (Bool-cases (is_code_character c)) [
  | inl good ↦ (good, any-not-IsCode cs (ground (arith, h, good)))
  | inr bad ↦ ground (arith, h, bad)
]

IsCode-any-not : (cs : List ℕ) → IsCode cs → any (λ c. not (is_code_character c)) cs ≡ false
IsCode-any-not [] h = refl
IsCode-any-not (c ∷ cs) h = rw h.0 (IsCode-any-not cs h.1)

alphabet-IsCode : IsCode backup_code_alphabet
alphabet-IsCode = any-not-IsCode backup_code_alphabet refl

character-IsCode :
    (i : ℕ) (xs : List ℕ)
    → IsCode xs
    → i < length xs
    → (c : ℕ) × ((character i xs ≡ c ∷ []) × (is_code_character c ≡ true))
character-IsCode i [] h lt = ground (arith, lt)
character-IsCode zero (x ∷ xs) h lt = (x, (refl, h.0))
character-IsCode (suc i) (x ∷ xs) h lt = character-IsCode i xs h.1 (omega (arith, lt))

characters_lem :
    (draw : List ℕ)
    → All (λ i. i < 32) draw
    → (length (characters draw) ≡ length draw) × IsCode (characters draw)
characters_lem [] h = (refl, tt)
characters_lem (i ∷ is) h =
    let (c, (e, good)) =
      character-IsCode i backup_code_alphabet alphabet-IsCode (omega (arith, h.0)) in
    let (long, codes) = characters_lem is h.1 in rw e (ap suc long, (good, codes))

abbrev is_separator : ℕ → Bool
is_separator c = is_space c || c == dash

without-append :
    (p : ℕ → Bool) (xs ys : List ℕ) → without p (xs ++ ys) ≡ without p xs ++ without p ys
without-append p [] ys = refl
without-append p (x ∷ xs) ys = ground (arith, without-append p xs ys)

-- A code has no character that the normal form leaves out.
code_character_kept : (c : ℕ) → is_code_character c ≡ true → is_separator c ≡ false
code_character_kept c h = ground (arith, h)

without-IsCode :
    (p : ℕ → Bool) (cs : List ℕ)
    → ((c : ℕ) → is_code_character c ≡ true → p c ≡ false)
    → IsCode cs
    → without p cs ≡ cs
without-IsCode p [] kept h = refl
without-IsCode p (c ∷ cs) kept h = ground (arith, kept c h.0, without-IsCode p cs kept h.1)

-- The groups of a text of sixteen characters are all of it.
take-drop : (n : ℕ) (xs : List ℕ) → take n xs ++ drop n xs ≡ xs
take-drop zero xs = refl
take-drop (suc n) [] = refl
take-drop (suc n) (x ∷ xs) = ap (λ r. x ∷ r) (take-drop n xs)

drop-nil : (n : ℕ) → drop {A = ℕ} n [] ≡ []
drop-nil zero = refl
drop-nil (suc n) = refl

drop-drop : (m n : ℕ) (xs : List ℕ) → drop m (drop n xs) ≡ drop (n + m) xs
drop-drop m zero xs = ap (λ k. drop k xs) (omega arith)
drop-drop m (suc n) [] = drop-nil m ∙ sym (drop-nil (suc n + m))
drop-drop m (suc n) (x ∷ xs) =
    drop-drop m n xs ∙ ap (λ k. drop k (x ∷ xs)) {x = suc (n + m)} {y = suc n + m} (omega arith)

-- What a slice and the rest after it are.
slice-drop : (m n : ℕ) (xs : List ℕ) → take n (drop m xs) ++ drop (m + n) xs ≡ drop m xs
slice-drop m n xs =
    ap (λ r. take n (drop m xs) ++ r) (sym (drop-drop n m xs)) ∙ take-drop n (drop m xs)

length-drop : (n : ℕ) (xs : List ℕ) → length xs ≤ n → drop n xs ≡ []
length-drop zero [] h = refl
length-drop zero (x ∷ xs) h = absurd (omega (arith, h))
length-drop (suc n) [] h = refl
length-drop (suc n) (x ∷ xs) h = length-drop n xs (omega (arith, h))

-- Without the separators, the groups are the text again.
groups_lem :
    (cs : List ℕ) → length cs ≡ 16 → group cs 0 ++ (group cs 1 ++ (group cs 2 ++ group cs 3)) ≡ cs
groups_lem cs h =
    ap (λ r. group cs 0 ++ (group cs 1 ++ r)) (ap (λ r. group cs 2 ++ r) last ∙ slice-drop 8 4 cs)
    ∙ ap (λ r. group cs 0 ++ r) (slice-drop 4 4 cs)
    ∙ slice-drop 0 4 cs
  where
    last : group cs 3 ≡ drop 12 cs
    last =
        sym (append-nil (group cs 3))
        ∙ ap (λ r. group cs 3 ++ r) (sym (length-drop 16 cs (omega (arith, h))))
        ∙ slice-drop 12 4 cs

without-join_groups :
    (cs : List ℕ) (p : ℕ → Bool)
    → p dash ≡ true
    → without p (join_groups (map (group cs) (0 ∷ 1 ∷ 2 ∷ 3 ∷ [])))
      ≡ without p (group cs 0 ++ (group cs 1 ++ (group cs 2 ++ group cs 3)))
without-join_groups cs p h = step (group cs 0) _ (group cs 1 ++ (group cs 2 ++ group cs 3)) (
    step (group cs 1) _ (group cs 2 ++ group cs 3)
      (step (group cs 2) (group cs 3) (group cs 3) refl))
  where
    step :
        (g r r' : List ℕ)
        → without p r ≡ without p r'
        → without p (g ++ (dash ∷ r)) ≡ without p (g ++ r')
    step g r r' e =
        without-append p g (dash ∷ r)
        ∙ ap (λ k. without p g ++ k) (rw h e)
        ∙ sym (without-append p g r')

normalized : (cs : List ℕ) → length cs ≡ 16 → IsCode cs → is_normalized cs ≡ true
normalized cs long code = ground (arith, long, IsCode-any-not cs code)

module _ (to_upper_case : List ℕ → List ℕ) (hash_backup_code : List ℕ → ℕ → String)
    (upper_code : (cs : List ℕ) → IsCode cs → to_upper_case cs ≡ cs) where
  normalize-create_code :
      (draw : List ℕ)
      → IsDraw draw
      → normalize to_upper_case hash_backup_code (create_code draw) ≡ some (characters draw)
  normalize-create_code draw h =
      let (long, code) = characters_lem draw h.1 in
      let cs = characters draw in
      let separators = λ (c : ℕ). is_space c || c == dash in
      ap (λ t. let u = to_upper_case t in if is_normalized u then some u else none)
        (without-join_groups cs separators refl
          ∙ ap (without separators) (groups_lem cs (long ∙ h.0))
          ∙ without-IsCode separators cs code_character_kept code)
      ∙ ap (λ u. if is_normalized u then some u else none) (upper_code cs code)
      ∙ ap (λ b. if b then some cs else none) (normalized cs (long ∙ h.0) code)

  -- A code that was drawn is accepted as the one whose hash is kept.
  pub hash-create_code :
      (draw : List ℕ) (user : ℕ)
      → IsDraw draw
      → hash to_upper_case hash_backup_code (create_code draw) user
        ≡ some (hash_backup_code (without (λ c. c == dash) (create_code draw)) user)
  hash-create_code draw user h =
      let (long, code) = characters_lem draw h.1 in
      let cs = characters draw in
      ap
        (λ n. elim n as (λ _. Option String) [
          | none ↦ none
          | some k ↦ some (hash_backup_code k user)
        ])
        (normalize-create_code draw h)
      ∙ ap (λ k. some (hash_backup_code k user))
          (sym (
            without-join_groups cs (λ c. c == dash) refl
            ∙ ap (without (λ c. c == dash)) (groups_lem cs (long ∙ h.0))
            ∙ without-IsCode (λ c. c == dash) cs (λ c e. ground (arith, e)) code))
