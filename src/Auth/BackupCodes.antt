-- ===== src/Auth/BackupCodes.antt =====
-- backend/src/auth/two-factor/backup-code.service.ts: the codes that replace an authenticator. A text is the
-- list of its UTF-16 code units here. The loop that draws codes is a recursion on the random numbers that
-- it is given: each code takes its own list of them.
pub mod Accepted
pub mod Distinct
pub mod Fill
pub mod Generated
use shipflow.Common.{
  ℕ, ◌+◌, ◌-◌, ◌*◌, ltb, leb, ◌==◌, Bool, true, false, ◌&&◌, ◌||◌, not, if◌then◌else◌, Option, none,
  some, List, [], ◌∷◌, ◌++◌, map, String, take, drop, length, any,
}

-- `BACKUP_CODE_COUNT`, `BACKUP_CODE_GROUP_LENGTH` and `BACKUP_CODE_GROUP_COUNT`
abbrev pub backup_code_count : ℕ
backup_code_count = 10

abbrev pub backup_code_group_length : ℕ
backup_code_group_length = 4

abbrev pub backup_code_group_count : ℕ
backup_code_group_count = 4

-- `BACKUP_CODE_ALPHABET`: 2 to 9, and the capitals without I and O.
abbrev pub backup_code_alphabet : List ℕ
backup_code_alphabet =
    50 ∷ 51 ∷ 52 ∷ 53 ∷ 54 ∷ 55 ∷ 56 ∷ 57 ∷ 65 ∷ 66 ∷ 67 ∷ 68 ∷ 69 ∷ 70 ∷ 71 ∷ 72 ∷ 74 ∷ 75 ∷ 76
    ∷ 77 ∷ 78 ∷ 80 ∷ 81 ∷ 82 ∷ 83 ∷ 84 ∷ 85 ∷ 86 ∷ 87 ∷ 88 ∷ 89 ∷ 90 ∷ []

abbrev pub dash : ℕ
dash = 45

-- The character at an index, as a text: `join` writes nothing for one that is not there.
abbrev pub character : ℕ → List ℕ → List ℕ
character i alphabet = take 1 (drop i alphabet)

-- `Array.from(...).join('')` over the random numbers.
abbrev pub characters : List ℕ → List ℕ
characters [] = []
characters (i ∷ is) = character i backup_code_alphabet ++ characters is

-- `slice`
abbrev pub slice : ℕ → ℕ → List ℕ → List ℕ
slice from to xs = take (to - from) (drop from xs)

-- `join('-')`
abbrev pub join_groups : List (List ℕ) → List ℕ
join_groups [] = []
join_groups (g ∷ []) = g
join_groups (g ∷ h ∷ gs) = let rest = join_groups (h ∷ gs) in g ++ (dash ∷ rest)

abbrev pub group : List ℕ → ℕ → List ℕ
group xs i = slice (i * backup_code_group_length) ((i + 1) * backup_code_group_length) xs

-- `createCode`
abbrev pub create_code : List ℕ → List ℕ
create_code draws = join_groups (map (group (characters draws)) (0 ∷ 1 ∷ 2 ∷ 3 ∷ []))

-- `\s` of a regular expression
abbrev pub is_space : ℕ → Bool
is_space c =
    (leb 9 c && leb c 13)
    || c == 32
    || c == 160
    || c == 5760
    || (leb 8192 c && leb c 8202)
    || c == 8232
    || c == 8233
    || c == 8239
    || c == 8287
    || c == 12288
    || c == 65279

-- `replace(/…/g, '')` and `replaceAll(…, '')`: what is left without the characters of a class.
abbrev pub without : (ℕ → Bool) → List ℕ → List ℕ
without p [] = []
without p (c ∷ cs) = let rest = without p cs in if p c then rest else c ∷ rest

-- `[2-9A-HJ-NP-Z]`
abbrev pub is_code_character : ℕ → Bool
is_code_character c =
    (leb 50 c && leb c 57)
    || (leb 65 c && leb c 72)
    || (leb 74 c && leb c 78)
    || (leb 80 c && leb c 90)

-- `NORMALIZED_BACKUP_CODE_PATTERN`
abbrev pub is_normalized : List ℕ → Bool
is_normalized cs = length cs == 16 && not (any (λ c. not (is_code_character c)) cs)

abbrev pub same_text : List ℕ → List ℕ → Bool
same_text [] [] = true
same_text (a ∷ cs) (b ∷ ds) = let rest = same_text cs ds in a == b && rest
same_text _ _ = false

-- `plaintextCodes.add`
abbrev pub add_code : List ℕ → List (List ℕ) → List (List ℕ)
add_code code codes = if any (same_text code) codes then codes else codes ++ (code ∷ [])

-- The `while` loop of `generate`; nothing if the random numbers end before it does.
abbrev pub fill : List (List ℕ) → List (List ℕ) → Option (List (List ℕ))
fill codes [] = if leb backup_code_count (length codes) then some codes else none
fill codes (draw ∷ draws) =
    let rest = fill (add_code (create_code draw) codes) draws in
    if leb backup_code_count (length codes) then some codes else rest

pub record GeneratedBackupCodes : Type 0 where
  pub plaintext_codes : List (List ℕ)
  pub code_hashes : List String

module _ (to_upper_case : List ℕ → List ℕ) (hash_backup_code : List ℕ → ℕ → String) where
  -- `normalize`
  abbrev pub normalize : List ℕ → Option (List ℕ)
  normalize code =
      let normalized = to_upper_case (without (λ c. is_space c || c == dash) code) in
      if is_normalized normalized then some normalized else none

  -- `hash`
  abbrev pub hash : List ℕ → ℕ → Option String
  hash code user = elim (normalize code) [
    | none ↦ none
    | some normalized ↦ some (hash_backup_code normalized user)
  ]

  -- `generate`
  abbrev pub generate : ℕ → List (List ℕ) → Option GeneratedBackupCodes
  generate user draws = elim (fill [] draws) [
    | none ↦ none
    | some codes ↦ some (record {
      plaintext_codes = codes;
      code_hashes = map (λ code. hash_backup_code (without (λ c. c == dash) code) user) codes;
    })
  ]
