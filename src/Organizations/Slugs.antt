-- ===== src/Organizations/Slugs.antt =====
-- The slugs of backend/src/organizations/organizations.service.ts. A text is the list of its UTF-16 code
-- units. Unicode normalization and the lower-case conversion are arguments.
pub mod Format
use shipflow.Common.{
  ℕ, zero, suc, ◌+◌, ◌-◌, ◌/◌, ◌%◌, ltb, leb, ◌==◌, Bool, true, false, ◌&&◌, ◌||◌, not,
  if◌then◌else◌, List, [], ◌∷◌, ◌++◌, take, length,
}

abbrev pub dash : ℕ
dash = 45

-- `[a-z0-9]`
abbrev pub is_slug_character : ℕ → Bool
is_slug_character c = (leb 97 c && leb c 122) || (leb 48 c && leb c 57)

-- `[\u0300-\u036f]`
abbrev pub is_mark : ℕ → Bool
is_mark c = leb 768 c && leb c 879

-- `replace(/[\u0300-\u036f]/g, '')`
abbrev pub without_marks : List ℕ → List ℕ
without_marks [] = []
without_marks (c ∷ cs) = let rest = without_marks cs in if is_mark c then rest else c ∷ rest

-- `replace(/[^a-z0-9]+/g, '-')`; the flag says that the run has its dash already.
abbrev pub collapse : Bool → List ℕ → List ℕ
collapse in_run [] = []
collapse in_run (c ∷ cs) =
    let kept = collapse false cs in
    let skipped = collapse true cs in
    if is_slug_character c then c ∷ kept else if in_run then skipped else dash ∷ skipped

-- `replace(/^-+/, '')`
abbrev pub drop_dashes : List ℕ → List ℕ
drop_dashes [] = []
drop_dashes (c ∷ cs) = let rest = drop_dashes cs in if c == dash then rest else c ∷ cs

abbrev pub is_empty : List ℕ → Bool
is_empty [] = true
is_empty (c ∷ cs) = false

-- `replace(/-+$/, '')`
abbrev pub strip_end : List ℕ → List ℕ
strip_end [] = []
strip_end (c ∷ cs) = let rest = strip_end cs in if is_empty rest && c == dash then [] else c ∷ rest

-- 'organization'
abbrev pub default_slug : List ℕ
default_slug = 111 ∷ 114 ∷ 103 ∷ 97 ∷ 110 ∷ 105 ∷ 122 ∷ 97 ∷ 116 ∷ 105 ∷ 111 ∷ 110 ∷ []

-- The digits of a number, as many as the first argument at most: three for the suffixes, up to 100.
abbrev pub decimal : ℕ → ℕ → List ℕ
decimal zero n = []
decimal (suc k) n =
    let higher = decimal k (n / 10) in
    if ltb n 10 then (48 + n) ∷ [] else higher ++ ((48 + n % 10) ∷ [])

abbrev pub suffix_text : ℕ → List ℕ
suffix_text suffix = if suffix == 1 then [] else dash ∷ decimal 3 suffix

-- `slugWithSuffix`
abbrev pub slug_with_suffix : List ℕ → ℕ → List ℕ
slug_with_suffix base suffix =
    strip_end (take (63 - length (suffix_text suffix)) base) ++ suffix_text suffix

abbrev pub same_slug : List ℕ → List ℕ → Bool
same_slug [] [] = true
same_slug (a ∷ cs) (b ∷ ds) = let rest = same_slug cs ds in a == b && rest
same_slug _ _ = false

module _ (decompose to_lower_case : List ℕ → List ℕ) where
  -- `slugify`
  abbrev pub slugify : List ℕ → List ℕ
  slugify name =
      let slug =
        strip_end (drop_dashes (collapse false (to_lower_case (without_marks (decompose name))))) in
      if is_empty slug then default_slug else slug
