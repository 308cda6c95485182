-- ===== src/Organizations/Slugs/Format.antt =====
-- Every slug is one that the database accepts.
use shipflow.Common.{
  ℕ, zero, suc, ◌+◌, ◌-◌, ◌/◌, ◌%◌, ◌≤◌, ◌<◌, ltb, ◌==◌, ◌≡◌, refl, ap, ◌∙◌, Bool, true, false,
  ◌&&◌, ◌||◌, not, if◌then◌else◌, List, [], ◌∷◌, ◌++◌, take, length, length-append, length-take-le,
  arith, inl, inr, Bool-cases,
}
use mathlib.Core.List.{append_assoc, append-nil}
use shipflow.Organizations.Slugs.{
  dash, is_slug_character, collapse, drop_dashes, is_empty, strip_end, default_slug, decimal,
  suffix_text, slug_with_suffix, slugify, without_marks,
}

-- `^[a-z0-9]+(?:-[a-z0-9]+)*$`, the check of the table, read from the left; the flag says that a character of
-- a word must come.
abbrev pub matches : Bool → List ℕ → Bool
matches needed [] = not needed
matches needed (c ∷ cs) =
    let word = matches false cs in
    let next = matches true cs in
    if is_slug_character c then word else (c == dash && (not needed && next))

-- The same, but a dash may stand at the end.
abbrev spaced : Bool → List ℕ → Bool
spaced needed [] = true
spaced needed (c ∷ cs) =
    let word = spaced false cs in
    let next = spaced true cs in
    if is_slug_character c then word else (c == dash && (not needed && next))

collapse-spaced : (b : Bool) (cs : List ℕ) → spaced b (collapse b cs) ≡ true
collapse-spaced b [] = refl
collapse-spaced true (c ∷ cs) = ground (arith, collapse-spaced true cs, collapse-spaced false cs)
collapse-spaced false (c ∷ cs) = ground (arith, collapse-spaced true cs, collapse-spaced false cs)

drop_dashes-spaced :
    (cs : List ℕ) (b : Bool) → spaced b cs ≡ true → spaced true (drop_dashes cs) ≡ true
drop_dashes-spaced [] b h = refl
drop_dashes-spaced (c ∷ cs) b h =
    ground (arith, h, drop_dashes-spaced cs true, drop_dashes-spaced cs false)

take-spaced : (n : ℕ) (b : Bool) (cs : List ℕ) → spaced b cs ≡ true → spaced b (take n cs) ≡ true
take-spaced zero b cs h = refl
take-spaced (suc n) b [] h = refl
take-spaced (suc n) b (c ∷ cs) h = ground (arith, h, take-spaced n true cs, take-spaced n false cs)

-- Without dashes at its end, a text is empty or as the check wants it.
strip_end-matches :
    (b : Bool) (cs : List ℕ)
    → spaced b cs ≡ true
    → (is_empty (strip_end cs) || matches b (strip_end cs)) ≡ true
strip_end-matches b [] h = refl
strip_end-matches b (c ∷ cs) h =
    ground (arith, h, strip_end-matches true cs, strip_end-matches false cs)

matches-append :
    (b : Bool) (xs ys : List ℕ)
    → matches b xs ≡ true
    → matches true ys ≡ true
    → matches b (xs ++ (dash ∷ ys)) ≡ true
matches-append b [] ys h e = ground (arith, h, e)
matches-append b (x ∷ xs) ys h e =
    ground (arith, h, e, matches-append true xs ys, matches-append false xs ys)

strip_end-length : (cs : List ℕ) → length (strip_end cs) ≤ length cs
strip_end-length [] = omega arith
strip_end-length (c ∷ cs) = ground (arith, strip_end-length cs)

-- What a slug from a name is: it matches the check.
slugify-matches :
    (decompose to_lower_case : List ℕ → List ℕ) (name : List ℕ)
    → matches true (slugify decompose to_lower_case name) ≡ true
slugify-matches decompose to_lower_case name =
    let text = to_lower_case (without_marks (decompose name)) in
    let dashed = collapse false text in
    or_default (strip_end (drop_dashes dashed)) (
      strip_end-matches true (drop_dashes dashed)
        (drop_dashes-spaced dashed false (collapse-spaced false text)))
  where
    or_default :
        (cs : List ℕ)
        → (is_empty cs || matches true cs) ≡ true
        → matches true (if is_empty cs then default_slug else cs) ≡ true
    or_default [] h = refl
    or_default (c ∷ cs) h = h

matches-spaced : (b : Bool) (cs : List ℕ) → matches b cs ≡ true → spaced b cs ≡ true
matches-spaced b [] h = refl
matches-spaced b (c ∷ cs) h = ground (arith, h, matches-spaced true cs, matches-spaced false cs)

first_character : (c : ℕ) (cs : List ℕ) → matches true (c ∷ cs) ≡ true → is_slug_character c ≡ true
first_character c cs h = ground (arith, h)

not_dash : (c : ℕ) → is_slug_character c ≡ true → (c == dash) ≡ false
not_dash c h = ground (arith, h)

-- A cut that keeps a character of a text that matches leaves one that matches.
cut-matches :
    (n : ℕ) (cs : List ℕ)
    → matches true cs ≡ true
    → 0 < n
    → matches true (strip_end (take n cs)) ≡ true
cut-matches zero cs h lt = absurd (omega (arith, lt))
cut-matches (suc n) [] h lt = ground (arith, h)
cut-matches (suc n) (c ∷ cs) h lt =
    let rest =
      strip_end-matches true (take (suc n) (c ∷ cs))
        (take-spaced (suc n) true (c ∷ cs) (matches-spaced true (c ∷ cs) h)) in
    ground (arith, rest, not_dash c (first_character c cs h))

digit : (n : ℕ) → n < 10 → is_slug_character (48 + n) ≡ true
digit n = ground arith

below_ten : (n : ℕ) → ltb n 10 ≡ true → n < 10
below_ten n = ground arith

-- Digits before a text that may follow a word or begin one.
digits-matches :
    (k n : ℕ) (zs : List ℕ)
    → matches false zs ≡ true
    → matches true zs ≡ true
    → matches true (decimal k n ++ zs) ≡ true
digits-matches zero n zs after first = first
digits-matches (suc k) n zs after first = elim (Bool-cases (ltb n 10)) [
  | inl small ↦ rw (small, digit n (below_ten n small)) after
  | inr large ↦ rw large (
      rw (append_assoc (decimal k (n / 10)) ((48 + n % 10) ∷ []) zs) (
        digits-matches k (n / 10) ((48 + n % 10) ∷ zs) (rw (digit (n % 10) (omega arith)) after)
          (rw (digit (n % 10) (omega arith)) after)))
]

decimal-matches : (k n : ℕ) → matches true (decimal (suc k) n) ≡ true
decimal-matches k n = elim (Bool-cases (ltb n 10)) [
  | inl small ↦ rw (small, digit n (below_ten n small)) refl
  | inr large ↦ rw large (
      digits-matches k (n / 10) ((48 + n % 10) ∷ []) (rw (digit (n % 10) (omega arith)) refl)
        (rw (digit (n % 10) (omega arith)) refl))
]

length-decimal : (k n : ℕ) → length (decimal k n) ≤ k
length-decimal zero n = omega arith
length-decimal (suc k) n = elim (Bool-cases (ltb n 10)) [
  | inl small ↦ rw small (omega arith)
  | inr large ↦ rw large (
      omega
        (arith, length-append (decimal k (n / 10)) ((48 + n % 10) ∷ []), length-decimal k (n / 10)))
]

length-suffix_text : (suffix : ℕ) → length (suffix_text suffix) ≤ 4
length-suffix_text suffix = ground (arith, length-decimal 3 suffix)

-- The slug of any name, with any suffix, fits into the column and passes the check of the table, whatever
-- the normalization and the lower-case conversion give.
pub slug_with_suffix-matches :
    (decompose to_lower_case : List ℕ → List ℕ) (name : List ℕ) (suffix : ℕ)
    → let slug = slug_with_suffix (slugify decompose to_lower_case name) suffix in
      (length slug ≤ 63) × (matches true slug ≡ true)
slug_with_suffix-matches decompose to_lower_case name suffix =
    let base = slugify decompose to_lower_case name in
    let good = slugify-matches decompose to_lower_case name in
    (length-slug base suffix, suffixed base suffix good)
  where
    length-slug : (base : List ℕ) (suffix : ℕ) → length (slug_with_suffix base suffix) ≤ 63
    length-slug base suffix =
        let text = suffix_text suffix in
        let cut = take (63 - length text) base in
        omega (
          arith,
          length-append (strip_end cut) text,
          strip_end-length cut,
          length-take-le (63 - length text) base,
          length-suffix_text suffix,
        )

    with_text : List ℕ → List ℕ → List ℕ
    with_text base text = strip_end (take (63 - length text) base) ++ text

    suffixed :
        (base : List ℕ) (suffix : ℕ)
        → matches true base ≡ true
        → matches true (slug_with_suffix base suffix) ≡ true
    suffixed base suffix good = elim (Bool-cases (suffix == 1)) [
      | inl first ↦
          ap (λ t. matches true (with_text base t))
            (ap (λ b. if b then [] else dash ∷ decimal 3 suffix) first)
          ∙ ap (matches true) (append-nil (strip_end (take 63 base)))
          ∙ cut-matches 63 base good (omega arith)
      | inr later ↦
          ap (λ t. matches true (with_text base t))
            (ap (λ b. if b then [] else dash ∷ decimal 3 suffix) later)
          ∙ matches-append true (strip_end (take (63 - length (dash ∷ decimal 3 suffix)) base))
              (decimal 3 suffix)
              (cut-matches (63 - length (dash ∷ decimal 3 suffix)) base good
                (room (length (decimal 3 suffix)) (length-decimal 3 suffix)))
              (decimal-matches 2 suffix)
    ]
      where
        room : (n : ℕ) → n ≤ 3 → 0 < 63 - suc n
        room n h = omega (arith, h)
