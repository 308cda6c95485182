-- ===== src/Files/ContentValidation/Content.antt =====
-- What a content is that one of the detections of backend/src/files/file-validation.service.ts accepts.
use shipflow.Common.{
  ℕ, zero, suc, ◌==◌, ==_iff, Bool, true, false, ◌&&◌, Option, some, Option-cases, Bool-cases, List,
  [], ◌∷◌, ◌++◌, String, drop, length, All, any, ok, ◌≡◌, refl, sym, ap, ◌∙◌, ◌≢◌, inl, inr, arith,
}
use shipflow.Files.ContentValidation.{
  AcceptedExtension, accepted_file_mime_types, units, same_units, starts_with, includes,
  png_signature, word_directory, sheet_directory, slides_directory, detect_office_document,
  accept_if, is_accepted_text, detect_text_document, detect_mime_type,
}
use shipflow.Files.ContentValidation.AcceptedExtension.{
  pdf, jpg, jpeg, png, webp, txt, csv, json, docx, xlsx, pptx,
}

abbrev pub StartsWith : List ℕ → List ℕ → Type 0
StartsWith signature body = (rest : List ℕ) × (body ≡ signature ++ rest)

abbrev pub Contains : List ℕ → List ℕ → Type 0
Contains part body = (front rest : List ℕ) × (body ≡ front ++ (part ++ rest))

-- A zip archive with the list of content types and a directory of its kind.
abbrev pub IsOffice : List ℕ → List ℕ → Type 0
IsOffice directory body =
    StartsWith (80 ∷ 75 ∷ []) body
    × Contains (units "[Content_Types].xml") body
    × Contains directory body

pub same_units-≡ : (xs ys : List ℕ) → same_units xs ys ≡ true → xs ≡ ys
same_units-≡ [] [] h = refl
same_units-≡ [] (y ∷ ys) h = ground arith
same_units-≡ (x ∷ xs) [] h = ground arith
same_units-≡ (x ∷ xs) (y ∷ ys) h = ground (arith, same_units-≡ xs ys)

starts_with-StartsWith :
    (signature body : List ℕ) → starts_with signature body ≡ true → StartsWith signature body
starts_with-StartsWith [] body h = (body, refl)
starts_with-StartsWith (x ∷ xs) [] h = ground arith
starts_with-StartsWith (x ∷ xs) (y ∷ ys) h =
    let same : y ≡ x = ground arith in
    let (rest, split) = starts_with-StartsWith xs ys (ground arith) in (rest, cc)

includes-Contains : (part body : List ℕ) → includes part body ≡ true → Contains part body
includes-Contains part [] h =
    let (rest, split) = starts_with-StartsWith part [] h in ([], rest, split)
includes-Contains part (b ∷ body) h = elim (Bool-cases (starts_with part (b ∷ body))) [
  | inl here ↦ let (rest, split) = starts_with-StartsWith part (b ∷ body) here in ([], rest, split)
  | inr later ↦
      let (front, rest, split) = includes-Contains part body (ground (arith, later)) in
      (b ∷ front, rest, cc)
]

-- A mark behind a number of bytes.
after_gap :
    (n w : ℕ) (ws body : List ℕ)
    → starts_with (w ∷ ws) (drop n body) ≡ true
    → (gap rest : List ℕ) × (length gap ≡ n) × (body ≡ gap ++ ((w ∷ ws) ++ rest))
after_gap zero w ws body h =
    let (rest, split) = starts_with-StartsWith (w ∷ ws) body h in ([], rest, refl, split)
after_gap (suc n) w ws [] h = ground arith
after_gap (suc n) w ws (b ∷ body) h =
    let (gap, rest, long, split) = after_gap n w ws body h in
    (b ∷ gap, rest, omega (arith, long), cc)

-- A RIFF container: its mark, its size in four bytes, and the mark of its kind.
abbrev pub IsWebp : List ℕ → Type 0
IsWebp body =
    (size rest : List ℕ) × (length size ≡ 4)
    × (body ≡ units "RIFF" ++ (size ++ (units "WEBP" ++ rest)))

starts_with-IsWebp :
    (body : List ℕ)
    → starts_with (units "RIFF") body ≡ true
    → starts_with (units "WEBP") (drop 8 body) ≡ true
    → IsWebp body
starts_with-IsWebp body front kind =
    let (r, split) = starts_with-StartsWith (units "RIFF") body front in
    let behind : starts_with (units "WEBP") (drop 4 r) ≡ true =
      sym (ap (λ b. starts_with (units "WEBP") (drop 8 b)) split) ∙ kind in
    let (size, rest, four, more) = after_gap 4 87 (69 ∷ 66 ∷ 80 ∷ []) r behind in
    (size, rest, four, split ∙ ap (λ r. units "RIFF" ++ r) more)

no_zero-All : (body : List ℕ) → any (λ b. b == 0) body ≡ false → All (λ b. b ≢ 0) body
no_zero-All [] h = tt
no_zero-All (b ∷ body) h =
    (λ zero. ground (arith, zero, (==_iff b 0).1 zero), no_zero-All body (ground arith))

accept_if-ok :
    (b : Bool) (e : AcceptedExtension) (m : String)
    → accept_if b e ≡ ok m
    → (b ≡ true) × (m ≡ accepted_file_mime_types e)
accept_if-ok true e m h = (refl, ground (arith, h))
accept_if-ok false e m h = ground arith

marked-StartsWith :
    (signature body : List ℕ) (e : AcceptedExtension) (m : String)
    → accept_if (starts_with signature body) e ≡ ok m
    → (m ≡ accepted_file_mime_types e) × StartsWith signature body
marked-StartsWith signature body e m h =
    let (marked, type) = accept_if-ok (starts_with signature body) e m h in
    (type, starts_with-StartsWith signature body marked)

detect_office_document-IsOffice :
    (body directory : List ℕ) (e : AcceptedExtension) (m : String)
    → detect_office_document body directory e ≡ ok m
    → (m ≡ accepted_file_mime_types e) × IsOffice directory body
detect_office_document-IsOffice body directory e m h =
    let zip : starts_with (80 ∷ 75 ∷ []) body ≡ true = ground arith in
    let types : includes (units "[Content_Types].xml") body ≡ true = ground (arith, zip) in
    let inside : includes directory body ≡ true = ground (arith, zip, types) in
    let split : IsOffice directory body = (
      starts_with-StartsWith (80 ∷ 75 ∷ []) body zip,
      includes-Contains (units "[Content_Types].xml") body types,
      includes-Contains directory body inside,
    ) in
    (ground (arith, zip, types, inside), split)

module _ (decode_utf8 : List ℕ → Option String) (parses_json : String → Bool) where
  -- A text in UTF-8, which the test accepts, without a zero byte.
  abbrev pub IsText : (String → Bool) → List ℕ → Type 0
  IsText test body =
      All (λ b. b ≢ 0) body × (text : String) × (decode_utf8 body ≡ some text) × (test text ≡ true)

  -- What a file of an extension contains.
  abbrev pub Content : AcceptedExtension → List ℕ → Type 0
  Content pdf body = StartsWith (units "%PDF-") body
  Content jpg body = StartsWith (255 ∷ 216 ∷ 255 ∷ []) body
  Content jpeg body = StartsWith (255 ∷ 216 ∷ 255 ∷ []) body
  Content png body = StartsWith png_signature body
  Content webp body = IsWebp body
  Content txt body = IsText (λ _. true) body
  Content csv body = IsText (λ _. true) body
  Content json body = IsText parses_json body
  Content docx body = IsOffice (units "word/") body
  Content xlsx body = IsOffice (units "xl/") body
  Content pptx body = IsOffice (units "ppt/") body

  detect_text_document-IsText :
      (body : List ℕ) (e : AcceptedExtension) (test : String → Bool) (m : String)
      → ((t : String) → is_accepted_text decode_utf8 parses_json (some t) e ≡ test t)
      → detect_text_document decode_utf8 parses_json body e ≡ ok m
      → (m ≡ accepted_file_mime_types e) × IsText test body
  detect_text_document-IsText body e test m accepts h =
      let clean : any (λ b. b == 0) body ≡ false = ground arith in
      let said : (is_accepted_text decode_utf8 parses_json (decode_utf8 body) e ≡ true)
          × (m ≡ accepted_file_mime_types e) =
        accept_if-ok (is_accepted_text decode_utf8 parses_json (decode_utf8 body) e) e m
          (ground (arith, clean)) in
      elim (Option-cases (decode_utf8 body)) [
        | inl nothing ↦ ground (arith, said.0, nothing)
        | inr (t, decoded) ↦ (
          said.1,
          (
            no_zero-All body clean,
            t,
            decoded,
            sym (accepts t)
                ∙ sym (ap (λ o. is_accepted_text decode_utf8 parses_json o e) decoded)
                ∙ said.0,
          ),
        )
      ]

  pub detect-Content :
      (body : List ℕ) (e : AcceptedExtension) (m : String)
      → detect_mime_type decode_utf8 parses_json body e ≡ ok m
      → (m ≡ accepted_file_mime_types e) × Content e body
  unfolding detect_mime_type
  detect-Content body pdf m h = marked-StartsWith (units "%PDF-") body pdf m h
  detect-Content body jpg m h = marked-StartsWith (255 ∷ 216 ∷ 255 ∷ []) body jpg m h
  detect-Content body jpeg m h = marked-StartsWith (255 ∷ 216 ∷ 255 ∷ []) body jpeg m h
  detect-Content body png m h = marked-StartsWith png_signature body png m h
  detect-Content body webp m h =
      let (marked, type) =
        accept_if-ok (starts_with (units "RIFF") body && starts_with (units "WEBP") (drop 8 body))
          webp m h in
      (type, starts_with-IsWebp body (ground (arith, marked)) (ground (arith, marked)))
  detect-Content body txt m h = detect_text_document-IsText body txt (λ _. true) m (λ t. refl) h
  detect-Content body csv m h = detect_text_document-IsText body csv (λ _. true) m (λ t. refl) h
  detect-Content body json m h = detect_text_document-IsText body json parses_json m (λ t. refl) h
  detect-Content body docx m h = detect_office_document-IsOffice body word_directory docx m h
  detect-Content body xlsx m h = detect_office_document-IsOffice body sheet_directory xlsx m h
  detect-Content body pptx m h = detect_office_document-IsOffice body slides_directory pptx m h
