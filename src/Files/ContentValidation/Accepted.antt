-- ===== src/Files/ContentValidation/Accepted.antt =====
-- What is known of an upload whose declaration and content are accepted.
use shipflow.Common.{
  ℕ, ◌*◌, ◌≤◌, ltb, ◌==◌, ==_iff, Bool, true, false, ◌||◌, not, if◌then◌else◌, Option, none, some,
  Bool-cases, List, String, str_eq, eq_iff, length, Result, ok, err, ◌≡◌, refl, sym, ap, ◌∙◌, inl,
  inr, arith,
}
use shipflow.Common.Error.{bad_request}
use shipflow.Files.{Declaration, file_max_size_bytes}
use shipflow.Files.ContentValidation.{
  AcceptedExtension, accepted_file_mime_types, units, same_units, hex_bytes, is_invalid_name,
  extension_of, validate_declaration, detect_mime_type, validate_object,
}
use shipflow.Files.ContentValidation.Content.{same_units-≡, Content, detect-Content}

not-false : (b : Bool) → not b ≡ false → b ≡ true
not-false true h = refl
not-false false h = sym h

-- A check that goes through has passed both its guards.
guards_passed :
    {A : Type 0} (a b : Bool) (r : Result A) (x : A)
    → (if a then err bad_request else if b then err bad_request else r) ≡ ok x
    → (a ≡ false) × (b ≡ false) × (r ≡ ok x)
guards_passed true b r x h = ground arith
guards_passed false true r x h = ground arith
guards_passed false false r x h = (refl, refl, h)

extension_known :
    {A : Type 0} (o : Option AcceptedExtension) (f : AcceptedExtension → Result A) (x : A)
    → elim o [ none ↦ err bad_request | some e ↦ f e ] ≡ ok x
    → (e : AcceptedExtension) × (o ≡ some e) × (f e ≡ ok x)
extension_known none f x h = ground arith
extension_known (some e) f x h = (e, refl, h)

type_declared :
    (r : Result String) (declared m : String)
    → elim r [
      | err e ↦ err e
      | ok detected ↦ if not (str_eq detected declared) then err bad_request else ok detected
    ]
      ≡ ok m
    → (r ≡ ok m) × (m ≡ declared)
type_declared (err e) declared m h = ground arith
type_declared (ok d) declared m h = elim (Bool-cases (str_eq d declared)) [
  | inl same ↦
      let answer : d ≡ m = ground (arith, same) in
      (ap ok answer, sym answer ∙ (eq_iff d declared).0 same)
  | inr other ↦ ground (arith, other)
]

type_accepted :
    (mime name : String) (e : AcceptedExtension) (d : Declaration)
    → (if not (str_eq mime (accepted_file_mime_types e))
        then err bad_request
        else ok (record { file_name = name; mime_type = accepted_file_mime_types e }))
      ≡ ok d
    → d.mime_type ≡ mime
type_accepted mime name e d h = elim (Bool-cases (str_eq mime (accepted_file_mime_types e))) [
  | inl same ↦
      let answer : accepted_file_mime_types e ≡ d.mime_type = ground (arith, same) in
      sym answer ∙ sym ((eq_iff mime (accepted_file_mime_types e)).0 same)
  | inr other ↦ ground (arith, other)
]

module _ (to_lower_case : List ℕ → List ℕ) (sha256 : List ℕ → String)
    (decode_utf8 : List ℕ → Option String) (parses_json : String → Bool) where
  -- A body of a name's type, with a checksum.
  abbrev pub Fits : List ℕ → String → String → String → Type 0
  Fits body name type checksum =
      (hex_bytes (units (sha256 body)) ≡ hex_bytes (units checksum))
      × (e : AcceptedExtension) × (extension_of to_lower_case name ≡ some e)
      × (type ≡ accepted_file_mime_types e)
      × Content decode_utf8 parses_json e body

  validate_object-Fits :
      (body : List ℕ) (name declared checksum m : String) (size : ℕ)
      → validate_object to_lower_case sha256 decode_utf8 parses_json body name declared size
          checksum
        ≡ ok m
      → (length body ≡ size) × (m ≡ declared) × Fits body name declared checksum
  unfolding validate_object
  validate_object-Fits body name declared checksum m size h =
      let same = same_units (hex_bytes (units (sha256 body))) (hex_bytes (units checksum)) in
      let (long, sums, typed) =
        guards_passed (not (length body == size)) (not same)
          (elim (extension_of to_lower_case name) [
            | none ↦ err bad_request
            | some e ↦ elim (detect_mime_type decode_utf8 parses_json body e) [
              | err x ↦ err x
              | ok d ↦ if not (str_eq d declared) then err bad_request else ok d
            ]
          ])
          m h in
      let (e, known, checked) =
        extension_known (extension_of to_lower_case name)
          (λ e. elim (detect_mime_type decode_utf8 parses_json body e) [
            | err x ↦ err x
            | ok d ↦ if not (str_eq d declared) then err bad_request else ok d
          ])
          m typed in
      let (detected, is_declared) =
        type_declared (detect_mime_type decode_utf8 parses_json body e) declared m checked in
      let (type, content) = detect-Content decode_utf8 parses_json body e m detected in
      (
        (==_iff (length body) size).0 (not-false (length body == size) long),
        is_declared,
        (
          same_units-≡ (hex_bytes (units (sha256 body))) (hex_bytes (units checksum))
              (not-false same sums),
          e,
          known,
          sym is_declared ∙ type,
          content,
        ),
      )

  declaration_accepted :
      (normalize trim : String → String) (input_name mime : String) (size : ℕ) (d : Declaration)
      → validate_declaration normalize trim to_lower_case input_name mime size ≡ ok d
      → (d.mime_type ≡ mime) × (1 ≤ size) × (size ≤ 25 * 1024 * 1024)
  unfolding validate_declaration
  declaration_accepted normalize trim input_name mime size d h =
      let name = trim (normalize input_name) in
      let answer : AcceptedExtension → Result Declaration = λ e.
        if not (str_eq mime (accepted_file_mime_types e))
        then err bad_request
        else ok (record { file_name = name; mime_type = accepted_file_mime_types e }) in
      let (_, fits, typed) =
        guards_passed (is_invalid_name (units name)) (ltb size 1 || ltb file_max_size_bytes size)
          (elim (extension_of to_lower_case name) [ none ↦ err bad_request | some e ↦ answer e ]) d
          h in
      let (e, known, accepted) = extension_known (extension_of to_lower_case name) answer d typed in
      (type_accepted mime name e d accepted, ground (arith, fits), ground (arith, fits))

  -- If a declaration is accepted and then a content under the name and type that it was accepted with,
  -- the detected type is the declared one; the content is of the declared size, from one byte to 25 MiB,
  -- and has the declared checksum; and it is what the type of the name's extension asks for: it has the
  -- marks of its format, or it is a text in UTF-8 without zero bytes, which parses if it is JSON.
  pub validate_object-validate_declaration :
      (normalize trim : String → String) (input_name mime checksum m : String) (size : ℕ)
      (d : Declaration) (body : List ℕ)
      → validate_declaration normalize trim to_lower_case input_name mime size ≡ ok d
      → validate_object to_lower_case sha256 decode_utf8 parses_json body d.file_name d.mime_type
          size checksum
        ≡ ok m
      → (m ≡ mime)
        × (1 ≤ length body)
        × (length body ≤ 25 * 1024 * 1024)
        × (length body ≡ size)
        × Fits body d.file_name mime checksum
  validate_object-validate_declaration normalize trim input_name mime checksum m size d body
        declared h =
      let (declared_as, positive, small) =
        declaration_accepted normalize trim input_name mime size d declared in
      let (long, answer, (sums, e, known, type, content)) =
        validate_object-Fits body d.file_name d.mime_type checksum m size h in
      (
        answer ∙ declared_as,
        omega (arith, long, positive),
        omega (arith, long, small),
        long,
        (sums, e, known, sym declared_as ∙ type, content),
      )
