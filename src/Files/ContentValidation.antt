-- ===== src/Files/ContentValidation.antt =====
-- backend/src/files/file-validation.service.ts: which declarations and which contents are accepted. A body
-- is the list of its bytes. Unicode normalization, trimming, the lower-case conversion, SHA-256, the UTF-8
-- decoder and the JSON parser are arguments.
pub mod Content
pub mod Accepted
use Prim.Native.Char.{Char, code}
use shipflow.Common.{
  ℕ, ◌+◌, ◌-◌, ◌*◌, ◌/◌, ◌%◌, ltb, leb, ◌==◌, Bool, true, false, ◌&&◌, ◌||◌, not, if◌then◌else◌,
  Option, none, some, List, [], ◌∷◌, ◌++◌, String, str_eq, take, drop, length, any, is_some, Result,
  ok, err, Error,
}
use shipflow.Common.Error.{bad_request}
use shipflow.Files.{Declaration, Validation, file_max_size_bytes}

-- The UTF-16 code units of a text.
abbrev pub char_units : Char → List ℕ
char_units c =
    if ltb (code c) 65536
    then code c ∷ []
    else (55296 + (code c - 65536) / 1024) ∷ (56320 + (code c - 65536) % 1024) ∷ []

abbrev pub units : String → List ℕ
units String.[] = []
units (String.◌∷◌ c s) = char_units c ++ units s

abbrev pub same_units : List ℕ → List ℕ → Bool
same_units [] [] = true
same_units (a ∷ xs) (b ∷ ys) = let rest = same_units xs ys in a == b && rest
same_units _ _ = false

-- `subarray(0, n)` against the `n` bytes of a signature.
abbrev pub starts_with : List ℕ → List ℕ → Bool
starts_with signature body = same_units (take (length signature) body) signature

-- `includes`
abbrev pub includes : List ℕ → List ℕ → Bool
includes part [] = starts_with part []
includes part (b ∷ body) = let rest = includes part body in starts_with part (b ∷ body) || rest

pub data AcceptedExtension : Type 0 where
  pdf jpg jpeg png webp txt csv json docx xlsx pptx : AcceptedExtension

-- `ACCEPTED_FILE_MIME_TYPES`
abbrev pub accepted_file_mime_types : AcceptedExtension → String
accepted_file_mime_types pdf = "application/pdf"
accepted_file_mime_types jpg = "image/jpeg"
accepted_file_mime_types jpeg = "image/jpeg"
accepted_file_mime_types png = "image/png"
accepted_file_mime_types webp = "image/webp"
accepted_file_mime_types txt = "text/plain"
accepted_file_mime_types csv = "text/csv"
accepted_file_mime_types json = "application/json"
accepted_file_mime_types docx =
    "application/vnd.openxmlformats-officedocument.wordprocessingml.document"
accepted_file_mime_types xlsx = "application/vnd.openxmlformats-officedocument.spreadsheetml.sheet"
accepted_file_mime_types pptx =
    "application/vnd.openxmlformats-officedocument.presentationml.presentation"

-- The key of the table above that a text is, if it is one.
abbrev pub accepted_extension : List ℕ → Option AcceptedExtension
accepted_extension key =
    if same_units key (units ".pdf")
    then some pdf
    else if same_units key (units ".jpg")
    then some jpg
    else if same_units key (units ".jpeg")
    then some jpeg
    else if same_units key (units ".png")
    then some png
    else if same_units key (units ".webp")
    then some webp
    else if same_units key (units ".txt")
    then some txt
    else if same_units key (units ".csv")
    then some csv
    else if same_units key (units ".json")
    then some json
    else if same_units key (units ".docx")
    then some docx
    else if same_units key (units ".xlsx")
    then some xlsx
    else if same_units key (units ".pptx")
    then some pptx
    else none

abbrev pub reverse_onto : List ℕ → List ℕ → List ℕ
reverse_onto [] ys = ys
reverse_onto (x ∷ xs) ys = reverse_onto xs (x ∷ ys)

-- The part of a text before a character, and the part after it.
abbrev pub before : ℕ → List ℕ → List ℕ
before stop [] = []
before stop (x ∷ xs) = let rest = before stop xs in if x == stop then [] else x ∷ rest

abbrev pub after : ℕ → List ℕ → List ℕ
after stop [] = []
after stop (x ∷ xs) = let rest = after stop xs in if x == stop then xs else rest

abbrev pub drop_slashes : List ℕ → List ℕ
drop_slashes [] = []
drop_slashes (x ∷ xs) = let rest = drop_slashes xs in if x == 47 then rest else x ∷ xs

-- `extname` on a reversed base name, what stands behind the last dot and before it given: nothing unless
-- something stands before the dot, and nothing for the name "..".
abbrev pub extension_from : List ℕ → List ℕ → List ℕ
extension_from behind [] = []
extension_from [] (c ∷ []) = if c == 46 then [] else 46 ∷ []
extension_from behind (c ∷ cs) = 46 ∷ reverse_onto behind []

abbrev pub extname : List ℕ → List ℕ
extname name =
    let base = before 47 (drop_slashes (reverse_onto name [])) in
    extension_from (before 46 base) (after 46 base)

abbrev pub hex_digit : ℕ → Option ℕ
hex_digit c =
    if leb 48 c && leb c 57
    then some (c - 48)
    else if leb 97 c && leb c 102
    then some (c - 87)
    else if leb 65 c && leb c 70
    then some (c - 55)
    else none

abbrev pub hex_byte : Option ℕ → Option ℕ → List ℕ → List ℕ
hex_byte (some x) (some y) rest = (16 * x + y) ∷ rest
hex_byte _ _ rest = []

-- `Buffer.from(text, 'hex')`, which ends at the first pair that is not of hexadecimal digits.
abbrev pub hex_bytes : List ℕ → List ℕ
hex_bytes (a ∷ b ∷ cs) = let rest = hex_bytes cs in hex_byte (hex_digit a) (hex_digit b) rest
hex_bytes _ = []

abbrev pub png_signature : List ℕ
png_signature = 137 ∷ 80 ∷ 78 ∷ 71 ∷ 13 ∷ 10 ∷ 26 ∷ 10 ∷ []

-- `requiredDirectory`
abbrev pub word_directory : List ℕ
word_directory = units "word/"

abbrev pub sheet_directory : List ℕ
sheet_directory = units "xl/"

abbrev pub slides_directory : List ℕ
slides_directory = units "ppt/"

-- `detectOfficeDocument`: the mark of a zip archive and the two names.
abbrev pub detect_office_document : List ℕ → List ℕ → AcceptedExtension → Result String
detect_office_document body required_directory extension =
    if not (starts_with (80 ∷ 75 ∷ []) body)
    then err bad_request
    else if not (includes (units "[Content_Types].xml") body)
        || not (includes required_directory body)
    then err bad_request
    else ok (accepted_file_mime_types extension)

abbrev pub accept_if : Bool → AcceptedExtension → Result String
accept_if true extension = ok (accepted_file_mime_types extension)
accept_if false extension = err bad_request

-- The test of `validateDeclaration` on a file name.
abbrev pub is_invalid_name : List ℕ → Bool
is_invalid_name name =
    length name == 0
    || ltb 255 (length name)
    || any (λ c. c == 47) name
    || any (λ c. c == 92) name
    || any (λ c. leb c 31 || c == 127) name

abbrev pub extension_of : (List ℕ → List ℕ) → String → Option AcceptedExtension
extension_of to_lower_case name = accepted_extension (to_lower_case (extname (units name)))

module _ (normalize trim : String → String) (to_lower_case : List ℕ → List ℕ) where
  -- `validateDeclaration`
  unfoldable pub validate_declaration : String → String → ℕ → Result Declaration
  validate_declaration input_name mime size =
      let name = trim (normalize input_name) in
      if is_invalid_name (units name)
      then err bad_request
      else if ltb size 1 || ltb file_max_size_bytes size
      then err bad_request
      else elim (extension_of to_lower_case name) [
        | none ↦ err bad_request
        | some extension ↦
            if not (str_eq mime (accepted_file_mime_types extension))
            then err bad_request
            else ok (record { file_name = name; mime_type = accepted_file_mime_types extension })
      ]

module _ (decode_utf8 : List ℕ → Option String) (parses_json : String → Bool) where
  -- The test of `detectTextDocument` on what the decoder gives.
  abbrev pub is_accepted_text : Option String → AcceptedExtension → Bool
  is_accepted_text none extension = false
  is_accepted_text (some text) json = parses_json text
  is_accepted_text (some text) extension = true

  -- `detectTextDocument`
  abbrev pub detect_text_document : List ℕ → AcceptedExtension → Result String
  detect_text_document body extension =
      if any (λ b. b == 0) body
      then err bad_request
      else accept_if (is_accepted_text (decode_utf8 body) extension) extension

  -- `detectMimeType`
  unfoldable pub detect_mime_type : List ℕ → AcceptedExtension → Result String
  detect_mime_type body pdf = accept_if (starts_with (units "%PDF-") body) pdf
  detect_mime_type body jpg = accept_if (starts_with (255 ∷ 216 ∷ 255 ∷ []) body) jpg
  detect_mime_type body jpeg = accept_if (starts_with (255 ∷ 216 ∷ 255 ∷ []) body) jpeg
  detect_mime_type body png = accept_if (starts_with png_signature body) png
  detect_mime_type body webp =
      accept_if (starts_with (units "RIFF") body && starts_with (units "WEBP") (drop 8 body)) webp
  detect_mime_type body docx = detect_office_document body word_directory docx
  detect_mime_type body xlsx = detect_office_document body sheet_directory xlsx
  detect_mime_type body pptx = detect_office_document body slides_directory pptx
  detect_mime_type body txt = detect_text_document body txt
  detect_mime_type body csv = detect_text_document body csv
  detect_mime_type body json = detect_text_document body json

module _ (to_lower_case : List ℕ → List ℕ) (sha256 : List ℕ → String)
    (decode_utf8 : List ℕ → Option String) (parses_json : String → Bool) where
  -- `validateObject`; a name without an accepted extension has no signature that is accepted.
  unfoldable pub validate_object : List ℕ → String → String → ℕ → String → Result String
  validate_object body name declared size checksum =
      if not (length body == size)
      then err bad_request
      else if not (same_units (hex_bytes (units (sha256 body))) (hex_bytes (units checksum)))
      then err bad_request
      else elim (extension_of to_lower_case name) [
        | none ↦ err bad_request
        | some extension ↦ elim (detect_mime_type decode_utf8 parses_json body extension) [
          | err e ↦ err e
          | ok detected ↦ if not (str_eq detected declared) then err bad_request else ok detected
        ]
      ]

  -- `FileValidationService`
  abbrev pub file_validation_service : (String → String) → (String → String) → Validation
  file_validation_service normalize trim = record {
    validate_declaration = validate_declaration normalize trim to_lower_case;
    validate_object = validate_object;
  }
