-- ===== src/Files/UploadTests.antt =====
-- Runs of the content checks and of the uploads to the service itself on small examples.
use shipflow.Common.{
  ℕ, Bool, true, Option, none, some, List, [], ◌∷◌, String, ok, err, ◌≡◌, refl, length, ◌*◌, ◌≤◌,
}
use shipflow.Common.Error.{bad_request}
use shipflow.Database.{find_first}
use shipflow.Files.{
  Declaration, StoredFile, FileStatus, not_required, local, object, is_pending,
  ObjectStorageProvider, SignedAction, Validation, Store, log_call,
}
use shipflow.Files.ContentValidation.{
  units, extname, hex_bytes, validate_declaration, detect_mime_type, validate_object,
  file_validation_service,
}
use shipflow.Files.ContentValidation.Accepted.{Fits, validate_object-validate_declaration}
use shipflow.Files.Local.{
  LocalUpload, is_local_file, find_local_file, put_call, store_found, store_local_upload,
}
use shipflow.Files.Local.Stored.{IsAccepted, with_object, store_local_upload_only}

-- Texts that stay as they are, one digest for every body, and no text.
abbrev same : String → String
same s = s

abbrev same_case : List ℕ → List ℕ
same_case s = s

abbrev digest : List ℕ → String
digest body = "ab"

abbrev no_text : List ℕ → Option String
no_text body = none

abbrev parses : String → Bool
parses text = true

abbrev pdf_body : List ℕ
pdf_body = units "%PDF-1.7"

abbrev declaration : Declaration
declaration = record { file_name = "a.pdf"; mime_type = "application/pdf" }

extname_last : extname (units "a.tar.gz") ≡ units ".gz"
extname_last = refl

extname_hidden : extname (units ".pdf") ≡ []
extname_hidden = refl

hex_bytes_ends : hex_bytes (units "0aFFx100") ≡ 10 ∷ 255 ∷ []
hex_bytes_ends = refl

declares : validate_declaration same same same_case "a.pdf" "application/pdf" 8 ≡ ok declaration
unfolding validate_declaration
declares = refl

refuses_a_path :
    validate_declaration same same same_case "b/a.pdf" "application/pdf" 8 ≡ err bad_request
unfolding validate_declaration
refuses_a_path = refl

accepts :
    validate_object same_case digest no_text parses pdf_body "a.pdf" "application/pdf" 8 "AB"
    ≡ ok "application/pdf"
unfolding validate_object detect_mime_type
accepts = refl

validate_object-validate_declaration_example :
    (◌≡◌ {A = String} "application/pdf" "application/pdf")
    × (1 ≤ length pdf_body)
    × (length pdf_body ≤ 25 * 1024 * 1024)
    × (length pdf_body ≡ 8)
    × Fits same_case digest no_text parses pdf_body "a.pdf" "application/pdf" "AB"
validate_object-validate_declaration_example =
    validate_object-validate_declaration same_case digest no_text parses same same "a.pdf"
      "application/pdf" "AB" "application/pdf" 8 declaration pdf_body declares accepts

abbrev disk : ObjectStorageProvider
disk = record {
  provider = local;
  create_upload_target = λ _ _. some "upload";
  verify_local_signature = λ _ _ _ _. true;
  put_object = λ _ _. true;
  inspect_object = λ _. none;
  create_download_target = λ _ _ _. some "download";
  delete_object = λ _. true;
  list_objects = some [];
  set_lifecycle_state = λ _ _. true;
}

abbrev checks : Validation
checks = file_validation_service same_case digest no_text parses same same

abbrev awaited : StoredFile
awaited = record {
  id = 5;
  organization_id = 7;
  uploaded_by_id = 1;
  storage_provider = local;
  object_key = object 7 5;
  original_name = "a.pdf";
  declared_mime_type = "application/pdf";
  detected_mime_type = none;
  size_bytes = 8;
  checksum_sha256 = "AB";
  status = FileStatus.pending;
  malware_status = not_required;
  scan_attempts = 0;
  reservation_expires_at = 2000;
  uploaded_at = none;
  scan_completed_at = none;
  deleted_at = none;
  purge_after = none;
  purged_at = none;
  audit_expires_at = none;
  last_lifecycle_error = none;
  created_at = 1000;
}

abbrev brought : LocalUpload
brought = record { buffer = pdf_body; mimetype = "application/pdf"; size = 8 }

abbrev waiting : Store
waiting = record { files = awaited ∷ []; calls = [] }

stores : (store_local_upload disk checks 5 3000 "s" brought 1500 waiting).0 ≡ ok tt
unfolding store_local_upload find_local_file store_found put_call log_call validate_object
    detect_mime_type
stores = refl

store_local_upload_only_example :
    (f : StoredFile) × (find_first (is_local_file 5) waiting.files ≡ some f)
    × (disk.verify_local_signature SignedAction.upload f.object_key 3000 "s" ≡ true)
    × (is_pending f.status ≡ true)
    × (1500 ≤ f.reservation_expires_at)
    × IsAccepted disk checks f brought
    × ((store_local_upload disk checks 5 3000 "s" brought 1500 waiting).1
        ≡ with_object disk checks f brought waiting)
store_local_upload_only_example =
    store_local_upload_only disk checks 5 3000 "s" brought 1500 waiting stores
