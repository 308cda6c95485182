-- ===== src/Files/Changes.antt =====
-- The pure parts of the methods of backend/src/files/files.service.ts: the quota check, the row that a
-- reservation creates, the checks of an uploaded object, and what each method writes into a row.
use shipflow.Common.{
  ℕ, ◌+◌, ltb, leb, ◌==◌, false, ◌&&◌, ◌||◌, not, if◌then◌else◌, none, some, List, String, str_eq,
  Result, ok, err, Error, bad_request, conflict,
}
use shipflow.Database.{count, sum_of}
use shipflow.Files.{
  FileStatus, scanning, ready, deleted, rejected, purged, FileMalwareStatus, not_required,
  unsupported, StoredFile, malware_pending, Quota, file_reservation_ttl_ms, file_audit_retention_ms,
  file_soft_delete_retention_ms, file_failed_retention_ms, file_max_active_reservations_per_user,
  file_max_active_reservations_per_organization, target_failed, rejected_upload, object,
  ObjectStorageProvider, MalwareScanner, Validation, StoredObject, holds_space, is_reserved,
}

-- `InitiateFileUploadDto`
pub record InitiateFileUpload : Type 0 where
  pub file_name : String
  pub mime_type : String
  pub size_bytes : ℕ
  pub checksum_sha256 : String

-- The quota and reservation checks of the transaction in `initiateUpload`.
unfoldable pub check_quota : ℕ → ℕ → Quota → ℕ → ℕ → List StoredFile → Result (Unit {0})
check_quota organization user quota size now files =
    let used_bytes = sum_of (λ f. f.size_bytes) (holds_space organization now) files in
    let used_files = count (holds_space organization now) files in
    let organization_reservations = count (is_reserved organization now) files in
    let user_reservations =
      count (λ f. is_reserved organization now f && f.uploaded_by_id == user) files in
    if ltb quota.max_bytes (used_bytes + size) || ltb quota.max_files (used_files + 1)
    then err conflict
    else if leb file_max_active_reservations_per_organization organization_reservations
        || leb file_max_active_reservations_per_user user_reservations
    then err conflict
    else ok tt

-- The row that `initiateUpload` creates, with the column defaults of the schema.
abbrev pub new_file :
    ObjectStorageProvider
    → MalwareScanner
    → ℕ
    → ℕ
    → InitiateFileUpload
    → ℕ
    → ℕ
    → String
    → String
    → StoredFile
new_file storage scanner organization user dto id now name mime = record {
  id = id;
  organization_id = organization;
  uploaded_by_id = user;
  storage_provider = storage.provider;
  object_key = object organization id;
  original_name = name;
  declared_mime_type = mime;
  detected_mime_type = none;
  size_bytes = dto.size_bytes;
  checksum_sha256 = dto.checksum_sha256;
  status = FileStatus.pending;
  malware_status = if scanner.enabled then FileMalwareStatus.pending else not_required;
  scan_attempts = 0;
  reservation_expires_at = now + file_reservation_ttl_ms;
  uploaded_at = none;
  scan_completed_at = none;
  deleted_at = none;
  purge_after = none;
  purged_at = none;
  audit_expires_at = none;
  last_lifecycle_error = none;
  created_at = now;
}

-- The checks of an inspected object in `completeUpload`: the type it was stored with, if it has
-- one, and its content.
unfoldable pub validate_upload : Validation → StoredFile → StoredObject → Result String
validate_upload validation file stored =
    if elim stored.content_type [
      | none ↦ false
      | some t ↦ not (str_eq t "") && not (str_eq t file.declared_mime_type)
    ]
    then err bad_request
    else validation.validate_object stored.body file.original_name file.declared_mime_type
        file.size_bytes file.checksum_sha256

-- The update of a reservation for which there is no upload target.
abbrev pub give_up : ℕ → StoredFile → StoredFile
give_up now f = record f {
  status = FileStatus.failed;
  purge_after = some now;
  last_lifecycle_error = some target_failed;
}

-- The update of a rejected upload.
abbrev pub reject_upload : Error → ℕ → ℕ → StoredFile → StoredFile
reject_upload error uploaded purge f = record f {
  status = rejected;
  malware_status = unsupported;
  uploaded_at = some uploaded;
  purge_after = some (purge + file_failed_retention_ms);
  last_lifecycle_error = some (rejected_upload error);
}

-- The update of an accepted upload.
abbrev pub accept_upload : MalwareScanner → String → ℕ → StoredFile → StoredFile
accept_upload scanner mime uploaded f = record f {
  detected_mime_type = some mime;
  uploaded_at = some uploaded;
  status = if scanner.enabled then scanning else ready;
  malware_status = if scanner.enabled then FileMalwareStatus.pending else not_required;
  scan_completed_at = if scanner.enabled then none else some uploaded;
  last_lifecycle_error = none;
}

-- The update of a reservation that is deleted.
abbrev pub purge_reservation : ℕ → StoredFile → StoredFile
purge_reservation now f = record f {
  status = purged;
  purged_at = some now;
  audit_expires_at = some (now + file_audit_retention_ms);
}

-- The update of an uploaded file that is deleted.
abbrev pub soft_delete : ℕ → StoredFile → StoredFile
soft_delete now f = record f {
  status = deleted;
  deleted_at = some now;
  purge_after = some (now + file_soft_delete_retention_ms);
}

-- The update of a deleted file that is restored.
abbrev pub restore : FileMalwareStatus → StoredFile → StoredFile
restore malware f = record f {
  status = if malware_pending malware then scanning else ready;
  deleted_at = none;
  purge_after = none;
}
