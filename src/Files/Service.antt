-- ===== src/Files/Service.antt =====
-- backend/src/files/files.service.ts. The store of a call is the table of files with the writes to
-- the object store so far, newest first. The clock's readings are arguments, in the order in which a
-- call makes them, and so is the id that `randomUUID` gives.
use shipflow.Common.{
  ℕ, ◌+◌, ◌*◌, leb, ◌&&◌, ◌||◌, not, if◌then◌else◌, or_else, none, some, String, Result, ok, err,
  Action, pure, throw, gets, or_throw, lift, transaction, throw_if, ◌>>=◌, ◌>>◌, bad_request,
  conflict, service_unavailable,
}
use shipflow.Files.{
  StoredFile, is_pending, is_scanning, is_ready, is_deleted, malware_pending, Quota, PlanCode,
  file_plan_quotas, file_upload_url_ttl_seconds, ObjectStorageProvider, MalwareScanner, Validation,
  LifecycleState, Store, update_file, create_file, delete_call, sync_lifecycle_state,
  find_scoped_file, FileResponse, map_file,
}
use shipflow.Files.Changes.{
  InitiateFileUpload, check_quota, new_file, validate_upload, reject_upload, accept_upload,
  purge_reservation, soft_delete, restore, give_up,
}

module _ (storage : ObjectStorageProvider) (scanner : MalwareScanner)
    (validation : Validation) where
  -- The transaction of `initiateUpload`.
  unfoldable pub reserve :
      ℕ → ℕ → Quota → InitiateFileUpload → ℕ → ℕ → String → String → Action Store StoredFile
  unfolding check_quota
  reserve organization user quota dto id now name mime = transaction (do
    files ← gets (λ s. s.files)
    lift (check_quota organization user quota dto.size_bytes now files)
    create_file (new_file storage scanner organization user dto id now name mime))

  -- The end of `initiateUpload`: the upload target, or the reservation given up.
  unfoldable pub open_target : StoredFile → ℕ → ℕ → Action Store (FileResponse × String)
  open_target file target_now failed_now =
      elim (storage.create_upload_target file.object_key
        (target_now + file_upload_url_ttl_seconds * 1000)) [
          | some upload ↦ pure (map_file file, upload)
          | none ↦ do update_file file.id (give_up failed_now); throw service_unavailable
        ]

  -- `plan` is the plan of the organization's billing snapshot.
  unfoldable pub initiate_upload :
      ℕ → ℕ → PlanCode → InitiateFileUpload → ℕ → ℕ → ℕ → ℕ → Action Store (FileResponse × String)
  unfolding reserve open_target
  initiate_upload organization user plan dto id now target_now failed_now = do
    declaration ← lift (validation.validate_declaration dto.file_name dto.mime_type dto.size_bytes)
    file ←
        reserve organization user (file_plan_quotas plan) dto id now declaration.file_name
          declaration.mime_type
    open_target file target_now failed_now

  -- The end of `completeUpload`, by what the checks of the object gave.
  unfoldable pub settle_upload : StoredFile → Result String → ℕ → ℕ → Action Store FileResponse
  settle_upload file (err error) uploaded purge = do
    update_file file.id (reject_upload error uploaded purge)
    sync_lifecycle_state storage file.id file.object_key LifecycleState.rejected
    throw error
  settle_upload file (ok mime) uploaded purge = do
    updated ← update_file file.id (accept_upload scanner mime uploaded)
    sync_lifecycle_state storage file.id file.object_key
        (if scanner.enabled then LifecycleState.scanning else LifecycleState.ready)
    pure (map_file updated)

  -- `completeUpload` on the file that it has found.
  unfoldable pub complete_found : StoredFile → ℕ → ℕ → ℕ → Action Store FileResponse
  unfolding validate_upload settle_upload
  complete_found file now uploaded purge = do
    if is_ready file.status || is_scanning file.status then pure (map_file file) else do
      throw_if (not (is_pending file.status)) conflict
      throw_if (leb file.reservation_expires_at now) conflict
      stored ← or_throw (storage.inspect_object file.object_key) bad_request
      settle_upload file (validate_upload validation file stored) uploaded purge

  unfoldable pub complete_upload : ℕ → ℕ → ℕ → ℕ → ℕ → Action Store FileResponse
  unfolding complete_found
  complete_upload organization id now uploaded purge = do
    file ← find_scoped_file organization id
    complete_found file now uploaded purge

  -- `deleteFile` on the file that it has found.
  unfoldable pub delete_found : StoredFile → ℕ → Action Store FileResponse
  delete_found file now = do
    if is_deleted file.status
        then pure (map_file file)
        else if is_pending file.status
        then (do
          delete_call storage file.object_key
          gone ← update_file file.id (purge_reservation now)
          pure (map_file gone))
        else do
          throw_if (not (is_ready file.status) && not (is_scanning file.status)) conflict
          kept ← update_file file.id (soft_delete now)
          sync_lifecycle_state storage file.id file.object_key LifecycleState.deleted
          pure (map_file kept)

  unfoldable pub delete_file : ℕ → ℕ → ℕ → Action Store FileResponse
  unfolding delete_found
  delete_file organization id now = do
    file ← find_scoped_file organization id
    delete_found file now

  -- `restoreFile` on the file that it has found.
  unfoldable pub restore_found : StoredFile → ℕ → Action Store FileResponse
  restore_found file now = do
    throw_if (not (is_deleted file.status)) conflict
    purge_after ← or_throw file.purge_after conflict
    throw_if (leb purge_after now) conflict
    restored ← update_file file.id (restore file.malware_status)
    sync_lifecycle_state storage file.id file.object_key (
        if malware_pending file.malware_status
        then LifecycleState.scanning
        else LifecycleState.ready)
    pure (map_file restored)

  unfoldable pub restore_file : ℕ → ℕ → ℕ → Action Store FileResponse
  unfolding restore_found
  restore_file organization id now = do
    file ← find_scoped_file organization id
    restore_found file now

  unfoldable pub create_download_target : ℕ → ℕ → Action Store String
  create_download_target organization id = do
    file ← find_scoped_file organization id
    throw_if (not (is_ready file.status)) conflict
    or_throw
        (storage.create_download_target file.object_key file.original_name
          (or_else file.detected_mime_type file.declared_mime_type))
        service_unavailable
