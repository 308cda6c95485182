-- ===== src/Files/Local.antt =====
-- The uploads and downloads of backend/src/files/files.service.ts that go through the service itself, when
-- the files are kept on its own disk.
pub mod Stored
use shipflow.Common.{
  ℕ, ltb, ◌==◌, Bool, true, false, ◌&&◌, ◌||◌, not, if◌then◌else◌, or_else, Option, none, some,
  List, String, str_eq, Result, ok, err, Action, pure, or_throw, lift, throw_if, ◌>>=◌, ◌>>◌,
  bad_request, conflict, not_found, failure,
}
use shipflow.Database.{find_first}
use shipflow.Files.{
  StoredFile, is_pending, is_ready, is_local, ObjectKey, ObjectStorageProvider, SignedAction,
  Validation, by_id, Store, StorageCall, log_call,
}

-- The file that a request brings.
pub record LocalUpload : Type 0 where
  pub buffer : List ℕ
  pub mimetype : String
  pub size : ℕ

pub record LocalDownload : Type 0 where
  pub body : List ℕ
  pub file_name : String
  pub content_type : String

abbrev pub is_local_file : ℕ → StoredFile → Bool
is_local_file id f = by_id id f && is_local f.storage_provider

unfoldable pub find_local_file : ℕ → Action Store StoredFile
find_local_file id s = or_throw (find_first (is_local_file id) s.files) not_found s

-- `storage.putObject`, whose rejection is thrown on.
unfoldable pub put_call :
    ObjectStorageProvider → ObjectKey → List ℕ → String → Action Store (Unit {0})
unfolding log_call
put_call storage key body type = do
  log_call (StorageCall.puts key body type)
  if storage.put_object key body then pure tt else (λ s. (err failure, s))

module _ (storage : ObjectStorageProvider) (validation : Validation) where
  -- `storeLocalUpload` on the file that it has found.
  unfoldable pub store_found : StoredFile → ℕ → String → LocalUpload → ℕ → Action Store (Unit {0})
  unfolding put_call
  store_found file expires signature given now = do
    throw_if
        (not (storage.verify_local_signature SignedAction.upload file.object_key expires signature))
        bad_request
    throw_if (not (is_pending file.status) || ltb file.reservation_expires_at now) conflict
    throw_if
        (not (str_eq given.mimetype file.declared_mime_type) || not (given.size == file.size_bytes))
        bad_request
    lift (
        validation.validate_object given.buffer file.original_name file.declared_mime_type
          file.size_bytes file.checksum_sha256)
    put_call storage file.object_key given.buffer file.declared_mime_type

  unfoldable pub store_local_upload : ℕ → ℕ → String → LocalUpload → ℕ → Action Store (Unit {0})
  unfolding store_found find_local_file
  store_local_upload id expires signature given now = do
    throw_if (not (is_local storage.provider)) not_found
    file ← find_local_file id
    store_found file expires signature given now

  unfoldable pub read_local_download : ℕ → ℕ → String → Action Store LocalDownload
  unfolding find_local_file
  read_local_download id expires signature = do
    throw_if (not (is_local storage.provider)) not_found
    file ← find_local_file id
    throw_if
        (not
          (storage.verify_local_signature SignedAction.download file.object_key expires signature))
        bad_request
    throw_if (not (is_ready file.status)) not_found
    stored ← or_throw (storage.inspect_object file.object_key) failure
    pure (record {
      body = stored.body;
      file_name = file.original_name;
      content_type = or_else file.detected_mime_type file.declared_mime_type;
    })
