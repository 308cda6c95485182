-- ===== src/Files/Rows.antt =====
-- The reads and writes that the methods of `FilesService` share.
use shipflow.Common.{
  ℕ, ltb, ◌==◌, Bool, ◌&&◌, ◌||◌, not, if◌then◌else◌, or_else, Option, none, some, List, ◌∷◌,
  String, Action, ok, err, pure, or_throw, ◌>>◌, not_found, missing_row, unique_violation, failure,
  any,
}
use shipflow.Database.{find_first, update_many}
use shipflow.Files.Model.{
  FileStatus, FileMalwareStatus, FileStorageProvider, StoredFile, is_pending, is_scanning, is_ready,
  is_deleted, is_purged, ObjectKey, same_key, tag_retry,
}
use shipflow.Files.Storage.{ObjectStorageProvider, LifecycleState}

-- A write to the object store, whether the store took it or not.
pub data StorageCall : Type 0 where
  puts : ObjectKey → List ℕ → String → StorageCall
  deletes : ObjectKey → StorageCall
  tags : ObjectKey → LifecycleState → StorageCall

pub record Store : Type 0 where
  pub files : List StoredFile
  pub calls : List StorageCall

abbrev pub by_id : ℕ → StoredFile → Bool
by_id id f = f.id == id

-- `retainedFileStatuses`
abbrev pub is_retained : FileStatus → Bool
is_retained s = is_scanning s || is_ready s || is_deleted s

-- The pending files whose reservation is active.
abbrev pub is_reserved : ℕ → ℕ → StoredFile → Bool
is_reserved organization now f =
    f.organization_id == organization && (is_pending f.status && ltb now f.reservation_expires_at)

-- The files that count towards the quota of an organization.
abbrev pub holds_space : ℕ → ℕ → StoredFile → Bool
holds_space organization now f =
    f.organization_id == organization
    && (is_retained f.status || (is_pending f.status && ltb now f.reservation_expires_at))

abbrev pub set_files : List StoredFile → Store → Store
set_files files s = record s { files = files }

-- `storedFile.update`: the row as it is after the update.
unfoldable pub update_file : ℕ → (StoredFile → StoredFile) → Action Store StoredFile
update_file id change s = elim (find_first (by_id id) s.files) [
  | none ↦ (err missing_row, s)
  | some f ↦ (ok (change f), set_files (update_many (by_id id) change s.files) s)
]

-- `storedFile.create`; the id is the primary key, and the key of an object is unique.
unfoldable pub create_file : StoredFile → Action Store StoredFile
create_file f s =
    if any (λ g. by_id f.id g || same_key g.object_key f.object_key) s.files
    then (err unique_violation, s)
    else (ok f, set_files (f ∷ s.files) s)

unfoldable pub log_call : StorageCall → Action Store (Unit {0})
log_call call s = (ok tt, record s { calls = call ∷ s.calls })

-- `storage.deleteObject`, whose rejection is thrown on.
unfoldable pub delete_call : ObjectStorageProvider → ObjectKey → Action Store (Unit {0})
unfolding log_call
delete_call storage key = do
  log_call (deletes key)
  if storage.delete_object key then pure tt else (λ s. (err failure, s))

unfoldable pub sync_lifecycle_state :
    ObjectStorageProvider → ℕ → ObjectKey → LifecycleState → Action Store (Unit {0})
unfolding log_call
sync_lifecycle_state storage id key state = do
  log_call (tags key state)
  if storage.set_lifecycle_state key state
      then pure tt
      else do update_file id (λ f. record f { last_lifecycle_error = some tag_retry }); pure tt

unfoldable pub find_scoped_file : ℕ → ℕ → Action Store StoredFile
find_scoped_file organization id s =
    or_throw
      (find_first
        (λ f. by_id id f && (f.organization_id == organization && not (is_purged f.status)))
        s.files)
      not_found s

pub record FileResponse : Type 0 where
  pub id : ℕ
  pub organization_id : ℕ
  pub original_name : String
  pub mime_type : String
  pub size_bytes : ℕ
  pub status : FileStatus
  pub malware_status : FileMalwareStatus
  pub storage_provider : FileStorageProvider
  pub uploaded_by : ℕ
  pub uploaded_at : Option ℕ
  pub deleted_at : Option ℕ
  pub created_at : ℕ

abbrev pub map_file : StoredFile → FileResponse
map_file file = record {
  id = file.id;
  organization_id = file.organization_id;
  original_name = file.original_name;
  mime_type = or_else file.detected_mime_type file.declared_mime_type;
  size_bytes = file.size_bytes;
  status = file.status;
  malware_status = file.malware_status;
  storage_provider = file.storage_provider;
  uploaded_by = file.uploaded_by_id;
  uploaded_at = file.uploaded_at;
  deleted_at = file.deleted_at;
  created_at = file.created_at;
}
