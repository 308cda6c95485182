-- ===== src/Files/Model.antt =====
-- The row of `StoredFile` (backend/prisma/schema.prisma), its enums, and the limits of
-- backend/src/files/file.constants.ts. Ids are only compared, so they are numbers; a time is a
-- number of milliseconds. `updatedAt` is not kept.
use shipflow.Common.{ℕ, ◌*◌, ◌==◌, Bool, true, false, ◌&&◌, Option, some, String, Error}

pub data FileStatus : Type 0 where
  pending scanning ready deleted rejected failed purged : FileStatus

pub data FileMalwareStatus : Type 0 where
  not_required pending clean infected unsupported failed : FileMalwareStatus

pub data FileStorageProvider : Type 0 where
  local s3 : FileStorageProvider

abbrev pub is_pending : FileStatus → Bool
is_pending FileStatus.pending = true
is_pending _ = false

abbrev pub is_scanning : FileStatus → Bool
is_scanning scanning = true
is_scanning _ = false

abbrev pub is_ready : FileStatus → Bool
is_ready ready = true
is_ready _ = false

abbrev pub is_deleted : FileStatus → Bool
is_deleted deleted = true
is_deleted _ = false

abbrev pub is_purged : FileStatus → Bool
is_purged purged = true
is_purged _ = false

abbrev pub same_status : FileStatus → FileStatus → Bool
same_status a b = rank a == rank b
  where
    rank : FileStatus → ℕ
    rank FileStatus.pending = 0
    rank scanning = 1
    rank ready = 2
    rank deleted = 3
    rank rejected = 4
    rank FileStatus.failed = 5
    rank purged = 6

abbrev pub malware_pending : FileMalwareStatus → Bool
malware_pending FileMalwareStatus.pending = true
malware_pending _ = false

abbrev pub is_local : FileStorageProvider → Bool
is_local local = true
is_local s3 = false

abbrev pub same_provider : FileStorageProvider → FileStorageProvider → Bool
same_provider local p = is_local p
same_provider s3 local = false
same_provider s3 s3 = true

-- `objects/${organizationId}/${fileId}`, or the key of some other object of the store.
pub data ObjectKey : Type 0 where
  object : ℕ → ℕ → ObjectKey
  foreign : ℕ → ObjectKey

abbrev pub same_key : ObjectKey → ObjectKey → Bool
same_key (object o f) (object p g) = o == p && f == g
same_key (foreign n) (foreign m) = n == m
same_key (object o f) (foreign m) = false
same_key (foreign n) (object p g) = false

-- The texts that the services write into `lastLifecycleError`.
pub data LifecycleError : Type 0 where
  target_failed tag_retry scan_unreadable malware_detected scan_incomplete deletion_retry :
      LifecycleError
  rejected_upload : Error → LifecycleError

abbrev pub is_tag_retry : Option LifecycleError → Bool
is_tag_retry (some tag_retry) = true
is_tag_retry _ = false

pub record StoredFile : Type 0 where
  pub id : ℕ
  pub organization_id : ℕ
  pub uploaded_by_id : ℕ
  pub storage_provider : FileStorageProvider
  pub object_key : ObjectKey
  pub original_name : String
  pub declared_mime_type : String
  pub detected_mime_type : Option String
  pub size_bytes : ℕ
  pub checksum_sha256 : String
  pub status : FileStatus
  pub malware_status : FileMalwareStatus
  pub scan_attempts : ℕ
  pub reservation_expires_at : ℕ
  pub uploaded_at : Option ℕ
  pub scan_completed_at : Option ℕ
  pub deleted_at : Option ℕ
  pub purge_after : Option ℕ
  pub purged_at : Option ℕ
  pub audit_expires_at : Option ℕ
  pub last_lifecycle_error : Option LifecycleError
  pub created_at : ℕ

abbrev pub file_max_size_bytes : ℕ
file_max_size_bytes = 25 * 1024 * 1024

abbrev pub file_upload_url_ttl_seconds : ℕ
file_upload_url_ttl_seconds = 10 * 60

abbrev pub file_reservation_ttl_ms : ℕ
file_reservation_ttl_ms = 15 * 60 * 1000

abbrev pub file_stale_pending_ms : ℕ
file_stale_pending_ms = 60 * 60 * 1000

abbrev pub file_scan_timeout_ms : ℕ
file_scan_timeout_ms = 24 * 60 * 60 * 1000

abbrev pub file_soft_delete_retention_ms : ℕ
file_soft_delete_retention_ms = 30 * 24 * 60 * 60 * 1000

abbrev pub file_audit_retention_ms : ℕ
file_audit_retention_ms = 90 * 24 * 60 * 60 * 1000

abbrev pub file_failed_retention_ms : ℕ
file_failed_retention_ms = 24 * 60 * 60 * 1000

abbrev pub file_max_active_reservations_per_user : ℕ
file_max_active_reservations_per_user = 5

abbrev pub file_max_active_reservations_per_organization : ℕ
file_max_active_reservations_per_organization = 20

pub data PlanCode : Type 0 where
  free pro : PlanCode

pub record Quota : Type 0 where
  pub max_bytes : ℕ
  pub max_files : ℕ

-- `FILE_PLAN_QUOTAS`
abbrev pub file_plan_quotas : PlanCode → Quota
file_plan_quotas free = record { max_bytes = 100 * 1024 * 1024; max_files = 100 }
file_plan_quotas pro = record { max_bytes = 10 * 1024 * 1024 * 1024; max_files = 10_000 }
