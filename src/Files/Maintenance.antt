-- ===== src/Files/Maintenance.antt =====
-- backend/src/files/file-maintenance.service.ts: the scan queue, the retries of lifecycle tags, the
-- purge of expired records and the clean-up of objects without a record. The timers that call these
-- and the log lines are not modelled. A run reads the clock as one time.
use shipflow.Common.{
  ℕ, ◌+◌, ◌-◌, ◌*◌, leb, Bool, true, false, ◌&&◌, ◌||◌, not, if◌then◌else◌, due, Option, none, some,
  List, ok, Action, pure, throw, gets, or_throw, catch, for_each, modify, ◌>>=◌, ◌>>◌, failure,
  take, any, length,
}
use shipflow.Database.{find_first, find_many, update_many, delete_many}
use shipflow.Database.Ordering.{order_by}
use shipflow.Files.{
  FileStatus, scanning, ready, deleted, rejected, purged, FileMalwareStatus, is_pending,
  is_scanning, is_purged, same_provider, StoredFile, ObjectKey, same_key, is_tag_retry,
  scan_unreadable, malware_detected, scan_incomplete, deletion_retry, file_scan_timeout_ms,
  file_stale_pending_ms, file_audit_retention_ms, ObjectStorageProvider, MalwareScanner,
  MalwareScanResult, LifecycleState, StoredObjectReference,
}
use shipflow.Files.{Store, set_files, by_id, tags, log_call, delete_call, update_file}

-- The place of a nullable time in ascending order: nulls come last.
abbrev pub before : (StoredFile → Option ℕ) → StoredFile → StoredFile → Bool
before time f g = elim (time f) [
  | none ↦ elim (time g) [ none ↦ true | some _ ↦ false ]
  | some t ↦ elim (time g) [ none ↦ true | some u ↦ leb t u ]
]

-- `updateMany` on one file that is still scanning.
unfoldable pub update_scanning : ℕ → (StoredFile → StoredFile) → Action Store (Unit {0})
update_scanning id change s =
    (ok tt, set_files (update_many (λ f. by_id id f && is_scanning f.status) change s.files) s)

abbrev pub scan_failed : FileMalwareStatus → ℕ → ℕ → StoredFile → StoredFile
scan_failed malware attempts now f = record f {
  status = FileStatus.failed;
  malware_status = malware;
  scan_attempts = attempts;
  scan_completed_at = some now;
  purge_after = some now;
  last_lifecycle_error = some scan_incomplete;
}

unfoldable pub fail_scan : ℕ → FileMalwareStatus → ℕ → ℕ → Action Store (Unit {0})
unfolding update_scanning
fail_scan id malware attempts now = update_scanning id (scan_failed malware attempts now)

abbrev pub scan_clean : ℕ → StoredFile → StoredFile
scan_clean now f = record f {
  status = ready;
  malware_status = FileMalwareStatus.clean;
  scan_completed_at = some now;
  last_lifecycle_error = none;
}

abbrev pub scan_infected : ℕ → StoredFile → StoredFile
scan_infected now f = record f {
  status = rejected;
  malware_status = FileMalwareStatus.infected;
  scan_completed_at = some now;
  purge_after = some now;
  last_lifecycle_error = some malware_detected;
}

-- The due purges: reservations that went stale, and files whose retention is over.
abbrev pub is_due : ℕ → StoredFile → Bool
is_due now f =
    is_pending f.status && leb (f.reservation_expires_at + file_stale_pending_ms) now
    || is_removed f.status && due f.purge_after now
  where
    is_removed : FileStatus → Bool
    is_removed deleted = true
    is_removed rejected = true
    is_removed FileStatus.failed = true
    is_removed _ = false

abbrev pub purge : ℕ → StoredFile → StoredFile
purge now f = record f {
  status = purged;
  purged_at = some now;
  audit_expires_at = some (now + file_audit_retention_ms);
  last_lifecycle_error = none;
}

-- The tag that a file's object should carry.
abbrev pub lifecycle_of : FileStatus → Option LifecycleState
lifecycle_of scanning = some LifecycleState.scanning
lifecycle_of ready = some LifecycleState.ready
lifecycle_of deleted = some LifecycleState.deleted
lifecycle_of rejected = some LifecycleState.rejected
lifecycle_of _ = none

module _ (storage : ObjectStorageProvider) (scanner : MalwareScanner) where
  -- `storage.setLifecycleState`, whose rejection is thrown on.
  unfoldable pub tag_call : ObjectKey → LifecycleState → Action Store (Unit {0})
  unfolding log_call
  tag_call key state = do
    log_call (tags key state)
    if storage.set_lifecycle_state key state then pure tt else throw failure

  -- `if (file) await this.storage.setLifecycleState(...)`
  unfoldable pub tag_file : ℕ → LifecycleState → Action Store (Unit {0})
  unfolding tag_call
  tag_file id state = do
    file ← gets (λ s. find_first (by_id id) s.files)
    elim file [ none ↦ pure tt | some f ↦ tag_call f.object_key state ]

  -- A scan without a verdict counts as an attempt; the third one fails the file.
  unfoldable pub count_attempt : ℕ → ℕ → FileMalwareStatus → ℕ → Action Store (Unit {0})
  unfolding fail_scan update_scanning
  count_attempt id attempts malware now =
      if leb 3 (attempts + 1)
      then fail_scan id malware (attempts + 1) now
      else update_scanning id
          (λ f. record f { malware_status = malware; scan_attempts = attempts + 1 })

  unfoldable pub apply_scan_result : ℕ → ℕ → ℕ → MalwareScanResult → Action Store (Unit {0})
  unfolding tag_file update_scanning count_attempt
  apply_scan_result id attempts now MalwareScanResult.clean = do
    tag_file id LifecycleState.ready
    update_scanning id (scan_clean now)
  apply_scan_result id attempts now MalwareScanResult.infected = do
    tag_file id LifecycleState.rejected
    update_scanning id (scan_infected now)
  apply_scan_result id attempts now MalwareScanResult.unsupported =
      count_attempt id attempts FileMalwareStatus.unsupported now
  apply_scan_result id attempts now MalwareScanResult.failed =
      count_attempt id attempts FileMalwareStatus.failed now

  -- The `catch` of the scan loop.
  unfoldable pub scan_thrown : ℕ → ℕ → ℕ → Action Store (Unit {0})
  unfolding fail_scan update_scanning
  scan_thrown id attempts now =
      if leb 3 (attempts + 1)
      then fail_scan id FileMalwareStatus.failed (attempts + 1) now
      else update_scanning id (λ f. record f {
        scan_attempts = attempts + 1;
        last_lifecycle_error = some scan_unreadable;
      })

  -- The body of the loop in `processScans`.
  unfoldable pub scan_file : ℕ → StoredFile → Action Store (Unit {0})
  unfolding fail_scan apply_scan_result scan_thrown
  scan_file now file =
      if elim file.uploaded_at [ none ↦ false | some u ↦ leb (u + file_scan_timeout_ms) now ]
      then fail_scan file.id FileMalwareStatus.failed (file.scan_attempts + 1) now
      else catch
          (do
            stored ← or_throw (storage.inspect_object file.object_key) failure
            result ← or_throw (scanner.scan stored.body) failure
            apply_scan_result file.id file.scan_attempts now result)
          (λ _. scan_thrown file.id file.scan_attempts now)

  -- The files that one round scans: the hundred that wait longest.
  unfoldable pub scan_queue : List StoredFile → List StoredFile
  scan_queue files = take 100 (
      order_by (before (λ f. f.uploaded_at)) (
        find_many (λ f. same_provider f.storage_provider storage.provider && is_scanning f.status)
          files))

  unfoldable pub process_scans : ℕ → Action Store (Unit {0})
  unfolding scan_file scan_queue
  process_scans now =
      if not scanner.enabled
      then pure tt
      else do files ← gets (λ s. scan_queue s.files); for_each files (scan_file now)

  unfoldable pub retry_tag : StoredFile → Action Store (Unit {0})
  unfolding tag_call update_file
  retry_tag file = elim (lifecycle_of file.status) [
    | none ↦ pure tt
    | some state ↦
        catch
          (do
            tag_call file.object_key state
            update_file file.id (λ f. record f { last_lifecycle_error = none })
            pure tt)
          (λ _. pure tt)
  ]

  -- The files whose tag could not be written, a hundred at a time.
  unfoldable pub tag_queue : List StoredFile → List StoredFile
  tag_queue files = take 100 (
      find_many
        (λ f.
          same_provider f.storage_provider storage.provider
          && (is_tag_retry f.last_lifecycle_error
              && elim (lifecycle_of f.status) [ none ↦ false | some _ ↦ true ]))
        files)

  unfoldable pub retry_lifecycle_tags : Action Store (Unit {0})
  unfolding retry_tag tag_queue
  retry_lifecycle_tags = do files ← gets (λ s. tag_queue s.files); for_each files retry_tag

  unfoldable pub purge_file : ℕ → StoredFile → Action Store (Unit {0})
  unfolding delete_call update_file
  purge_file now file =
      catch (do delete_call storage file.object_key; update_file file.id (purge now); pure tt)
        (λ _. do
          update_file file.id (λ f. record f { last_lifecycle_error = some deletion_retry })
          pure tt)

  unfoldable pub purge_queue : ℕ → List StoredFile → List StoredFile
  purge_queue now files = take 100 (
      order_by (before (λ f. some f.created_at))
        (find_many (λ f. same_provider f.storage_provider storage.provider && is_due now f) files))

  unfoldable pub purge_expired_records : ℕ → Action Store (Unit {0})
  unfolding purge_file purge_queue
  purge_expired_records now = do
    files ← gets (λ s. purge_queue now s.files)
    for_each files (purge_file now)

  -- `deleteMany` of the purged records whose audit retention is over.
  unfoldable pub drop_audited : ℕ → Action Store (Unit {0})
  drop_audited now =
      modify λ s.
        set_files (delete_many (λ f. is_purged f.status && due f.audit_expires_at now) s.files) s

  -- One run; `running` is set while another is under way.
  unfoldable pub maintain : Bool → ℕ → Action Store (Unit {0})
  unfolding process_scans retry_lifecycle_tags purge_expired_records drop_audited
  maintain running now =
      if running
      then pure tt
      else catch
          (do process_scans now; retry_lifecycle_tags; purge_expired_records now; drop_audited now)
          (λ _. pure tt)

  -- The keys of the objects that are a day old and that no record of this store names.
  unfoldable pub orphans :
      ℕ → List StoredObjectReference → List StoredFile → List StoredObjectReference
  orphans now objects files =
      find_many
        (λ r.
          due r.last_modified (now - 24 * 60 * 60 * 1000)
          && not (
              any
                (λ f.
                  same_provider f.storage_provider storage.provider && same_key f.object_key r.key)
                files))
        objects

  unfoldable pub reconcile_orphans : ℕ → Action Store ℕ
  unfolding orphans delete_call
  reconcile_orphans now =
      catch
        (do
          objects ← or_throw storage.list_objects failure
          found ← gets (λ s. orphans now objects s.files)
          for_each found (λ r. delete_call storage r.key)
          pure (length found))
        (λ _. pure 0)
