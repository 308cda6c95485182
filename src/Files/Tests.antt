-- ===== src/Files/Tests.antt =====
-- Runs of the file services on small tables, and the theorems about them at those tables.
use shipflow.Common.{any, false, ◌≡◌, refl, true, none, some, List, [], ◌∷◌, ok}
use shipflow.Database.{find_first}
use shipflow.Files.{
  scanning, ready, deleted, FileMalwareStatus, local, StoredFile, by_id, Store,
  ObjectStorageProvider, MalwareScanner, MalwareScanResult, Validation, free, file_plan_quotas,
  create_file,
}
use shipflow.Files.Changes.{InitiateFileUpload, check_quota, new_file}
use shipflow.Files.Service.{reserve}
use shipflow.Files.Maintenance.{scan_file}
use shipflow.Files.Limits.{IsWithin, reserve-IsWithin}
use shipflow.Files.Verdicts.{GivesUp, scan_file-GivesUp}
use shipflow.Files.History.{
  Call, Request, completes, deletes, restores, maintains, reconciles, run, run-IsSound,
}
use shipflow.Files.Sound.{IsSound}
use shipflow.Files.Orphans.{deletes_object, reconcile_orphans-spares}
use shipflow.Files.Purges.{purge_expired_records-spares}
use shipflow.Files.Maintenance.{reconcile_orphans, orphans, purge_expired_records}
use shipflow.Files.{StorageCall, delete_call, log_call, object}

-- A store that takes every call and holds the three bytes 1, 2, 3 for every key.
abbrev storage : ObjectStorageProvider
storage = record {
  provider = local;
  create_upload_target = λ _ _. some "upload";
  verify_local_signature = λ _ _ _ _. true;
  put_object = λ _ _. true;
  inspect_object = λ _. some (record { body = 1 ∷ 2 ∷ 3 ∷ []; content_type = none });
  create_download_target = λ _ _ _. some "download";
  delete_object = λ _. true;
  list_objects = some [];
  set_lifecycle_state = λ _ _. true;
}

-- A scanner that knows no format.
abbrev scanner : MalwareScanner
scanner = record { enabled = true; scan = λ _. some MalwareScanResult.unsupported }

abbrev validation : Validation
validation = record {
  validate_declaration = λ name mime _. ok (record { file_name = name; mime_type = mime });
  validate_object = λ _ _ mime _ _. ok mime;
}

abbrev upload : InitiateFileUpload
upload = record {
  file_name = "a.txt";
  mime_type = "text/plain";
  size_bytes = 3;
  checksum_sha256 = "c";
}

abbrev fresh : StoredFile
fresh = new_file storage scanner 7 1 upload 5 1000 "a.txt" "text/plain"

abbrev being_scanned : StoredFile
being_scanned = record fresh { status = scanning; uploaded_at = some 2000 }

abbrev thrown_away : StoredFile
thrown_away = record being_scanned {
  status = deleted;
  malware_status = FileMalwareStatus.unsupported;
  deleted_at = some 3000;
  purge_after = some 9000;
}

abbrev available : StoredFile
available = record being_scanned { status = ready; malware_status = FileMalwareStatus.clean }

abbrev holding : StoredFile → Store
holding f = record { files = f ∷ []; calls = [] }

abbrev nothing : Store
nothing = record { files = []; calls = [] }

abbrev call : Request → Call
call request = record {
  storage = storage;
  scanner = scanner;
  validation = validation;
  request = request;
}

-- A call during which the store deletes nothing.
abbrev stuck_call : Request → Call
stuck_call request = record (call request) {
  storage = record storage { delete_object = λ _. false };
}

abbrev calls : List Call
calls =
    call (completes 7 5 2000 2001 2002)
    ∷ call (maintains false 3000)
    ∷ call (deletes 7 5 4000)
    ∷ call (restores 7 5 5000)
    ∷ stuck_call (reconciles 6000)
    ∷ []

run-IsSound_example : IsSound (run calls (holding fresh)).files
run-IsSound_example =
    run-IsSound calls (holding fresh)
      (record { unique = (refl, tt); checked = ((refl, refl, refl), tt) })

reserve-IsWithin_example :
    IsWithin 7 1 1000
      (file_plan_quotas free)
      (reserve storage scanner validation 7 1
        (file_plan_quotas free)
        upload
        5
        1000
        "a.txt"
        "text/plain"
        nothing).1.files
    × (fresh ≡ new_file storage scanner 7 1 upload 5 1000 "a.txt" "text/plain")
    × ((reserve storage scanner validation 7 1
          (file_plan_quotas free)
          upload
          5
          1000
          "a.txt"
          "text/plain"
          nothing).1.files
        ≡ fresh ∷ [])
unfolding reserve check_quota create_file
reserve-IsWithin_example =
    reserve-IsWithin storage scanner validation 7 1 (file_plan_quotas free) upload 5 1000 "a.txt"
      "text/plain" nothing fresh refl

scan_file-GivesUp_example : GivesUp 0 (
    find_first
      (by_id 5)
      (scan_file storage scanner 3000 being_scanned (holding being_scanned)).1.files)
scan_file-GivesUp_example =
    scan_file-GivesUp storage scanner 3000 being_scanned (holding being_scanned) refl refl
      (λ stored e. (λ c. cc, λ c. cc))

-- A store that still has the object of a file and one that nobody knows, both old.
abbrev littered : ObjectStorageProvider
littered = record storage {
  list_objects = some (
      record { key = object 7 5; last_modified = some 0 }
      ∷ record { key = object 7 6; last_modified = some 0 }
      ∷ []);
}

reconcile_orphans-spares_example :
    any
      (deletes_object (object 7 5))
      (reconcile_orphans littered scanner 200000000 (holding available)).1.calls
    ≡ false
reconcile_orphans-spares_example =
    reconcile_orphans-spares littered scanner (object 7 5) 200000000 (holding available) refl

-- The other object goes.
orphan-deletes :
    (reconcile_orphans littered scanner 200000000 (holding available)).1.calls
    ≡ StorageCall.deletes (object 7 6) ∷ []
unfolding reconcile_orphans orphans delete_call log_call
orphan-deletes = refl

purge_expired_records-spares_example :
    find_first (by_id 5) (purge_expired_records storage scanner 8999 (holding thrown_away)).1.files
    ≡ some thrown_away
purge_expired_records-spares_example =
    purge_expired_records-spares storage scanner 5 8999 (holding thrown_away) thrown_away (refl, tt)
      refl refl
