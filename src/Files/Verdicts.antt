-- ===== src/Files/Verdicts.antt =====
-- Where the verdict of the malware scan decides, and where it does not.
use shipflow.Common.{
  ℕ, ◌+◌, ◌<◌, ◌==◌, ◌≡◌, ◌≢◌, refl, Bool, true, ◌&&◌, not, Option, none, some, List, [], ◌∷◌,
  arith, ok, inl, inr, ◌⊎◌, Bool-cases, Option-cases, String, or_else, ap, ◌∙◌,
}
use shipflow.Database.{find_first, update_many}
use shipflow.Database.Laws.{find_first-holds}
use shipflow.Files.{
  FileStatus, scanning, ready, deleted, FileMalwareStatus, StoredFile, by_id, Store,
  ObjectStorageProvider, MalwareScanner, MalwareScanResult, Validation, is_scanning, StoredObject,
  is_purged, scan_unreadable, LifecycleState, log_call, map_file, find_scoped_file, update_file,
  sync_lifecycle_state, FileResponse,
}
use shipflow.Files.Changes.{restore}
use shipflow.Files.Service.{restore_found, create_download_target}
use shipflow.Files.Maintenance.{
  scan_failed, scan_file, apply_scan_result, count_attempt, scan_thrown, fail_scan, update_scanning,
}

-- The row that an update of a scanning file leaves under its id.
find_first-update_scanning :
    (id : ℕ) (change : StoredFile → StoredFile) (fs : List StoredFile) (f : StoredFile)
    → find_first (by_id id) fs ≡ some f
    → is_scanning f.status ≡ true
    → (change f).id ≡ f.id
    → find_first (by_id id) (update_many (λ g. by_id id g && is_scanning g.status) change fs)
      ≡ some (change f)
find_first-update_scanning id change [] f e h k = absurd (cc)
find_first-update_scanning id change (x ∷ xs) f e h k = elim (Bool-cases (by_id id x)) [
  | inl hit ↦
      let same : x ≡ f = ground arith in
      let own : by_id id (change f) ≡ true = ground arith in rw (hit, same, h, own) refl
  | inr miss ↦ rw (miss, miss) (find_first-update_scanning id change xs f (rw miss at e) h k)
]

-- A file that the scan gives up on is failed; one that it tries again has used one attempt more.
abbrev pub GivesUp : ℕ → Option StoredFile → Type 0
GivesUp attempts none = ⊥
GivesUp attempts (some g) =
    (g.status ≡ FileStatus.failed)
    ⊎ ((g.status ≡ scanning) × (g.scan_attempts ≡ attempts + 1) × (attempts + 1 < 3))

-- The object cannot be read, or the scanner rejects, or its result is neither clean nor infected.
abbrev pub NoVerdict : ObjectStorageProvider → MalwareScanner → StoredFile → Type 0
NoVerdict storage scanner f =
    (stored : StoredObject)
    → storage.inspect_object f.object_key ≡ some stored
    → (scanner.scan stored.body ≢ some MalwareScanResult.clean)
      × (scanner.scan stored.body ≢ some MalwareScanResult.infected)

module _ (storage : ObjectStorageProvider) (scanner : MalwareScanner) (now : ℕ) (f : StoredFile)
    (s : Store) (e : find_first (by_id f.id) s.files ≡ some f)
    (h : is_scanning f.status ≡ true) where
  fail_scan-GivesUp :
      (m : FileMalwareStatus) (n : ℕ)
      → GivesUp f.scan_attempts (find_first (by_id f.id) (fail_scan f.id m n now s).1.files)
  unfolding fail_scan update_scanning
  fail_scan-GivesUp m n =
      rw (find_first-update_scanning f.id (scan_failed m n now) s.files f e h refl) (inl refl)

  count_attempt-GivesUp :
      (m : FileMalwareStatus)
      → GivesUp f.scan_attempts (
          find_first
            (by_id f.id)
            (count_attempt storage scanner f.id f.scan_attempts m now s).1.files)
  unfolding count_attempt update_scanning
  count_attempt-GivesUp m = ground (
    arith,
    fail_scan-GivesUp m (f.scan_attempts + 1),
    find_first-update_scanning f.id
        (λ g. record g { malware_status = m; scan_attempts = f.scan_attempts + 1 }) s.files f e h
        refl,
  )

  scan_thrown-GivesUp :
      GivesUp f.scan_attempts
        (find_first (by_id f.id) (scan_thrown storage scanner f.id f.scan_attempts now s).1.files)
  unfolding scan_thrown update_scanning
  scan_thrown-GivesUp = ground (
    arith,
    fail_scan-GivesUp FileMalwareStatus.failed (f.scan_attempts + 1),
    find_first-update_scanning f.id
        (λ g. record g {
          scan_attempts = f.scan_attempts + 1;
          last_lifecycle_error = some scan_unreadable;
        })
        s.files f e h refl,
  )

  apply_scan_result-GivesUp :
      (r : MalwareScanResult)
      → r ≢ MalwareScanResult.clean
      → r ≢ MalwareScanResult.infected
      → GivesUp f.scan_attempts (
          find_first
            (by_id f.id)
            (apply_scan_result storage scanner f.id f.scan_attempts now r s).1.files)
  unfolding apply_scan_result
  apply_scan_result-GivesUp MalwareScanResult.clean n i = absurd (n refl)
  apply_scan_result-GivesUp MalwareScanResult.infected n i = absurd (i refl)
  apply_scan_result-GivesUp MalwareScanResult.unsupported n i =
      count_attempt-GivesUp FileMalwareStatus.unsupported
  apply_scan_result-GivesUp MalwareScanResult.failed n i =
      count_attempt-GivesUp FileMalwareStatus.failed

module _ (storage : ObjectStorageProvider) (scanner : MalwareScanner) where
  -- Without a verdict a row is written and nothing is thrown.
  apply_scan_result_ok :
      (id attempts now : ℕ) (r : MalwareScanResult) (s : Store)
      → r ≢ MalwareScanResult.clean
      → r ≢ MalwareScanResult.infected
      → (apply_scan_result storage scanner id attempts now r s).0 ≡ ok tt
  unfolding apply_scan_result
  apply_scan_result_ok id attempts now MalwareScanResult.clean s n i = absurd (n refl)
  apply_scan_result_ok id attempts now MalwareScanResult.infected s n i = absurd (i refl)
  apply_scan_result_ok id attempts now MalwareScanResult.unsupported s n i = ground arith
  apply_scan_result_ok id attempts now MalwareScanResult.failed s n i = ground arith

  -- A scanning file that gets no verdict is failed, at the latest by its third attempt, and otherwise
  -- waits for the next round with one attempt more.
  pub scan_file-GivesUp :
      (now : ℕ) (f : StoredFile) (s : Store)
      → find_first (by_id f.id) s.files ≡ some f
      → is_scanning f.status ≡ true
      → NoVerdict storage scanner f
      → GivesUp f.scan_attempts
          (find_first (by_id f.id) (scan_file storage scanner now f s).1.files)
  unfolding scan_file
  scan_file-GivesUp now f s e h n = elim (Option-cases (storage.inspect_object f.object_key)) [
    | inl missing ↦ ground (
      arith,
      fail_scan-GivesUp storage scanner now f s e h FileMalwareStatus.failed (f.scan_attempts + 1),
      scan_thrown-GivesUp storage scanner now f s e h,
    )
    | inr (stored, found) ↦ elim (Option-cases (scanner.scan stored.body)) [
      | inl no_result ↦ ground (
        arith,
        fail_scan-GivesUp storage scanner now f s e h FileMalwareStatus.failed
            (f.scan_attempts + 1),
        scan_thrown-GivesUp storage scanner now f s e h,
      )
      | inr (r, verdict) ↦ ground (
        arith,
        fail_scan-GivesUp storage scanner now f s e h FileMalwareStatus.failed
            (f.scan_attempts + 1),
        apply_scan_result-GivesUp storage scanner now f s e h r
            (λ c. (n stored found).0 (verdict ∙ ap some c))
            (λ c. (n stored found).1 (verdict ∙ ap some c)),
        apply_scan_result_ok f.id f.scan_attempts now r s
            (λ c. (n stored found).0 (verdict ∙ ap some c))
            (λ c. (n stored found).1 (verdict ∙ ap some c)),
      )
    ]
  ]

-- Restoring a deleted file makes it ready whatever the scanner said of it, unless the scan was still
-- to begin: also a file whose scan came to no result, which was never found clean.
pub restore_unscanned :
    (storage : ObjectStorageProvider) (scanner : MalwareScanner) (validation : Validation)
    (f : StoredFile) (now until : ℕ) (s : Store)
    → find_first (by_id f.id) s.files ≡ some f
    → f.status ≡ deleted
    → (f.malware_status ≡ FileMalwareStatus.failed)
      ⊎ (f.malware_status ≡ FileMalwareStatus.unsupported)
    → f.purge_after ≡ some until
    → now < until
    → storage.set_lifecycle_state f.object_key LifecycleState.ready ≡ true
    → (r : FileResponse) × ((restore_found storage scanner validation f now s).0 ≡ ok r)
      × (r.status ≡ ready)
      × (r.malware_status ≡ f.malware_status)
unfolding restore_found update_file sync_lifecycle_state log_call
restore_unscanned storage scanner validation f now until s e d m p h t =
    (map_file (restore f.malware_status f), ground arith, ground arith, ground arith)

-- A download target is given only for a ready file of the organization, and for its own object.
pub create_download_target_only :
    (storage : ObjectStorageProvider) (scanner : MalwareScanner) (validation : Validation)
    (organization id : ℕ) (url : String) (s : Store)
    → (create_download_target storage scanner validation organization id s).0 ≡ ok url
    → (f : StoredFile) × (find_first
          (λ g. by_id id g && (g.organization_id == organization && not (is_purged g.status)))
          s.files
        ≡ some f)
      × (f.id ≡ id)
      × (f.organization_id ≡ organization)
      × (f.status ≡ ready)
      × (storage.create_download_target f.object_key f.original_name
            (or_else f.detected_mime_type f.declared_mime_type)
          ≡ some url)
unfolding create_download_target find_scoped_file
create_download_target_only storage scanner validation organization id url s h =
    elim (Option-cases (find_first named s.files)) [
      | inl e ↦ absurd (ground arith)
      | inr (f, e) ↦
          let at : named f ≡ true = find_first-holds named s.files f e in
          (f, e, ground arith, ground arith, ground arith, ground arith)
    ]
  where
    named : StoredFile → Bool
    named g = by_id id g && (g.organization_id == organization && not (is_purged g.status))
