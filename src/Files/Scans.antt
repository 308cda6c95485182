-- ===== src/Files/Scans.antt =====
-- The malware scan of uploaded files: which verdict leads to which state, how a file without a verdict
-- comes to an end, and what a deletion in between does.
use shipflow.Common.{
  ℕ, ◌+◌, ◌≡◌, refl, true, false, ◌&&◌, some, List, arith, inl, inr, Option-cases, is_ok,
}
use shipflow.Files.{
  FileMalwareStatus, StoredFile, by_id, Store, ObjectStorageProvider, MalwareScanner,
  MalwareScanResult, is_scanning, LifecycleState, scan_unreadable,
}
use shipflow.Files.Maintenance.{
  scan_file, apply_scan_result, count_attempt, scan_thrown, fail_scan, update_scanning, tag_file,
  scan_clean, scan_infected, scan_failed,
}
use shipflow.Files.Lifecycle.{Transition, Evolves, Evolves-refl}
use shipflow.Files.Lifecycle.Table.{update_many-Evolves_all}

update_scanning-Evolves :
    (id : ℕ) (change : StoredFile → StoredFile) (fs : List StoredFile) (s : Store)
    → fs ≡ s.files
    → ((f : StoredFile) → is_scanning f.status ≡ true → Transition f (change f))
    → Evolves fs (update_scanning id change s).1.files
unfolding update_scanning
update_scanning-Evolves id change fs s same t = rw same (
    update_many-Evolves_all (λ f. by_id id f && is_scanning f.status) change s.files
      (λ f h. t f (ground arith)))

clean-Transition :
    (now : ℕ) (f : StoredFile) → is_scanning f.status ≡ true → Transition f (scan_clean now f)
clean-Transition now f h = ground arith

infected-Transition :
    (now : ℕ) (f : StoredFile) → is_scanning f.status ≡ true → Transition f (scan_infected now f)
infected-Transition now f h = ground arith

failed-Transition :
    (m : FileMalwareStatus) (attempts now : ℕ) (f : StoredFile)
    → is_scanning f.status ≡ true
    → Transition f (scan_failed m attempts now f)
failed-Transition m attempts now f h = ground arith

fail_scan-Evolves :
    (id : ℕ) (m : FileMalwareStatus) (attempts now : ℕ) (fs : List StoredFile) (s : Store)
    → fs ≡ s.files
    → Evolves fs (fail_scan id m attempts now s).1.files
unfolding fail_scan
fail_scan-Evolves id m attempts now fs s same =
    update_scanning-Evolves id (scan_failed m attempts now) fs s same
      (failed-Transition m attempts now)

attempt-Transition :
    (m : FileMalwareStatus) (n : ℕ) (f : StoredFile)
    → is_scanning f.status ≡ true
    → Transition f (record f { malware_status = m; scan_attempts = n })
attempt-Transition m n f h = ground arith

abbrev unread : ℕ → StoredFile → StoredFile
unread n f = record f { scan_attempts = n; last_lifecycle_error = some scan_unreadable }

unread-Transition :
    (n : ℕ) (f : StoredFile) → is_scanning f.status ≡ true → Transition f (unread n f)
unread-Transition n f h = ground arith

module _ (storage : ObjectStorageProvider) (scanner : MalwareScanner) where
  tag_file_files :
      (id : ℕ) (state : LifecycleState) (s : Store)
      → (tag_file storage scanner id state s).1.files ≡ s.files
  unfolding tag_file
  tag_file_files id state s = ground arith

  count_attempt-Evolves :
      (id attempts : ℕ) (m : FileMalwareStatus) (now : ℕ) (fs : List StoredFile) (s : Store)
      → fs ≡ s.files
      → Evolves fs (count_attempt storage scanner id attempts m now s).1.files
  unfolding count_attempt
  count_attempt-Evolves id attempts m now fs s same = ground (
    arith,
    fail_scan-Evolves id m (attempts + 1) now fs s same,
    update_scanning-Evolves id (λ f. record f { malware_status = m; scan_attempts = attempts + 1 })
        fs s same (attempt-Transition m (attempts + 1)),
  )

  -- A verdict that is not reached, since the object's tag was refused, has written no row.
  apply_scan_result-refused :
      (id attempts now : ℕ) (r : MalwareScanResult) (s : Store)
      → is_ok (apply_scan_result storage scanner id attempts now r s).0 ≡ false
      → (apply_scan_result storage scanner id attempts now r s).1.files ≡ s.files
  unfolding apply_scan_result
  apply_scan_result-refused id attempts now MalwareScanResult.clean s h =
      ground (arith, tag_file_files id LifecycleState.ready s)
  apply_scan_result-refused id attempts now MalwareScanResult.infected s h =
      ground (arith, tag_file_files id LifecycleState.rejected s)
  apply_scan_result-refused id attempts now MalwareScanResult.unsupported s h = ground arith
  apply_scan_result-refused id attempts now MalwareScanResult.failed s h = ground arith

  apply_scan_result-Evolves :
      (id attempts now : ℕ) (r : MalwareScanResult) (fs : List StoredFile) (s : Store)
      → fs ≡ s.files
      → Evolves fs (apply_scan_result storage scanner id attempts now r s).1.files
  unfolding apply_scan_result
  apply_scan_result-Evolves id attempts now MalwareScanResult.clean fs s same = ground (
    arith,
    Evolves-refl fs,
    tag_file_files id LifecycleState.ready s,
    update_scanning-Evolves id (scan_clean now) fs
        (tag_file storage scanner id LifecycleState.ready s).1,
    clean-Transition now,
  )
  apply_scan_result-Evolves id attempts now MalwareScanResult.infected fs s same = ground (
    arith,
    Evolves-refl fs,
    tag_file_files id LifecycleState.rejected s,
    update_scanning-Evolves id (scan_infected now) fs
        (tag_file storage scanner id LifecycleState.rejected s).1,
    infected-Transition now,
  )
  apply_scan_result-Evolves id attempts now MalwareScanResult.unsupported fs s same =
      count_attempt-Evolves id attempts FileMalwareStatus.unsupported now fs s same
  apply_scan_result-Evolves id attempts now MalwareScanResult.failed fs s same =
      count_attempt-Evolves id attempts FileMalwareStatus.failed now fs s same

  scan_thrown-Evolves :
      (id attempts now : ℕ) (fs : List StoredFile) (s : Store)
      → fs ≡ s.files
      → Evolves fs (scan_thrown storage scanner id attempts now s).1.files
  unfolding scan_thrown
  scan_thrown-Evolves id attempts now fs s same = ground (
    arith,
    fail_scan-Evolves id FileMalwareStatus.failed (attempts + 1) now fs s same,
    update_scanning-Evolves id (unread (attempts + 1)) fs s same (unread-Transition (attempts + 1)),
  )

  -- Scanning one file, whatever the storage and the scanner answer, moves each row by one transition at
  -- most, and none comes or goes.
  pub scan_file-Evolves :
      (now : ℕ) (file : StoredFile) (s : Store)
      → Evolves s.files (scan_file storage scanner now file s).1.files
  unfolding scan_file
  scan_file-Evolves now file s = elim (Option-cases (storage.inspect_object file.object_key)) [
    | inl missing ↦ ground (
      arith,
      fail_scan-Evolves file.id FileMalwareStatus.failed (file.scan_attempts + 1) now s.files s
          refl,
      scan_thrown-Evolves file.id file.scan_attempts now s.files s refl,
    )
    | inr (stored, found) ↦ elim (Option-cases (scanner.scan stored.body)) [
      | inl no_verdict ↦ ground (
        arith,
        fail_scan-Evolves file.id FileMalwareStatus.failed (file.scan_attempts + 1) now s.files s
            refl,
        scan_thrown-Evolves file.id file.scan_attempts now s.files s refl,
      )
      | inr (r, verdict) ↦ ground (
        arith,
        fail_scan-Evolves file.id FileMalwareStatus.failed (file.scan_attempts + 1) now s.files s
            refl,
        apply_scan_result-Evolves file.id file.scan_attempts now r s.files s refl,
        apply_scan_result-refused file.id file.scan_attempts now r s,
        scan_thrown-Evolves file.id file.scan_attempts now s.files
            (apply_scan_result storage scanner file.id file.scan_attempts now r s).1,
      )
    ]
  ]
