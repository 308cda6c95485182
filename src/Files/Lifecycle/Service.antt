-- ===== src/Files/Lifecycle/Service.antt =====
-- Every method of `FilesService` that writes moves each row by one transition at most.
use shipflow.Common.{
  ℕ, ◌==◌, ◌≡◌, Bool, true, ◌&&◌, not, ◌||◌, some, ◌∷◌, arith, ok, err, Error, inl, inr,
  Option-cases, Action, ◌>>=◌, ◌>>◌, Result, String, if◌then◌else◌,
}
use shipflow.Database.{find_first}
use shipflow.Files.{
  StoredFile, by_id, Store, update_file, find_scoped_file, sync_lifecycle_state,
  ObjectStorageProvider, MalwareScanner, Validation, ObjectKey, LifecycleState, is_purged,
  delete_call, deletes, is_pending, is_scanning, is_ready, is_deleted, malware_pending, map_file,
}
use shipflow.Files.Service.{
  complete_upload, delete_file, restore_file, settle_upload, complete_found, delete_found,
  restore_found,
}
use shipflow.Files.Changes.{
  reject_upload, accept_upload, purge_reservation, soft_delete, restore, validate_upload,
}
use shipflow.Files.Lifecycle.{Transition, Evolves, Unique, Evolves-refl}
use shipflow.Files.Lifecycle.Table.{find_first-own, update_file-Evolves, sync-Evolves}

-- An update of a file followed by the tag of its object.
update_sync-Evolves :
    {A : Type 0} (storage : ObjectStorageProvider) (id : ℕ) (change : StoredFile → StoredFile)
    (key : ObjectKey) (state : LifecycleState) (k : StoredFile → Result A) (s : Store)
    (f : StoredFile)
    → Unique s.files
    → find_first (by_id id) s.files ≡ some f
    → Transition f (change f)
    → Evolves s.files
        ((do
          g ← update_file id change
          sync_lifecycle_state storage id key state
          (λ s'. (k g, s')))
          s).1.files
update_sync-Evolves storage id change key state k s f u e t = ground (
  arith,
  update_file-Evolves id change s f u e t,
  sync-Evolves storage id key state s.files (update_file id change s).1,
)

accept-Transition :
    (scanner : MalwareScanner) (mime : String) (uploaded : ℕ) (f : StoredFile)
    → is_pending f.status ≡ true
    → Transition f (accept_upload scanner mime uploaded f)
accept-Transition scanner mime uploaded f p = ground arith

reject-Transition :
    (e : Error) (uploaded purge : ℕ) (f : StoredFile)
    → is_pending f.status ≡ true
    → Transition f (reject_upload e uploaded purge f)
reject-Transition e uploaded purge f p = ground arith

purge-Transition :
    (now : ℕ) (f : StoredFile) → is_pending f.status ≡ true → Transition f (purge_reservation now f)
purge-Transition now f p = ground arith

delete-Transition :
    (now : ℕ) (f : StoredFile)
    → is_ready f.status || is_scanning f.status ≡ true
    → Transition f (soft_delete now f)
delete-Transition now f p = ground arith

restore-Transition :
    (f : StoredFile) → is_deleted f.status ≡ true → Transition f (restore f.malware_status f)
restore-Transition f p = ground arith

-- A method that begins by looking a file up in its organization.
scoped-Evolves :
    {A : Type 0} (organization id : ℕ) (k : StoredFile → Action Store A) (s : Store)
    → Unique s.files
    → ((f : StoredFile)
        → find_first (by_id f.id) s.files ≡ some f
        → Evolves s.files (k f s).1.files)
    → Evolves s.files ((find_scoped_file organization id >>= k) s).1.files
unfolding find_scoped_file
scoped-Evolves organization id k s u found =
    elim (Option-cases (find_first (λ f. by_id id f && in_organization f) s.files)) [
      | inl e ↦ ground (arith, Evolves-refl s.files)
      | inr (f, e) ↦ ground (arith, found f (find_first-own id in_organization s.files f u e))
    ]
  where
    in_organization : StoredFile → Bool
    in_organization f = f.organization_id == organization && not (is_purged f.status)

module _ (storage : ObjectStorageProvider) (scanner : MalwareScanner)
    (validation : Validation) where
  settle_upload-Evolves :
      (f : StoredFile) (r : Result String) (uploaded purge : ℕ) (s : Store)
      → Unique s.files
      → find_first (by_id f.id) s.files ≡ some f
      → is_pending f.status ≡ true
      → Evolves s.files (settle_upload storage scanner validation f r uploaded purge s).1.files
  unfolding settle_upload
  settle_upload-Evolves f (err error) uploaded purge s u e p =
      update_sync-Evolves storage f.id (reject_upload error uploaded purge) f.object_key
        LifecycleState.rejected (λ _. err error) s f u e
        (reject-Transition error uploaded purge f p)
  settle_upload-Evolves f (ok mime) uploaded purge s u e p =
      update_sync-Evolves storage f.id (accept_upload scanner mime uploaded) f.object_key
        (if scanner.enabled then LifecycleState.scanning else LifecycleState.ready)
        (λ g. ok (map_file g)) s f u e (accept-Transition scanner mime uploaded f p)

  complete_found-Evolves :
      (f : StoredFile) (now uploaded purge : ℕ) (s : Store)
      → Unique s.files
      → find_first (by_id f.id) s.files ≡ some f
      → Evolves s.files (complete_found storage scanner validation f now uploaded purge s).1.files
  unfolding complete_found
  complete_found-Evolves f now uploaded purge s u e =
      elim (Option-cases (storage.inspect_object f.object_key)) [
        | inl missing ↦ ground (arith, Evolves-refl s.files)
        | inr (stored, found) ↦ ground (
          arith,
          Evolves-refl s.files,
          settle_upload-Evolves f (validate_upload validation f stored) uploaded purge s u e,
        )
      ]

  -- In a table with distinct ids, completing an upload, successfully or not, moves each row by one
  -- transition at most, and none comes or goes.
  pub complete_upload-Evolves :
      (organization id now uploaded purge : ℕ) (s : Store)
      → Unique s.files
      → Evolves s.files
          (complete_upload storage scanner validation organization id now uploaded purge s).1.files
  unfolding complete_upload
  complete_upload-Evolves organization id now uploaded purge s u =
      scoped-Evolves organization id
        (λ f. complete_found storage scanner validation f now uploaded purge) s u
        (λ f e. complete_found-Evolves f now uploaded purge s u e)

  delete_found-Evolves :
      (f : StoredFile) (now : ℕ) (s : Store)
      → Unique s.files
      → find_first (by_id f.id) s.files ≡ some f
      → Evolves s.files (delete_found storage scanner validation f now s).1.files
  unfolding delete_found delete_call
  delete_found-Evolves f now s u e = ground (
    arith,
    Evolves-refl s.files,
    update_sync-Evolves storage f.id (soft_delete now) f.object_key LifecycleState.deleted
        (λ g. ok (map_file g)) s f u e,
    delete-Transition now f,
    purge-Transition now f,
    update_file-Evolves f.id (purge_reservation now)
        (record s { calls = deletes f.object_key ∷ s.calls }) f u e,
  )

  -- In a table with distinct ids, deleting a file, successfully or not, moves each row by one transition
  -- at most, and none comes or goes.
  pub delete_file-Evolves :
      (organization id now : ℕ) (s : Store)
      → Unique s.files
      → Evolves s.files (delete_file storage scanner validation organization id now s).1.files
  unfolding delete_file
  delete_file-Evolves organization id now s u =
      scoped-Evolves organization id (λ f. delete_found storage scanner validation f now) s u
        (λ f e. delete_found-Evolves f now s u e)

  restore_found-Evolves :
      (f : StoredFile) (now : ℕ) (s : Store)
      → Unique s.files
      → find_first (by_id f.id) s.files ≡ some f
      → Evolves s.files (restore_found storage scanner validation f now s).1.files
  unfolding restore_found
  restore_found-Evolves f now s u e = ground (
    arith,
    Evolves-refl s.files,
    update_sync-Evolves storage f.id (restore f.malware_status) f.object_key
        (if malware_pending f.malware_status then LifecycleState.scanning else LifecycleState.ready)
        (λ g. ok (map_file g)) s f u e,
    restore-Transition f,
  )

  -- In a table with distinct ids, restoring a file, successfully or not, moves each row by one transition
  -- at most, and none comes or goes.
  pub restore_file-Evolves :
      (organization id now : ℕ) (s : Store)
      → Unique s.files
      → Evolves s.files (restore_file storage scanner validation organization id now s).1.files
  unfolding restore_file
  restore_file-Evolves organization id now s u =
      scoped-Evolves organization id (λ f. restore_found storage scanner validation f now) s u
        (λ f e. restore_found-Evolves f now s u e)
