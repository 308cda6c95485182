-- ===== src/Files/Upkeep.antt =====
-- A run of maintenance keeps the table of files sound.
use shipflow.Common.{
  ℕ, ◌≡◌, refl, Bool, true, false, Option, none, some, List, [], arith, inl, inr, Bool-cases,
  Option-cases, for_each, ◌>>◌, ok, err, failure, ◌∷◌,
}
use shipflow.Files.{
  StoredFile, Store, ObjectStorageProvider, MalwareScanner, deletion_retry, ObjectKey,
  StoredObjectReference, delete_call, update_file, log_call, StorageCall, LifecycleState,
  LifecycleError,
}
use shipflow.Files.Lifecycle.Table.{Holds-error}
use shipflow.Files.Maintenance.{
  purge, purge_file, purge_queue, purge_expired_records, drop_audited, retry_tag, tag_queue,
  retry_lifecycle_tags, process_scans, scan_file, scan_queue, maintain, orphans, reconcile_orphans,
  tag_call, lifecycle_of,
}
use shipflow.Files.Scans.{scan_file-Evolves}
use shipflow.Files.Sound.{
  IsSound, IsSound-Evolves, IsSound-delete_many, update_file-IsSound, for_each-IsSound,
  then-IsSound, catch-IsSound,
}

-- The update of an error text keeps the table sound.
error-IsSound :
    (id : ℕ) (e : Option LifecycleError) (s : Store)
    → IsSound s.files
    → IsSound (update_file id (λ f. record f { last_lifecycle_error = e }) s).1.files
error-IsSound id e s h =
    update_file-IsSound id (λ f. record f { last_lifecycle_error = e }) s (λ f. refl)
      (λ f c. Holds-error f.status f e c) h

purge-IsSound :
    (id now : ℕ) (s : Store) → IsSound s.files → IsSound (update_file id (purge now) s).1.files
purge-IsSound id now s h = update_file-IsSound id (purge now) s (λ f. refl) (λ f c. (refl, refl)) h

module _ (storage : ObjectStorageProvider) (scanner : MalwareScanner) where
  -- The store after a deletion was asked for.
  abbrev pub asked : ObjectKey → Store → Store
  asked key s = record s { calls = StorageCall.deletes key ∷ s.calls }

  pub delete_call_ok :
      (key : ObjectKey) (s : Store)
      → storage.delete_object key ≡ true
      → delete_call storage key s ≡ (ok tt, asked key s)
  unfolding delete_call log_call
  delete_call_ok key s h = rw h refl

  pub delete_call_refused :
      (key : ObjectKey) (s : Store)
      → storage.delete_object key ≡ false
      → delete_call storage key s ≡ (err failure, asked key s)
  unfolding delete_call log_call
  delete_call_refused key s h = rw h refl

  pub purge_file-IsSound :
      (now : ℕ) (file : StoredFile) (s : Store)
      → IsSound s.files
      → IsSound (purge_file storage scanner now file s).1.files
  unfolding purge_file
  purge_file-IsSound now file s h =
      let s' = asked file.object_key s in
      elim (Bool-cases (storage.delete_object file.object_key)) [
        | inl gone ↦
            let purged = (update_file file.id (purge now) s').1 in
            ground (
              arith,
              delete_call_ok file.object_key s gone,
              purge-IsSound file.id now s' h,
              error-IsSound file.id (some deletion_retry) purged (purge-IsSound file.id now s' h),
            )
        | inr refused ↦ ground (
          arith,
          delete_call_refused file.object_key s refused,
          error-IsSound file.id (some deletion_retry) s' h,
        )
      ]

  -- The store after a tag was asked for.
  abbrev tagged : ObjectKey → LifecycleState → Store → Store
  tagged key state s = record s { calls = StorageCall.tags key state ∷ s.calls }

  tag_call_ok :
      (key : ObjectKey) (state : LifecycleState) (s : Store)
      → storage.set_lifecycle_state key state ≡ true
      → tag_call storage scanner key state s ≡ (ok tt, tagged key state s)
  unfolding tag_call log_call
  tag_call_ok key state s h = rw h refl

  tag_call_refused :
      (key : ObjectKey) (state : LifecycleState) (s : Store)
      → storage.set_lifecycle_state key state ≡ false
      → tag_call storage scanner key state s ≡ (err failure, tagged key state s)
  unfolding tag_call log_call
  tag_call_refused key state s h = rw h refl

  retry_tag-IsSound :
      (file : StoredFile) (s : Store)
      → IsSound s.files
      → IsSound (retry_tag storage scanner file s).1.files
  unfolding retry_tag
  retry_tag-IsSound file s h = elim (Option-cases (lifecycle_of file.status)) [
    | inl none_due ↦ rw (none_due, retry_tag) h
    | inr (state, e) ↦
        let s' = tagged file.object_key state s in
        elim (Bool-cases (storage.set_lifecycle_state file.object_key state)) [
          | inl taken ↦
              ground
                (arith, tag_call_ok file.object_key state s taken, error-IsSound file.id none s' h)
          | inr refused ↦ ground (arith, tag_call_refused file.object_key state s refused)
        ]
  ]

  pub process_scans-IsSound :
      (now : ℕ) (s : Store)
      → IsSound s.files
      → IsSound (process_scans storage scanner now s).1.files
  unfolding process_scans
  process_scans-IsSound now s h = ground (
    arith,
    for_each-IsSound (scan_file storage scanner now)
        (λ f t u. IsSound-Evolves t.files _ (scan_file-Evolves storage scanner now f t) u)
        (scan_queue storage scanner s.files) s h,
  )

  retry_lifecycle_tags-IsSound :
      (s : Store) → IsSound s.files → IsSound (retry_lifecycle_tags storage scanner s).1.files
  unfolding retry_lifecycle_tags
  retry_lifecycle_tags-IsSound s h =
      for_each-IsSound (retry_tag storage scanner) retry_tag-IsSound
        (tag_queue storage scanner s.files) s h

  purge_expired_records-IsSound :
      (now : ℕ) (s : Store)
      → IsSound s.files
      → IsSound (purge_expired_records storage scanner now s).1.files
  unfolding purge_expired_records
  purge_expired_records-IsSound now s h =
      for_each-IsSound (purge_file storage scanner now) (purge_file-IsSound now)
        (purge_queue storage scanner now s.files) s h

  drop_audited-IsSound :
      (now : ℕ) (s : Store) → IsSound s.files → IsSound (drop_audited storage scanner now s).1.files
  unfolding drop_audited
  drop_audited-IsSound now s h = IsSound-delete_many _ s.files h

  pub maintain-IsSound :
      (running : Bool) (now : ℕ) (s : Store)
      → IsSound s.files
      → IsSound (maintain storage scanner running now s).1.files
  unfolding maintain
  maintain-IsSound true now s h = h
  maintain-IsSound false now s h =
      let purges = purge_expired_records storage scanner now >> drop_audited storage scanner now in
      let tags = retry_lifecycle_tags storage scanner >> purges in
      catch-IsSound (process_scans storage scanner now >> tags) s (
        then-IsSound (process_scans storage scanner now) tags (process_scans-IsSound now)
          (then-IsSound (retry_lifecycle_tags storage scanner) purges retry_lifecycle_tags-IsSound (
            then-IsSound (purge_expired_records storage scanner now)
              (drop_audited storage scanner now) (purge_expired_records-IsSound now)
              (drop_audited-IsSound now)))
          s h)

  delete_call-files : (key : ObjectKey) (s : Store) → (delete_call storage key s).1.files ≡ s.files
  delete_call-files key s = elim (Bool-cases (storage.delete_object key)) [
    | inl h ↦ ground (arith, delete_call_ok key s h)
    | inr h ↦ ground (arith, delete_call_refused key s h)
  ]

  for_each_delete-files :
      (rs : List StoredObjectReference) (s : Store)
      → (for_each rs (λ r. delete_call storage r.key) s).1.files ≡ s.files
  for_each_delete-files [] s = refl
  for_each_delete-files (r ∷ rs) s =
      ground
        (arith, delete_call-files r.key s, for_each_delete-files rs (delete_call storage r.key s).1)

  -- The clean-up of orphans writes nothing into the table.
  reconcile_orphans-files :
      (now : ℕ) (s : Store) → (reconcile_orphans storage scanner now s).1.files ≡ s.files
  unfolding reconcile_orphans
  reconcile_orphans-files now s = elim (Option-cases storage.list_objects) [
    | inl e ↦ ground arith
    | inr (objects, e) ↦
        ground (arith, for_each_delete-files (orphans storage scanner now objects s.files) s)
  ]

  pub reconcile_orphans-IsSound :
      (now : ℕ) (s : Store)
      → IsSound s.files
      → IsSound (reconcile_orphans storage scanner now s).1.files
  reconcile_orphans-IsSound now s h = rw (reconcile_orphans-files now s) h
