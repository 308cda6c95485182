-- ===== src/Files/History.antt =====
-- Any history of the file services, started from a table that satisfies its constraints.
use shipflow.Common.{
  ℕ, ◌≡◌, refl, Bool, false, ◌||◌, some, List, [], ◌∷◌, arith, ok, inl, inr, Bool-cases, any,
  String, Result-cases, ◌>>=◌,
}
use shipflow.Database.{find_first}
use shipflow.Files.{
  StoredFile, by_id, Store, same_key, ObjectStorageProvider, MalwareScanner, Validation, PlanCode,
  file_plan_quotas, Quota, create_file, update_file, FileStatus,
}
use shipflow.Files.Changes.{InitiateFileUpload, new_file, give_up}
use shipflow.Files.Service.{
  initiate_upload, reserve, open_target, complete_upload, delete_file, restore_file,
}
use shipflow.Files.Maintenance.{maintain, reconcile_orphans}
use shipflow.Files.Lifecycle.{Evolves, IsChecked, Transition}
use shipflow.Files.Lifecycle.Table.{update_file-Evolves}
use shipflow.Files.Lifecycle.Service.{
  complete_upload-Evolves, delete_file-Evolves, restore_file-Evolves,
}
use shipflow.Files.Sound.{IsSound, IsSound-Evolves}
use shipflow.Files.Upkeep.{maintain-IsSound, reconcile_orphans-IsSound}

-- A call of a service, with the readings of the clock that it makes.
pub data Request : Type 0 where
  initiates : ℕ → ℕ → PlanCode → InitiateFileUpload → ℕ → ℕ → ℕ → ℕ → Request
  completes : ℕ → ℕ → ℕ → ℕ → ℕ → Request
  deletes restores : ℕ → ℕ → ℕ → Request
  maintains : Bool → ℕ → Request
  reconciles : ℕ → Request

any-same_id :
    (f : StoredFile) (fs : List StoredFile)
    → any (λ g. by_id f.id g || same_key g.object_key f.object_key) fs ≡ false
    → any (by_id f.id) fs ≡ false
any-same_id f [] h = refl
any-same_id f (x ∷ xs) h = ground (arith, any-same_id f xs)

create_file-IsSound :
    (f : StoredFile) (s : Store) → IsSound s.files → IsChecked f → IsSound (create_file f s).1.files
unfolding create_file
create_file-IsSound f s h c =
    elim (Bool-cases (any (λ g. by_id f.id g || same_key g.object_key f.object_key) s.files)) [
      | inl taken ↦ rw (taken, create_file) h
      | inr fresh ↦
          rw (fresh, create_file)
            (record { unique = (any-same_id f s.files fresh, h.unique); checked = (c, h.checked) })
    ]

give_up-Transition :
    (now : ℕ) (f : StoredFile) → f.status ≡ FileStatus.pending → Transition f (give_up now f)
give_up-Transition now f h = ground arith

module _ (storage : ObjectStorageProvider) (scanner : MalwareScanner)
    (validation : Validation) where
  reserve-IsSound :
      (organization user : ℕ) (quota : Quota) (dto : InitiateFileUpload) (id now : ℕ)
      (name mime : String) (s : Store)
      → IsSound s.files
      → IsSound
          (reserve storage scanner validation organization user quota dto id now name mime
            s).1.files
  unfolding reserve
  reserve-IsSound organization user quota dto id now name mime s h = ground (
    arith,
    create_file-IsSound (new_file storage scanner organization user dto id now name mime) s h,
  )

  -- What a reservation that goes through leaves at the head of the table.
  reserve_head :
      (organization user : ℕ) (quota : Quota) (dto : InitiateFileUpload) (id now : ℕ)
      (name mime : String) (s : Store) (file : StoredFile)
      → (reserve storage scanner validation organization user quota dto id now name mime s).0
        ≡ ok file
      → (find_first
            (by_id file.id)
            (reserve storage scanner validation organization user quota dto id now name mime
              s).1.files
          ≡ some file)
        × (file.status ≡ FileStatus.pending)
  unfolding reserve create_file
  reserve_head organization user quota dto id now name mime s file h = (ground arith, ground arith)

  open_target-IsSound :
      (file : StoredFile) (target failed : ℕ) (s : Store)
      → IsSound s.files
      → find_first (by_id file.id) s.files ≡ some file
      → file.status ≡ FileStatus.pending
      → IsSound (open_target storage scanner validation file target failed s).1.files
  unfolding open_target
  open_target-IsSound file target failed s h e p =
      let moved : Evolves s.files (update_file file.id (give_up failed) s).1.files =
        update_file-Evolves file.id (give_up failed) s file h.unique e
          (give_up-Transition failed file p) in
      ground
        (arith, IsSound-Evolves s.files (update_file file.id (give_up failed) s).1.files moved h)

  reserve_open-IsSound :
      (organization user : ℕ) (quota : Quota) (dto : InitiateFileUpload) (id now target failed : ℕ)
      (name mime : String) (s : Store)
      → IsSound s.files
      → IsSound
          ((reserve storage scanner validation organization user quota dto id now name mime
              >>= λ file. open_target storage scanner validation file target failed)
            s).1.files
  reserve_open-IsSound organization user quota dto id now target failed name mime s h =
      elim (Result-cases
        (reserve storage scanner validation organization user quota dto id now name mime s).0) [
          | inl (e, refused) ↦
              ground (arith, reserve-IsSound organization user quota dto id now name mime s h)
          | inr (file, made) ↦ ground (
            arith,
            open_target-IsSound file target failed
                (reserve storage scanner validation organization user quota dto id now name mime
                  s).1
                (reserve-IsSound organization user quota dto id now name mime s h),
            reserve_head organization user quota dto id now name mime s file made,
          )
        ]

  initiate_upload-IsSound :
      (organization user : ℕ) (plan : PlanCode) (dto : InitiateFileUpload)
      (id now target failed : ℕ) (s : Store)
      → IsSound s.files
      → IsSound
          (initiate_upload storage scanner validation organization user plan dto id now target
            failed s).1.files
  unfolding initiate_upload
  initiate_upload-IsSound organization user plan dto id now target failed s h =
      elim (Result-cases
        (validation.validate_declaration dto.file_name dto.mime_type dto.size_bytes)) [
          | inl (e, refused) ↦ ground arith
          | inr (d, accepted) ↦ ground (
            arith,
            reserve_open-IsSound organization user (file_plan_quotas plan) dto id now target failed
                d.file_name d.mime_type s h,
          )
        ]

  -- What a call does to the table, whether it returns or throws.
  pub step : Request → Store → Store
  step (initiates organization user plan dto id now target failed) s =
      (initiate_upload storage scanner validation organization user plan dto id now target failed
        s).1
  step (completes organization id now uploaded purge) s =
      (complete_upload storage scanner validation organization id now uploaded purge s).1
  step (deletes organization id now) s =
      (delete_file storage scanner validation organization id now s).1
  step (restores organization id now) s =
      (restore_file storage scanner validation organization id now s).1
  step (maintains running now) s = (maintain storage scanner running now s).1
  step (reconciles now) s = (reconcile_orphans storage scanner now s).1

  -- Every call keeps the ids distinct and every row within the database's lifecycle constraint, on
  -- success and on each error.
  pub step-IsSound : (r : Request) (s : Store) → IsSound s.files → IsSound (step r s).files
  unfolding step
  step-IsSound (initiates organization user plan dto id now target failed) s h =
      initiate_upload-IsSound organization user plan dto id now target failed s h
  step-IsSound (completes organization id now uploaded purge) s h =
      IsSound-Evolves s.files _
        (complete_upload-Evolves storage scanner validation organization id now uploaded purge s
          h.unique)
        h
  step-IsSound (deletes organization id now) s h =
      IsSound-Evolves s.files _
        (delete_file-Evolves storage scanner validation organization id now s h.unique) h
  step-IsSound (restores organization id now) s h =
      IsSound-Evolves s.files _
        (restore_file-Evolves storage scanner validation organization id now s h.unique) h
  step-IsSound (maintains running now) s h = maintain-IsSound storage scanner running now s h
  step-IsSound (reconciles now) s h = reconcile_orphans-IsSound storage scanner now s h

-- A call with what the object store, the scanner and the content checks answer during it.
pub record Call : Type 0 where
  pub storage : ObjectStorageProvider
  pub scanner : MalwareScanner
  pub validation : Validation
  pub request : Request

pub run : List Call → Store → Store
run [] s = s
run (c ∷ cs) s = run cs (step c.storage c.scanner c.validation c.request s)

-- From a sound table, every sequence of reservations, completions, deletions, restorations, runs of
-- maintenance and clean-ups of orphans, whatever the object store and the scanner answer to each of them,
-- leads to a sound table: the ids are distinct, and each row has the columns that its status asks for (the
-- lifecycle constraint of the database).
pub run-IsSound : (cs : List Call) (s : Store) → IsSound s.files → IsSound (run cs s).files
unfolding run
run-IsSound [] s h = h
run-IsSound (c ∷ cs) s h =
    run-IsSound cs (step c.storage c.scanner c.validation c.request s)
      (step-IsSound c.storage c.scanner c.validation c.request s h)
