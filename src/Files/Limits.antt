-- ===== src/Files/Limits.antt =====
-- The quota of an organization: what `initiateUpload` lets in.
use shipflow.Common.{ℕ, ◌+◌, ◌≤◌, ◌==◌, ◌≡◌, ◌&&◌, List, ◌∷◌, arith, ok, String}
use shipflow.Database.{count, sum_of}
use shipflow.Files.{
  StoredFile, Store, holds_space, is_reserved, Quota, ObjectStorageProvider, MalwareScanner,
  Validation, create_file, PlanCode, file_plan_quotas,
}
use shipflow.Files.Changes.{InitiateFileUpload, check_quota, new_file}
use shipflow.Files.Service.{reserve}
use shipflow.Files.Listing.{get_usage}

abbrev pub used_bytes : ℕ → ℕ → List StoredFile → ℕ
used_bytes organization now = sum_of (λ f. f.size_bytes) (holds_space organization now)

abbrev pub used_files : ℕ → ℕ → List StoredFile → ℕ
used_files organization now = count (holds_space organization now)

abbrev pub reservations : ℕ → ℕ → List StoredFile → ℕ
reservations organization now = count (is_reserved organization now)

abbrev pub user_reservations : ℕ → ℕ → ℕ → List StoredFile → ℕ
user_reservations organization user now =
    count (λ f. is_reserved organization now f && f.uploaded_by_id == user)

-- A table is within the limits of an organization and a user at a time.
pub record IsWithin (organization user now : ℕ) (quota : Quota) (files : List StoredFile)
    : Type 0 where
  pub bytes : used_bytes organization now files ≤ quota.max_bytes
  pub number : used_files organization now files ≤ quota.max_files
  pub in_organization : reservations organization now files ≤ 20
  pub of_user : user_reservations organization user now files ≤ 5

-- A reservation that goes through leaves the organization within the quota of its plan and the limits
-- on open reservations, the new file counted, and it stands at the head of the table.
pub reserve-IsWithin :
    (storage : ObjectStorageProvider) (scanner : MalwareScanner) (validation : Validation)
    (organization user : ℕ) (quota : Quota) (dto : InitiateFileUpload) (id now : ℕ)
    (name mime : String) (s : Store) (file : StoredFile)
    → (reserve storage scanner validation organization user quota dto id now name mime s).0
      ≡ ok file
    → IsWithin organization user now quota
        (reserve storage scanner validation organization user quota dto id now name mime s).1.files
      × (file ≡ new_file storage scanner organization user dto id now name mime)
      × ((reserve storage scanner validation organization user quota dto id now name mime s).1.files
          ≡ file ∷ s.files)
unfolding reserve check_quota create_file
reserve-IsWithin storage scanner validation organization user quota dto id now name mime s file h =
    (ground arith, ground arith, ground arith)

-- The usage that is shown after a reservation is the usage before it with the new file counted, and within
-- the plan's quota.
get_usage-reserve :
    (storage : ObjectStorageProvider) (scanner : MalwareScanner) (validation : Validation)
    (organization user : ℕ) (plan : PlanCode) (dto : InitiateFileUpload) (id now : ℕ)
    (name mime : String) (s : Store) (file : StoredFile)
    → (reserve storage scanner validation organization user
        (file_plan_quotas plan)
        dto
        id
        now
        name
        mime
        s).0
      ≡ ok file
    → let s' =
        (reserve storage scanner validation organization user
          (file_plan_quotas plan)
          dto
          id
          now
          name
          mime
          s).1 in
      let after = get_usage organization plan now s' in
      let before = get_usage organization plan now s in
      (after.used_bytes ≡ before.used_bytes + dto.size_bytes)
      × (after.used_files ≡ before.used_files + 1)
      × (after.used_bytes ≤ after.max_bytes)
      × (after.used_files ≤ after.max_files)
unfolding reserve check_quota create_file get_usage
get_usage-reserve storage scanner validation organization user plan dto id now name mime s file h =
    (ground arith, ground arith, ground arith, ground arith)
