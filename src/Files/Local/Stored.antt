-- ===== src/Files/Local/Stored.antt =====
-- What an upload to the service itself has passed when it is stored.
use shipflow.Common.{
  ℕ, ◌≤◌, true, Option-cases, Bool-cases, Result-cases, some, ◌∷◌, String, ok, ◌≡◌, sym, ap, ◌∙◌,
  arith, inl, inr,
}
use shipflow.Database.{find_first}
use shipflow.Files.{
  StoredFile, is_pending, is_local, ObjectStorageProvider, SignedAction, Validation, Store,
  StorageCall, log_call,
}
use shipflow.Files.Local.{
  LocalUpload, is_local_file, find_local_file, put_call, store_found, store_local_upload,
}

module _ (storage : ObjectStorageProvider) (validation : Validation) where
  -- The content is accepted under a row's columns.
  abbrev pub IsAccepted : StoredFile → LocalUpload → Type 0
  IsAccepted f given =
      (m : String) × (validation.validate_object given.buffer f.original_name f.declared_mime_type
          f.size_bytes f.checksum_sha256
        ≡ ok m)

  abbrev pub with_object : StoredFile → LocalUpload → Store → Store
  with_object f given s = record s {
    calls = StorageCall.puts f.object_key given.buffer f.declared_mime_type ∷ s.calls;
  }

  store_found_only :
      (f : StoredFile) (expires : ℕ) (signature : String) (given : LocalUpload) (now : ℕ)
      (s : Store)
      → (store_found storage validation f expires signature given now s).0 ≡ ok tt
      → (storage.verify_local_signature SignedAction.upload f.object_key expires signature ≡ true)
        × (is_pending f.status ≡ true)
        × (now ≤ f.reservation_expires_at)
        × IsAccepted f given
        × ((store_found storage validation f expires signature given now s).1
            ≡ with_object f given s)
  unfolding store_found put_call log_call
  store_found_only f expires signature given now s h =
      elim (Result-cases (
        validation.validate_object given.buffer f.original_name f.declared_mime_type f.size_bytes
          f.checksum_sha256)) [
            | inl (e, refused) ↦ ground (arith, refused)
            | inr (m, accepted) ↦
                (ground arith, ground arith, ground arith, (m, accepted), ground (arith, accepted))
          ]

  -- An upload to the service that goes through is for a local file whose reservation is pending and has not
  -- run out, bears a valid signature for its object, and its content is accepted as what the reservation
  -- declares; it writes this object under the file's key and changes nothing else.
  pub store_local_upload_only :
      (id expires : ℕ) (signature : String) (given : LocalUpload) (now : ℕ) (s : Store)
      → (store_local_upload storage validation id expires signature given now s).0 ≡ ok tt
      → (f : StoredFile) × (find_first (is_local_file id) s.files ≡ some f)
        × (storage.verify_local_signature SignedAction.upload f.object_key expires signature ≡ true)
        × (is_pending f.status ≡ true)
        × (now ≤ f.reservation_expires_at)
        × IsAccepted f given
        × ((store_local_upload storage validation id expires signature given now s).1
            ≡ with_object f given s)
  unfolding store_local_upload find_local_file
  store_local_upload_only id expires signature given now s h =
      elim (Bool-cases (is_local storage.provider)) [
        | inr remote ↦ ground (arith, remote)
        | inl local ↦ elim (Option-cases (find_first (is_local_file id) s.files)) [
          | inl missing ↦ ground (arith, local, missing)
          | inr (f, found) ↦
              let runs : store_local_upload storage validation id expires signature given now s
                  ≡ store_found storage validation f expires signature given now s =
                ground (arith, local, found) in
              let (signed, pending, open_until, accepted, stored) =
                store_found_only f expires signature given now s (sym (ap (λ r. r.0) runs) ∙ h) in
              (f, found, signed, pending, open_until, accepted, ap (λ r. r.1) runs ∙ stored)
        ]
      ]
