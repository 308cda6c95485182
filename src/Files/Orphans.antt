-- ===== src/Files/Orphans.antt =====
-- The clean-up of orphans and the purge spare what is in use.
use shipflow.Common.{
  ℕ, ◌≡◌, refl, Bool, true, false, ◌&&◌, List, [], ◌∷◌, arith, any, All, inl, inr, Bool-cases,
  Option-cases, for_each,
}
use shipflow.Files.{
  StoredFile, ObjectKey, same_key, same_provider, Store, StorageCall, ObjectStorageProvider,
  MalwareScanner, StoredObjectReference, delete_call, log_call,
}
use shipflow.Files.Maintenance.{orphans, reconcile_orphans}

-- A call that deletes the object of a key.
abbrev pub deletes_object : ObjectKey → StorageCall → Bool
deletes_object key (StorageCall.deletes k) = same_key key k
deletes_object key _ = false

same_key_trans :
    (a b c : ObjectKey) → same_key a b ≡ true → same_key b c ≡ true → same_key a c ≡ true
same_key_trans (ObjectKey.object o f) (ObjectKey.object p g) (ObjectKey.object q h) e d =
    ground arith
same_key_trans (ObjectKey.foreign n) (ObjectKey.foreign m) (ObjectKey.foreign k) e d = ground arith
same_key_trans _ _ _ e d = ground arith

module _ (storage : ObjectStorageProvider) (scanner : MalwareScanner) where
  -- A record of the storage that is in use names the object of the key.
  abbrev pub names : ObjectKey → StoredFile → Bool
  names key f = same_provider f.storage_provider storage.provider && same_key f.object_key key

  named_other :
      (key other : ObjectKey) (fs : List StoredFile)
      → any (names key) fs ≡ true
      → same_key key other ≡ true
      → any (names other) fs ≡ true
  named_other key other [] h e = absurd (cc)
  named_other key other (f ∷ fs) h e =
      ground (arith, same_key_trans f.object_key key other, named_other key other fs)

  orphans-unnamed :
      (key : ObjectKey) (now : ℕ) (objects : List StoredObjectReference) (fs : List StoredFile)
      → any (names key) fs ≡ true
      → All (λ r. same_key key r.key ≡ false) (orphans storage scanner now objects fs)
  unfolding orphans
  orphans-unnamed key now [] fs h = tt
  orphans-unnamed key now (r ∷ rs) fs h = elim (Bool-cases (same_key key r.key)) [
    | inl same ↦ ground (arith, orphans-unnamed key now rs fs h, named_other key r.key fs h same)
    | inr other ↦ ground (arith, orphans-unnamed key now rs fs h)
  ]

  delete_call-calls :
      (key : ObjectKey) (s : Store)
      → (delete_call storage key s).1.calls ≡ StorageCall.deletes key ∷ s.calls
  unfolding delete_call log_call
  delete_call-calls key s = elim (Bool-cases (storage.delete_object key)) [
    | inl h ↦ rw h refl
    | inr h ↦ rw h refl
  ]

  for_each_delete-spares :
      (key : ObjectKey) (rs : List StoredObjectReference) (s : Store)
      → All (λ r. same_key key r.key ≡ false) rs
      → any (deletes_object key) (for_each rs (λ r. delete_call storage r.key) s).1.calls
        ≡ any (deletes_object key) s.calls
  for_each_delete-spares key [] s h = refl
  for_each_delete-spares key (r ∷ rs) s h = ground (
    arith,
    delete_call-calls r.key s,
    for_each_delete-spares key rs (delete_call storage r.key s).1 h.1,
  )

  -- The clean-up of orphans asks the storage to delete no object that a record of that storage names,
  -- however old the object is and wherever the clean-up fails.
  pub reconcile_orphans-spares :
      (key : ObjectKey) (now : ℕ) (s : Store)
      → any (names key) s.files ≡ true
      → any (deletes_object key) (reconcile_orphans storage scanner now s).1.calls
        ≡ any (deletes_object key) s.calls
  unfolding reconcile_orphans
  reconcile_orphans-spares key now s h = elim (Option-cases storage.list_objects) [
    | inl e ↦ ground arith
    | inr (objects, e) ↦ ground (
      arith,
      for_each_delete-spares key (orphans storage scanner now objects s.files) s
          (orphans-unnamed key now objects s.files h),
    )
  ]
