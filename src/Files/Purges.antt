-- ===== src/Files/Purges.antt =====
-- The purge loop spares every file that is not due.
use shipflow.Common.{
  ℕ, ◌==◌, ◌≡◌, refl, Bool, true, false, ◌&&◌, some, List, [], ◌∷◌, arith, All, inl, inr,
  Bool-cases, Option-cases, for_each, take, suc, zero, any, ◌∙◌,
}
use shipflow.Database.{find_first, find_many, update_many}
use shipflow.Database.Ordering.{insert_by, order_by}
use shipflow.Files.{
  StoredFile, by_id, same_provider, Store, deletion_retry, ObjectStorageProvider, MalwareScanner,
  update_file,
}
use shipflow.Files.Lifecycle.{Unique}
use shipflow.Files.Maintenance.{
  is_due, purge, purge_file, purge_queue, purge_expired_records, before,
}
use shipflow.Files.Upkeep.{asked, delete_call_ok, delete_call_refused}

module _ {R : Type 0} (P : R → Type 0) where
  All-insert_by :
      (before : R → R → Bool) (r : R) (rs : List R) → P r → All P rs → All P (insert_by before r rs)
  All-insert_by before r [] p h = (p, tt)
  All-insert_by before r (x ∷ xs) p h = ground (arith, All-insert_by before r xs p h.1)

  All-order_by : (before : R → R → Bool) (rs : List R) → All P rs → All P (order_by before rs)
  All-order_by before [] h = tt
  All-order_by before (r ∷ rs) h =
      All-insert_by before r (order_by before rs) h.0 (All-order_by before rs h.1)

  All-take : (n : ℕ) (rs : List R) → All P rs → All P (take n rs)
  All-take zero rs h = tt
  All-take (suc n) [] h = tt
  All-take (suc n) (r ∷ rs) h = (h.0, All-take n rs h.1)

find_first-other :
    (id j : ℕ) (change : StoredFile → StoredFile) (fs : List StoredFile)
    → (j == id) ≡ false
    → ((f : StoredFile) → (change f).id ≡ f.id)
    → find_first (by_id id) (update_many (by_id j) change fs) ≡ find_first (by_id id) fs
find_first-other id j change [] h keeps = refl
find_first-other id j change (f ∷ fs) h keeps =
    ground (arith, keeps f, find_first-other id j change fs h keeps)

update_file-other :
    (id j : ℕ) (change : StoredFile → StoredFile) (s : Store)
    → (j == id) ≡ false
    → ((f : StoredFile) → (change f).id ≡ f.id)
    → find_first (by_id id) (update_file j change s).1.files ≡ find_first (by_id id) s.files
unfolding update_file
update_file-other id j change s h keeps = elim (Option-cases (find_first (by_id j) s.files)) [
  | inl e ↦ rw (e, update_file) refl
  | inr (f, e) ↦ rw (e, update_file) (find_first-other id j change s.files h keeps)
]

queue_absent :
    (id : ℕ) (q : StoredFile → Bool) (fs : List StoredFile)
    → any (by_id id) fs ≡ false
    → All (λ x. (x.id == id) ≡ false) (find_many q fs)
queue_absent id q [] h = tt
queue_absent id q (x ∷ xs) h = ground (arith, queue_absent id q xs)

-- The one row of an id that is not due keeps the id out of the queue.
queue_other :
    (id now : ℕ) (p : StoredFile → Bool) (fs : List StoredFile) (f : StoredFile)
    → Unique fs
    → find_first (by_id id) fs ≡ some f
    → is_due now f ≡ false
    → All (λ x. (x.id == id) ≡ false) (find_many (λ x. p x && is_due now x) fs)
queue_other id now p [] f u e h = tt
queue_other id now p (x ∷ xs) f u e h = elim (Bool-cases (x.id == id)) [
  | inl hit ↦
      let at_id : x.id ≡ id = ground arith in
      let rest = queue_absent id (λ y. p y && is_due now y) xs (rw at_id at u.0) in
      let not_due : is_due now x ≡ false = at_found hit in ground (arith, rest, not_due)
  | inr miss ↦ ground (arith, queue_other id now p xs f u.1)
]
  where
    at_found : (x.id == id) ≡ true → is_due now x ≡ false
    at_found hit =
        let same : some x ≡ some f = rw hit at e in let equal : x ≡ f = ground arith in rw equal h

module _ (storage : ObjectStorageProvider) (scanner : MalwareScanner) where
  purge_file-other :
      (id now : ℕ) (file : StoredFile) (s : Store)
      → (file.id == id) ≡ false
      → find_first (by_id id) (purge_file storage scanner now file s).1.files
        ≡ find_first (by_id id) s.files
  unfolding purge_file
  purge_file-other id now file s h =
      let s' = asked storage scanner file.object_key s in
      elim (Bool-cases (storage.delete_object file.object_key)) [
        | inl gone ↦
            let purged = (update_file file.id (purge now) s').1 in
            ground (
              arith,
              delete_call_ok storage scanner file.object_key s gone,
              update_file-other id file.id (purge now) s' h (λ f. refl),
              update_file-other id file.id
                  (λ f. record f { last_lifecycle_error = some deletion_retry }) purged h
                  (λ f. refl),
            )
        | inr refused ↦ ground (
          arith,
          delete_call_refused storage scanner file.object_key s refused,
          update_file-other id file.id
              (λ f. record f { last_lifecycle_error = some deletion_retry }) s' h (λ f. refl),
        )
      ]

  for_each_purge-other :
      (id now : ℕ) (fs : List StoredFile) (s : Store)
      → All (λ x. (x.id == id) ≡ false) fs
      → find_first (by_id id) (for_each fs (purge_file storage scanner now) s).1.files
        ≡ find_first (by_id id) s.files
  for_each_purge-other id now [] s h = refl
  for_each_purge-other id now (f ∷ fs) s h = ground (
    arith,
    purge_file-other id now f s h.0,
    for_each_purge-other id now fs (purge_file storage scanner now f s).1 h.1,
  )

  -- In a table with distinct ids, a round of the purge leaves the row of a file that is not due exactly
  -- as it is.
  pub purge_expired_records-spares :
      (id now : ℕ) (s : Store) (f : StoredFile)
      → Unique s.files
      → find_first (by_id id) s.files ≡ some f
      → is_due now f ≡ false
      → find_first (by_id id) (purge_expired_records storage scanner now s).1.files ≡ some f
  unfolding purge_expired_records purge_queue
  purge_expired_records-spares id now s f u e h =
      let due =
        find_many (λ x. same_provider x.storage_provider storage.provider && is_due now x)
          s.files in
      let order = before (λ x. some x.created_at) in
      let other =
        queue_other id now (λ x. same_provider x.storage_provider storage.provider) s.files f u e
          h in
      for_each_purge-other id now (take 100 (order_by order due)) s (
        All-take (λ x. (x.id == id) ≡ false) 100 (order_by order due)
          (All-order_by (λ x. (x.id == id) ≡ false) order due other))
      ∙ e
