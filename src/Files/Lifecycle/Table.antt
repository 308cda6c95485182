-- ===== src/Files/Lifecycle/Table.antt =====
-- How the shared writes of the file services move the rows of the table.
use shipflow.Common.{
  ℕ, ◌≡◌, refl, Bool, true, false, ◌&&◌, Option, some, List, [], ◌∷◌, arith, any, bind_state, inl,
  inr, Bool-cases, Option-cases,
}
use shipflow.Database.{find_first, update_many}
use shipflow.Files.{
  StoredFile, by_id, Store, update_file, sync_lifecycle_state, ObjectStorageProvider, ObjectKey,
  LifecycleState, LifecycleError, tags, tag_retry, FileStatus,
}
use shipflow.Files.Lifecycle.{Transition, Holds, Evolves, Unique, Transition-refl, Evolves-refl}

find_first-any :
    (p q : StoredFile → Bool) (fs : List StoredFile) (f : StoredFile)
    → find_first p fs ≡ some f
    → any q fs ≡ false
    → q f ≡ false
find_first-any p q [] f e h = absurd (cc)
find_first-any p q (x ∷ xs) f e h = ground (arith, find_first-any p q xs f)

-- A file found by its id and more is the one of that id.
pub find_first-own :
    (id : ℕ) (q : StoredFile → Bool) (fs : List StoredFile) (f : StoredFile)
    → Unique fs
    → find_first (λ g. by_id id g && q g) fs ≡ some f
    → find_first (by_id f.id) fs ≡ some f
find_first-own id q [] f u e = absurd (cc)
find_first-own id q (x ∷ xs) f u e =
    ground (
      arith,
      find_first-own id q xs f u.1,
      find_first-any (λ g. by_id id g && q g) (by_id x.id) xs f,
    )

update_many-absent :
    (p : StoredFile → Bool) (change : StoredFile → StoredFile) (fs : List StoredFile)
    → any p fs ≡ false
    → update_many p change fs ≡ fs
update_many-absent p change [] h = refl
update_many-absent p change (x ∷ xs) h = ground (arith, update_many-absent p change xs)

-- An update of one file by its id moves that row only.
pub update_many-Evolves :
    (id : ℕ) (change : StoredFile → StoredFile) (fs : List StoredFile) (f : StoredFile)
    → Unique fs
    → find_first (by_id id) fs ≡ some f
    → Transition f (change f)
    → Evolves fs (update_many (by_id id) change fs)
update_many-Evolves id change [] f u e t = tt
update_many-Evolves id change (x ∷ xs) f u e t = elim (Bool-cases (by_id id x)) [
  | inl hit ↦
      let same : x ≡ f = ground arith in
      let at_id : x.id ≡ id = ground arith in
      rw (hit, update_many-absent (by_id id) change xs (rw at_id at u.0))
        (rw same (t, Evolves-refl xs))
  | inr miss ↦ rw miss (Transition-refl x, update_many-Evolves id change xs f u.1 (rw miss at e) t)
]

-- An update of the rows that pass a test, each by a transition.
pub update_many-Evolves_all :
    (p : StoredFile → Bool) (change : StoredFile → StoredFile) (fs : List StoredFile)
    → ((f : StoredFile) → p f ≡ true → Transition f (change f))
    → Evolves fs (update_many p change fs)
update_many-Evolves_all p change [] t = tt
update_many-Evolves_all p change (x ∷ xs) t = elim (Bool-cases (p x)) [
  | inl hit ↦ rw hit (t x hit, update_many-Evolves_all p change xs t)
  | inr miss ↦ rw miss (Transition-refl x, update_many-Evolves_all p change xs t)
]

pub Holds-error :
    (s : FileStatus) (g : StoredFile) (e : Option LifecycleError)
    → Holds s g
    → Holds s (record g { last_lifecycle_error = e })
Holds-error FileStatus.pending g e c = c
Holds-error _ g e c = c

-- The error text is no part of what a transition speaks of.
pub Transition-error :
    (f g : StoredFile) (e : Option LifecycleError)
    → Transition f g
    → Transition f (record g { last_lifecycle_error = e })
Transition-error f g e t = record {
  same_id = t.same_id;
  same_organization = t.same_organization;
  same_key = t.same_key;
  same_size = t.same_size;
  same_checksum = t.same_checksum;
  step = t.step;
  keeps_check = λ c. Holds-error g.status g e (t.keeps_check c);
}

update_many-error :
    (id : ℕ) (e : Option LifecycleError) (fs gs : List StoredFile)
    → Evolves fs gs
    → Evolves fs (update_many (by_id id) (λ g. record g { last_lifecycle_error = e }) gs)
update_many-error id e [] [] h = tt
update_many-error id e [] (g ∷ gs) h = absurd h
update_many-error id e (f ∷ fs) [] h = absurd h
update_many-error id e (f ∷ fs) (g ∷ gs) h = elim (Bool-cases (by_id id g)) [
  | inl hit ↦ rw hit (Transition-error f g e h.0, update_many-error id e fs gs h.1)
  | inr miss ↦ rw miss (h.0, update_many-error id e fs gs h.1)
]

pub update_file-Evolves :
    (id : ℕ) (change : StoredFile → StoredFile) (s : Store) (f : StoredFile)
    → Unique s.files
    → find_first (by_id id) s.files ≡ some f
    → Transition f (change f)
    → Evolves s.files (update_file id change s).1.files
unfolding update_file
update_file-Evolves id change s f u e t =
    rw (e, update_file) (update_many-Evolves id change s.files f u e t)

pub update_file_error-Evolves :
    (id : ℕ) (x : Option LifecycleError) (fs : List StoredFile) (s : Store)
    → Evolves fs s.files
    → Evolves fs (update_file id (λ g. record g { last_lifecycle_error = x }) s).1.files
unfolding update_file
update_file_error-Evolves id x fs s h = elim (Option-cases (find_first (by_id id) s.files)) [
  | inl e ↦ rw (e, update_file) h
  | inr (f, e) ↦ rw (e, update_file) (update_many-error id x fs s.files h)
]

-- A tag, whether the store takes it or not, adds nothing to what has happened to the rows.
pub sync-Evolves :
    (storage : ObjectStorageProvider) (id : ℕ) (key : ObjectKey) (state : LifecycleState)
    (fs : List StoredFile) (s : Store)
    → Evolves fs s.files
    → Evolves fs (sync_lifecycle_state storage id key state s).1.files
unfolding sync_lifecycle_state
sync-Evolves storage id key state fs s h =
    elim (Bool-cases (storage.set_lifecycle_state key state)) [
      | inl taken ↦ rw (taken, sync_lifecycle_state) h
      | inr refused ↦
          rw (refused, sync_lifecycle_state)
            (rw bind_state (
              update_file_error-Evolves id (some tag_retry) fs
                (record s { calls = tags key state ∷ s.calls }) h))
    ]
