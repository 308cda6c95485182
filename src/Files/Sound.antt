-- ===== src/Files/Sound.antt =====
-- The soundness of the table of files, and how writes keep it.
use shipflow.Common.{
  ℕ, ◌≡◌, refl, Bool, false, List, [], ◌∷◌, arith, any, All, inl, inr, Option-cases, Action, pure,
  catch, ◌>>◌, Result-cases, for_each,
}
use shipflow.Database.{find_first, update_many, delete_many}
use shipflow.Database.Laws.{update_many-All, delete_many-All}
use shipflow.Files.{StoredFile, by_id, Store, update_file}
use shipflow.Files.Lifecycle.{Evolves, Unique, IsChecked, Unique-Evolves, All-IsChecked-Evolves}

-- The ids are distinct, and each row satisfies the lifecycle constraint of the database.
pub record IsSound (files : List StoredFile) : Type 0 where
  pub unique : Unique files
  pub checked : All IsChecked files

pub IsSound-Evolves : (fs gs : List StoredFile) → Evolves fs gs → IsSound fs → IsSound gs
IsSound-Evolves fs gs e h = record {
  unique = Unique-Evolves fs gs e h.unique;
  checked = All-IsChecked-Evolves fs gs e h.checked;
}

any-update_many :
    (id : ℕ) (p : StoredFile → Bool) (change : StoredFile → StoredFile) (fs : List StoredFile)
    → ((f : StoredFile) → (change f).id ≡ f.id)
    → any (by_id id) (update_many p change fs) ≡ any (by_id id) fs
any-update_many id p change [] keeps = refl
any-update_many id p change (f ∷ fs) keeps =
    ground (arith, keeps f, any-update_many id p change fs keeps)

Unique-update_many :
    (p : StoredFile → Bool) (change : StoredFile → StoredFile) (fs : List StoredFile)
    → ((f : StoredFile) → (change f).id ≡ f.id)
    → Unique fs
    → Unique (update_many p change fs)
Unique-update_many p change [] keeps u = tt
Unique-update_many p change (f ∷ fs) keeps u = ground (
  arith,
  keeps f,
  any-update_many f.id p change fs keeps,
  Unique-update_many p change fs keeps u.1,
)

any-delete_many :
    (q p : StoredFile → Bool) (fs : List StoredFile)
    → any q fs ≡ false
    → any q (delete_many p fs) ≡ false
any-delete_many q p [] h = refl
any-delete_many q p (f ∷ fs) h = ground (arith, any-delete_many q p fs)

Unique-delete_many :
    (p : StoredFile → Bool) (fs : List StoredFile) → Unique fs → Unique (delete_many p fs)
Unique-delete_many p [] u = tt
Unique-delete_many p (f ∷ fs) u =
    ground (arith, any-delete_many (by_id f.id) p fs u.0, Unique-delete_many p fs u.1)

-- Dropping rows keeps a sound table sound.
pub IsSound-delete_many :
    (p : StoredFile → Bool) (fs : List StoredFile) → IsSound fs → IsSound (delete_many p fs)
IsSound-delete_many p fs h = record {
  unique = Unique-delete_many p fs h.unique;
  checked = delete_many-All IsChecked p fs h.checked;
}

-- An update of one row that keeps ids and constraint.
pub update_file-IsSound :
    (id : ℕ) (change : StoredFile → StoredFile) (s : Store)
    → ((f : StoredFile) → (change f).id ≡ f.id)
    → ((f : StoredFile) → IsChecked f → IsChecked (change f))
    → IsSound s.files
    → IsSound (update_file id change s).1.files
unfolding update_file
update_file-IsSound id change s keeps checks h =
    elim (Option-cases (find_first (by_id id) s.files)) [
      | inl e ↦ rw (e, update_file) h
      | inr (f, e) ↦
          rw (e, update_file)
            (record {
              unique = Unique-update_many (by_id id) change s.files keeps h.unique;
              checked =
                  update_many-All IsChecked (by_id id) change s.files (λ r e. checks r) h.checked;
            })
    ]

pub for_each-IsSound :
    {A : Type 0} (body : A → Action Store (Unit {0}))
    → ((x : A) (s : Store) → IsSound s.files → IsSound (body x s).1.files)
    → (xs : List A) (s : Store) → IsSound s.files
    → IsSound (for_each xs body s).1.files
for_each-IsSound body step [] s h = h
for_each-IsSound body step (x ∷ xs) s h =
    let next : IsSound (body x s).1.files = step x s h in
    ground (arith, for_each-IsSound body step xs (body x s).1 next)

-- One call after another, and a call whose error is only logged.
pub then-IsSound :
    {A B : Type 0} (m : Action Store A) (k : Action Store B)
    → ((s : Store) → IsSound s.files → IsSound (m s).1.files)
    → ((s : Store) → IsSound s.files → IsSound (k s).1.files)
    → (s : Store) → IsSound s.files
    → IsSound ((m >> k) s).1.files
then-IsSound m k first second s h = elim (Result-cases (m s).0) [
  | inl (e, failed) ↦ ground (arith, first s h)
  | inr (a, done) ↦ ground (arith, second (m s).1 (first s h))
]

pub catch-IsSound :
    (m : Action Store (Unit {0})) (s : Store)
    → IsSound (m s).1.files
    → IsSound (catch m (λ e. pure tt) s).1.files
catch-IsSound m s h = elim (Result-cases (m s).0) [
  | inl (e, failed) ↦ ground arith
  | inr (a, done) ↦ ground arith
]
