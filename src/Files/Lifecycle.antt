-- ===== src/Files/Lifecycle.antt =====
-- The life of a stored file: which change of state one write may make, and the CHECK constraint
-- `stored_files_lifecycle_check` of backend/prisma/migrations/20260810120000_add_file_storage.
pub mod Table
pub mod Service
use shipflow.Common.{
  ℕ, ◌≤◌, ◌==◌, ◌≡◌, refl, Bool, true, false, ◌&&◌, Option, none, some, List, [], ◌∷◌, arith, All,
  any, is_some,
}
use shipflow.Files.{
  FileStatus, pending, scanning, ready, deleted, rejected, failed, purged, StoredFile, by_id,
}

-- What the columns of a row must be in each state, as the constraint spells it out.
abbrev pub Holds : FileStatus → StoredFile → Type 0
Holds FileStatus.pending f =
    (is_some f.uploaded_at ≡ false) × (is_some f.deleted_at ≡ false) × (is_some f.purged_at ≡ false)
Holds scanning f =
    (is_some f.uploaded_at ≡ true) × (is_some f.deleted_at ≡ false) × (is_some f.purged_at ≡ false)
Holds ready f =
    (is_some f.uploaded_at ≡ true) × (is_some f.deleted_at ≡ false) × (is_some f.purged_at ≡ false)
Holds deleted f =
    (is_some f.uploaded_at ≡ true)
    × (is_some f.deleted_at ≡ true)
    × (is_some f.purge_after ≡ true)
    × (is_some f.purged_at ≡ false)
Holds rejected f = (is_some f.purge_after ≡ true) × (is_some f.purged_at ≡ false)
Holds FileStatus.failed f = (is_some f.purge_after ≡ true) × (is_some f.purged_at ≡ false)
Holds purged f = (is_some f.purged_at ≡ true) × (is_some f.audit_expires_at ≡ true)

abbrev pub IsChecked : StoredFile → Type 0
IsChecked f = Holds f.status f

-- The changes of state: a reservation becomes an upload or is given up, an upload is scanned, deleted
-- and restored, and what is purged stays so.
abbrev pub may_become : FileStatus → FileStatus → Bool
may_become FileStatus.pending deleted = false
may_become FileStatus.pending t = true
may_become scanning FileStatus.pending = false
may_become scanning purged = false
may_become scanning t = true
may_become ready ready = true
may_become ready deleted = true
may_become ready t = false
may_become deleted scanning = true
may_become deleted ready = true
may_become deleted deleted = true
may_become deleted purged = true
may_become deleted t = false
may_become rejected rejected = true
may_become rejected purged = true
may_become rejected t = false
may_become FileStatus.failed FileStatus.failed = true
may_become FileStatus.failed purged = true
may_become FileStatus.failed t = false
may_become purged purged = true
may_become purged t = false

-- What one write does to a row: it may change the state as above, keeps the constraint, and leaves
-- alone what identifies the file and what its reservation fixed.
pub record Transition (f g : StoredFile) : Type 0 where
  pub same_id : g.id ≡ f.id
  pub same_organization : g.organization_id ≡ f.organization_id
  pub same_key : g.object_key ≡ f.object_key
  pub same_size : g.size_bytes ≡ f.size_bytes
  pub same_checksum : g.checksum_sha256 ≡ f.checksum_sha256
  pub step : may_become f.status g.status ≡ true
  pub keeps_check : IsChecked f → IsChecked g

-- Row by row, and no row comes or goes.
abbrev pub Evolves : List StoredFile → List StoredFile → Type 0
Evolves [] [] = Unit
Evolves [] (g ∷ gs) = ⊥
Evolves (f ∷ fs) [] = ⊥
Evolves (f ∷ fs) (g ∷ gs) = Transition f g × Evolves fs gs

-- The primary key.
abbrev pub Unique : List StoredFile → Type 0
Unique [] = Unit
Unique (f ∷ fs) = (any (by_id f.id) fs ≡ false) × Unique fs

may_become_refl : (s : FileStatus) → may_become s s ≡ true
may_become_refl FileStatus.pending = refl
may_become_refl _ = refl

pub Transition-refl : (f : StoredFile) → Transition f f
Transition-refl f = record {
  same_id = refl;
  same_organization = refl;
  same_key = refl;
  same_size = refl;
  same_checksum = refl;
  step = may_become_refl f.status;
  keeps_check = λ c. c;
}

pub Evolves-refl : (fs : List StoredFile) → Evolves fs fs
Evolves-refl [] = tt
Evolves-refl (f ∷ fs) = (Transition-refl f, Evolves-refl fs)

any-Evolves :
    (id : ℕ) (fs gs : List StoredFile) → Evolves fs gs → any (by_id id) gs ≡ any (by_id id) fs
any-Evolves id [] [] e = refl
any-Evolves id [] (g ∷ gs) e = absurd e
any-Evolves id (f ∷ fs) [] e = absurd e
any-Evolves id (f ∷ fs) (g ∷ gs) e = rw (e.0.same_id, any-Evolves id fs gs e.1)

pub Unique-Evolves : (fs gs : List StoredFile) → Evolves fs gs → Unique fs → Unique gs
Unique-Evolves [] [] e u = tt
Unique-Evolves [] (g ∷ gs) e u = absurd e
Unique-Evolves (f ∷ fs) [] e u = absurd e
Unique-Evolves (f ∷ fs) (g ∷ gs) e u =
    (rw (e.0.same_id, any-Evolves f.id fs gs e.1) u.0, Unique-Evolves fs gs e.1 u.1)

-- A table that satisfies the constraint still does after its rows have evolved.
pub All-IsChecked-Evolves :
    (fs gs : List StoredFile) → Evolves fs gs → All IsChecked fs → All IsChecked gs
All-IsChecked-Evolves [] [] e h = tt
All-IsChecked-Evolves [] (g ∷ gs) e h = absurd e
All-IsChecked-Evolves (f ∷ fs) [] e h = absurd e
All-IsChecked-Evolves (f ∷ fs) (g ∷ gs) e h =
    (e.0.keeps_check h.0, All-IsChecked-Evolves fs gs e.1 h.1)
