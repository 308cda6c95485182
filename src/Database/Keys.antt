-- ===== src/Database/Keys.antt =====
-- Tables with a primary key: what a write of one row, found by its key, does to the table.
use shipflow.Common.{
  ℕ, ◌+◌, ◌==◌, ◌≡◌, refl, Bool, true, false, ◌&&◌, none, some, List, [], ◌∷◌, arith, any, inl, inr,
  Bool-cases, if◌then◌else◌,
}
use shipflow.Database.Laws.{find_first-holds}
use shipflow.Database.{find_first, count, update_many, delete_many}

module _ {R : Type 0} (key : R → ℕ) where
  abbrev pub has_id : ℕ → R → Bool
  has_id id r = key r == id

  abbrev pub UniqueIds : List R → Type 0
  UniqueIds [] = Unit
  UniqueIds (r ∷ rs) = (any (has_id (key r)) rs ≡ false) × UniqueIds rs

  pub find_first-any :
      (p q : R → Bool) (rs : List R) (r : R)
      → find_first p rs ≡ some r
      → any q rs ≡ false
      → q r ≡ false
  find_first-any p q [] r e h = absurd (cc)
  find_first-any p q (x ∷ xs) r e h = ground (arith, find_first-any p q xs r)

  -- A row found by its id and more is the one of that id.
  pub find_first-own :
      (id : ℕ) (q : R → Bool) (rs : List R) (r : R)
      → UniqueIds rs
      → find_first (λ x. has_id id x && q x) rs ≡ some r
      → find_first (has_id (key r)) rs ≡ some r
  find_first-own id q [] r u e = absurd (cc)
  find_first-own id q (x ∷ xs) r u e = ground (
    arith,
    find_first-own id q xs r u.1,
    find_first-any (λ y. has_id id y && q y) (has_id (key x)) xs r,
  )

  pub find_first-id :
      (id : ℕ) (q : R → Bool) (rs : List R) (r : R)
      → UniqueIds rs
      → find_first (λ x. has_id id x && q x) rs ≡ some r
      → find_first (has_id id) rs ≡ some r
  find_first-id id q rs r u e =
      let at_id : key r ≡ id = ground (arith, find_first-holds (λ x. has_id id x && q x) rs r e) in
      rw at_id at (find_first-own id q rs r u e)

  update_many-absent :
      (p : R → Bool) (change : R → R) (rs : List R)
      → any p rs ≡ false
      → update_many p change rs ≡ rs
  update_many-absent p change [] h = refl
  update_many-absent p change (x ∷ xs) h = ground (arith, update_many-absent p change xs)

  delete_many-absent : (p : R → Bool) (rs : List R) → any p rs ≡ false → delete_many p rs ≡ rs
  delete_many-absent p [] h = refl
  delete_many-absent p (x ∷ xs) h = ground (arith, delete_many-absent p xs)

  abbrev pub one : Bool → ℕ
  one true = 1
  one false = 0

  -- A count after a row is written differs by that row alone.
  pub count-update_one :
      (p : R → Bool) (id : ℕ) (change : R → R) (rs : List R) (r : R)
      → UniqueIds rs
      → find_first (has_id id) rs ≡ some r
      → count p (update_many (has_id id) change rs) + one (p r) ≡ count p rs + one (p (change r))
  count-update_one p id change [] r u e = absurd (cc)
  count-update_one p id change (x ∷ xs) r u e = elim (Bool-cases (has_id id x)) [
    | inl hit ↦
        let at_id : key x ≡ id = ground arith in
        ground (arith, update_many-absent (has_id id) change xs (rw at_id at u.0))
    | inr miss ↦ ground (arith, count-update_one p id change xs r u.1)
  ]

  pub count-delete_one :
      (p : R → Bool) (id : ℕ) (rs : List R) (r : R)
      → UniqueIds rs
      → find_first (has_id id) rs ≡ some r
      → count p (delete_many (has_id id) rs) + one (p r) ≡ count p rs
  count-delete_one p id [] r u e = absurd (cc)
  count-delete_one p id (x ∷ xs) r u e = elim (Bool-cases (has_id id x)) [
    | inl hit ↦
        let at_id : key x ≡ id = ground arith in
        ground (arith, delete_many-absent (has_id id) xs (rw at_id at u.0))
    | inr miss ↦ ground (arith, count-delete_one p id xs r u.1)
  ]

  -- The row of an id after a write of another, or of the same.
  pub find_first-update :
      (j id : ℕ) (change : R → R) (rs : List R)
      → ((r : R) → key (change r) ≡ key r)
      → find_first (has_id j) (update_many (has_id id) change rs)
        ≡ elim (find_first (has_id j) rs) [
          | none ↦ none
          | some r ↦ some (if has_id id r then change r else r)
        ]
  find_first-update j id change [] keeps = refl
  find_first-update j id change (x ∷ xs) keeps =
      ground (arith, keeps x, find_first-update j id change xs keeps)

  any-update :
      (p : R → Bool) (q : R → Bool) (change : R → R) (rs : List R)
      → ((r : R) → q (change r) ≡ q r)
      → any q (update_many p change rs) ≡ any q rs
  any-update p q change [] keeps = refl
  any-update p q change (x ∷ xs) keeps = ground (arith, keeps x, any-update p q change xs keeps)

  -- Writes that keep the ids keep them distinct.
  pub UniqueIds-update :
      (p : R → Bool) (change : R → R) (rs : List R)
      → ((r : R) → key (change r) ≡ key r)
      → UniqueIds rs
      → UniqueIds (update_many p change rs)
  UniqueIds-update p change [] keeps u = tt
  UniqueIds-update p change (x ∷ xs) keeps u = ground (
    arith,
    keeps x,
    UniqueIds-update p change xs keeps u.1,
    any-update p (has_id (key x)) change xs (λ r. rw (keeps r) refl),
  )
