-- ===== src/Database/Laws.antt =====
-- Laws of the table operations that several components use.
use shipflow.Common.{◌≡◌, Bool, true, some, List, [], ◌∷◌, arith, All, ◌+◌, length}
use shipflow.Database.{find_first, count, update_many, delete_many}

module _ {R : Type 0} where
  -- A row that `findFirst` returns satisfies its `where` clause.
  pub find_first-holds :
      (p : R → Bool) (rs : List R) (r : R) → find_first p rs ≡ some r → p r ≡ true
  find_first-holds p [] r e = cc
  find_first-holds p (x ∷ rs) r e = ground (arith, find_first-holds p rs r)

  -- What holds of every row holds of the row that is found.
  pub find_first-All :
      (P : R → Type 0) (p : R → Bool) (rs : List R) (r : R)
      → All P rs
      → find_first p rs ≡ some r
      → P r
  find_first-All P p [] r h e = absurd (cc)
  find_first-All P p (x ∷ rs) r h e = ground (arith, find_first-All P p rs r h.1)

  pub update_many-All :
      (P : R → Type 0) (p : R → Bool) (f : R → R) (rs : List R)
      → ((r : R) → p r ≡ true → P r → P (f r))
      → All P rs
      → All P (update_many p f rs)
  update_many-All P p f [] keep h = tt
  update_many-All P p f (r ∷ rs) keep h = ground (arith, keep r, update_many-All P p f rs keep h.1)

  pub delete_many-All :
      (P : R → Type 0) (p : R → Bool) (rs : List R) → All P rs → All P (delete_many p rs)
  delete_many-All P p [] h = tt
  delete_many-All P p (r ∷ rs) h = ground (arith, delete_many-All P p rs h.1)

  -- The rows that a deletion counts and those that it leaves are all.
  pub count-delete_many :
      (p : R → Bool) (rs : List R) → count p rs + length (delete_many p rs) ≡ length rs
  count-delete_many p [] = omega arith
  count-delete_many p (r ∷ rs) = ground (arith, count-delete_many p rs)
