-- ===== src/Database/Writes.antt =====
-- Laws of `updateMany`: what a write does to the number of rows that satisfy a test, and to the row
-- that a query finds.
use shipflow.Common.{
  suc, ◌≤◌, ◌≡◌, refl, Bool, true, false, ◌&&◌, if◌then◌else◌, some, List, [], ◌∷◌, any, arith,
}
use shipflow.Database.{find_first, count, update_many}

module _ {R : Type 0} where
  -- A write after which no written row is counted.
  pub count-update_le :
      (p q : R → Bool) (change : R → R) (rs : List R)
      → ((r : R) → p (change r) ≡ false)
      → count p (update_many q change rs) ≤ count p rs
  count-update_le p q change [] gone = omega arith
  count-update_le p q change (r ∷ rs) gone =
      ground (arith, gone r, count-update_le p q change rs gone)

  pub count-update_lt :
      (p q : R → Bool) (change : R → R) (rs : List R)
      → ((r : R) → p (change r) ≡ false)
      → any (λ r. q r && p r) rs ≡ true
      → suc (count p (update_many q change rs)) ≤ count p rs
  count-update_lt p q change [] gone h = absurd (cc)
  count-update_lt p q change (r ∷ rs) gone h =
      ground (arith, gone r, count-update_le p q change rs gone, count-update_lt p q change rs gone)

  -- Writing every counted row leaves none.
  pub count-update_none :
      (p q : R → Bool) (change : R → R) (rs : List R)
      → ((r : R) → p (change r) ≡ false)
      → ((r : R) → p r ≡ true → q r ≡ true)
      → count p (update_many q change rs) ≡ 0
  count-update_none p q change [] gone all = refl
  count-update_none p q change (r ∷ rs) gone all =
      ground (arith, gone r, all r, count-update_none p q change rs gone all)

  pub any-find_first :
      (p q : R → Bool) (rs : List R) (r : R)
      → find_first p rs ≡ some r
      → q r ≡ true
      → any q rs ≡ true
  any-find_first p q [] r e h = absurd (cc)
  any-find_first p q (x ∷ xs) r e h = ground (arith, any-find_first p q xs r)

  -- The row found after a write that keeps what it is found by.
  pub find_first-write :
      (p q : R → Bool) (change : R → R) (rs : List R) (r : R)
      → ((x : R) → p (change x) ≡ p x)
      → find_first p rs ≡ some r
      → find_first p (update_many q change rs) ≡ some (if q r then change r else r)
  find_first-write p q change [] r keeps e = absurd (cc)
  find_first-write p q change (x ∷ xs) r keeps e =
      ground (arith, keeps x, find_first-write p q change xs r keeps)
