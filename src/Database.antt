-- ===== src/Database.antt =====
-- The reads and writes of one table, as the services make them through Prisma. A table is the list
-- of its rows, a `where` clause a test on a row. The queries are the client's documented meaning on
-- a list of rows; `generated/prisma` and the database itself are not modelled.
pub mod Laws
pub mod Keys
pub mod Ordering
pub mod Writes
use shipflow.Common.{
  ℕ, suc, Bool, true, false, if◌then◌else◌, Option, none, some, List, [], ◌∷◌, ◌+◌,
}

module _ {R : Type 0} where
  -- `findFirst` and `findUnique`
  abbrev pub find_first : (R → Bool) → List R → Option R
  find_first p [] = none
  find_first p (r ∷ rs) = if p r then some r else find_first p rs

  -- `findMany`, in the order of the table
  abbrev pub find_many : (R → Bool) → List R → List R
  find_many p [] = []
  find_many p (r ∷ rs) = let rest = find_many p rs in if p r then r ∷ rest else rest

  -- `count`
  abbrev pub count : (R → Bool) → List R → ℕ
  count p [] = 0
  count p (r ∷ rs) = let rest = count p rs in if p r then suc rest else rest

  -- `aggregate` with `_sum`
  abbrev pub sum_of : (R → ℕ) → (R → Bool) → List R → ℕ
  sum_of f p [] = 0
  sum_of f p (r ∷ rs) = let rest = sum_of f p rs in if p r then f r + rest else rest

  -- `updateMany`; `count p` of the table before is the count that it returns
  abbrev pub update_many : (R → Bool) → (R → R) → List R → List R
  update_many p f [] = []
  update_many p f (r ∷ rs) = (if p r then f r else r) ∷ update_many p f rs

  -- `deleteMany`
  abbrev pub delete_many : (R → Bool) → List R → List R
  delete_many p [] = []
  delete_many p (r ∷ rs) = let rest = delete_many p rs in if p r then rest else r ∷ rest
