-- ===== src/Database/Ordering.antt =====
-- `orderBy`: a stable insertion sort by a test, since rows that tie have no order of their own.
use shipflow.Common.{Bool, if◌then◌else◌, List, [], ◌∷◌}

module _ {R : Type 0} where
  abbrev pub insert_by : (R → R → Bool) → R → List R → List R
  insert_by before r [] = r ∷ []
  insert_by before r (x ∷ xs) = if before r x then r ∷ x ∷ xs else x ∷ insert_by before r xs

  abbrev pub order_by : (R → R → Bool) → List R → List R
  order_by before [] = []
  order_by before (r ∷ rs) = insert_by before r (order_by before rs)
