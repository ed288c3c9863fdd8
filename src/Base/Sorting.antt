-- ===== src/Base/Sorting.antt =====
-- `sort` of a JavaScript array and `ORDER BY`, by a test that a row belongs before another, and
-- `Set` and `Map` as lists in the order of insertion.
use mathlib.Core.Bool.{Bool}
use mathlib.Core.List.{List, [], ◌∷◌}
use our_companion_network.Base.Tests.{if◌then◌else◌}

module _ {ℓ} {A : Type ℓ} (before : A → A → Bool) where
  abbrev pub insert : A → List A → List A
  insert x [] = x ∷ []
  insert x (y ∷ ys) = let rest = insert x ys in if before y x then y ∷ rest else x ∷ y ∷ ys

  -- Rows of which neither belongs before the other keep their order.
  abbrev pub sort : List A → List A
  sort [] = []
  sort (x ∷ xs) = insert x (sort xs)
