-- ===== src/Base/Loops.antt =====
-- A loop that reads its rows first, and then rewrites one after the other those that are still as
-- they were read.
use mathlib.Core.Path.{◌≡◌, refl}
use mathlib.Core.Bool.{Bool, true, false, not, ◌||◌}
use mathlib.Core.List.{List, [], ◌∷◌}
use native.Mathlib.Omega.{arith}
use our_companion_network.Base.Tables.{all, any, where_, update_where}

module _ {ℓ} {A : Type ℓ} (bad : A → Bool) (same : A → A → Bool) where
  -- Each row that the loop is for is among those that it has still to write.
  abbrev pub IsPlanned : List A → List A → Type 0
  IsPlanned reads xs = all (λ x. not (bad x) || any (λ r. same r x) reads) xs ≡ true

  pub plan_write :
      (r : A) (reads : List A) (f : A → A) (xs : List A)
      → ((x : A) → bad (f x) ≡ false)
      → IsPlanned (r ∷ reads) xs
      → IsPlanned reads (update_where (same r) f xs)
  plan_write r reads f [] good h = refl
  plan_write r reads f (x ∷ xs) good h = ground (arith, good x, plan_write r reads f xs good)

  plan_more : (r : A) (reads xs : List A) → IsPlanned reads xs → IsPlanned (r ∷ reads) xs
  plan_more r reads [] h = refl
  plan_more r reads (x ∷ xs) h = ground (arith, plan_more r reads xs)

  pub plan_all : (xs : List A) → ((x : A) → same x x ≡ true) → IsPlanned (where_ bad xs) xs
  plan_all [] h = refl
  plan_all (x ∷ xs) h = ground (arith, h x, plan_all xs h, plan_more x (where_ bad xs) xs)

  pub plan_none : (xs : List A) → IsPlanned [] xs → any bad xs ≡ false
  plan_none [] h = refl
  plan_none (x ∷ xs) h = ground (arith, plan_none xs)

  -- A row that meets nothing can be skipped.
  pub plan_skip :
      (r : A) (reads xs : List A)
      → ((x : A) → same r x ≡ false)
      → IsPlanned (r ∷ reads) xs
      → IsPlanned reads xs
  plan_skip r reads [] n h = refl
  plan_skip r reads (x ∷ xs) n h = ground (arith, n x, plan_skip r reads xs n)

  -- A write by another test that agrees.
  pub plan_write_by :
      (p : A → Bool) (r : A) (reads : List A) (f : A → A) (xs : List A)
      → ((x : A) → p x ≡ same r x)
      → ((x : A) → p x ≡ true → bad (f x) ≡ false)
      → IsPlanned (r ∷ reads) xs
      → IsPlanned reads (update_where p f xs)
  plan_write_by p r reads f [] n good h = refl
  plan_write_by p r reads f (x ∷ xs) n good h =
      ground (arith, n x, good x, plan_write_by p r reads f xs n good)

  -- The rows that pass a wider test are enough.
  pub plan_wide :
      (wide : A → Bool) (xs : List A)
      → ((x : A) → bad x ≡ true → wide x ≡ true)
      → ((x : A) → bad x ≡ true → same x x ≡ true)
      → IsPlanned (where_ wide xs) xs
  plan_wide wide [] w s = refl
  plan_wide wide (x ∷ xs) w s =
      ground (arith, w x, s x, plan_wide wide xs w s, plan_more x (where_ wide xs) xs)
