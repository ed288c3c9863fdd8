-- ===== src/Base/Tables.antt =====
-- A table of the database is the list of its rows. A query reads the rows that pass its `where`
-- clause, which is a Boolean test; a write rewrites or drops those rows.
use Prim.Native.Nat.{ℕ, zero, suc, ◌+◌, ◌≤◌}
use mathlib.Core.Path.{◌≡◌, refl}
use mathlib.Core.Bool.{Bool, true, false, not, ◌&&◌, ◌||◌}
use mathlib.Core.Option.{Option, none, some}
use mathlib.Core.List.{List, [], ◌∷◌}
use native.Mathlib.Omega.{arith}
use our_companion_network.Base.Tests.{if◌then◌else◌}

module _ {ℓ} {A : Type ℓ} where
  abbrev pub length : List A → ℕ
  length [] = 0
  length (x ∷ xs) = suc (length xs)

  -- `findUnique`, `findFirst`
  abbrev pub find_first : (A → Bool) → List A → Option A
  find_first p [] = none
  find_first p (x ∷ xs) = if p x then some x else find_first p xs

  -- whether a row passes the test
  abbrev pub any : (A → Bool) → List A → Bool
  any p [] = false
  any p (x ∷ xs) = p x || any p xs

  abbrev pub all : (A → Bool) → List A → Bool
  all p [] = true
  all p (x ∷ xs) = p x && all p xs

  -- `findMany`, and `filter` of a JavaScript array
  abbrev pub where_ : (A → Bool) → List A → List A
  where_ p [] = []
  where_ p (x ∷ xs) = let rest = where_ p xs in if p x then x ∷ rest else rest

  -- `count`
  abbrev pub count_where : (A → Bool) → List A → ℕ
  count_where p [] = 0
  count_where p (x ∷ xs) = (if p x then 1 else 0) + count_where p xs

  -- `deleteMany`
  abbrev pub delete_where : (A → Bool) → List A → List A
  delete_where p [] = []
  delete_where p (x ∷ xs) = let rest = delete_where p xs in if p x then rest else x ∷ rest

  -- `update`, `updateMany`
  abbrev pub update_where : (A → Bool) → (A → A) → List A → List A
  update_where p f [] = []
  update_where p f (x ∷ xs) = (if p x then f x else x) ∷ update_where p f xs

  -- No two rows agree on a key: a unique index.
  abbrev pub Unique : (A → A → Bool) → List A → Type 0
  Unique same [] = Unit {0}
  Unique same (x ∷ xs) = (any (same x) xs ≡ false) × Unique same xs

  pub any-delete_where :
      (p q : A → Bool) (xs : List A) → any p (delete_where q xs) ≡ any (λ x. p x && not (q x)) xs
  any-delete_where p q [] = refl
  any-delete_where p q (x ∷ xs) = ground (arith, any-delete_where p q xs)

  pub any_of_find_first :
      (p q : A → Bool) (xs : List A) (r : A)
      → find_first p xs ≡ some r
      → q r ≡ true
      → any q xs ≡ true
  any_of_find_first p q [] r e h = ground arith
  any_of_find_first p q (x ∷ xs) r e h = ground (arith, any_of_find_first p q xs r)

  pub find_first_sound :
      (p : A → Bool) (xs : List A) (r : A) → find_first p xs ≡ some r → p r ≡ true
  find_first_sound p [] r e = ground arith
  find_first_sound p (x ∷ xs) r e = ground (arith, find_first_sound p xs r)

  pub count_where-le-length : (p : A → Bool) (xs : List A) → count_where p xs ≤ length xs
  count_where-le-length p [] = omega arith
  count_where-le-length p (x ∷ xs) = ground (arith, count_where-le-length p xs)

  -- A write that a test does not see leaves its answer.
  pub any-update_where :
      (p q : A → Bool) (f : A → A) (xs : List A)
      → ((x : A) → p (f x) ≡ p x)
      → any p (update_where q f xs) ≡ any p xs
  any-update_where p q f [] h = refl
  any-update_where p q f (x ∷ xs) h = ground (arith, h x, any-update_where p q f xs h)

  -- A write after which a row fails the test leaves the rows that it does not meet.
  pub any-update_where_off :
      (p q : A → Bool) (f : A → A) (xs : List A)
      → ((x : A) → p (f x) ≡ false)
      → any p (update_where q f xs) ≡ any (λ x. p x && not (q x)) xs
  any-update_where_off p q f [] h = refl
  any-update_where_off p q f (x ∷ xs) h = ground (arith, h x, any-update_where_off p q f xs h)

  pub any_mono :
      (p q : A → Bool) (xs : List A)
      → ((x : A) → p x ≡ true → q x ≡ true)
      → any p xs ≡ true
      → any q xs ≡ true
  any_mono p q [] h e = e
  any_mono p q (x ∷ xs) h e = ground (arith, h x, any_mono p q xs h)

  pub any_congr : (p q : A → Bool) (xs : List A) → ((x : A) → p x ≡ q x) → any p xs ≡ any q xs
  any_congr p q [] h = refl
  any_congr p q (x ∷ xs) h = ground (arith, h x, any_congr p q xs h)

  pub any-or : (p q : A → Bool) (xs : List A) → any (λ x. p x || q x) xs ≡ (any p xs || any q xs)
  any-or p q [] = refl
  any-or p q (x ∷ xs) = ground (arith, any-or p q xs)

  pub all-update_where :
      (p q : A → Bool) (f : A → A) (xs : List A)
      → ((x : A) → p x ≡ true → q x ≡ true → p (f x) ≡ true)
      → all p xs ≡ true
      → all p (update_where q f xs) ≡ true
  all-update_where p q f [] h e = refl
  all-update_where p q f (x ∷ xs) h e = ground (arith, h x, all-update_where p q f xs h)

  -- A write that meets no row changes nothing; so does a deletion.
  pub update_where_none :
      (q : A → Bool) (f : A → A) (xs : List A) → any q xs ≡ false → update_where q f xs ≡ xs
  update_where_none q f [] e = refl
  update_where_none q f (x ∷ xs) e = ground (arith, update_where_none q f xs)

  pub delete_where_none : (q : A → Bool) (xs : List A) → any q xs ≡ false → delete_where q xs ≡ xs
  delete_where_none q [] e = refl
  delete_where_none q (x ∷ xs) e = ground (arith, delete_where_none q xs)

  pub any-delete_where_self : (q : A → Bool) (xs : List A) → any q (delete_where q xs) ≡ false
  any-delete_where_self q [] = refl
  any-delete_where_self q (x ∷ xs) = ground (arith, any-delete_where_self q xs)

  pub any-update_where_self :
      (q : A → Bool) (f : A → A) (xs : List A)
      → ((x : A) → q (f x) ≡ false)
      → any q (update_where q f xs) ≡ false
  any-update_where_self q f [] h = refl
  any-update_where_self q f (x ∷ xs) h = ground (arith, h x, any-update_where_self q f xs h)

  pub find_first_cong :
      (p q : A → Bool) (xs : List A) → ((x : A) → p x ≡ q x) → find_first p xs ≡ find_first q xs
  find_first_cong p q [] h = refl
  find_first_cong p q (x ∷ xs) h = ground (arith, h x, find_first_cong p q xs h)

  pub all_of_find_first :
      (p q : A → Bool) (xs : List A) (r : A)
      → all p xs ≡ true
      → find_first q xs ≡ some r
      → p r ≡ true
  all_of_find_first p q [] r h e = ground arith
  all_of_find_first p q (x ∷ xs) r h e = ground (arith, all_of_find_first p q xs r)

  -- A deletion by a test that is constant on the rows asked for.
  pub any-delete_where_const :
      (p q : A → Bool) (k : Bool) (xs : List A)
      → ((x : A) → p x ≡ true → q x ≡ k)
      → any p (delete_where q xs) ≡ (any p xs && not k)
  any-delete_where_const p q k [] h = refl
  any-delete_where_const p q k (x ∷ xs) h = ground (arith, h x, any-delete_where_const p q k xs h)

  -- So for a write after which a row fails the test.
  pub any-update_where_const :
      (p q : A → Bool) (f : A → A) (k : Bool) (xs : List A)
      → ((x : A) → p x ≡ true → q x ≡ k)
      → ((x : A) → p (f x) ≡ false)
      → any p (update_where q f xs) ≡ (any p xs && not k)
  any-update_where_const p q f k [] h g = refl
  any-update_where_const p q f k (x ∷ xs) h g =
      ground (arith, h x, g x, any-update_where_const p q f k xs h g)

  -- `slice(0, n)` of an array
  abbrev pub take : ℕ → List A → List A
  take zero xs = []
  take (suc n) [] = []
  take (suc n) (x ∷ xs) = x ∷ take n xs

  abbrev pub drop : ℕ → List A → List A
  drop zero xs = xs
  drop (suc n) [] = []
  drop (suc n) (x ∷ xs) = drop n xs
