-- ===== src/Pagination/Pages.antt =====
-- src/common/pagination.ts: the pages of a list, one after the other.
use native.Mathlib.Nat.{zero-add, zero-mul, div-le_self, div-add-mod, mod-lt}
use our_companion_network.Base.{
  ℕ, zero, suc, ◌+◌, ◌-◌, ◌*◌, ◌/◌, ◌≤◌, ◌≡◌, refl, ap, ◌∙◌, Option, none, some, List, [], ◌∷◌,
  ◌++◌, length, min, arith, take, drop,
}
use our_companion_network.Pagination.{
  bounded_page, page_items, page_envelope, total_pages, positive_or, max_page_size,
  max_safe_integer, default_page_size,
}

suc-add : (a b : ℕ) → suc a + b ≡ suc (a + b)
suc-add a b = omega arith

suc-mul_left : (a b : ℕ) → suc a * b ≡ a * b + b
suc-mul_left a b = omega arith

abbrev page_limit : Option ℕ → ℕ
page_limit limit = min (positive_or default_page_size limit) max_page_size

page_limit-positive : (limit : Option ℕ) → 1 ≤ page_limit limit
page_limit-positive none = omega arith
page_limit-positive (some n) = ground arith

module _ {ℓ} {A : Type ℓ} where
  take-append : (a b : ℕ) (xs : List A) → take a xs ++ take b (drop a xs) ≡ take (a + b) xs
  take-append zero b xs = rw (zero-add b) refl
  take-append (suc a) zero [] = rw (suc-add a zero) refl
  take-append (suc a) (suc b) [] = rw (suc-add a (suc b)) refl
  take-append (suc a) b (x ∷ xs) = rw (suc-add a b) (ap (λ ys. x ∷ ys) (take-append a b xs))

  drop-drop : (s a : ℕ) (xs : List A) → drop (s + a) xs ≡ drop a (drop s xs)
  drop-drop zero a xs = rw (zero-add a) refl
  drop-drop (suc s) zero [] = rw (suc-add s zero) refl
  drop-drop (suc s) (suc a) [] = rw (suc-add s (suc a)) refl
  drop-drop (suc s) a (x ∷ xs) = rw (suc-add s a) (drop-drop s a xs)

  take_all : (n : ℕ) (xs : List A) → length xs ≤ n → take n xs ≡ xs
  take_all zero [] h = refl
  take_all (suc n) [] h = refl
  take_all zero (x ∷ xs) h = ground arith
  take_all (suc n) (x ∷ xs) h = ground (arith, take_all n xs)

  -- The items of so many pages, the first of them with the number given.
  abbrev pub collect : Option ℕ → ℕ → ℕ → List A → List A
  collect limit page zero xs = []
  collect limit page (suc n) xs =
      page_items (bounded_page (some page) limit) xs ++ collect limit (suc page) n xs

  page_items-at :
      (limit : Option ℕ) (j : ℕ) (xs : List A)
      → suc j ≤ max_safe_integer
      → page_items (bounded_page (some (suc j)) limit) xs
        ≡ take (page_limit limit) (drop (j * page_limit limit) xs)
  unfolding bounded_page
  page_items-at limit j xs h =
      let same : positive_or 1 (some (suc j)) ≡ suc j = ground arith in
      let less : suc j - 1 ≡ j = omega arith in rw (same, less) refl

  collect-take :
      (limit : Option ℕ) (j n : ℕ) (xs : List A)
      → j + n ≤ max_safe_integer
      → collect limit (suc j) n xs ≡ take (n * page_limit limit) (drop (j * page_limit limit) xs)
  collect-take limit j zero xs h = rw (zero-mul (page_limit limit)) refl
  collect-take limit j (suc n) xs h =
      let l = page_limit limit in
      let ih = collect-take limit (suc j) n xs (omega arith) in
      rw (page_items-at limit j xs (omega arith), ih, suc-mul_left j l, drop-drop (j * l) l xs)
        (take-append l (n * l) (drop (j * l) xs)
          ∙ ap (λ k. take k (drop (j * l) xs)) (let e = suc-mul_left n l in omega arith))

  -- The pages that the envelope counts, from the first to the last, are the list, whichever limit is
  -- asked for, if its length is at most the largest safe integer less 100.
  pub collect-total_pages :
      (limit : Option ℕ) (xs : List A)
      → length xs + max_page_size ≤ max_safe_integer
      → collect limit 1 (page_envelope xs (length xs) (bounded_page none limit)).pages xs ≡ xs
  unfolding page_envelope total_pages bounded_page
  collect-total_pages limit xs h =
      let l = page_limit limit in
      let n = (length xs + (l - 1)) / l in
      let positive = page_limit-positive limit in
      let below : l ≤ max_page_size = omega arith in
      let few = div-le_self (length xs + (l - 1)) l in
      let e = div-add-mod (length xs + (l - 1)) l in
      let r = mod-lt (length xs + (l - 1)) positive in
      let enough : length xs ≤ n * l = omega arith in
      collect-take limit 0 n xs (omega arith)
      ∙ ap (λ k. take (n * l) (drop k xs)) (zero-mul l)
      ∙ take_all (n * l) xs enough
