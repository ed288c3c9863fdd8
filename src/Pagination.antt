-- ===== src/Pagination.antt =====
-- src/common/pagination.ts: a list is answered page by page. An absent number is `none`, and so is one
-- that is negative or no integer.
pub mod Pages
use our_companion_network.Base.{
  ℕ, ◌+◌, ◌-◌, ◌*◌, ◌/◌, ◌≡◌, Bool, true, false, ◌&&◌, Option, none, some, List, leb, ltb, length,
  min, if◌then◌else◌, take, drop,
}

-- DEFAULT_PAGE_SIZE, MAX_PAGE_SIZE
abbrev pub default_page_size : ℕ
default_page_size = 20

abbrev pub max_page_size : ℕ
max_page_size = 100

-- `Number.MAX_SAFE_INTEGER`
abbrev pub max_safe_integer : ℕ
max_safe_integer = 9007199254740991

pub record BoundedPage : Type 0 where
  pub page : ℕ
  pub limit : ℕ
  pub skip : ℕ
  pub take : ℕ

abbrev pub positive_or : ℕ → Option ℕ → ℕ
positive_or default none = default
positive_or default (some n) = if ltb 0 n && leb n max_safe_integer then n else default

unfoldable pub bounded_page : Option ℕ → Option ℕ → BoundedPage
bounded_page page limit =
    let p = positive_or 1 page in
    let l = min (positive_or default_page_size limit) max_page_size in
    record { page = p; limit = l; skip = (p - 1) * l; take = l }

-- What a query with `skip` and `take` reads of a sorted list.
abbrev pub page_items {ℓ} : {A : Type ℓ} → BoundedPage → List A → List A
page_items p xs = take p.take (drop p.skip xs)

-- `Math.ceil(total / limit)`
unfoldable pub total_pages : ℕ → BoundedPage → ℕ
total_pages total p = (total + (p.limit - 1)) / p.limit

pub record PageEnvelope {ℓ} (A : Type ℓ) : Type ℓ where
  pub items : List A
  pub page : ℕ
  pub limit : ℕ
  pub total : ℕ
  pub pages : ℕ

unfoldable pub page_envelope {ℓ} : {A : Type ℓ} → List A → ℕ → BoundedPage → PageEnvelope A
page_envelope items total p = record {
  items = items;
  page = p.page;
  limit = p.limit;
  total = total;
  pages = total_pages total p;
}
