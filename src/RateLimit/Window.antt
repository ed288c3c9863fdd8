-- ===== src/RateLimit/Window.antt =====
-- src/common/guards/social-rate-limit.guard.ts: how many calls of one user a window lets through.
use our_companion_network.Base.{
  ℕ, ◌≤◌, ◌≡◌, refl, Bool, true, false, List, [], ◌∷◌, ◌++◌, leb, ltb, where_, count_where, length,
  arith, inl, inr, Bool-cases, ok, err, if◌then◌else◌, too_many_requests, Code,
  count_where-le-length,
}
use our_companion_network.RateLimit.{
  read, lookup, friend_request_create, mutation, block_mutation, companion_profile, asset_initiate,
  asset_upload_urls, asset_complete, asset_download_urls, visit_read, visit_create, visit_mutation,
  visit_heartbeat, visit_asset_urls, Policy, Attempts, limit, window_ms, is_recent, recent_times,
  set_times, evict, cleanup, can_activate, keep_entry,
}
use our_companion_network.RateLimit.Bounds.{length-snoc}

-- The map where one user makes calls of one policy.
abbrev pub single : ℕ → Policy → List ℕ → List Attempts
single user policy [] = []
single user policy (t ∷ ts) = record { user_id = user; policy = policy; times = t ∷ ts } ∷ []

-- The calls of a user of one policy, and the times at which they were let through.
abbrev pub pass : ℕ → Policy → List ℕ → List Attempts → List ℕ → List ℕ
pass user policy [] attempts log = log
pass user policy (t ∷ ts) attempts log = elim (can_activate false user policy t attempts) [
  | err _ ↦ pass user policy ts attempts log
  | ok after ↦ pass user policy ts after (t ∷ log)
]

-- Calls that follow one another, between two times.
abbrev pub AreOrdered : ℕ → List ℕ → ℕ → Type 0
AreOrdered last [] later = last ≤ later
AreOrdered last (t ∷ ts) later = (last ≤ t) × AreOrdered t ts later

window_positive : (policy : Policy) → ltb 0 (window_ms policy) ≡ true
window_positive read = refl
window_positive lookup = refl
window_positive friend_request_create = refl
window_positive mutation = refl
window_positive block_mutation = refl
window_positive companion_profile = refl
window_positive asset_initiate = refl
window_positive asset_upload_urls = refl
window_positive asset_complete = refl
window_positive asset_download_urls = refl
window_positive visit_read = refl
window_positive visit_create = refl
window_positive visit_mutation = refl
window_positive visit_heartbeat = refl
window_positive visit_asset_urls = refl

recent_twice :
    (policy : Policy) (now : ℕ) (ts : List ℕ)
    → where_ (is_recent policy now) (where_ (is_recent policy now) ts ++ now ∷ [])
      ≡ where_ (is_recent policy now) ts ++ now ∷ []
recent_twice policy now [] = ground (arith, window_positive policy)
recent_twice policy now (t ∷ ts) = ground (arith, recent_twice policy now ts)

recent-single :
    (user : ℕ) (policy : Policy) (now : ℕ) (ts : List ℕ)
    → recent_times user policy now (single user policy ts) ≡ where_ (is_recent policy now) ts
unfolding recent_times
recent-single user policy now [] = refl
recent-single user policy now (t ∷ ts) = ground arith

abbrev entry_of : ℕ → Policy → List ℕ → Attempts
entry_of user policy ts = record { user_id = user; policy = policy; times = ts }

set-single :
    (user : ℕ) (policy : Policy) (times ts : List ℕ)
    → set_times user policy times (single user policy ts) ≡ entry_of user policy times ∷ []
unfolding set_times
set-single user policy times [] = refl
set-single user policy times (t ∷ ts) = ground arith

cleanup-single :
    (user : ℕ) (policy : Policy) (now : ℕ) (ts : List ℕ)
    → cleanup now (entry_of user policy ts ∷ [])
      ≡ single user policy (where_ (is_recent policy now) ts)
unfolding cleanup
cleanup-single user policy now ts = kept (where_ (is_recent policy now) ts)
  where
    kept :
        (xs : List ℕ) → evict (keep_entry (entry_of user policy ts) xs []) ≡ single user policy xs
    kept [] = refl
    kept (x ∷ xs) = refl

-- What the guard does for a user who is alone.
can_activate-single :
    (user : ℕ) (policy : Policy) (now : ℕ) (ts : List ℕ)
    → can_activate false user policy now (single user policy ts) ≡ (
        if leb (limit policy) (length (where_ (is_recent policy now) ts))
        then err (too_many_requests Code.rate_limited)
        else ok (single user policy (where_ (is_recent policy now) ts ++ now ∷ [])))
unfolding can_activate
can_activate-single user policy now ts =
    rw
      (
        recent-single user policy now ts,
        set-single user policy (where_ (is_recent policy now) ts ++ now ∷ []) ts,
        cleanup-single user policy now (where_ (is_recent policy now) ts ++ now ∷ []),
        recent_twice policy now ts,
      )
      refl

count-where_ :
    (p q : ℕ → Bool) (xs : List ℕ)
    → ((x : ℕ) → p x ≡ true → q x ≡ true)
    → count_where p (where_ q xs) ≡ count_where p xs
count-where_ p q [] h = refl
count-where_ p q (x ∷ xs) h = ground (arith, h x, count-where_ p q xs h)

still_recent :
    (policy : Policy) (now later time : ℕ)
    → now ≤ later
    → is_recent policy later time ≡ true
    → is_recent policy now time ≡ true
still_recent policy now later time o h = ground arith

count-snoc :
    (p : ℕ → Bool) (xs : List ℕ) (x : ℕ) → count_where p (xs ++ x ∷ []) ≡ count_where p (x ∷ xs)
count-snoc p [] x = refl
count-snoc p (y ∷ xs) x = ground (arith, count-snoc p xs x)

pass-count :
    (user : ℕ) (policy : Policy) (calls log ts : List ℕ) (last later : ℕ)
    → length ts ≤ limit policy
    → ((now : ℕ)
        → last ≤ now
        → count_where (is_recent policy now) log ≡ count_where (is_recent policy now) ts)
    → AreOrdered last calls later
    → count_where (is_recent policy later) (pass user policy calls (single user policy ts) log)
      ≤ limit policy
pass-count user policy [] log ts last later l i o =
    let e = i later o in let n = count_where-le-length (is_recent policy later) ts in omega arith
pass-count user policy (t ∷ calls) log ts last later l i (o, os) =
    let kept = where_ (is_recent policy t) ts in
    elim (Bool-cases (leb (limit policy) (length kept))) [
      | inl e ↦
          rw (pass, can_activate-single user policy t ts, e)
            (pass-count user policy calls log ts t later l (λ now k. i now (omega arith)) os)
      | inr e ↦
          rw (pass, can_activate-single user policy t ts, e)
            (pass-count user policy calls (t ∷ log) (kept ++ t ∷ []) t later
              (let n = length-snoc kept t in ground arith)
              (λ now k.
                let a = count-snoc (is_recent policy now) kept t in
                let b =
                  count-where_ (is_recent policy now) (is_recent policy t) ts
                    (λ x. still_recent policy t now x k) in
                let d = i now (omega arith) in rw (a, b, d) refl)
              os)
    ]

-- Of the calls of one policy that a user alone makes one after the other, the guard lets through at
-- most as many as the policy allows in the window that ends at any time after the last of them.
pub pass-le-limit :
    (user : ℕ) (policy : Policy) (calls : List ℕ) (later : ℕ)
    → AreOrdered 0 calls later
    → count_where (is_recent policy later) (pass user policy calls [] []) ≤ limit policy
pass-le-limit user policy calls later o =
    pass-count user policy calls [] [] 0 later (omega arith) (λ now k. refl) o
