-- ===== src/RateLimit/Bounds.antt =====
-- src/common/guards/social-rate-limit.guard.ts: how much the guard remembers.
use our_companion_network.Base.{
  ℕ, zero, suc, ◌≤◌, ◌≡◌, refl, Bool, true, false, List, [], ◌∷◌, ◌++◌, leb, all, any, where_,
  length, arith, inl, inr, Bool-cases, Result, ok, err, Result-cases, all-update_where, ap, subst,
  sym, ◌∙◌,
}
use our_companion_network.RateLimit.{
  Policy, Attempts, limit, is_key, recent_times, set_times, retain, evict, cleanup, can_activate,
  max_keys, keep_entry, is_recent, mutation, read, policy_index, lookup, friend_request_create,
  block_mutation, companion_profile, asset_initiate, asset_upload_urls, asset_complete,
  asset_download_urls, visit_read, visit_create, visit_mutation, visit_heartbeat, visit_asset_urls,
}

-- No entry holds more times than its policy allows.
abbrev pub is_within : Attempts → Bool
is_within a = leb (length a.times) (limit a.policy)

pub where_-length : {A : Type 0} (p : A → Bool) (xs : List A) → length (where_ p xs) ≤ length xs
where_-length p [] = omega arith
where_-length p (x ∷ xs) = ground (arith, where_-length p xs)

pub length-snoc : {A : Type 0} (xs : List A) (x : A) → length (xs ++ x ∷ []) ≡ suc (length xs)
length-snoc [] x = refl
length-snoc (y ∷ xs) x = ground (arith, length-snoc xs x)

keep_entry-within :
    (a : Attempts) (ts : List ℕ) (rest : List Attempts)
    → length ts ≤ limit a.policy
    → all is_within rest ≡ true
    → all is_within (keep_entry a ts rest) ≡ true
keep_entry-within a [] rest l h = h
keep_entry-within a (t ∷ ts) rest l h = ground arith

retain-within :
    (now : ℕ) (as_ : List Attempts)
    → all is_within as_ ≡ true
    → all is_within (retain now as_) ≡ true
retain-within now [] h = refl
retain-within now (a ∷ as_) h =
    let shorter = where_-length (is_recent a.policy now) a.times in
    let fits : length a.times ≤ limit a.policy = ground arith in
    keep_entry-within a (where_ (is_recent a.policy now) a.times) (retain now as_) (omega arith)
      (retain-within now as_ (ground arith))

evict-within : (as_ : List Attempts) → all is_within as_ ≡ true → all is_within (evict as_) ≡ true
evict-within [] h = refl
evict-within (a ∷ as_) h = ground (arith, evict-within as_)

evict-length : (as_ : List Attempts) → length (evict as_) ≤ max_keys
evict-length [] = omega arith
evict-length (a ∷ as_) = ground (arith, evict-length as_)

-- The policy of an index.
abbrev policy_at : ℕ → List Policy → Policy
policy_at n [] = mutation
policy_at zero (p ∷ ps) = p
policy_at (suc n) (p ∷ ps) = policy_at n ps

abbrev policies : List Policy
policies =
    read ∷ lookup ∷ friend_request_create ∷ mutation ∷ block_mutation ∷ companion_profile
    ∷ asset_initiate ∷ asset_upload_urls ∷ asset_complete ∷ asset_download_urls ∷ visit_read
    ∷ visit_create ∷ visit_mutation ∷ visit_heartbeat ∷ visit_asset_urls ∷ []

policy_at-index : (p : Policy) → policy_at (policy_index p) policies ≡ p
policy_at-index read = refl
policy_at-index lookup = refl
policy_at-index friend_request_create = refl
policy_at-index mutation = refl
policy_at-index block_mutation = refl
policy_at-index companion_profile = refl
policy_at-index asset_initiate = refl
policy_at-index asset_upload_urls = refl
policy_at-index asset_complete = refl
policy_at-index asset_download_urls = refl
policy_at-index visit_read = refl
policy_at-index visit_create = refl
policy_at-index visit_mutation = refl
policy_at-index visit_heartbeat = refl
policy_at-index visit_asset_urls = refl

policy_index_injective : (p q : Policy) → policy_index p ≡ policy_index q → p ≡ q
policy_index_injective p q e =
    sym (policy_at-index p) ∙ ap (λ n. policy_at n policies) e ∙ policy_at-index q

same_policy :
    (user : ℕ) (policy : Policy) (a : Attempts)
    → is_key user policy a ≡ true
    → limit a.policy ≡ limit policy
same_policy user policy a h = ap limit (policy_index_injective a.policy policy (ground arith))

all-snoc :
    (p : Attempts → Bool) (xs : List Attempts) (x : Attempts)
    → all p xs ≡ true
    → p x ≡ true
    → all p (xs ++ x ∷ []) ≡ true
all-snoc p [] x h g = ground arith
all-snoc p (y ∷ xs) x h g = ground (arith, all-snoc p xs x)

set_times-within :
    (user : ℕ) (policy : Policy) (times : List ℕ) (as_ : List Attempts)
    → all is_within as_ ≡ true
    → length times ≤ limit policy
    → all is_within (set_times user policy times as_) ≡ true
unfolding set_times
set_times-within user policy times as_ h l = elim (Bool-cases (any (is_key user policy) as_)) [
  | inl e ↦ rw e (
      all-update_where is_within (is_key user policy) (λ a. record a { times = times }) as_
        (λ a w k. (let q = same_policy user policy a k in ground arith)) h)
  | inr e ↦ rw e (
      all-snoc is_within as_ (record { user_id = user; policy = policy; times = times }) h
        (ground arith))
]

-- What the guard's map keeps to.
abbrev pub IsBounded : List Attempts → Type 0
IsBounded attempts = (all is_within attempts ≡ true) × (length attempts ≤ max_keys)

recent_times-short :
    (user : ℕ) (policy : Policy) (now : ℕ) (as_ : List Attempts)
    → leb (limit policy) (length (recent_times user policy now as_)) ≡ false
    → length (recent_times user policy now as_ ++ now ∷ []) ≤ limit policy
recent_times-short user policy now as_ l =
    let e = length-snoc (recent_times user policy now as_) now in ground arith

can_activate-IsBounded :
    (bypass : Bool) (user : ℕ) (policy : Policy) (now : ℕ) (as_ after : List Attempts)
    → IsBounded as_
    → can_activate bypass user policy now as_ ≡ ok after
    → IsBounded after
unfolding can_activate cleanup
can_activate-IsBounded true user policy now as_ after b h =
    let same : after ≡ as_ = ground arith in subst IsBounded (sym same) b
can_activate-IsBounded false user policy now as_ after (w, b) h =
    elim (Bool-cases (leb (limit policy) (length (recent_times user policy now as_)))) [
      | inl e ↦ ground arith
      | inr e ↦
          let next = set_times user policy (recent_times user policy now as_ ++ now ∷ []) as_ in
          let same : after ≡ evict (retain now next) = ground arith in
          let kept = retain-within now next (
            set_times-within user policy (recent_times user policy now as_ ++ now ∷ []) as_ w
              (recent_times-short user policy now as_ e)) in
          rw same (evict-within (retain now next) kept, evict-length (retain now next))
    ]

pub record Call : Type 0 where
  pub bypass : Bool
  pub user_id : ℕ
  pub policy : Policy
  pub at : ℕ

abbrev pub after_call : List Attempts → Result (List Attempts) → List Attempts
after_call attempts (ok after) = after
after_call attempts (err _) = attempts

unfoldable pub run : List Call → List Attempts → List Attempts
run [] attempts = attempts
run (c ∷ cs) attempts =
    run cs (after_call attempts (can_activate c.bypass c.user_id c.policy c.at attempts))

-- After every history of calls that starts with no more, the guard remembers at most 10,000 keys,
-- and for each at most as many times as its policy allows.
pub run-IsBounded : (cs : List Call) (as_ : List Attempts) → IsBounded as_ → IsBounded (run cs as_)
unfolding run
run-IsBounded [] as_ b = b
run-IsBounded (c ∷ cs) as_ b =
    run-IsBounded cs (after_call as_ (can_activate c.bypass c.user_id c.policy c.at as_))
      (elim (Result-cases (can_activate c.bypass c.user_id c.policy c.at as_)) [
        | inl (after, e) ↦
            rw e (can_activate-IsBounded c.bypass c.user_id c.policy c.at as_ after b e)
        | inr (_, e) ↦ rw e b
      ])
