-- ===== src/RateLimit.antt =====
-- src/common/guards/social-rate-limit.guard.ts: how often a user may call. The map of attempts is a
-- list in the order of insertion; `bypass` says that the three settings of a smoke test are on.
pub mod Bounds
pub mod Window
pub mod Doors
use our_companion_network.Base.{
  ℕ, ◌+◌, ◌-◌, Bool, true, false, ◌&&◌, Option, none, some, List, [], ◌∷◌, ◌++◌, ◌==◌, leb, ltb,
  any, find_first, where_, update_where, length, if◌then◌else◌, Code, Error, Result, ok, err,
  too_many_requests,
}

-- SocialRateLimitPolicy
pub data Policy : Type 0 where
  read lookup friend_request_create mutation block_mutation companion_profile : Policy
  asset_initiate asset_upload_urls asset_complete asset_download_urls : Policy
  visit_read visit_create visit_mutation visit_heartbeat visit_asset_urls : Policy

abbrev minute : ℕ
minute = 60000

abbrev hour : ℕ
hour = 3600000

-- POLICIES: the window in milliseconds, and the limit.
abbrev pub window_ms : Policy → ℕ
window_ms read = minute
window_ms lookup = minute
window_ms friend_request_create = hour
window_ms mutation = hour
window_ms block_mutation = hour
window_ms companion_profile = hour
window_ms asset_initiate = hour
window_ms asset_upload_urls = minute
window_ms asset_complete = hour
window_ms asset_download_urls = minute
window_ms visit_read = minute
window_ms visit_create = hour
window_ms visit_mutation = minute
window_ms visit_heartbeat = minute
window_ms visit_asset_urls = minute

abbrev pub limit : Policy → ℕ
limit read = 120
limit lookup = 30
limit friend_request_create = 10
limit mutation = 60
limit block_mutation = 30
limit companion_profile = 30
limit asset_initiate = 10
limit asset_upload_urls = 120
limit asset_complete = 20
limit asset_download_urls = 120
limit visit_read = 120
limit visit_create = 10
limit visit_mutation = 30
limit visit_heartbeat = 12
limit visit_asset_urls = 60

abbrev pub policy_index : Policy → ℕ
policy_index read = 0
policy_index lookup = 1
policy_index friend_request_create = 2
policy_index mutation = 3
policy_index block_mutation = 4
policy_index companion_profile = 5
policy_index asset_initiate = 6
policy_index asset_upload_urls = 7
policy_index asset_complete = 8
policy_index asset_download_urls = 9
policy_index visit_read = 10
policy_index visit_create = 11
policy_index visit_mutation = 12
policy_index visit_heartbeat = 13
policy_index visit_asset_urls = 14

-- One entry of the map. The user 0 is the anonymous one.
pub record Attempts : Type 0 where
  pub user_id : ℕ
  pub policy : Policy
  pub times : List ℕ

abbrev pub is_key : ℕ → Policy → Attempts → Bool
is_key user policy a = a.user_id == user && policy_index a.policy == policy_index policy

abbrev pub is_recent : Policy → ℕ → ℕ → Bool
is_recent policy now time = ltb (now - time) (window_ms policy)

unfoldable pub recent_times : ℕ → Policy → ℕ → List Attempts → List ℕ
recent_times user policy now attempts = elim (find_first (is_key user policy) attempts) [
  | none ↦ []
  | some a ↦ where_ (is_recent policy now) a.times
]

-- `map.set`
unfoldable pub set_times : ℕ → Policy → List ℕ → List Attempts → List Attempts
set_times user policy times attempts =
    if any (is_key user policy) attempts
    then update_where (is_key user policy) (λ a. record a { times = times }) attempts
    else attempts ++ record { user_id = user; policy = policy; times = times } ∷ []

abbrev pub keep_entry : Attempts → List ℕ → List Attempts → List Attempts
keep_entry a [] rest = rest
keep_entry a (t ∷ ts) rest = record a { times = t ∷ ts } ∷ rest

abbrev pub retain : ℕ → List Attempts → List Attempts
retain now [] = []
retain now (a ∷ as_) = keep_entry a (where_ (is_recent a.policy now) a.times) (retain now as_)

abbrev pub max_keys : ℕ
max_keys = 10000

-- `while (size > 10_000)`: the entry that was inserted first goes.
abbrev pub evict : List Attempts → List Attempts
evict [] = []
evict (a ∷ as_) = let rest = evict as_ in if ltb max_keys (length (a ∷ as_)) then rest else a ∷ as_

unfoldable pub cleanup : ℕ → List Attempts → List Attempts
cleanup now attempts = evict (retain now attempts)

unfoldable pub can_activate :
    (bypass : Bool) → ℕ → Policy → ℕ → List Attempts → Result (List Attempts)
can_activate true user policy now attempts = ok attempts
can_activate false user policy now attempts =
    let recent = recent_times user policy now attempts in
    if leb (limit policy) (length recent)
    then err (too_many_requests Code.rate_limited)
    else ok (cleanup now (set_times user policy (recent ++ now ∷ []) attempts))
