-- ===== src/Examples/Lookups.antt =====
-- The theorems on lookups and presence at concrete calls.
use our_companion_network.Base.{◌≡◌, refl, List, [], ◌∷◌, some, err, Code, not_found}
use our_companion_network.Social.{Social, is_blocked}
use our_companion_network.Friend.Lookup.{
  lookup_by_uid, lookup_by_friend_code, blocked_lookup_finds_nothing,
}
use our_companion_network.Presence.{Presence, online}
use our_companion_network.Examples.{strangers, user}

-- User 1 has blocked user 2, who looks for user 1.
abbrev blocking : Social
blocking = record strangers {
  blocks = record { blocker_id = 1; blocked_id = 2; created_at = 10 } ∷ [];
}

blocked_lookup_finds_nothing_example :
    (lookup_by_uid "OC-ABCD1234" (some 2) blocking ≡ err (not_found Code.social_uid_not_found))
    × (lookup_by_friend_code "ABCD1234" (some 2) blocking
        ≡ err (not_found Code.invalid_friend_code))
unfolding is_blocked
blocked_lookup_finds_nothing_example =
    blocked_lookup_finds_nothing "OC-ABCD1234" "ABCD1234" 2 blocking (user 1) (user 1) refl refl
      refl refl refl refl

abbrev both_online : List Presence
both_online =
    record { user_id = 1; status = online; last_seen_at = 500 }
    ∷ record { user_id = 2; status = online; last_seen_at = 500 }
    ∷ []
