-- ===== src/Companions.antt =====
-- src/companion/companion.service.ts: the Companions of a user, their publication, and the checks
-- that every request on a Companion, a topic or an asset pack makes first. A request is checked
-- and written at one moment `now`; the asset packs, whose requests take several steps, are in
-- Companions/Packs.antt.
pub mod Topics
pub mod Packs
pub mod Random
use our_companion_network.Base.{
  ℕ, Bool, true, false, not, ◌&&◌, ◌||◌, Option, none, some, List, [], ◌∷◌, ◌++◌, map, ◌==◌, is_id,
  is_some, any, find_first, where_, update_where, if◌then◌else◌, Code, Error, not_found, conflict,
  forbidden, Result, ok, err, guard, or_fail, ◌>>=◌, ◌>>◌,
}
use our_companion_network.Social.{Social, User, has_friendship, is_blocked, is_active}
use our_companion_network.Events.{
  Event, Publications, companion_profile_updated, companion_profile_unpublished,
}
use our_companion_network.Visit.{
  Companion, AssetPack, ShareableTopic, Reservation, EndReason, other_reason, Db,
}
use our_companion_network.Visit.Snapshots.{find_companion, find_pack}
use our_companion_network.Visit.Ending.{revoke_companion_visits}

unfoldable pub require_owned_companion : ℕ → ℕ → Db → Result Companion
require_owned_companion user companion db =
    or_fail (find_companion companion db) (not_found Code.companion_not_found) >>= λ c.
    guard (c.owner_user_id == user) (forbidden Code.companion_not_owned) >> ok c

abbrev pub owns : ℕ → ℕ → Db → Bool
owns user companion db = any (λ c. c.id == companion && c.owner_user_id == user) db.companions

unfoldable pub require_owned_pack : ℕ → ℕ → Db → Result AssetPack
require_owned_pack user pack db =
    or_fail (find_pack pack db) (not_found Code.asset_pack_not_found) >>= λ p.
    guard (owns user p.companion_id db) (forbidden Code.asset_pack_not_owned) >> ok p

unfoldable pub require_owned_topic : ℕ → ℕ → ℕ → Db → Result ShareableTopic
require_owned_topic user companion topic db =
    or_fail (find_first (λ t. t.id == topic) db.topics) (not_found Code.shareable_topic_not_found)
    >>= λ t.
        guard (t.companion_id == companion && owns user t.companion_id db)
          (forbidden Code.shareable_topic_not_owned)
        >> ok t

-- `assertCanSwitchToCompanion` of src/visit/visit.service.ts
unfoldable pub assert_can_switch_to_companion : ℕ → ℕ → Db → Result (Unit {0})
assert_can_switch_to_companion user companion db =
    guard
      (elim (find_first (λ r. r.user_id == user) db.reservations) [
        | none ↦ true
        | some r ↦ r.companion_id == companion
      ])
      (conflict Code.visit_companion_reserved)

-- `assertCompanionMutationAllowed` of src/visit/visit.service.ts
unfoldable pub assert_companion_mutation_allowed : ℕ → ℕ → Db → Result (Unit {0})
assert_companion_mutation_allowed user companion db =
    guard
      (elim (find_first (λ r. r.user_id == user) db.reservations) [
        | none ↦ true
        | some r ↦ not (r.companion_id == companion)
      ])
      (conflict Code.visit_companion_reserved)

unfoldable pub are_eligible_friends : ℕ → ℕ → Social → Bool
are_eligible_friends user other s =
    user == other || has_friendship user other s && not (is_blocked user other s)

-- `publishInvalidation`: to the owner, and to the friends that are not blocked.
unfoldable pub publish_invalidation : ℕ → Event → Db → Publications
publish_invalidation owner event db =
    (owner, event)
    ∷ map (λ f. (f.friend_id, event))
        (where_ (λ f. f.user_id == owner && are_eligible_friends owner f.friend_id db.social)
          db.social.friendships)

abbrev pub write_companion : ℕ → (Companion → Companion) → Db → Db
write_companion companion f db = record db {
  companions = update_where (λ c. c.id == companion) f db.companions;
}

abbrev active_companion_of : ℕ → Db → Option ℕ
active_companion_of user db = elim (find_first (λ u. u.id == user) db.social.users) [
  | none ↦ none
  | some u ↦ u.active_companion_id
]

abbrev switch_to : ℕ → ℕ → Db → Db
switch_to user companion db = record db {
  social = record db.social {
    users =
        update_where (λ u. u.id == user) (λ u. record u { active_companion_id = some companion })
          db.social.users;
  };
}

-- Also whether the Companion changed.
unfoldable pub activate : ℕ → ℕ → Db → Result (Db × Publications × Bool)
activate user companion db =
    assert_can_switch_to_companion user companion db
    >> require_owned_companion user companion db
    >>= λ c. ok (
        if is_id (active_companion_of user db) c.id then (db, [], false) else (
          switch_to user companion db,
          publish_invalidation user (companion_profile_updated companion) db,
          true,
        ))

unfoldable pub publish : ℕ → ℕ → Db → Result (Db × Publications)
publish user companion db = require_owned_companion user companion db >>= λ c.
    guard (is_some c.active_asset_pack_id) (conflict Code.asset_pack_not_complete)
    >> ok (
      write_companion companion (λ x. record x { published = true }) db,
      publish_invalidation user (companion_profile_updated companion) db,
    )

unfoldable pub unpublish : ℕ → ℕ → ℕ → Db → Result (Db × Publications)
unpublish user companion now db =
    assert_companion_mutation_allowed user companion db
    >> require_owned_companion user companion db
    >> (let (db', ps) =
          revoke_companion_visits companion (other_reason "companion_unpublished") now
            (write_companion companion (λ x. record x { published = false }) db) in
        ok (db', ps ++ publish_invalidation user (companion_profile_unpublished companion) db'))

-- `getFriendCompanion`
unfoldable pub get_friend_companion : ℕ → ℕ → Db → Result Companion
get_friend_companion requester friend db =
    guard (are_eligible_friends requester friend db.social) (not_found Code.companion_not_available)
    >> or_fail (find_first (λ u. u.id == friend) db.social.users)
        (not_found Code.companion_not_available)
    >>= λ u.
        or_fail (elim u.active_companion_id [ none ↦ none | some id ↦ find_companion id db ])
          (not_found Code.companion_not_available)
        >>= λ c.
            guard (is_active u && c.published && c.friends_only && is_some c.active_asset_pack_id)
              (not_found Code.companion_not_available)
            >> ok c
