-- ===== src/Friend/Relationship.antt =====
-- src/friend/friend.service.ts, withRelationship: what a user who looks another one up is shown.
use our_companion_network.Base.{
  is_some, ℕ, ◌≡◌, not, Option, none, some, arith, ◌==◌, if◌then◌else◌, Result, ok, err, not_found,
  guard, Code, ◌>>◌,
}
use our_companion_network.Social.{Social, has_friendship, is_blocked}
use our_companion_network.Friend.{pending_request}
use our_companion_network.Friend.Consistency.{IsConsistent, is_blocked_sym}
use our_companion_network.Friend.Calls.{pending_request-has_pending}

pub data Relationship : Type 0 where
  unrelated friend outgoing_request incoming_request : Relationship

unfoldable pub with_relationship : ℕ → Option ℕ → Code → Social → Result Relationship
with_relationship user none code s = ok unrelated
with_relationship user (some requester) code s = if requester == user then ok unrelated else do
  guard (not (is_blocked requester user s)) (not_found code)
  ok (
      if has_friendship requester user s
      then friend
      else if is_some (pending_request requester user s)
      then outgoing_request
      else if is_some (pending_request user requester s)
      then incoming_request
      else unrelated)

-- The other side of a relationship.
unfoldable pub mirror : Relationship → Relationship
mirror outgoing_request = incoming_request
mirror incoming_request = outgoing_request
mirror r = r

abbrev pub mirrored : Result Relationship → Result Relationship
mirrored (ok r) = ok (mirror r)
mirrored (err e) = err e

-- Two users who look each other up see the two sides of one relationship.
pub with_relationship-mirror :
    (a b : ℕ) (code : Code) (s : Social)
    → IsConsistent s
    → with_relationship a (some b) code s ≡ mirrored (with_relationship b (some a) code s)
unfolding with_relationship mirror
with_relationship-mirror a b code s c = ground (
  arith,
  is_blocked_sym a b s,
  c.symmetric a b,
  c.one_way a b,
  pending_request-has_pending a b s c.keys,
  pending_request-has_pending b a s c.keys,
)
