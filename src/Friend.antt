-- ===== src/Friend.antt =====
-- src/friend/friend.service.ts: friend requests. A handler takes the tables and returns an error,
-- or the new tables with what it publishes; an error inside a transaction leaves them as they were.
pub mod Requests
pub mod Consistency
pub mod Calls
pub mod Answers
pub mod Relationship
pub mod Lookup
pub mod Ties
pub mod History
use our_companion_network.Base.{
  ℕ, Bool, true, false, not, ◌&&◌, Option, none, some, [], ◌∷◌, ◌==◌, if◌then◌else◌, find_first,
  count_where, update_where, Code, Error, not_found, conflict, forbidden, database, Result, ok, err,
  ◌>>=◌, ◌>>◌, guard, or_fail,
}
use our_companion_network.Social.{
  Social, FriendRequest, RequestStatus, pending, accepted, rejected, cancelled, is_pending,
  is_route, has_friendship, find_request, is_blocked, are_available,
}
use our_companion_network.Events.{
  Publications, friend_request_created, friend_request_updated, friendship_created,
}

pub data Action : Type 0 where
  accept reject cancel : Action

abbrev pub next_status : Action → RequestStatus
next_status accept = accepted
next_status reject = rejected
next_status cancel = cancelled

-- Who may take the action.
abbrev pub party : Action → FriendRequest → ℕ
party accept r = r.receiver_id
party reject r = r.receiver_id
party cancel r = r.sender_id

unfoldable pub lock_active_participants : ℕ → ℕ → Social → Result (Unit {0})
lock_active_participants a b s = guard (are_available a b s) (not_found Code.user_not_found)

unfoldable pub find_by_id : ℕ → Social → Option FriendRequest
find_by_id request_id s = find_first (λ r. r.id == request_id) s.requests

-- The row that `updateMany({ id, status: 'pending' })` meets.
abbrev pub is_open : ℕ → FriendRequest → Bool
is_open request_id r = r.id == request_id && is_pending r.status

unfoldable pub set_status : ℕ → RequestStatus → ℕ → Social → Social
set_status request_id status now s = record s {
  requests =
      update_where (is_open request_id) (λ r. record r { status = status; updated_at = now })
        s.requests;
}

unfoldable pub finalize_pending_friend_request :
    ℕ → ℕ → Action → ℕ → Social → Result (FriendRequest × Social)
unfolding find_by_id set_status
finalize_pending_friend_request request_id actor action now s = do
  request ← or_fail (find_by_id request_id s) (not_found Code.friend_request_not_found)
  guard (party action request == actor) (forbidden Code.social_action_not_allowed)
  guard (is_pending request.status) (conflict Code.friend_request_not_pending)
  guard (count_where (is_open request_id) s.requests == 1)
      (conflict Code.friend_request_not_pending)
  ok (request, set_status request_id (next_status action) now s)

-- `friendship.create`, under the unique index on the pair.
unfoldable pub create_friendship : ℕ → ℕ → Social → Result Social
create_friendship a b s =
    if has_friendship a b s
    then err (database Code.unique_violation)
    else ok (record s { friendships = record { user_id = a; friend_id = b } ∷ s.friendships })

unfoldable pub accept_friend_request_in_transaction :
    ℕ → ℕ → ℕ → Social → Result (FriendRequest × Social)
accept_friend_request_in_transaction receiver_id request_id now s = do
  (request, t) ← finalize_pending_friend_request request_id receiver_id accept now s
  u ← create_friendship request.sender_id request.receiver_id t
  v ← create_friendship request.receiver_id request.sender_id u
  ok (request, v)

unfoldable pub publish_friend_request_accepted : FriendRequest → Publications
publish_friend_request_accepted r =
    (r.sender_id, friend_request_updated r.id accepted)
    ∷ (r.receiver_id, friend_request_updated r.id accepted)
    ∷ (r.sender_id, friendship_created r.receiver_id)
    ∷ (r.receiver_id, friendship_created r.sender_id)
    ∷ []

-- `upsert` on the pair: a request that was answered before is opened again under its old id.
unfoldable pub upsert_request : ℕ → ℕ → ℕ → ℕ → Social → Social
upsert_request new_id now sender receiver s = elim (find_request sender receiver s) [
  | some _ ↦ record s {
    requests =
        update_where (is_route sender receiver)
          (λ r. record r { status = pending; updated_at = now }) s.requests;
  }
  | none ↦ record s {
    requests =
        record {
          id = new_id;
          sender_id = sender;
          receiver_id = receiver;
          status = pending;
          updated_at = now;
        }
        ∷ s.requests;
  }
]

-- The pending request from one user to another, if there is one.
unfoldable pub pending_request : ℕ → ℕ → Social → Option FriendRequest
pending_request a b s = elim (find_request a b s) [
  | some r ↦ if is_pending r.status then some r else none
  | none ↦ none
]

-- The id under which the request from `sender` to `receiver` stands after `upsert_request`.
unfoldable pub upserted_id : ℕ → ℕ → ℕ → Social → ℕ
upserted_id new_id sender receiver s = elim (find_request sender receiver s) [
  | some r ↦ r.id
  | none ↦ new_id
]

unfoldable pub send_friend_request : ℕ → ℕ → ℕ → ℕ → Social → Result (Social × Publications)
unfolding lock_active_participants pending_request accept_friend_request_in_transaction
    upsert_request upserted_id publish_friend_request_accepted
send_friend_request new_id now sender receiver s = do
  guard (not (sender == receiver)) (forbidden Code.cannot_friend_self)
  lock_active_participants sender receiver s
  guard (not (has_friendship sender receiver s) && not (has_friendship receiver sender s))
      (conflict Code.friendship_already_exists)
  guard (not (is_blocked sender receiver s)) (forbidden Code.social_action_not_allowed)
  elim (pending_request receiver sender s) [
    | some reverse ↦ do
      (request, t) ← accept_friend_request_in_transaction sender reverse.id now s
      ok (t, publish_friend_request_accepted request)
    | none ↦ elim (pending_request sender receiver s) [
      | some _ ↦ err (conflict Code.friend_request_already_exists)
      | none ↦ ok (
        upsert_request new_id now sender receiver s,
        (receiver, friend_request_created (upserted_id new_id sender receiver s)) ∷ [],
      )
    ]
  ]

-- `catch`: a unique violation of a parallel acceptance becomes a conflict.
abbrev pub catch_violation {ℓ} : {A : Type ℓ} → Result A → Result A
catch_violation (err (database Code.unique_violation)) =
    err (conflict Code.friendship_already_exists)
catch_violation r = r

-- What the handlers of a request do before their transactions.
unfoldable pub open_request : ℕ → ℕ → Action → Social → Result FriendRequest
unfolding find_by_id lock_active_participants
open_request user request_id action s = do
  initial ← or_fail (find_by_id request_id s) (not_found Code.friend_request_not_found)
  guard (party action initial == user) (forbidden Code.social_action_not_allowed)
  lock_active_participants initial.sender_id initial.receiver_id s
  ok initial

unfoldable pub accept_friend_request : ℕ → ℕ → ℕ → Social → Result (Social × Publications)
accept_friend_request user request_id now s = do
  open_request user request_id accept s
  (request, t) ← catch_violation (accept_friend_request_in_transaction user request_id now s)
  ok (t, publish_friend_request_accepted request)

unfoldable pub reject_friend_request : ℕ → ℕ → ℕ → Social → Result (Social × Publications)
reject_friend_request user request_id now s = do
  open_request user request_id reject s
  (request, t) ← finalize_pending_friend_request request_id user reject now s
  ok (
    t,
    (request.sender_id, friend_request_updated request_id rejected)
        ∷ (request.receiver_id, friend_request_updated request_id rejected)
        ∷ [],
  )

unfoldable pub cancel_friend_request : ℕ → ℕ → ℕ → Social → Result (Social × Publications)
cancel_friend_request user request_id now s = do
  open_request user request_id cancel s
  (request, t) ← finalize_pending_friend_request request_id user cancel now s
  ok (t, (request.receiver_id, friend_request_updated request_id cancelled) ∷ [])
