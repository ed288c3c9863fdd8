-- ===== src/Friend/Answers.antt =====
-- What an answer to a friend request does: it succeeds when it should, once, and makes friends.
use our_companion_network.Base.{ℕ, ◌≡◌, true, some, arith, ok, err, conflict, Code, Unique}
use our_companion_network.Social.{
  Social, FriendRequest, is_pending, has_friendship, are_available, accepted,
}
use our_companion_network.Friend.{
  Action, accept, party, next_status, find_by_id, set_status, create_friendship,
  finalize_pending_friend_request, accept_friend_request_in_transaction, accept_friend_request,
  publish_friend_request_accepted, open_request,
}
use our_companion_network.Friend.Requests.{
  same_key, count_where-find_by_id, has_pending_of_find_by_id, find_by_id-set_status,
}
use our_companion_network.Friend.Consistency.{IsConsistent}
use our_companion_network.Friend.Calls.{befriend, finalize-eq-ok}

-- A party of a pending request can answer it.
pub finalize_succeeds :
    (id now : ℕ) (action : Action) (s : Social) (r : FriendRequest)
    → Unique same_key s.requests
    → find_by_id id s ≡ some r
    → is_pending r.status ≡ true
    → finalize_pending_friend_request id (party action r) action now s
      ≡ ok (r, set_status id (next_status action) now s)
unfolding finalize_pending_friend_request
finalize_succeeds id now action s r u e p = ground (arith, count_where-find_by_id id s r u e p, e)

-- On the tables that a successful answer to a request leaves, a second answer to it by a party of
-- it, at whatever time, is refused with FRIEND_REQUEST_NOT_PENDING.
pub finalize_twice :
    (id user now later : ℕ) (action again : Action) (s t : Social) (r : FriendRequest)
    → finalize_pending_friend_request id user action now s ≡ ok (r, t)
    → finalize_pending_friend_request id (party again r) again later t
      ≡ err (conflict Code.friend_request_not_pending)
finalize_twice id user now later action again s t r h =
    let (e, p, _, q) = finalize-eq-ok id user now action s t r h in
    rw q (
      answered_is_closed id now later action again s r
        (find_by_id-set_status id now (next_status action) s r e p))
  where
    answered_is_closed :
        (k n l : ℕ) (a b : Action) (w : Social) (x : FriendRequest)
        → find_by_id k (set_status k (next_status a) n w)
          ≡ some (record x { status = next_status a; updated_at = n })
        → finalize_pending_friend_request k (party b x) b l (set_status k (next_status a) n w)
          ≡ err (conflict Code.friend_request_not_pending)
    answered_is_closed k n l a b w x f = unfold finalize_pending_friend_request in ground arith

-- The friendship rows are not there before: the unique index is never violated.
accept_in_transaction_succeeds :
    (id now : ℕ) (s : Social) (r : FriendRequest)
    → IsConsistent s
    → find_by_id id s ≡ some r
    → is_pending r.status ≡ true
    → accept_friend_request_in_transaction r.receiver_id id now s
      ≡ ok (r, befriend r.sender_id r.receiver_id (set_status id accepted now s))
unfolding accept_friend_request_in_transaction create_friendship set_status has_friendship
accept_in_transaction_succeeds id now s r c e p = ground (
  arith,
  finalize_succeeds id now accept s r c.keys e p,
  c.pending_apart r.sender_id r.receiver_id (has_pending_of_find_by_id id s r e p),
  c.symmetric r.sender_id r.receiver_id,
  c.one_way r.sender_id r.receiver_id (has_pending_of_find_by_id id s r e p),
  has_pending_of_find_by_id id s r e p,
)

-- The receiver of a pending request between available users can accept it, and makes friends.
pub accept_succeeds :
    (id now : ℕ) (s : Social) (r : FriendRequest)
    → IsConsistent s
    → find_by_id id s ≡ some r
    → is_pending r.status ≡ true
    → are_available r.sender_id r.receiver_id s ≡ true
    → accept_friend_request r.receiver_id id now s
      ≡ ok (
        befriend r.sender_id r.receiver_id (set_status id accepted now s),
        publish_friend_request_accepted r,
      )
unfolding accept_friend_request open_request
accept_succeeds id now s r c e p v =
    ground (arith, accept_in_transaction_succeeds id now s r c e p, e)
