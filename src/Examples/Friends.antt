-- ===== src/Examples/Friends.antt =====
-- The theorems on the friend service at concrete calls.
use our_companion_network.Base.{
  ℕ, ◌≡◌, refl, List, [], ◌∷◌, some, ok, err, false, Code, forbidden, conflict, any, ◌&&◌,
}
use our_companion_network.Social.{
  Social, FriendRequest, pending, accepted, has_friendship, find_request, has_block, is_blocked,
  are_available,
}
use our_companion_network.Visit.{Db}
use our_companion_network.Visit.Rows.{is_live}
use our_companion_network.Visit.Ending.{claim, claim_all, end_sessions_between, is_between}
use our_companion_network.Friend.{
  find_by_id, Action, accept, reject, cancel, party, set_status, finalize_pending_friend_request,
  accept_friend_request, send_friend_request, publish_friend_request_accepted,
}
use our_companion_network.Friend.Consistency.{IsConsistent}
use our_companion_network.Friend.Calls.{befriend}
use our_companion_network.Visit.Rows.{release_session_reservations}
use our_companion_network.Friend.Answers.{accept_succeeds, finalize_twice}
use our_companion_network.Friend.Relationship.{
  mirrored, with_relationship, with_relationship-mirror,
}
use our_companion_network.Friend.Ties.{sever, remove_friend, block_user}
use our_companion_network.Friend.Ties.Blocks.{
  remove_friend_severs, block_user_severs, blocked_cannot_send, AreSevered,
}
use our_companion_network.Friend.History.{
  FriendCall, sends, accepts, blocks, run, step, run-IsConsistent,
}
use our_companion_network.Examples.{
  preparing_session, strangers, friends, empty_db, db_of, publications_of,
}

strangers-IsConsistent : IsConsistent strangers
unfolding has_friendship is_blocked our_companion_network.Friend.Requests.has_pending
strangers-IsConsistent = record {
  symmetric = λ a b. refl;
  irreflexive = λ a. refl;
  friends_unblocked = λ a b h. refl;
  pending_unblocked = λ a b h. refl;
  pending_apart = λ a b h. refl;
  one_way = λ a b h. refl;
  keys = tt;
}

-- User 1 asks, user 2 agrees, and user 3 blocks user 1.
abbrev history : List (ℕ × FriendCall)
history = (100, sends 7 1 2) ∷ (200, accepts 2 7) ∷ (300, blocks 3 1) ∷ []

run-IsConsistent_example : IsConsistent (run history (empty_db strangers)).social
unfolding find_by_id
run-IsConsistent_example =
    run-IsConsistent history (empty_db strangers) (refl, (tt, (tt, tt))) strangers-IsConsistent

-- User 1 has asked user 2.
abbrev request : FriendRequest
request = record { id = 7; sender_id = 1; receiver_id = 2; status = pending; updated_at = 100 }

abbrev asked : Social
asked = record strangers { requests = request ∷ [] }

asked-IsConsistent : IsConsistent asked
unfolding run step find_by_id send_friend_request are_available has_friendship is_blocked
    find_request
asked-IsConsistent =
    run-IsConsistent ((100, sends 7 1 2) ∷ []) (empty_db strangers) (refl, tt)
      strangers-IsConsistent

accept_succeeds_example :
    accept_friend_request 2 7 200 asked
    ≡ ok (befriend 1 2 (set_status 7 accepted 200 asked), publish_friend_request_accepted request)
unfolding find_by_id are_available
accept_succeeds_example = accept_succeeds 7 200 asked request asked-IsConsistent refl refl refl

finalize_twice_example :
    finalize_pending_friend_request 7 1 cancel 300 (set_status 7 accepted 200 asked)
    ≡ err (conflict Code.friend_request_not_pending)
unfolding finalize_pending_friend_request
finalize_twice_example =
    finalize_twice 7 2 200 300 accept cancel asked (set_status 7 accepted 200 asked) request refl

with_relationship-mirror_example :
    with_relationship 1 (some 2) Code.user_not_found asked
    ≡ mirrored (with_relationship 2 (some 1) Code.user_not_found asked)
with_relationship-mirror_example =
    with_relationship-mirror 1 2 Code.user_not_found asked asked-IsConsistent

-- A session of users 1 and 2 is live.
abbrev visiting : Db
visiting = record (empty_db friends) { sessions = preparing_session ∷ [] }

abbrev removed : Db
removed = db_of visiting (remove_friend 1 2 400 visiting)

remove_friend_severs_example :
    (has_friendship 1 2 removed.social ≡ false)
    × (has_friendship 2 1 removed.social ≡ false)
    × (any (λ s. is_live s.state && is_between 1 2 s) removed.sessions ≡ false)
unfolding remove_friend has_friendship
remove_friend_severs_example =
    remove_friend_severs 1 2 400 visiting removed (publications_of (remove_friend 1 2 400 visiting))
      refl

abbrev blocked : Db
blocked = db_of visiting (block_user 1 2 400 visiting)

block_user_severs_example :
    AreSevered 1 2 blocked.social
    × AreSevered 2 1 blocked.social
    × (any (λ s. is_live s.state && is_between 1 2 s) blocked.sessions ≡ false)
unfolding block_user has_block
block_user_severs_example =
    block_user_severs 1 2 400 visiting blocked (publications_of (block_user 1 2 400 visiting)) refl

blocked_cannot_send_example :
    send_friend_request 9 500 2 1 blocked.social ≡ err (forbidden Code.social_action_not_allowed)
unfolding block_user has_block are_available sever end_sessions_between claim_all claim
    release_session_reservations
blocked_cannot_send_example =
    blocked_cannot_send 1 2 400 9 500 visiting blocked
      (publications_of (block_user 1 2 400 visiting)) refl refl
