-- ===== src/Friend/Ties.antt =====
-- src/friend/friend.service.ts: the end of a friendship, blocks, and their end.
pub mod Severed
pub mod Blocks
use our_companion_network.Base.{
  ℕ, Bool, true, false, not, ◌&&◌, ◌||◌, none, some, List, [], ◌∷◌, ◌++◌, ◌==◌, any, update_where,
  delete_where, Code, not_found, conflict, forbidden, Result, ok, ◌>>=◌, ◌>>◌, guard,
}
use our_companion_network.Social.{
  Social, FriendRequest, cancelled, is_pending, is_friendship, is_route, is_block, has_friendship,
  has_block,
}
use our_companion_network.Events.{Publications, block_created, block_removed}
use our_companion_network.Events.{friendship_removed as friendship_gone}
use our_companion_network.Visit.{Db, EndReason, friendship_removed, user_blocked}
use our_companion_network.Visit.Ending.{end_sessions_between}

-- `friendship.deleteMany`, in both directions
unfoldable pub drop_friendship : ℕ → ℕ → Social → Social
drop_friendship a b s = record s {
  friendships = delete_where (λ f. is_friendship a b f || is_friendship b a f) s.friendships;
}

-- `friendRequest.updateMany`, the pending ones in both directions
unfoldable pub cancel_pending : ℕ → ℕ → ℕ → Social → Social
cancel_pending a b now s = record s {
  requests =
      update_where (λ r. is_pending r.status && (is_route a b r || is_route b a r))
        (λ r. record r { status = cancelled; updated_at = now }) s.requests;
}

-- `blockedUser.create`
unfoldable pub add_block : ℕ → ℕ → ℕ → Social → Social
add_block a b now s = record s {
  blocks = record { blocker_id = a; blocked_id = b; created_at = now } ∷ s.blocks;
}

unfoldable pub remove_friend : ℕ → ℕ → ℕ → Db → Result (Db × Publications)
remove_friend user friend now db = do
  guard (has_friendship user friend db.social) (not_found Code.friendship_not_found)
  let social = drop_friendship user friend db.social
  let (db', ps) =
      end_sessions_between user friend friendship_removed now (record db { social = social })
  ok (db', ps ++ ((user, friendship_gone friend) ∷ (friend, friendship_gone user) ∷ []))

-- The three writes of the transaction in `blockUser`.
unfoldable pub sever : ℕ → ℕ → ℕ → Social → Social
unfolding drop_friendship cancel_pending add_block
sever user blocked now s =
    cancel_pending user blocked now (drop_friendship user blocked (add_block user blocked now s))

unfoldable pub block_user : ℕ → ℕ → ℕ → Db → Result (Db × Publications)
block_user user blocked now db = do
  guard (not (user == blocked)) (forbidden Code.social_action_not_allowed)
  guard (any (λ u. u.id == blocked) db.social.users) (not_found Code.user_not_found)
  guard (not (has_block user blocked db.social)) (conflict Code.social_action_not_allowed)
  let social = sever user blocked now db.social
  let (db', ps) = end_sessions_between user blocked user_blocked now (record db { social = social })
  ok (db', ps ++ ((user, block_created blocked) ∷ (blocked, friendship_gone user) ∷ []))

unfoldable pub unblock_user : ℕ → ℕ → Social → Result (Social × Publications)
unblock_user user blocked s = do
  guard (has_block user blocked s) (not_found Code.user_not_found)
  ok (
    record s { blocks = delete_where (is_block user blocked) s.blocks },
    (user, block_removed blocked) ∷ [],
  )
