-- ===== src/Friend/Ties/Blocks.antt =====
-- What a user who removes a friend, or who blocks another user or ends the block, brings about.
use our_companion_network.Base.{
  ℕ, ◌≡◌, Bool, true, false, not, ◌&&◌, ◌||◌, arith, ◌==◌, any, inl, inr, Bool-cases, ok, err, Code,
  forbidden, any_mono, any-delete_where, delete_where,
}
use our_companion_network.Social.{
  Social, BlockedUser, is_block, has_friendship, is_blocked, are_available,
}
use our_companion_network.Events.{Publications}
use our_companion_network.Visit.{Db, friendship_removed, user_blocked}
use our_companion_network.Visit.Rows.{is_live}
use our_companion_network.Visit.Ending.{end_sessions_between, is_between}
use our_companion_network.Visit.Ending.Laws.{
  end_sessions_between-social, end_sessions_between_clears,
}
use our_companion_network.Friend.{send_friend_request}
use our_companion_network.Friend.Requests.{has_pending}
use our_companion_network.Friend.Consistency.{IsConsistent}
use our_companion_network.Friend.Ties.{
  drop_friendship, sever, remove_friend, block_user, unblock_user,
}
use our_companion_network.Friend.Ties.Severed.{
  is_pair, sever_pairs, sever-IsConsistent, drop-IsConsistent, has_friendship-drop,
}

pub remove_friend-eq-ok :
    (a b now : ℕ) (db db' : Db) (ps : Publications)
    → remove_friend a b now db ≡ ok (db', ps)
    → db'
      ≡ (end_sessions_between a b friendship_removed now
          (record db { social = drop_friendship a b db.social })).0
unfolding remove_friend
remove_friend-eq-ok a b now db db' ps h = ground arith

pub block_user-eq-ok :
    (a b now : ℕ) (db db' : Db) (ps : Publications)
    → block_user a b now db ≡ ok (db', ps)
    → ((a == b) ≡ false)
      × (db'
          ≡ (end_sessions_between a b user_blocked now
              (record db { social = sever a b now db.social })).0)
unfolding block_user
block_user-eq-ok a b now db db' ps h = ground arith

pub unblock_user-eq-ok :
    (a b : ℕ) (s t : Social) (ps : Publications)
    → unblock_user a b s ≡ ok (t, ps)
    → t ≡ record s { blocks = delete_where (is_block a b) s.blocks }
unfolding unblock_user
unblock_user-eq-ok a b s t ps h = ground arith

pub remove_friend-social :
    (a b now : ℕ) (db db' : Db) (ps : Publications)
    → remove_friend a b now db ≡ ok (db', ps)
    → db'.social ≡ drop_friendship a b db.social
remove_friend-social a b now db db' ps h = rw (remove_friend-eq-ok a b now db db' ps h) (
    end_sessions_between-social a b friendship_removed now
      (record db { social = drop_friendship a b db.social }))

pub block_user-social :
    (a b now : ℕ) (db db' : Db) (ps : Publications)
    → block_user a b now db ≡ ok (db', ps)
    → db'.social ≡ sever a b now db.social
block_user-social a b now db db' ps h = rw (block_user-eq-ok a b now db db' ps h).1 (
    end_sessions_between-social a b user_blocked now
      (record db { social = sever a b now db.social }))

-- The end of one block adds no block.
unblocked_mono :
    (a b x y : ℕ) (s : Social)
    → is_blocked x y s ≡ false
    → is_blocked x y (record s { blocks = delete_where (is_block a b) s.blocks }) ≡ false
unfolding is_blocked
unblocked_mono a b x y s h = elim (Bool-cases (any test (delete_where (is_block a b) s.blocks))) [
  | inr e ↦ e
  | inl e ↦ absurd (
      ground (
        arith,
        any-delete_where test (is_block a b) s.blocks,
        any_mono (λ k. test k && not (is_block a b k)) test s.blocks (λ k. ground arith),
      ))
]
  where
    test : BlockedUser → Bool
    test k = is_block x y k || is_block y x k

unblock-IsConsistent :
    (a b : ℕ) (s : Social)
    → IsConsistent s
    → IsConsistent (record s { blocks = delete_where (is_block a b) s.blocks })
unfolding has_friendship has_pending
unblock-IsConsistent a b s c = record {
  symmetric = c.symmetric;
  irreflexive = c.irreflexive;
  friends_unblocked = λ x y h. unblocked_mono a b x y s (c.friends_unblocked x y h);
  pending_unblocked = λ x y h. unblocked_mono a b x y s (c.pending_unblocked x y h);
  pending_apart = c.pending_apart;
  one_way = c.one_way;
  keys = c.keys;
}

pub remove_friend-IsConsistent :
    (a b now : ℕ) (db db' : Db) (ps : Publications)
    → remove_friend a b now db ≡ ok (db', ps)
    → IsConsistent db.social
    → IsConsistent db'.social
remove_friend-IsConsistent a b now db db' ps h c =
    rw (remove_friend-social a b now db db' ps h) (drop-IsConsistent a b db.social c)

pub block_user-IsConsistent :
    (a b now : ℕ) (db db' : Db) (ps : Publications)
    → block_user a b now db ≡ ok (db', ps)
    → IsConsistent db.social
    → IsConsistent db'.social
block_user-IsConsistent a b now db db' ps h c =
    rw (block_user-social a b now db db' ps h) (sever-IsConsistent a b now db.social c)

pub unblock_user-IsConsistent :
    (a b : ℕ) (s t : Social) (ps : Publications)
    → unblock_user a b s ≡ ok (t, ps)
    → IsConsistent s
    → IsConsistent t
unblock_user-IsConsistent a b s t ps h c =
    rw (unblock_user-eq-ok a b s t ps h) (unblock-IsConsistent a b s c)

unfriended :
    (a b x y : ℕ) (s : Social)
    → is_pair a b x y ≡ true
    → has_friendship x y (drop_friendship a b s) ≡ false
unfriended a b x y s e = ground (arith, has_friendship-drop a b x y s)

is_pair_self : (a b : ℕ) → (is_pair a b a b ≡ true) × (is_pair a b b a ≡ true)
is_pair_self a b = ground arith

-- After a removal the two users are no friends, and no live session is left between them.
pub remove_friend_severs :
    (a b now : ℕ) (db db' : Db) (ps : Publications)
    → remove_friend a b now db ≡ ok (db', ps)
    → (has_friendship a b db'.social ≡ false)
      × (has_friendship b a db'.social ≡ false)
      × (any (λ s. is_live s.state && is_between a b s) db'.sessions ≡ false)
remove_friend_severs a b now db db' ps h = (
  rw (remove_friend-social a b now db db' ps h) (unfriended a b a b db.social (is_pair_self a b).0),
  rw (remove_friend-social a b now db db' ps h) (unfriended a b b a db.social (is_pair_self a b).1),
  rw (remove_friend-eq-ok a b now db db' ps h) (
      end_sessions_between_clears a b friendship_removed now
        (record db { social = drop_friendship a b db.social })),
)

-- What is left between the two users of a block.
abbrev pub AreSevered : ℕ → ℕ → Social → Type 0
AreSevered x y s =
    (has_friendship x y s ≡ false) × (has_pending x y s ≡ false) × (is_blocked x y s ≡ true)

severed : (a b now x y : ℕ) (s : Social) → is_pair a b x y ≡ true → AreSevered x y (sever a b now s)
severed a b now x y s e =
    let (f, p, k) = sever_pairs a b now x y s in (ground arith, ground arith, ground arith)

-- After a block the two users are no friends, no request between them is pending, each counts as
-- blocked for the other, and no live session is left between them.
pub block_user_severs :
    (a b now : ℕ) (db db' : Db) (ps : Publications)
    → block_user a b now db ≡ ok (db', ps)
    → AreSevered a b db'.social
      × AreSevered b a db'.social
      × (any (λ s. is_live s.state && is_between a b s) db'.sessions ≡ false)
block_user_severs a b now db db' ps h = (
  rw (block_user-social a b now db db' ps h) (severed a b now a b db.social (is_pair_self a b).0),
  rw (block_user-social a b now db db' ps h) (severed a b now b a db.social (is_pair_self a b).1),
  rw (block_user-eq-ok a b now db db' ps h).1 (
      end_sessions_between_clears a b user_blocked now
        (record db { social = sever a b now db.social })),
)

refused :
    (x y new_id now : ℕ) (s : Social)
    → (x == y) ≡ false
    → are_available x y s ≡ true
    → AreSevered x y s
    → AreSevered y x s
    → send_friend_request new_id now x y s ≡ err (forbidden Code.social_action_not_allowed)
unfolding send_friend_request
refused x y new_id now s e v (f, _, k) (g, _, _) = ground arith

-- After a block each request of the blocked user to the one who blocked is refused, as long as both
-- accounts are available.
pub blocked_cannot_send :
    (a b now new_id later : ℕ) (db db' : Db) (ps : Publications)
    → block_user a b now db ≡ ok (db', ps)
    → are_available b a db'.social ≡ true
    → send_friend_request new_id later b a db'.social
      ≡ err (forbidden Code.social_action_not_allowed)
blocked_cannot_send a b now new_id later db db' ps h v =
    let (x, y, _) = block_user_severs a b now db db' ps h in
    refused b a new_id later db'.social (apart a b (block_user-eq-ok a b now db db' ps h).0) v y x
  where
    apart : (x y : ℕ) → (x == y) ≡ false → (y == x) ≡ false
    apart x y e = ground arith
