-- ===== src/Friend/Consistency.antt =====
-- The invariant of the social graph under friend requests.
use our_companion_network.Base.{
  ℕ, ◌≡◌, true, false, ◌&&◌, ◌||◌, arith, ◌==◌, Unique, any_congr, any-or,
}
use our_companion_network.Social.{Social, is_block, has_friendship, has_block, is_blocked}
use our_companion_network.Friend.Requests.{same_key, has_pending}

pub is_blocked_sym : (a b : ℕ) (s : Social) → is_blocked a b s ≡ is_blocked b a s
unfolding is_blocked
is_blocked_sym a b s =
    any_congr (λ k. is_block a b k || is_block b a k) (λ k. is_block b a k || is_block a b k)
      s.blocks (λ k. ground arith)

pub is_blocked-has_block :
    (a b : ℕ) (s : Social) → is_blocked a b s ≡ (has_block a b s || has_block b a s)
unfolding is_blocked has_block
is_blocked-has_block a b s = any-or (is_block a b) (is_block b a) s.blocks

pub record IsConsistent (s : Social) : Type 0 where
  pub symmetric : (a b : ℕ) → has_friendship a b s ≡ has_friendship b a s
  pub irreflexive : (a : ℕ) → has_friendship a a s ≡ false
  pub friends_unblocked : (a b : ℕ) → has_friendship a b s ≡ true → is_blocked a b s ≡ false
  pub pending_unblocked : (a b : ℕ) → has_pending a b s ≡ true → is_blocked a b s ≡ false
  pub pending_apart : (a b : ℕ) → has_pending a b s ≡ true → has_friendship a b s ≡ false
  pub one_way : (a b : ℕ) → has_pending a b s ≡ true → has_pending b a s ≡ false
  pub keys : Unique same_key s.requests

-- A write that keeps friendships and blocks and opens no request.
module _ (s t : Social) (friends : (a b : ℕ) → has_friendship a b t ≡ has_friendship a b s)
    (blocked : (a b : ℕ) → is_blocked a b t ≡ is_blocked a b s)
    (answered : (a b : ℕ) → has_pending a b t ≡ true → has_pending a b s ≡ true)
    (keys : Unique same_key t.requests) where
  pub answered-IsConsistent : IsConsistent s → IsConsistent t
  answered-IsConsistent c = record {
    symmetric = λ a b. ground (arith, friends a b, friends b a, c.symmetric a b);
    irreflexive = λ a. ground (arith, friends a a, c.irreflexive a);
    friends_unblocked = λ a b h. ground (arith, friends a b, blocked a b, c.friends_unblocked a b);
    pending_unblocked = λ a b h. ground (arith, answered a b, blocked a b, c.pending_unblocked a b);
    pending_apart = λ a b h. ground (arith, answered a b, friends a b, c.pending_apart a b);
    one_way = λ a b h. ground (arith, answered a b, answered b a, c.one_way a b);
    keys = keys;
  }

-- A request from `x` to `y` becomes a friendship.
module _ (s t : Social) (x y : ℕ)
    (friends : (a b : ℕ)
      → has_friendship a b t ≡ (has_friendship a b s || (x == a && y == b) || (y == a && x == b)))
    (blocked : (a b : ℕ) → is_blocked a b t ≡ is_blocked a b s)
    (answered : (a b : ℕ) → has_pending a b t ≡ true → has_pending a b s ≡ true)
    (was_pending : has_pending x y s ≡ true) (is_answered : has_pending x y t ≡ false)
    (keys : Unique same_key t.requests) where
  pub befriended-IsConsistent : IsConsistent s → IsConsistent t
  befriended-IsConsistent c = record {
    symmetric = λ a b. ground (arith, friends a b, friends b a, c.symmetric a b);
    irreflexive = λ a. ground (arith, friends a a, c.irreflexive a, c.one_way x y);
    friends_unblocked = λ a b h. ground (
      arith,
      friends a b,
      blocked a b,
      c.friends_unblocked a b,
      c.pending_unblocked x y,
      is_blocked_sym x y s,
    );
    pending_unblocked = λ a b h. ground (arith, answered a b, blocked a b, c.pending_unblocked a b);
    pending_apart =
        λ a b h. ground (arith, answered a b, friends a b, c.pending_apart a b, c.one_way x y);
    one_way = λ a b h. ground (arith, answered a b, answered b a, c.one_way a b);
    keys = keys;
  }

-- A request from `x` to `y` is opened between users who are neither friends nor blocked.
module _ (s t : Social) (x y : ℕ)
    (friends : (a b : ℕ) → has_friendship a b t ≡ has_friendship a b s)
    (blocked : (a b : ℕ) → is_blocked a b t ≡ is_blocked a b s)
    (opened : (a b : ℕ) → has_pending a b t ≡ (has_pending a b s || (x == a && y == b)))
    (apart : (x == y) ≡ false) (strangers : has_friendship x y s ≡ false)
    (unblocked : is_blocked x y s ≡ false) (not_reverse : has_pending y x s ≡ false)
    (keys : Unique same_key t.requests) where
  pub opened-IsConsistent : IsConsistent s → IsConsistent t
  opened-IsConsistent c = record {
    symmetric = λ a b. ground (arith, friends a b, friends b a, c.symmetric a b);
    irreflexive = λ a. ground (arith, friends a a, c.irreflexive a);
    friends_unblocked = λ a b h. ground (arith, friends a b, blocked a b, c.friends_unblocked a b);
    pending_unblocked = λ a b h. ground (arith, opened a b, blocked a b, c.pending_unblocked a b);
    pending_apart = λ a b h. ground (arith, opened a b, friends a b, c.pending_apart a b);
    one_way = λ a b h. ground (arith, opened a b, opened b a, c.one_way a b);
    keys = keys;
  }
