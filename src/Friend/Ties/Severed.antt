-- ===== src/Friend/Ties/Severed.antt =====
-- The social graph after a friendship or a block has ended or begun.
use our_companion_network.Base.{
  ℕ, ◌≡◌, refl, Bool, true, false, not, ◌&&◌, ◌||◌, ◌==◌, arith, any-delete_where_const,
  any-update_where_const,
}
use our_companion_network.Social.{
  Social, FriendRequest, cancelled, is_pending, is_friendship, is_route, has_friendship, is_blocked,
}
use our_companion_network.Friend.Requests.{has_pending, is_pending_route, update-Unique}
use our_companion_network.Friend.Consistency.{IsConsistent}
use our_companion_network.Friend.Ties.{drop_friendship, cancel_pending, add_block, sever}

abbrev pub is_pair : ℕ → ℕ → ℕ → ℕ → Bool
is_pair a b x y = (x == a && y == b) || (x == b && y == a)

-- Two comparisons that hold turn a test on a row into a test on the pair that was asked for.
pair_test :
    (a b x y u v : ℕ)
    → (u == x && v == y) ≡ true
    → ((u == a && v == b) || (u == b && v == a)) ≡ is_pair a b x y
pair_test a b x y u v h =
    let p : u ≡ x = ground arith in let q : v ≡ y = ground arith in rw (p, q) refl

pub has_friendship-drop :
    (a b x y : ℕ) (s : Social)
    → has_friendship x y (drop_friendship a b s) ≡ (has_friendship x y s && not (is_pair a b x y))
unfolding has_friendship drop_friendship
has_friendship-drop a b x y s =
    any-delete_where_const (is_friendship x y) (λ f. is_friendship a b f || is_friendship b a f)
      (is_pair a b x y) s.friendships (λ f. pair_test a b x y f.user_id f.friend_id)

pending_pair_test :
    (a b x y : ℕ) (r : FriendRequest)
    → is_pending_route x y r ≡ true
    → (is_pending r.status && (is_route a b r || is_route b a r)) ≡ is_pair a b x y
pending_pair_test a b x y r h =
    let t : is_route x y r ≡ true = and_left (is_route x y r) (is_pending r.status) h in
    let u : is_pending r.status ≡ true = and_right (is_route x y r) (is_pending r.status) h in
    rw u (pair_test a b x y r.sender_id r.receiver_id t)
  where
    and_left : (p q : Bool) → (p && q) ≡ true → p ≡ true
    and_left p q e = ground arith

    and_right : (p q : Bool) → (p && q) ≡ true → q ≡ true
    and_right p q e = ground arith

cancelled_row :
    (x y now : ℕ) (r : FriendRequest)
    → is_pending_route x y (record r { status = cancelled; updated_at = now }) ≡ false
cancelled_row x y now r = closed (is_route x y r)
  where
    closed : (p : Bool) → (p && false) ≡ false
    closed p = ground arith

has_pending-cancel :
    (a b now x y : ℕ) (s : Social)
    → has_pending x y (cancel_pending a b now s) ≡ (has_pending x y s && not (is_pair a b x y))
unfolding has_pending cancel_pending
has_pending-cancel a b now x y s =
    any-update_where_const (is_pending_route x y)
      (λ r. is_pending r.status && (is_route a b r || is_route b a r))
      (λ r. record r { status = cancelled; updated_at = now }) (is_pair a b x y) s.requests
      (pending_pair_test a b x y) (cancelled_row x y now)

pub drop-IsConsistent :
    (a b : ℕ) (s : Social) → IsConsistent s → IsConsistent (drop_friendship a b s)
unfolding drop_friendship has_pending is_blocked
drop-IsConsistent a b s c = record {
  symmetric = λ x y.
      ground (arith, has_friendship-drop a b x y s, has_friendship-drop a b y x s, c.symmetric x y);
  irreflexive = λ x. ground (arith, has_friendship-drop a b x x s, c.irreflexive x);
  friends_unblocked =
      λ x y h. ground (arith, has_friendship-drop a b x y s, c.friends_unblocked x y);
  pending_unblocked = λ x y h. c.pending_unblocked x y h;
  pending_apart = λ x y h. ground (arith, has_friendship-drop a b x y s, c.pending_apart x y h);
  one_way = λ x y h. c.one_way x y h;
  keys = c.keys;
}

is_blocked-add :
    (a b now x y : ℕ) (s : Social)
    → is_blocked x y (add_block a b now s) ≡ (is_blocked x y s || is_pair a b x y)
unfolding is_blocked add_block
is_blocked-add a b now x y s = first_row a b x y (is_blocked x y s)
  where
    first_row :
        (c d u v : ℕ) (rest : Bool)
        → ((c == u && d == v || c == v && d == u) || rest) ≡ (rest || is_pair c d u v)
    first_row c d u v rest = ground arith

-- What the writes of a block do to each pair of users.
pub sever_pairs :
    (a b now x y : ℕ) (s : Social)
    → let t = sever a b now s in
      (has_friendship x y t ≡ (has_friendship x y s && not (is_pair a b x y)))
      × (has_pending x y t ≡ (has_pending x y s && not (is_pair a b x y)))
      × (is_blocked x y t ≡ (is_blocked x y s || is_pair a b x y))
unfolding sever has_friendship has_pending is_blocked
sever_pairs a b now x y s = (
  has_friendship-drop a b x y (add_block a b now s),
  has_pending-cancel a b now x y (drop_friendship a b (add_block a b now s)),
  is_blocked-add a b now x y s,
)

pub is_pair_sym : (a b x y : ℕ) → is_pair a b x y ≡ is_pair a b y x
is_pair_sym a b x y = ground arith

pub sever-IsConsistent :
    (a b now : ℕ) (s : Social) → IsConsistent s → IsConsistent (sever a b now s)
unfolding sever
sever-IsConsistent a b now s c = record {
  symmetric = λ x y.
      rw
        (
          (sever_pairs a b now x y s).0,
          (sever_pairs a b now y x s).0,
          c.symmetric x y,
          is_pair_sym a b x y,
        )
        refl;
  irreflexive = λ x. rw ((sever_pairs a b now x x s).0, c.irreflexive x) refl;
  friends_unblocked = λ x y h. rw (sever_pairs a b now x y s).2 (
      kept (has_friendship x y s) (is_pair a b x y) (is_blocked x y s)
        (rw (sever_pairs a b now x y s).0 at h) (c.friends_unblocked x y));
  pending_unblocked = λ x y h. rw (sever_pairs a b now x y s).2 (
      kept (has_pending x y s) (is_pair a b x y) (is_blocked x y s)
        (rw (sever_pairs a b now x y s).1 at h) (c.pending_unblocked x y));
  pending_apart = λ x y h. rw (sever_pairs a b now x y s).0 (
      dropped (has_pending x y s) (is_pair a b x y) (is_pair a b x y) (has_friendship x y s)
        (rw (sever_pairs a b now x y s).1 at h) (c.pending_apart x y));
  one_way = λ x y h. rw (sever_pairs a b now y x s).1 (
      dropped (has_pending x y s) (is_pair a b x y) (is_pair a b y x) (has_pending y x s)
        (rw (sever_pairs a b now x y s).1 at h) (c.one_way x y));
  keys =
      update-Unique 0 now cancelled (λ r. is_pending r.status && (is_route a b r || is_route b a r))
        s.requests c.keys;
}
  where
    kept : (p k q : Bool) → (p && not k) ≡ true → (p ≡ true → q ≡ false) → (q || k) ≡ false
    kept p k q h f = ground arith

    dropped : (p k l q : Bool) → (p && not k) ≡ true → (p ≡ true → q ≡ false) → (q && not l) ≡ false
    dropped p k l q h f = ground arith
