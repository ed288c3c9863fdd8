-- ===== src/Friend/Requests.antt =====
-- The table of friend requests under the writes of src/friend/friend.service.ts.
use our_companion_network.Base.{
  ℕ, ◌≡◌, refl, Bool, true, false, not, ◌&&◌, ◌||◌, none, some, List, [], ◌∷◌, arith, ◌==◌, any,
  find_first, count_where, update_where, Unique, any-update_where, any-update_where_off, any_mono,
  any_of_find_first, find_first_sound, inl, inr, Option-cases,
}
use our_companion_network.Social.{
  Social, FriendRequest, RequestStatus, pending, is_pending, is_route, find_request,
}
use our_companion_network.Friend.{is_open, set_status, find_by_id, upsert_request}

-- The primary key, and the unique index on the pair of users.
abbrev pub same_key : FriendRequest → FriendRequest → Bool
same_key r t = r.id == t.id || is_route r.sender_id r.receiver_id t

abbrev pub is_pending_route : ℕ → ℕ → FriendRequest → Bool
is_pending_route a b r = is_route a b r && is_pending r.status

-- A request from `a` to `b` waits for an answer.
unfoldable pub has_pending : ℕ → ℕ → Social → Bool
has_pending a b s = any (is_pending_route a b) s.requests

-- In a table with unique keys, the test for an open request meets the row that was found.
count_where-is_open :
    (id : ℕ) (rs : List FriendRequest) (r : FriendRequest)
    → Unique same_key rs
    → find_first (λ t. t.id == id) rs ≡ some r
    → is_pending r.status ≡ true
    → count_where (is_open id) rs ≡ 1
count_where-is_open id [] r u e p = ground arith
count_where-is_open id (x ∷ rs) r u e p =
    ground (arith, count_where-is_open id rs r u.1, none_left id x rs u.0)
  where
    none_left :
        (k : ℕ) (y : FriendRequest) (ts : List FriendRequest)
        → any (same_key y) ts ≡ false
        → y.id ≡ k
        → count_where (is_open k) ts ≡ 0
    none_left k y [] f q = refl
    none_left k y (t ∷ ts) f q = ground (arith, none_left k y ts)

pub count_where-find_by_id :
    (id : ℕ) (s : Social) (r : FriendRequest)
    → Unique same_key s.requests
    → find_by_id id s ≡ some r
    → is_pending r.status ≡ true
    → count_where (is_open id) s.requests ≡ 1
unfolding find_by_id
count_where-find_by_id id s r u e p = count_where-is_open id s.requests r u e p

module _ (id now : ℕ) (status : RequestStatus) where
  abbrev pub answer : FriendRequest → FriendRequest
  answer r = record r { status = status; updated_at = now }

  pub update-Unique :
      (q : FriendRequest → Bool) (rs : List FriendRequest)
      → Unique same_key rs
      → Unique same_key (update_where q answer rs)
  update-Unique q [] u = tt
  update-Unique q (r ∷ rs) u =
      ground (arith, update-Unique q rs u.1, any-update_where (same_key r) q answer rs (λ x. refl))

  pub set_status-Unique :
      (s : Social)
      → Unique same_key s.requests
      → Unique same_key (set_status id status now s).requests
  unfolding set_status
  set_status-Unique s u = update-Unique (is_open id) s.requests u

  -- An answered request is pending for no pair any more; the others stay.
  pub has_pending-set_status :
      (a b : ℕ) (s : Social)
      → is_pending status ≡ false
      → has_pending a b (set_status id status now s)
        ≡ any (λ r. is_pending_route a b r && not (is_open id r)) s.requests
  unfolding set_status has_pending
  has_pending-set_status a b s off =
      any-update_where_off (is_pending_route a b) (is_open id) answer s.requests (λ x. ground arith)

  pub has_pending-set_status_mono :
      (a b : ℕ) (s : Social)
      → is_pending status ≡ false
      → has_pending a b (set_status id status now s) ≡ true
      → has_pending a b s ≡ true
  unfolding has_pending
  has_pending-set_status_mono a b s off h =
      any_mono (λ r. is_pending_route a b r && not (is_open id r)) (is_pending_route a b) s.requests
        (λ x e. ground arith) (rw (has_pending-set_status a b s off) at h)

-- The pair of the row that was found has no other row.
route_answered :
    (id : ℕ) (rs : List FriendRequest) (r : FriendRequest)
    → Unique same_key rs
    → find_first (λ t. t.id == id) rs ≡ some r
    → any (λ t. is_pending_route r.sender_id r.receiver_id t && not (is_open id t)) rs ≡ false
route_answered id [] r u e = refl
route_answered id (x ∷ rs) r u e =
    ground (arith, route_answered id rs r u.1, rest_free id x rs u.0, later id x rs r u.0)
  where
    rest_free :
        (k : ℕ) (y : FriendRequest) (ts : List FriendRequest)
        → any (same_key y) ts ≡ false
        → any (λ t. is_pending_route y.sender_id y.receiver_id t && not (is_open k t)) ts ≡ false
    rest_free k y [] f = refl
    rest_free k y (t ∷ ts) f = ground (arith, rest_free k y ts)

    later :
        (k : ℕ) (y : FriendRequest) (ts : List FriendRequest) (z : FriendRequest)
        → any (same_key y) ts ≡ false
        → find_first (λ t. t.id == k) ts ≡ some z
        → is_route z.sender_id z.receiver_id y ≡ false
    later k y [] z f q = ground arith
    later k y (t ∷ ts) z f q = ground (arith, later k y ts z)

pub has_pending-set_status_self :
    (id now : ℕ) (status : RequestStatus) (s : Social) (r : FriendRequest)
    → Unique same_key s.requests
    → find_by_id id s ≡ some r
    → is_pending status ≡ false
    → has_pending r.sender_id r.receiver_id (set_status id status now s) ≡ false
unfolding find_by_id
has_pending-set_status_self id now status s r u e off =
    rw (has_pending-set_status id now status r.sender_id r.receiver_id s off)
      (route_answered id s.requests r u e)

-- The request that was found by its id, if it is pending, is pending for its pair.
pub has_pending_of_find_by_id :
    (id : ℕ) (s : Social) (r : FriendRequest)
    → find_by_id id s ≡ some r
    → is_pending r.status ≡ true
    → has_pending r.sender_id r.receiver_id s ≡ true
unfolding find_by_id has_pending
has_pending_of_find_by_id id s r e p =
    any_of_find_first (λ t. t.id == id) (is_pending_route r.sender_id r.receiver_id) s.requests r e
      (ground arith)

-- `upsert` makes its pair pending, and no other.
reopened :
    (x y now a b : ℕ) (rs : List FriendRequest)
    → any
        (is_pending_route a b)
        (update_where (is_route x y) (λ r. record r { status = pending; updated_at = now }) rs)
      ≡ (any (is_pending_route a b) rs || ((x == a) && (y == b) && any (is_route x y) rs))
reopened x y now a b [] = ground arith
reopened x y now a b (r ∷ rs) = ground (arith, reopened x y now a b rs)

pub has_pending-upsert_request :
    (new_id now x y a b : ℕ) (s : Social)
    → has_pending a b (upsert_request new_id now x y s)
      ≡ (has_pending a b s || ((x == a) && (y == b)))
unfolding upsert_request has_pending find_request
has_pending-upsert_request new_id now x y a b s =
    elim (Option-cases (find_first (is_route x y) s.requests)) [
      | inl e ↦ rw (e, upsert_request) (ground arith)
      | inr (r, e) ↦
          rw (e, upsert_request)
            (ground (
              arith,
              reopened x y now a b s.requests,
              any_of_find_first (is_route x y) (is_route x y) s.requests r e,
              find_first_sound (is_route x y) s.requests r e,
            ))
    ]

any_of_find_none :
    (p : FriendRequest → Bool) (rs : List FriendRequest) → find_first p rs ≡ none → any p rs ≡ false
any_of_find_none p [] e = refl
any_of_find_none p (r ∷ rs) e = ground (arith, any_of_find_none p rs)

fresh_key :
    (x y k now : ℕ) (rs : List FriendRequest)
    → any (is_route x y) rs ≡ false
    → any (λ t. t.id == k) rs ≡ false
    → any
        (same_key
          (record { id = k; sender_id = x; receiver_id = y; status = pending; updated_at = now }))
        rs
      ≡ false
fresh_key x y k now [] p q = refl
fresh_key x y k now (r ∷ rs) p q = ground (arith, fresh_key x y k now rs)

-- The identifier that the database makes for a new row is in no row.
abbrev pub IsFresh : ℕ → Social → Type 0
IsFresh new_id s = find_by_id new_id s ≡ none

pub upsert_request-Unique :
    (new_id now x y : ℕ) (s : Social)
    → IsFresh new_id s
    → Unique same_key s.requests
    → Unique same_key (upsert_request new_id now x y s).requests
unfolding upsert_request find_request find_by_id
upsert_request-Unique new_id now x y s fresh u =
    elim (Option-cases (find_first (is_route x y) s.requests)) [
      | inl e ↦
          rw (e, upsert_request)
            (
              fresh_key x y new_id now s.requests (any_of_find_none (is_route x y) s.requests e)
                  (any_of_find_none (λ t. t.id == new_id) s.requests fresh),
              u,
            )
      | inr (r, e) ↦
          rw (e, upsert_request) (update-Unique 0 now pending (is_route x y) s.requests u)
    ]

-- The answered row is the one that its id finds from then on.
found_after :
    (id now : ℕ) (status : RequestStatus) (rs : List FriendRequest) (r : FriendRequest)
    → find_first (λ t. t.id == id) rs ≡ some r
    → is_pending r.status ≡ true
    → find_first (λ t. t.id == id) (update_where (is_open id) (answer id now status) rs)
      ≡ some (record r { status = status; updated_at = now })
found_after id now status [] r e p = ground arith
found_after id now status (x ∷ rs) r e p = ground (arith, found_after id now status rs r)

pub find_by_id-set_status :
    (id now : ℕ) (status : RequestStatus) (s : Social) (r : FriendRequest)
    → find_by_id id s ≡ some r
    → is_pending r.status ≡ true
    → find_by_id id (set_status id status now s)
      ≡ some (record r { status = status; updated_at = now })
unfolding find_by_id set_status
find_by_id-set_status id now status s r e p = found_after id now status s.requests r e p
