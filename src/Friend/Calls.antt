-- ===== src/Friend/Calls.antt =====
-- Each call of the friend-request handlers keeps the social graph consistent.
use our_companion_network.Base.{
  is_some, ℕ, ◌≡◌, refl, true, false, ◌&&◌, ◌||◌, none, some, List, [], ◌∷◌, arith, ◌==◌, any,
  find_first, Unique, inl, inr, Option-cases, Result, ok, err, Result-cases, ◌⊎◌,
}
use our_companion_network.Social.{
  Social, FriendRequest, is_route, is_pending, has_friendship, is_blocked, find_request, accepted,
}
use our_companion_network.Events.{Publications}
use our_companion_network.Friend.{
  Action, reject, cancel, next_status, party, find_by_id, set_status, create_friendship,
  finalize_pending_friend_request, accept_friend_request_in_transaction, upsert_request,
  pending_request, send_friend_request, accept_friend_request, reject_friend_request,
  cancel_friend_request,
}
use our_companion_network.Friend.Requests.{
  same_key, has_pending, IsFresh, set_status-Unique, has_pending-set_status_mono,
  has_pending-set_status_self, has_pending_of_find_by_id, has_pending-upsert_request,
  upsert_request-Unique,
}
use our_companion_network.Friend.Consistency.{
  IsConsistent, answered-IsConsistent, befriended-IsConsistent, opened-IsConsistent,
}

-- What a finalised request was, and what became of the tables.
pub finalize-eq-ok :
    (id user now : ℕ) (action : Action) (s t : Social) (r : FriendRequest)
    → finalize_pending_friend_request id user action now s ≡ ok (r, t)
    → (find_by_id id s ≡ some r)
      × (is_pending r.status ≡ true)
      × (party action r ≡ user)
      × (t ≡ set_status id (next_status action) now s)
unfolding finalize_pending_friend_request
finalize-eq-ok id user now action s t r h = ground arith

-- Two friendship rows for the pair of an accepted request.
abbrev pub befriend : ℕ → ℕ → Social → Social
befriend a b s = record s {
  friendships =
      record { user_id = b; friend_id = a } ∷ record { user_id = a; friend_id = b } ∷ s.friendships;
}

pub accept-eq-ok :
    (id user now : ℕ) (s t : Social) (r : FriendRequest)
    → accept_friend_request_in_transaction user id now s ≡ ok (r, t)
    → (find_by_id id s ≡ some r)
      × (is_pending r.status ≡ true)
      × (r.receiver_id ≡ user)
      × (t ≡ befriend r.sender_id r.receiver_id (set_status id accepted now s))
unfolding accept_friend_request_in_transaction finalize_pending_friend_request create_friendship
accept-eq-ok id user now s t r h = ground arith

pub has_friendship-befriend :
    (x y id now a b : ℕ) (s : Social)
    → has_friendship a b (befriend x y (set_status id accepted now s))
      ≡ (has_friendship a b s || (x == a && y == b) || (y == a && x == b))
unfolding has_friendship set_status
has_friendship-befriend x y id now a b s = ground arith

befriend-IsConsistent :
    (id now : ℕ) (s : Social) (r : FriendRequest)
    → IsConsistent s
    → find_by_id id s ≡ some r
    → is_pending r.status ≡ true
    → IsConsistent (befriend r.sender_id r.receiver_id (set_status id accepted now s))
unfolding set_status has_friendship is_blocked has_pending
befriend-IsConsistent id now s r c e p =
    befriended-IsConsistent s (befriend x y (set_status id accepted now s)) x y
      (λ a b. has_friendship-befriend x y id now a b s) (λ a b. refl)
      (λ a b. has_pending-set_status_mono id now accepted a b s refl)
      (has_pending_of_find_by_id id s r e p)
      (has_pending-set_status_self id now accepted s r c.keys e refl)
      (set_status-Unique id now accepted s c.keys) c
  where
    x : ℕ
    x = r.sender_id

    y : ℕ
    y = r.receiver_id

next_status_closed : (action : Action) → is_pending (next_status action) ≡ false
next_status_closed action = ground arith

set_status-IsConsistent :
    (id now : ℕ) (action : Action) (s : Social)
    → IsConsistent s
    → IsConsistent (set_status id (next_status action) now s)
unfolding set_status has_friendship is_blocked
set_status-IsConsistent id now action s c =
    answered-IsConsistent s (set_status id (next_status action) now s) (λ a b. refl) (λ a b. refl)
      (λ a b.
        has_pending-set_status_mono id now (next_status action) a b s (next_status_closed action))
      (set_status-Unique id now (next_status action) s c.keys) c

upsert_request-IsConsistent :
    (new_id now x y : ℕ) (s : Social)
    → IsFresh new_id s
    → (x == y) ≡ false
    → has_friendship x y s ≡ false
    → is_blocked x y s ≡ false
    → has_pending y x s ≡ false
    → IsConsistent s
    → IsConsistent (upsert_request new_id now x y s)
unfolding upsert_request has_friendship is_blocked
upsert_request-IsConsistent new_id now x y s fresh apart strangers unblocked not_reverse c =
    opened-IsConsistent s (upsert_request new_id now x y s) x y (λ a b. ground arith)
      (λ a b. ground arith) (λ a b. has_pending-upsert_request new_id now x y a b s) apart strangers
      unblocked not_reverse (upsert_request-Unique new_id now x y s fresh c.keys) c

-- A pending request is found by its pair exactly when a row of the pair is pending.
none_pending :
    (a b : ℕ) (rs : List FriendRequest)
    → Unique same_key rs
    → elim (find_first (is_route a b) rs) [ some r ↦ is_pending r.status | none ↦ false ]
      ≡ any (λ r. is_route a b r && is_pending r.status) rs
none_pending a b [] u = refl
none_pending a b (r ∷ rs) u = ground (arith, none_pending a b rs u.1, no_twin a b r rs u.0)
  where
    no_twin :
        (k l : ℕ) (y : FriendRequest) (ts : List FriendRequest)
        → any (same_key y) ts ≡ false
        → is_route k l y ≡ true
        → any (λ r. is_route k l r && is_pending r.status) ts ≡ false
    no_twin k l y [] f q = refl
    no_twin k l y (t ∷ ts) f q = ground (arith, no_twin k l y ts)

pub pending_request-has_pending :
    (a b : ℕ) (s : Social)
    → Unique same_key s.requests
    → is_some (pending_request a b s) ≡ has_pending a b s
unfolding pending_request has_pending find_request
pending_request-has_pending a b s u = ground (arith, none_pending a b s.requests u)

has_pending_of_none :
    (a b : ℕ) (s : Social)
    → Unique same_key s.requests
    → pending_request a b s ≡ none
    → has_pending a b s ≡ false
has_pending_of_none a b s u h = ground (arith, pending_request-has_pending a b s u)

-- The invariant holds of what a handler leaves behind.
abbrev pub Keeps : Result (Social × Publications) → Type 0
Keeps (ok (t, _)) = IsConsistent t
Keeps (err _) = Unit {0}

keep_of_ok :
    (m : Result (Social × Publications))
    → ((t : Social) (ps : Publications) → m ≡ ok (t, ps) → IsConsistent t)
    → Keeps m
keep_of_ok (ok (t, ps)) h = h t ps refl
keep_of_ok (err e) h = tt

-- A call that succeeds either accepts the request of the other side or opens one.
pub send_friend_request-eq-ok :
    (new_id now a b : ℕ) (s t : Social) (ps : Publications)
    → send_friend_request new_id now a b s ≡ ok (t, ps)
    → ((reverse r : FriendRequest) × (accept_friend_request_in_transaction a reverse.id now s
          ≡ ok (r, t))
        × (pending_request b a s ≡ some reverse))
      ⊎ (((a == b) ≡ false)
          × (has_friendship a b s ≡ false)
          × (is_blocked a b s ≡ false)
          × (pending_request b a s ≡ none)
          × (t ≡ upsert_request new_id now a b s))
unfolding send_friend_request
send_friend_request-eq-ok new_id now a b s t ps h = elim (Option-cases (pending_request b a s)) [
  | inl e ↦ inr (ground arith)
  | inr (reverse, e) ↦
      elim (Result-cases (accept_friend_request_in_transaction a reverse.id now s)) [
        | inl ((r, u), f) ↦ inl (reverse, r, ground arith, e)
        | inr (_, f) ↦ absurd (ground arith)
      ]
]

accept-IsConsistent :
    (id user now : ℕ) (s t : Social) (r : FriendRequest)
    → accept_friend_request_in_transaction user id now s ≡ ok (r, t)
    → IsConsistent s
    → IsConsistent t
accept-IsConsistent id user now s t r h c =
    let (e, p, _, q) = accept-eq-ok id user now s t r h in
    rw q (befriend-IsConsistent id now s r c e p)

finalize-IsConsistent :
    (id user now : ℕ) (action : Action) (s t : Social) (r : FriendRequest)
    → finalize_pending_friend_request id user action now s ≡ ok (r, t)
    → IsConsistent s
    → IsConsistent t
finalize-IsConsistent id user now action s t r h c =
    rw (finalize-eq-ok id user now action s t r h).3 (set_status-IsConsistent id now action s c)

pub send_friend_request-Keeps :
    (new_id now a b : ℕ) (s : Social)
    → IsFresh new_id s
    → IsConsistent s
    → Keeps (send_friend_request new_id now a b s)
send_friend_request-Keeps new_id now a b s fresh c =
    keep_of_ok (send_friend_request new_id now a b s) λ t ps h.
      elim (send_friend_request-eq-ok new_id now a b s t ps h) [
        | inl (reverse, r, e, _) ↦ accept-IsConsistent reverse.id a now s t r e c
        | inr (apart, strangers, unblocked, none_back, e) ↦ rw e (
            upsert_request-IsConsistent new_id now a b s fresh apart strangers unblocked
              (has_pending_of_none b a s c.keys none_back) c)
      ]

pub accept_friend_request-eq-ok :
    (user id now : ℕ) (s t : Social) (ps : Publications)
    → accept_friend_request user id now s ≡ ok (t, ps)
    → (r : FriendRequest) × (accept_friend_request_in_transaction user id now s ≡ ok (r, t))
unfolding accept_friend_request
accept_friend_request-eq-ok user id now s t ps h =
    elim (Result-cases (accept_friend_request_in_transaction user id now s)) [
      | inl ((r, u), f) ↦ (r, ground arith)
      | inr (_, f) ↦ absurd (ground arith)
    ]

pub reject_friend_request-eq-ok :
    (user id now : ℕ) (s t : Social) (ps : Publications)
    → reject_friend_request user id now s ≡ ok (t, ps)
    → (r : FriendRequest) × (finalize_pending_friend_request id user reject now s ≡ ok (r, t))
unfolding reject_friend_request
reject_friend_request-eq-ok user id now s t ps h =
    elim (Result-cases (finalize_pending_friend_request id user reject now s)) [
      | inl ((r, u), f) ↦ (r, ground arith)
      | inr (_, f) ↦ absurd (ground arith)
    ]

pub cancel_friend_request-eq-ok :
    (user id now : ℕ) (s t : Social) (ps : Publications)
    → cancel_friend_request user id now s ≡ ok (t, ps)
    → (r : FriendRequest) × (finalize_pending_friend_request id user cancel now s ≡ ok (r, t))
unfolding cancel_friend_request
cancel_friend_request-eq-ok user id now s t ps h =
    elim (Result-cases (finalize_pending_friend_request id user cancel now s)) [
      | inl ((r, u), f) ↦ (r, ground arith)
      | inr (_, f) ↦ absurd (ground arith)
    ]

pub accept_friend_request-Keeps :
    (user id now : ℕ) (s : Social) → IsConsistent s → Keeps (accept_friend_request user id now s)
accept_friend_request-Keeps user id now s c =
    keep_of_ok (accept_friend_request user id now s) λ t ps h.
      let (r, e) = accept_friend_request-eq-ok user id now s t ps h in
      accept-IsConsistent id user now s t r e c

pub reject_friend_request-Keeps :
    (user id now : ℕ) (s : Social) → IsConsistent s → Keeps (reject_friend_request user id now s)
reject_friend_request-Keeps user id now s c =
    keep_of_ok (reject_friend_request user id now s) λ t ps h.
      let (r, e) = reject_friend_request-eq-ok user id now s t ps h in
      finalize-IsConsistent id user now reject s t r e c

pub cancel_friend_request-Keeps :
    (user id now : ℕ) (s : Social) → IsConsistent s → Keeps (cancel_friend_request user id now s)
cancel_friend_request-Keeps user id now s c =
    keep_of_ok (cancel_friend_request user id now s) λ t ps h.
      let (r, e) = cancel_friend_request-eq-ok user id now s t ps h in
      finalize-IsConsistent id user now cancel s t r e c
