-- ===== src/Social.antt =====
-- The tables that the social services share (prisma/schema.prisma: User, Friendship, FriendRequest,
-- BlockedUser) and the queries on a pair of users that several services make. Identifiers are
-- only compared, so they are numbers; a time is a number of milliseconds.
use our_companion_network.Base.{
  ℕ, Bool, true, false, not, ◌&&◌, ◌||◌, Option, none, some, List, ◌==◌, any, count_where,
  find_first,
}
use Prim.Native.String.{String}

pub data AccountStatus : Type 0 where
  active suspended : AccountStatus

pub data RequestStatus : Type 0 where
  pending accepted rejected cancelled : RequestStatus

pub record User : Type 0 where
  pub id : ℕ
  pub uid : String
  pub friend_code : String
  pub account_status : AccountStatus
  pub deletion_requested_at : Option ℕ
  pub active_companion_id : Option ℕ

pub record Friendship : Type 0 where
  pub user_id : ℕ
  pub friend_id : ℕ

pub record FriendRequest : Type 0 where
  pub id : ℕ
  pub sender_id : ℕ
  pub receiver_id : ℕ
  pub status : RequestStatus
  pub updated_at : ℕ

pub record BlockedUser : Type 0 where
  pub blocker_id : ℕ
  pub blocked_id : ℕ
  pub created_at : ℕ

pub record Social : Type 0 where
  pub users : List User
  pub friendships : List Friendship
  pub requests : List FriendRequest
  pub blocks : List BlockedUser

abbrev pub is_pending : RequestStatus → Bool
is_pending pending = true
is_pending _ = false

-- `accountStatus: 'ACTIVE'`
abbrev pub is_active : User → Bool
is_active u = elim u.account_status [ active ↦ true | suspended ↦ false ]

-- `accountStatus: 'ACTIVE', deletionRequestedAt: null`
abbrev pub is_available : User → Bool
is_available u = is_active u && elim u.deletion_requested_at [ none ↦ true | some _ ↦ false ]

abbrev pub is_friendship : ℕ → ℕ → Friendship → Bool
is_friendship a b f = f.user_id == a && f.friend_id == b

abbrev pub is_route : ℕ → ℕ → FriendRequest → Bool
is_route a b r = r.sender_id == a && r.receiver_id == b

abbrev pub is_block : ℕ → ℕ → BlockedUser → Bool
is_block a b k = k.blocker_id == a && k.blocked_id == b

-- `friendship.findUnique({ userId_friendId })`
unfoldable pub has_friendship : ℕ → ℕ → Social → Bool
has_friendship a b s = any (is_friendship a b) s.friendships

-- `friendRequest.findUnique({ senderId_receiverId })`
unfoldable pub find_request : ℕ → ℕ → Social → Option FriendRequest
find_request a b s = find_first (is_route a b) s.requests

-- `blockedUser.findUnique({ blockerId_blockedId })`
unfoldable pub has_block : ℕ → ℕ → Social → Bool
has_block a b s = any (is_block a b) s.blocks

-- `blockedUser.findFirst({ OR: [...] })`, a block in either direction
unfoldable pub is_blocked : ℕ → ℕ → Social → Bool
is_blocked a b s = any (λ k. is_block a b k || is_block b a k) s.blocks

-- `user.count({ id: { in: [a, b] }, accountStatus: 'ACTIVE', deletionRequestedAt: null }) === 2`
unfoldable pub are_available : ℕ → ℕ → Social → Bool
are_available a b s = count_where (λ u. (u.id == a || u.id == b) && is_available u) s.users == 2

-- The test that the visit services make before they serve a pair of users.
unfoldable pub is_eligible : ℕ → ℕ → Social → Bool
is_eligible a b s =
    has_friendship a b s && has_friendship b a s && not (is_blocked a b s) && are_available a b s
