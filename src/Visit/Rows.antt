-- ===== src/Visit/Rows.antt =====
-- The sets of states, and the queries and writes on single rows, that the operations of
-- src/visit/visit.service.ts share.
use our_companion_network.Base.{
  ℕ, ◌≡◌, arith, find_first_sound, Bool, true, false, ◌&&◌, Option, none, some, List, [], ◌∷◌, ◌==◌,
  is_id, find_first, update_where, delete_where, if◌then◌else◌,
}
use our_companion_network.Visit.{
  SessionState, ParticipantState, Session, Participant, Reservation, Db,
}

-- SESSION_LIVE
abbrev pub is_live : SessionState → Bool
is_live SessionState.preparing = true
is_live SessionState.ready = true
is_live SessionState.active = true
is_live SessionState.ending = true
is_live _ = false

-- SESSION_HEARTBEAT
abbrev pub is_beating : SessionState → Bool
is_beating SessionState.preparing = true
is_beating SessionState.ready = true
is_beating SessionState.active = true
is_beating _ = false

-- SESSION_TERMINAL
abbrev pub is_terminal : SessionState → Bool
is_terminal SessionState.ended = true
is_terminal SessionState.cancelled = true
is_terminal SessionState.failed = true
is_terminal _ = false

abbrev pub is_active_session : SessionState → Bool
is_active_session SessionState.active = true
is_active_session _ = false

-- `state: { not: 'left' }`
abbrev pub is_present : ParticipantState → Bool
is_present ParticipantState.left = false
is_present _ = true

-- The part that a user has in a session.
pub data SessionRole : Type 0 where
  owner host : SessionRole

unfoldable pub role_for : Session → ℕ → Option SessionRole
role_for s user =
    if s.visitor_owner_user_id == user
    then some owner
    else if s.host_user_id == user
    then some SessionRole.host
    else none

unfoldable pub find_session : ℕ → Db → Option Session
find_session id db = find_first (λ s. s.id == id) db.sessions

-- `update({ where: { id } })`, to the row given.
unfoldable pub write_session : Session → List Session → List Session
write_session s = update_where (λ t. t.id == s.id) (λ _. s)

abbrev pub is_participant : ℕ → ℕ → Participant → Bool
is_participant session user p = p.session_id == session && p.user_id == user

unfoldable pub find_participant : ℕ → ℕ → Db → Option Participant
find_participant session user db = find_first (is_participant session user) db.participants

-- Everybody who has not left a session leaves it.
unfoldable pub leave_all : ℕ → ℕ → List Participant → List Participant
leave_all session now =
    update_where (λ p. p.session_id == session && is_present p.state)
      (λ p. record p { state = ParticipantState.left; left_at = some now; pack_ref_id = none })

unfoldable pub find_reservation : ℕ → Db → Option Reservation
find_reservation user db = find_first (λ r. r.user_id == user) db.reservations

-- `releaseSessionReservations`
unfoldable pub release_session_reservations : ℕ → ℕ → Db → Db
unfolding leave_all
release_session_reservations session now db = record db {
  reservations = delete_where (λ r. is_id r.session_id session) db.reservations;
  participants = leave_all session now db.participants;
}

find-write :
    (s : Session) (k : ℕ) (ss : List Session) (x : Session)
    → find_first (λ t. t.id == k) ss ≡ some x
    → find_first (λ t. t.id == k) (update_where (λ t. t.id == s.id) (λ _. s) ss)
      ≡ some (if k == s.id then s else x)
find-write s k [] x e = ground arith
find-write s k (t ∷ ss) x e = ground (arith, find-write s k ss x)

-- A row that is written is found under its id, and the other rows as before.
pub find_session-write_session :
    (s : Session) (k : ℕ) (db db' : Db) (x : Session)
    → db'.sessions ≡ write_session s db.sessions
    → find_session k db ≡ some x
    → find_session k db' ≡ some (if k == s.id then s else x)
unfolding find_session write_session
find_session-write_session s k db db' x e f = rw e (find-write s k db.sessions x f)

pub find_session-id : (k : ℕ) (db : Db) (x : Session) → find_session k db ≡ some x → x.id ≡ k
unfolding find_session
find_session-id k db x e = ground (arith, find_first_sound (λ t. t.id == k) db.sessions x e)
