-- ===== src/Visit/Room.antt =====
-- src/visit/visit-room.service.ts: guests who ask to join a visit, get ready and leave. The rows
-- that record which participants a user has loaded (VisitParticipantReadiness) are left out.
pub mod Joining
pub mod Seats
use our_companion_network.Base.{
  ℕ, ◌+◌, ◌*◌, Bool, true, false, not, ◌&&◌, ◌||◌, Option, none, some, List, [], ◌∷◌, ◌++◌, map,
  ◌==◌, leb, ltb, is_id, is_some, find_first, any, all, where_, update_where, delete_where, length,
  if◌then◌else◌, Code, Error, not_found, conflict, forbidden, database, Result, ok, err, ◌>>=◌,
  ◌>>◌, guard, or_fail, max,
}
use our_companion_network.Social.{is_eligible, is_available}
use our_companion_network.Events.{
  Event, Publications, visit_join_request_created, visit_join_request_updated,
  visit_participant_joined, visit_participant_ready, visit_participant_left,
}
use our_companion_network.Visit.{
  Companion, AssetPack, TopicSnapshot, InviteStatus, Session, SessionState, Participant,
  ParticipantState, Role, Reservation, ReservationKind, session_participant, join_request,
  JoinRequest, RoomTopic, TopicState, Db,
}
use our_companion_network.Visit.Rows.{
  is_present, find_session, find_participant, find_reservation, is_participant,
}
use our_companion_network.Visit.Sessions.{present_participants}
use our_companion_network.Visit.Ending.{is_pending_invite}
use our_companion_network.Visit.Snapshots.{
  Snapshot, load_current_snapshot, supports_visual_visit, find_companion, topic_snapshot,
  find_owned_topic, create_reservation, rewrite_reservation, create_participant, told_topic,
  is_blank, chain,
}
use our_companion_network.Visit.Invitations.Answers.{new_participant}

-- `['ready', 'active'].includes(session.state)`
abbrev pub is_joinable : SessionState → Bool
is_joinable SessionState.ready = true
is_joinable SessionState.active = true
is_joinable _ = false

-- `publishRoom`
abbrev pub publish_room : ℕ → Event → Db → Publications
publish_room session event db = map (λ p. (p.user_id, event)) (present_participants session db)

-- `assertEligible` for each of the participants.
abbrev pub is_eligible_for_all : ℕ → List Participant → Db → Bool
is_eligible_for_all user ps db = all (λ p. is_eligible user p.user_id db.social) ps

abbrev pub allows_join_requests : Session → Db → Bool
allows_join_requests s db = elim (chain s.host_companion_id (λ id. find_companion id db)) [
  | none ↦ false
  | some c ↦ c.allow_join_requests
]

-- The topic that a request brings along.
unfoldable pub request_topic : ℕ → ℕ → Option ℕ → ℕ → Db → Result (Option TopicSnapshot)
request_topic user companion none now db = ok none
request_topic user companion (some id) now db = do
  topic ← or_fail (find_owned_topic id companion now db) (conflict Code.visit_topic_not_available)
  ok (some (topic_snapshot topic user))

-- Two requests that the unique index on session, requester and status does not let stand together.
abbrev pub same_status : InviteStatus → InviteStatus → Bool
same_status InviteStatus.pending InviteStatus.pending = true
same_status InviteStatus.accepted InviteStatus.accepted = true
same_status InviteStatus.declined InviteStatus.declined = true
same_status InviteStatus.cancelled InviteStatus.cancelled = true
same_status InviteStatus.expired InviteStatus.expired = true
same_status _ _ = false

unfoldable pub is_taken : ℕ → ℕ → ℕ → InviteStatus → Db → Bool
is_taken id session requester status db =
    any
      (λ r.
        not (r.id == id)
        && r.session_id == session
        && r.requester_user_id == requester
        && same_status r.status status)
      db.join_requests

-- `visitJoinRequest.create`
unfoldable pub create_request : JoinRequest → Db → Result Db
create_request r db =
    if is_taken r.id r.session_id r.requester_user_id r.status db
    then err (database Code.unique_violation)
    else ok (record db { join_requests = r ∷ db.join_requests })

-- `visitJoinRequest.update`
unfoldable pub close_request : JoinRequest → (JoinRequest → JoinRequest) → Db → Result Db
close_request r f db =
    if is_taken r.id r.session_id r.requester_user_id (f r).status db
    then err (database Code.unique_violation)
    else ok (record db { join_requests = update_where (λ q. q.id == r.id) f db.join_requests })

-- The tests of `createJoinRequest` on the room.
unfoldable pub assert_room_open : ℕ → Session → Db → Result (Unit {0})
assert_room_open user session db = do
  guard (is_joinable session.state) (conflict Code.visit_room_not_joinable)
  guard (not (any (λ p. p.user_id == user) (present_participants session.id db)))
      (conflict Code.visit_room_already_participant)
  guard (ltb (length (present_participants session.id db)) session.room_capacity)
      (conflict Code.visit_room_capacity_reached)

abbrev pub new_request : ℕ → ℕ → ℕ → Snapshot → Option TopicSnapshot → ℕ → JoinRequest
new_request id session user (companion, pack) topic now = record {
  id = id;
  session_id = session;
  requester_user_id = user;
  companion_id = companion.id;
  pack_snapshot_id = pack.id;
  pack_ref_id = some pack.id;
  status = InviteStatus.pending;
  topic = topic;
  expires_at = now + 2 * 60 * 60000;
  responded_at = none;
  cancelled_at = none;
}

abbrev pub reservation_of_request : JoinRequest → Reservation
reservation_of_request r = record {
  user_id = r.requester_user_id;
  companion_id = r.companion_id;
  kind = join_request;
  invitation_id = none;
  session_id = some r.session_id;
  join_request_id = some r.id;
  expires_at = some r.expires_at;
}

unfoldable pub create_join_request : ℕ → ℕ → ℕ → Option ℕ → ℕ → Db → Result (Db × Publications)
create_join_request new_id user session_id topic_id now db = do
  session ← or_fail (find_session session_id db) (conflict Code.visit_room_not_joinable)
  assert_room_open user session db
  guard (not (is_some (find_reservation user db))) (conflict Code.visit_reservation_exists)
  guard (allows_join_requests session db) (conflict Code.visit_join_requests_disabled)
  guard (is_eligible_for_all user (present_participants session_id db) db)
      (conflict Code.visit_room_not_available)
  snapshot ←
      or_fail (load_current_snapshot is_available user db)
        (conflict Code.visit_participant_unavailable)
  guard (supports_visual_visit snapshot.1) (conflict Code.visit_participant_unavailable)
  guard (not (any (λ p. p.companion_id == snapshot.0.id) (present_participants session_id db)))
      (conflict Code.visit_room_companion_duplicate)
  guard
      (not (
        any
          (λ r.
            r.session_id == session_id
            && r.requester_user_id == user
            && is_pending_invite r.status
            && ltb now r.expires_at)
          db.join_requests))
      (conflict Code.visit_join_request_exists)
  topic ← request_topic user snapshot.0.id topic_id now db
  let request = new_request new_id session_id user snapshot topic now
  db1 ← create_request request db
  db2 ← create_reservation (reservation_of_request request) db1
  ok (db2, publish_room session_id (visit_join_request_created session_id new_id) db2)

-- `leaveRoom`: the participant's row is kept.
abbrev pub left_now : ℕ → Participant → Participant
left_now now p = record p { state = ParticipantState.left; left_at = some now; pack_ref_id = none }

unfoldable pub leave_room : ℕ → ℕ → ℕ → Db → Result (Db × Publications)
leave_room user session_id now db = do
  session ← or_fail (find_session session_id db) (forbidden Code.visit_session_not_participant)
  current ←
      or_fail (find_participant session_id user db) (forbidden Code.visit_session_not_participant)
  guard (not (session.host_user_id == user)) (conflict Code.visit_host_must_end_room)
  let db' = record db {
    participants = update_where (λ p. p.id == current.id) (left_now now) db.participants;
    reservations =
        delete_where (λ r. r.user_id == user && is_id r.session_id session_id) db.reservations;
  }
  if is_present current.state
      then ok (db', publish_room session_id (visit_participant_left session_id current.id) db')
      else ok (db, publish_room session_id (visit_participant_left session_id current.id) db)

abbrev pub is_active_participant : ParticipantState → Bool
is_active_participant ParticipantState.active = true
is_active_participant _ = false

-- `markParticipantReady`
unfoldable pub activate_participant : ℕ → ℕ → ℕ → Db → Result (Db × Publications)
activate_participant user session_id now db = do
  current ←
      or_fail (find_participant session_id user db) (forbidden Code.visit_session_not_participant)
  let db' = record db {
    participants =
        update_where (λ p. p.id == current.id)
          (λ p. record p {
            state = ParticipantState.active;
            ready_at = some now;
            seen_at = some now;
          })
          db.participants;
  }
  if is_active_participant current.state
      then ok (db, publish_room session_id (visit_participant_ready session_id current.id) db)
      else if not (is_present current.state)
      then err (conflict Code.visit_participant_state_changed)
      else ok (db', publish_room session_id (visit_participant_ready session_id current.id) db')
