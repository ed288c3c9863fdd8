-- ===== src/Visit/Room/Joining.antt =====
-- src/visit/visit-room.service.ts: the answers to a request to join.
use our_companion_network.Base.{
  ℕ, ◌+◌, Bool, true, false, not, ◌&&◌, Option, none, some, List, [], ◌∷◌, ◌==◌, leb, ltb, is_id,
  find_first, delete_where, length, max, if◌then◌else◌, Code, not_found, conflict, forbidden,
  Result, ok, err, ◌>>=◌, ◌>>◌, guard, or_fail,
}
use our_companion_network.Events.{
  Publications, visit_join_request_updated, visit_participant_joined,
}
use our_companion_network.Visit.{
  TopicSnapshot, InviteStatus, Session, Role, Reservation, session_participant, join_request,
  JoinRequest, RoomTopic, TopicState, Db,
}
use our_companion_network.Visit.Rows.{find_session, find_reservation}
use our_companion_network.Visit.Sessions.{present_participants}
use our_companion_network.Visit.Ending.{is_pending_invite}
use our_companion_network.Visit.Snapshots.{rewrite_reservation, create_participant, told_topic}
use our_companion_network.Visit.Invitations.Answers.{is_accepted, new_participant}
use our_companion_network.Visit.Room.{is_joinable, publish_room, is_eligible_for_all, close_request}

abbrev pub find_join_request : ℕ → Db → Option JoinRequest
find_join_request id db = find_first (λ r. r.id == id) db.join_requests

abbrev pub drop_request_reservation : JoinRequest → Db → Db
drop_request_reservation r db = record db {
  reservations =
      delete_where (λ q. q.user_id == r.requester_user_id && is_id q.join_request_id r.id)
        db.reservations;
}

-- Whether the requester's reservation is the one of the request.
abbrev pub holds_request : JoinRequest → Option Reservation → Bool
holds_request r none = false
holds_request r (some q) = elim q.kind [ join_request ↦ is_id q.join_request_id r.id | _ ↦ false ]

-- `_max: { sequence: true }`
abbrev pub last_sequence : ℕ → List RoomTopic → ℕ
last_sequence session [] = 0
last_sequence session (t ∷ ts) =
    let rest = last_sequence session ts in
    if t.session_id == session then max t.sequence rest else rest

unfoldable pub queue_topic : ℕ → ℕ → Option TopicSnapshot → Db → Db
queue_topic id session none db = db
queue_topic id session (some t) db = record db {
  room_topics =
      record {
        id = id;
        session_id = session;
        sequence = last_sequence session db.room_topics + 1;
        state = TopicState.queued;
        owner_companion_id = t.owner_companion_id;
        created_by_user_id = t.created_by_user_id;
        title = t.title;
        summary = t.summary;
        source_url = t.source_url;
        share_scope = t.share_scope;
        allow_recipient_save = t.allow_recipient_save;
        minimum_turns = 3;
        maximum_turns = 6;
        started_at = none;
        completed_at = none;
      }
      ∷ db.room_topics;
}

abbrev pub guest_seat : ℕ → Reservation → Reservation
guest_seat session r = record r {
  kind = session_participant;
  session_id = some session;
  join_request_id = none;
  expires_at = none;
}

abbrev pub accepted_request : ℕ → JoinRequest → JoinRequest
accepted_request now r = record r {
  status = InviteStatus.accepted;
  responded_at = some now;
  pack_ref_id = none;
}

-- The writes of an acceptance: the guest's row, the answer, the seat, and the queued topic.
unfoldable pub seat_guest : ℕ → ℕ → JoinRequest → ℕ → Session → ℕ → Db → Result Db
unfolding queue_topic
seat_guest participant_id topic_id r ref session now db = do
  db1 ←
      create_participant
        (new_participant participant_id session.id r.requester_user_id r.companion_id
          r.pack_snapshot_id ref Role.guest now)
        db
  db2 ← close_request r (accepted_request now) db1
  ok (
      queue_topic topic_id session.id (told_topic r.topic)
        (rewrite_reservation r.requester_user_id (guest_seat session.id) db2))

unfoldable pub accept_pending_request : ℕ → ℕ → JoinRequest → Session → ℕ → Db → Result Db
accept_pending_request participant_id topic_id r session now db = do
  guard (not (leb r.expires_at now)) (conflict Code.visit_join_request_expired)
  guard (is_joinable session.state) (conflict Code.visit_room_not_joinable)
  guard (ltb (length (present_participants session.id db)) session.room_capacity)
      (conflict Code.visit_room_capacity_reached)
  guard (is_eligible_for_all r.requester_user_id (present_participants session.id db) db)
      (conflict Code.visit_room_not_available)
  guard (holds_request r (find_reservation r.requester_user_id db))
      (conflict Code.visit_reservation_changed)
  ref ← or_fail r.pack_ref_id (conflict Code.visit_participant_unavailable)
  seat_guest participant_id topic_id r ref session now db

-- The writes before the error of an expired request are rolled back with their transaction.
unfoldable pub accept_join_request : ℕ → ℕ → ℕ → ℕ → ℕ → Db → Result (Db × Publications)
accept_join_request participant_id topic_id host id now db = do
  request ← or_fail (find_join_request id db) (not_found Code.visit_join_request_not_found)
  session ←
      or_fail (find_session request.session_id db) (not_found Code.visit_join_request_not_found)
  guard (session.host_user_id == host) (forbidden Code.visit_join_request_not_host)
  if is_accepted request.status
      then ok (db, [])
      else if not (is_pending_invite request.status)
      then err (conflict Code.visit_join_request_not_pending)
      else (accept_pending_request participant_id topic_id request session now db >>= λ db'.
          ok
            (db', publish_room session.id (visit_participant_joined session.id participant_id) db'))

-- `declineJoinRequest` is the host's answer, `cancelJoinRequest` the requester's.
pub data RequestAnswer : Type 0 where
  declines cancels : RequestAnswer

abbrev pub request_party : RequestAnswer → JoinRequest → Session → ℕ
request_party declines r s = s.host_user_id
request_party cancels r s = r.requester_user_id

abbrev pub has_request_answer : RequestAnswer → InviteStatus → Bool
has_request_answer declines InviteStatus.declined = true
has_request_answer cancels InviteStatus.cancelled = true
has_request_answer _ _ = false

abbrev pub answered_request : RequestAnswer → ℕ → JoinRequest → JoinRequest
answered_request declines now r = record r {
  status = InviteStatus.declined;
  responded_at = some now;
  pack_ref_id = none;
}
answered_request cancels now r = record r {
  status = InviteStatus.cancelled;
  cancelled_at = some now;
  pack_ref_id = none;
}

abbrev pub publish_request : JoinRequest → Db → Publications
publish_request r db =
    (r.requester_user_id, visit_join_request_updated r.session_id r.id)
    ∷ publish_room r.session_id (visit_join_request_updated r.session_id r.id) db

unfoldable pub respond_join_request : ℕ → ℕ → RequestAnswer → ℕ → Db → Result (Db × Publications)
respond_join_request user id answer now db = do
  current ← or_fail (find_join_request id db) (not_found Code.visit_join_request_not_found)
  session ←
      or_fail (find_session current.session_id db) (not_found Code.visit_join_request_not_found)
  guard (request_party answer current session == user)
      (forbidden Code.visit_join_request_not_available)
  if has_request_answer answer current.status
      then ok (db, publish_request current db)
      else if not (is_pending_invite current.status)
      then err (conflict Code.visit_join_request_not_pending)
      else (close_request current (answered_request answer now) db >>= λ db'. ok (
        drop_request_reservation current db',
        publish_request current (drop_request_reservation current db'),
      ))
