-- ===== src/Visit/Sessions.antt =====
-- src/visit/visit.service.ts: a session from its preparation to its end.
pub mod Outcomes
pub mod Progress
pub mod Timeline
pub mod Closing
pub mod Calls
use our_companion_network.Base.{
  ℕ, ◌+◌, Bool, true, false, not, ◌&&◌, ◌||◌, Option, none, some, List, [], ◌∷◌, ◌++◌, ◌==◌, is_id,
  any, all, find_first, update_where, where_, map, is_some, value_or, if◌then◌else◌, Code, Error,
  not_found, conflict, forbidden, Result, ok, err, ◌>>=◌, ◌>>◌, guard, or_fail,
}
use our_companion_network.Social.{is_eligible}
use our_companion_network.Events.{Event, Publications, visit_session_updated, visit_session_ended}
use our_companion_network.Visit.{
  SessionState, ParticipantState, Session, Participant, EndReason, Db, visitor_owner_ended,
  host_ended,
}
use our_companion_network.Visit.Rows.{
  is_live, is_beating, is_terminal, is_active_session, is_present, SessionRole, owner, role_for,
  find_session, write_session, is_participant, find_participant, release_session_reservations,
}

-- `publishSession`, to both sides.
abbrev pub publish_session : (ℕ → SessionState → Event) → Session → Publications
publish_session event s =
    (s.visitor_owner_user_id, event s.id s.state) ∷ (s.host_user_id, event s.id s.state) ∷ []

-- `assertEligible`
abbrev pub assert_eligible : ℕ → ℕ → Db → Result (Unit {0})
assert_eligible first second db =
    guard (is_eligible first second db.social) (conflict Code.visit_invitation_not_available)

-- The columns that `markReady` writes first.
abbrev pub ready_columns : SessionRole → ℕ → Session → Session
ready_columns owner now s = record s {
  visitor_owner_ready_at = some (value_or s.visitor_owner_ready_at now);
  visitor_owner_seen_at = some now;
}
ready_columns SessionRole.host now s = record s {
  host_ready_at = some (value_or s.host_ready_at now);
  host_seen_at = some now;
}

-- The session becomes ready when both sides are.
abbrev pub settle_ready : ℕ → Session → Session
settle_ready now s =
    if is_some s.visitor_owner_ready_at && is_some s.host_ready_at
    then record s { state = SessionState.ready; ready_at = some (value_or s.ready_at now) }
    else s

unfoldable pub ready_session : SessionRole → ℕ → Session → Session
ready_session role now s = settle_ready now (ready_columns role now s)

unfoldable pub mark_participant_ready : ℕ → ℕ → ℕ → List Participant → List Participant
mark_participant_ready session user now =
    update_where (is_participant session user)
      (λ p. record p { state = ParticipantState.ready; ready_at = some now; seen_at = some now })

unfoldable pub mark_ready : ℕ → ℕ → ℕ → Db → Result (Db × Publications)
mark_ready user session_id now db = do
  current ← or_fail (find_session session_id db) (not_found Code.visit_session_not_found)
  role ← or_fail (role_for current user) (forbidden Code.visit_session_not_participant)
  assert_eligible current.visitor_owner_user_id current.host_user_id db
  elim current.state [
    | SessionState.ready ↦ ok (db, publish_session visit_session_updated current)
    | SessionState.active ↦ ok (db, publish_session visit_session_updated current)
    | SessionState.preparing ↦ ok (
      record db {
        sessions = write_session (ready_session role now current) db.sessions;
        participants = mark_participant_ready session_id user now db.participants;
      },
      publish_session visit_session_updated (ready_session role now current),
    )
    | _ ↦ err (conflict Code.visit_session_not_preparing)
  ]

unfoldable pub started_session : ℕ → Session → Session
started_session now s = record s { state = SessionState.active; started_at = some now }

abbrev pub is_ready_participant : ParticipantState → Bool
is_ready_participant ParticipantState.ready = true
is_ready_participant _ = false

unfoldable pub activate_participants : ℕ → ℕ → List Participant → List Participant
activate_participants session now =
    update_where (λ p. p.session_id == session && is_ready_participant p.state)
      (λ p. record p { state = ParticipantState.active; seen_at = some now })

unfoldable pub start_session : ℕ → ℕ → ℕ → Db → Result (Db × Publications)
start_session user session_id now db = do
  current ← or_fail (find_session session_id db) (not_found Code.visit_session_not_found)
  guard (current.host_user_id == user) (forbidden Code.visit_session_not_participant)
  assert_eligible current.visitor_owner_user_id current.host_user_id db
  elim current.state [
    | SessionState.active ↦ ok (db, publish_session visit_session_updated current)
    | SessionState.ready ↦ ok (
      record db {
        sessions = write_session (started_session now current) db.sessions;
        participants = activate_participants session_id now db.participants;
      },
      publish_session visit_session_updated (started_session now current),
    )
    | _ ↦ err (conflict Code.visit_session_not_ready)
  ]

abbrev pub default_reason : SessionRole → EndReason
default_reason owner = visitor_owner_ended
default_reason SessionRole.host = host_ended

-- A session that has not started is cancelled, a started one has ended.
abbrev pub end_state : SessionState → SessionState
end_state SessionState.preparing = SessionState.cancelled
end_state SessionState.ready = SessionState.cancelled
end_state _ = SessionState.ended

abbrev pub ending_time : SessionState → ℕ → Option ℕ
ending_time SessionState.active now = some now
ending_time SessionState.ending now = some now
ending_time _ now = none

unfoldable pub ended_session : EndReason → ℕ → Session → Session
ended_session reason now s = record s {
  state = end_state s.state;
  ending_at = ending_time s.state now;
  ended_at = some now;
  end_reason = some reason;
  pack_ref_id = none;
}

-- The session after a call of `endSessionInTransaction`.
unfoldable pub end_session_in_transaction :
    ℕ → ℕ → Option EndReason → ℕ → Db → Result (Session × Db)
end_session_in_transaction user session_id requested now db = do
  current ← or_fail (find_session session_id db) (not_found Code.visit_session_not_found)
  role ← or_fail (role_for current user) (forbidden Code.visit_session_not_participant)
  let ended = ended_session (value_or requested (default_reason role)) now current
  if is_terminal current.state
      then ok (current, db)
      else if not (is_live current.state)
      then err (conflict Code.visit_session_state_changed)
      else ok (ended, record db { sessions = write_session ended db.sessions })

unfoldable pub end_session : ℕ → ℕ → Option EndReason → ℕ → Db → Result (Db × Publications)
end_session user session_id requested now db = do
  (ended, db') ← end_session_in_transaction user session_id requested now db
  ok (release_session_reservations session_id now db', publish_session visit_session_ended ended)

-- `role` is none for a guest, who is a participant but neither owner nor host.
abbrev pub seen_columns : Option SessionRole → ℕ → Session → Session
seen_columns none now s = s
seen_columns (some owner) now s = record s { visitor_owner_seen_at = some now }
seen_columns (some SessionRole.host) now s = record s { host_seen_at = some now }

abbrev pub is_present_participant : Option Participant → Bool
is_present_participant none = false
is_present_participant (some p) = is_present p.state

-- The participants of a session who have not left.
unfoldable pub present_participants : ℕ → Db → List Participant
present_participants session db =
    where_ (λ p. p.session_id == session && is_present p.state) db.participants

unfoldable pub heartbeat : ℕ → ℕ → ℕ → Db → Result Db
heartbeat user session_id now db = do
  session ← or_fail (find_session session_id db) (not_found Code.visit_session_not_found)
  guard (is_beating session.state) (conflict Code.visit_session_state_changed)
  guard
      (is_some (role_for session user)
        || is_present_participant (find_participant session_id user db))
      (forbidden Code.visit_session_not_participant)
  guard
      (all (λ p. p.user_id == user || is_eligible user p.user_id db.social)
        (present_participants session_id db))
      (conflict Code.visit_invitation_not_available)
  ok (record db {
    participants =
        update_where (λ p. is_participant session_id user p && is_present p.state)
          (λ p. record p { seen_at = some now }) db.participants;
    sessions = write_session (seen_columns (role_for session user) now session) db.sessions;
  })
