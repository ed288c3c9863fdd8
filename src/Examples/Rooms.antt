-- ===== src/Examples/Rooms.antt =====
-- The theorems on rooms at concrete calls.
use our_companion_network.Base.{suc, ◌≤◌, ◌≡◌, refl, [], ◌∷◌, none, some, true, ◌⊎◌}
use our_companion_network.Social.{has_friendship, is_blocked, are_available, is_eligible}
use our_companion_network.Visit.{
  Db, InviteStatus, Session, SessionState, Participant, ParticipantState, Role, JoinRequest,
  join_request,
}
use our_companion_network.Visit.Rows.{find_session, find_reservation}
use our_companion_network.Visit.Sessions.{present_participants}
use our_companion_network.Visit.Snapshots.{create_participant}
use our_companion_network.Visit.Invitations.Answers.{is_accepted}
use our_companion_network.Visit.Room.{close_request, is_taken}
use our_companion_network.Visit.Room.Joining.{
  accept_join_request, accept_pending_request, seat_guest,
}
use our_companion_network.Visit.Room.Seats.{seats_taken, accept_join_request_seats}
use our_companion_network.Examples.{friends, empty_db, preparing_session, db_of, publications_of}

-- The host is in the room, and user 1 asks to join it.
abbrev host_row : Participant
host_row = record {
  id = 60;
  session_id = 50;
  user_id = 2;
  companion_id = 2;
  pack_snapshot_id = 2;
  pack_ref_id = some 2;
  role = Role.host;
  state = ParticipantState.active;
  ready_at = some 2000;
  seen_at = some 2000;
  joined_at = 1000;
  left_at = none;
}

abbrev open_session_row : Session
open_session_row = record preparing_session {
  visitor_owner_user_id = 3;
  state = SessionState.active;
}

abbrev asked : JoinRequest
asked = record {
  id = 80;
  session_id = 50;
  requester_user_id = 1;
  companion_id = 1;
  pack_snapshot_id = 1;
  pack_ref_id = some 1;
  status = InviteStatus.pending;
  topic = none;
  expires_at = 9000;
  responded_at = none;
  cancelled_at = none;
}

abbrev room : Db
room = record (empty_db friends) {
  sessions = open_session_row ∷ [];
  participants = host_row ∷ [];
  join_requests = asked ∷ [];
  reservations =
      record {
        user_id = 1;
        companion_id = 1;
        kind = join_request;
        invitation_id = none;
        session_id = some 50;
        join_request_id = some 80;
        expires_at = some 9000;
      }
      ∷ [];
}

abbrev joined : Db
joined = db_of room (accept_join_request 61 70 2 80 5000 room)

accept_join_request_seats_example :
    ((is_accepted asked.status ≡ true) × (joined ≡ room))
    ⊎ ((seats_taken 50 joined ≡ suc (seats_taken 50 room)) × (seats_taken 50 joined ≤ 4))
unfolding accept_join_request accept_pending_request find_session present_participants
    has_friendship is_blocked are_available is_eligible find_reservation seat_guest
    create_participant close_request is_taken
accept_join_request_seats_example =
    accept_join_request_seats 61 70 2 80 5000 asked open_session_row room joined
      (publications_of (accept_join_request 61 70 2 80 5000 room)) refl refl refl
