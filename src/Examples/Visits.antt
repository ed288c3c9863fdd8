-- ===== src/Examples/Visits.antt =====
-- The theorems on sessions at concrete calls.
use our_companion_network.Base.{
  ℕ, ◌≡◌, refl, List, [], ◌∷◌, none, some, ok, true, false, any, ◌&&◌, Option, arith,
}
use our_companion_network.Config.{Key, limits, AreSane, limits-AreSane}
use our_companion_network.Visit.{
  Db, Session, SessionState, heartbeat_timeout, friendship_removed, Reservation,
  session_participant, Participant, ParticipantState, Role,
}
use our_companion_network.Visit.Rows.{is_live, is_terminal, find_session, role_for}
use our_companion_network.Visit.Sessions.{end_session, end_session_in_transaction, publish_session}
use our_companion_network.Visit.Ending.{end_sessions_between, is_between}
use our_companion_network.Visit.Ending.Laws.{end_sessions_between_clears}
use our_companion_network.Events.{visit_session_ended}
use our_companion_network.Visit.Sessions.Closing.{
  IsReleased, end_session_releases, end_session_twice,
}
use our_companion_network.Visit.Sessions.Timeline.{AllTimed}
use our_companion_network.Visit.Sessions.Calls.{
  SessionCall, readies, starts, beats, ends, run, run-AllTimed, Passes, run-Passes,
}
use our_companion_network.Visit.Timeouts.{
  timeout_reason, expire_join_requests, expire_invitations, is_overdue,
  cleanup_expired_and_timed_out,
}
use our_companion_network.Visit.Timeouts.Reasons.{beating_session_survives}
use our_companion_network.Visit.Timeouts.Sweep.{is_late, cleanup_clears}
use our_companion_network.Examples.{friends, empty_db, preparing_session, db_of, publications_of}

abbrev guest_seat : ℕ → Reservation
guest_seat n = record {
  user_id = n;
  companion_id = n;
  kind = session_participant;
  invitation_id = none;
  session_id = some 50;
  join_request_id = none;
  expires_at = none;
}

abbrev present : ℕ → Role → Participant
present n role = record {
  id = n;
  session_id = 50;
  user_id = n;
  companion_id = n;
  pack_snapshot_id = n;
  pack_ref_id = some n;
  role = role;
  state = ParticipantState.preparing;
  ready_at = none;
  seen_at = some 1000;
  joined_at = 1000;
  left_at = none;
}

abbrev visiting : Db
visiting = record (empty_db friends) {
  sessions = preparing_session ∷ [];
  participants = present 1 Role.visitor ∷ present 2 Role.host ∷ [];
  reservations = guest_seat 1 ∷ guest_seat 2 ∷ [];
}

abbrev over : Db
over = db_of visiting (end_session 1 50 none 5000 visiting)

end_session_releases_example :
    (s : Session) × (find_session 50 over ≡ some s)
    × (is_terminal s.state ≡ true)
    × (publications_of (end_session 1 50 none 5000 visiting)
        ≡ publish_session visit_session_ended s)
    × IsReleased 50 over
unfolding end_session end_session_in_transaction find_session role_for
end_session_releases_example =
    end_session_releases 1 50 5000 none visiting over
      (publications_of (end_session 1 50 none 5000 visiting)) refl

end_session_twice_example :
    end_session 1 50 (some heartbeat_timeout) 6000 over
    ≡ ok (over, publications_of (end_session 1 50 none 5000 visiting))
unfolding end_session end_session_in_transaction find_session role_for
end_session_twice_example =
    end_session_twice 1 50 5000 6000 none (some heartbeat_timeout) visiting over
      (publications_of (end_session 1 50 none 5000 visiting)) refl

-- Both sides get ready, the host starts, the visitor sends a heartbeat, the host ends the visit.
abbrev history : List (ℕ × SessionCall)
history =
    (2000, readies 1 50)
    ∷ (3000, readies 2 50)
    ∷ (4000, starts 2 50)
    ∷ (5000, beats 1 50)
    ∷ (6000, ends 2 50 none)
    ∷ []

run-AllTimed_example : AllTimed (run history visiting)
unfolding AllTimed
run-AllTimed_example = run-AllTimed history visiting refl

run-Passes_example :
    (y : Session) × (find_session 50 (run history visiting) ≡ some y)
    × Passes SessionState.preparing y.state
unfolding find_session
run-Passes_example = run-Passes history visiting 50 preparing_session refl

abbrev no_config : Key → Option ℕ
no_config key = none

abbrev active_session : Session
active_session = record preparing_session {
  state = SessionState.active;
  started_at = some 4000;
  visitor_owner_seen_at = some 30000;
  host_seen_at = some 25000;
}

beating_session_survives_example : timeout_reason (limits no_config) 50000 active_session ≡ none
unfolding limits
beating_session_survives_example =
    beating_session_survives no_config 50000 4000 30000 25000 active_session refl refl refl refl
      (omega arith) (omega arith) (omega arith)

cleanup_clears_example :
    (any
        (is_late (limits no_config) 9000000)
        (cleanup_expired_and_timed_out (limits no_config) 500 9000000 visiting).0.sessions
      ≡ false)
    × (any
          (is_overdue 9000000)
          (cleanup_expired_and_timed_out (limits no_config) 500 9000000 visiting).0.invitations
        ≡ false)
unfolding cleanup_expired_and_timed_out expire_join_requests expire_invitations
cleanup_clears_example =
    cleanup_clears (limits no_config) 500 9000000 visiting refl (omega arith) (omega arith)

end_sessions_between_clears_example :
    any
      (λ s. is_live s.state && is_between 2 1 s)
      (end_sessions_between 2 1 friendship_removed 7000 visiting).0.sessions
    ≡ false
end_sessions_between_clears_example =
    end_sessions_between_clears 2 1 friendship_removed 7000 visiting

-- A timeout of one second, with a heartbeat every minute.
abbrev hasty_config : Key → Option ℕ
hasty_config Key.heartbeat_interval_seconds = some 60
hasty_config Key.heartbeat_timeout_seconds = some 1
hasty_config _ = none

limits-AreSane_example : AreSane (limits hasty_config)
limits-AreSane_example = limits-AreSane hasty_config
