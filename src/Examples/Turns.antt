-- ===== src/Examples/Turns.antt =====
-- The theorems on the turns of a visit at concrete calls.
use our_companion_network.Base.{
  ℕ, ◌≡◌, refl, [], ◌∷◌, none, some, List, Result, ok, err, ◌%◌, arith,
}
use our_companion_network.Social.{has_friendship, is_blocked, are_available, is_eligible}
use our_companion_network.Events.{Publications}
use our_companion_network.Visit.{SessionState, Participant, ParticipantState, Role}
use our_companion_network.Visit.Rows.{find_session, find_participant, leave_all}
use our_companion_network.VisitSocial.{Intent, Turn, Share, Store, Moment}
use our_companion_network.VisitSocial.Turns.{
  TurnInput, append_turn, enter_room, append_fresh, take_turn, insert_turn, progress_legacy_room,
  close_room, end_room,
}
use our_companion_network.Examples.{friends, empty_db, preparing_session}
use our_companion_network.VisitSocial.Rooms.{
  next_actor, require_participant_session, get_elem?, load_participants, find_share,
  load_active_participants, assert_room_eligible, load_room_topics, find_moment,
}
use our_companion_network.VisitSocial.Moments.{finalize_moment, ensure_moment, count_turns}
use our_companion_network.VisitSocial.Histories.{
  SocialCall, IsEarned, appends, run, finalizes, run-IsRegular, run-IsEarned,
}
use our_companion_network.VisitSocial.Numbering.{IsRegular}
use our_companion_network.VisitSocial.Text.{normalize_text, is_space, trim_start}
use our_companion_network.VisitSocial.Speaking.{talk_in_a_circle}
use our_companion_network.VisitSocial.Relationships.{
  settle_relationships, settle_pair, pair_turn_count, update_relationship_pair, upsert_relationship,
}
use our_companion_network.VisitSocial.Settling.{finalize_moment_twice}
use our_companion_network.VisitSocial.Limits.{IsClosed, last_turn-IsClosed}
use our_companion_network.VisitSocial.Numbering.Insertion.{take_turn-insert_turn}

abbrev place : ℕ → Role → Participant
place user role = record {
  id = user;
  session_id = 50;
  user_id = user;
  companion_id = user;
  pack_snapshot_id = user;
  pack_ref_id = some user;
  role = role;
  state = ParticipantState.active;
  ready_at = some 2000;
  seen_at = some 2000;
  joined_at = 1000;
  left_at = none;
}

abbrev told : Share
told = record {
  id = 90;
  session_id = 50;
  room_topic_id = none;
  title = "Tea";
  summary = "A cup of tea";
  source_url = none;
  created_by_user_id = 1;
}

-- The visitor and the host are in an active session, where nothing has been said.
abbrev pub silent : Store
silent = record {
  db = record (empty_db friends) {
    sessions = record preparing_session { state = SessionState.active } ∷ [];
    participants = place 2 Role.host ∷ place 1 Role.visitor ∷ [];
  };
  shares = told ∷ [];
  turns = [];
  moments = [];
  settlements = [];
  relationships = [];
}

abbrev pub says : ℕ → TurnInput
says client = record {
  client_turn_id = client;
  intent = Intent.ask;
  message = " Hello   there ";
  emotion = none;
  topic = none;
}

abbrev pub said : ℕ → ℕ → Turn
said n user = record {
  id = n;
  session_id = 50;
  sequence = n;
  client_turn_id = n;
  sender_user_id = user;
  room_topic_id = none;
  intent = Intent.ask;
  message = "Hello there";
  emotion = none;
  topic = none;
}

abbrev pub store_of : Store → Result (Store × Turn × Publications) → Store
store_of st (ok (st', _, _)) = st'
store_of st (err _) = st

abbrev pub turn_of : Result (Store × Turn × Publications) → Turn
turn_of (ok (_, t, _)) = t
turn_of (err _) = said 1 1

abbrev pub told_of : Result (Store × Turn × Publications) → Publications
told_of (ok (_, _, ps)) = ps
told_of (err _) = []

abbrev after_eleven : Store
after_eleven = record silent {
  turns =
      said 11 1
      ∷ said 10 2
      ∷ said 9 1
      ∷ said 8 2
      ∷ said 7 1
      ∷ said 6 2
      ∷ said 5 1
      ∷ said 4 2
      ∷ said 3 1
      ∷ said 2 2
      ∷ said 1 1
      ∷ [];
}

abbrev twelfth : Result (Store × Turn × Publications)
twelfth = append_turn 12 2 50 (says 12) 9000 after_eleven

last_turn-IsClosed_example : IsClosed 50 (store_of after_eleven twelfth)
unfolding append_turn enter_room require_participant_session find_session find_participant
    load_participants load_active_participants assert_room_eligible is_eligible has_friendship
    is_blocked are_available find_share load_room_topics append_fresh take_turn next_actor
    normalize_text is_space trim_start insert_turn progress_legacy_room close_room end_room
    leave_all ensure_moment find_moment settle_relationships settle_pair pair_turn_count
    update_relationship_pair upsert_relationship
last_turn-IsClosed_example =
    last_turn-IsClosed 12 2 50 (says 12) 9000 after_eleven (store_of after_eleven twelfth)
      (said 12 2) (told_of twelfth) refl refl refl

talk_in_a_circle_example :
    get_elem? (place 1 Role.visitor ∷ place 2 Role.host ∷ []) (2 % 2) ≡ some 1
unfolding next_actor
talk_in_a_circle_example =
    talk_in_a_circle (place 1 Role.visitor ∷ place 2 Role.host ∷ []) (said 3 1)
      (said 2 2 ∷ said 1 1 ∷ []) (refl, (refl, tt)) (refl, (refl, (refl, tt)))

abbrev ended_visit : Store
ended_visit = record after_eleven {
  db = record silent.db { sessions = record preparing_session { state = SessionState.ended } ∷ [] };
}

abbrev moment_store : Store → Result (Store × Moment × Publications) → Store
moment_store st (ok (st', _, _)) = st'
moment_store st (err _) = st

abbrev moment_told : Result (Store × Moment × Publications) → Publications
moment_told (ok (_, _, ps)) = ps
moment_told (err _) = []

abbrev left_moment : Moment
left_moment = record { session_id = 50; turn_count = 11 }

abbrev remembered : Store
remembered = moment_store ended_visit (finalize_moment 1 50 ended_visit)

abbrev again : Result (Store × Moment × Publications)
again = finalize_moment 2 50 remembered

abbrev moment_of : Moment → Result (Store × Moment × Publications) → Moment
moment_of _ (ok (_, m, _)) = m
moment_of m (err _) = m

finalize_moment_twice_example :
    (moment_of (record { session_id = 50; turn_count = 0 }) again ≡ left_moment)
    × (moment_store silent again ≡ remembered)
unfolding finalize_moment ensure_moment find_moment require_participant_session find_session
    find_participant find_share load_participants settle_relationships settle_pair pair_turn_count
    update_relationship_pair upsert_relationship count_turns
finalize_moment_twice_example =
    finalize_moment_twice 1 2 50 ended_visit remembered (moment_store silent again) left_moment
      (moment_of (record { session_id = 50; turn_count = 0 }) again)
      (moment_told (finalize_moment 1 50 ended_visit)) (moment_told again) refl refl

abbrev calls : List (ℕ × SocialCall)
calls =
    (3000, appends 1 1 50 (says 1)) ∷ (3100, appends 2 2 50 (says 2)) ∷ (3200, finalizes 1 50) ∷ []

run-IsRegular_example : IsRegular (run calls silent)
run-IsRegular_example = run-IsRegular calls silent (λ session. (tt, omega arith))

run-IsEarned_example : IsEarned (run calls ended_visit)
run-IsEarned_example = run-IsEarned calls ended_visit (λ low high d. refl)

take_turn-insert_turn_example :
    insert_turn (said 12 2) after_eleven
    ≡ ok (record after_eleven { turns = said 12 2 ∷ after_eleven.turns })
unfolding take_turn next_actor normalize_text is_space trim_start
take_turn-insert_turn_example =
    take_turn-insert_turn 12 2 (record preparing_session { state = SessionState.active })
      (place 1 Role.visitor ∷ place 2 Role.host ∷ []) told none (says 12) after_eleven (said 12 2)
      (refl, (refl, (refl, (refl, (refl, (refl, (refl, (refl, (refl, (refl, (refl, tt)))))))))))
      refl refl
