-- ===== src/Examples/Topics.antt =====
-- The theorem on the topics of a room at a turn that completes the first one.
use our_companion_network.Base.{ℕ, ◌≤◌, refl, [], ◌∷◌, none, false, count_where, arith, ◌+◌}
use our_companion_network.Visit.{RoomTopic, TopicState, summary_only}
use our_companion_network.VisitSocial.{Store}
use our_companion_network.VisitSocial.Turns.{
  append_turn, enter_room, append_fresh, take_turn, insert_turn, progress_room, topic_is_over,
  topic_turn_count, finish_topic, complete_topic, next_topic, move_on, activate_topic, share_topic,
}
use our_companion_network.VisitSocial.Topics.{is_told, append_turn_one_topic}
use our_companion_network.Examples.Turns.{silent, says, store_of, turn_of, told_of}
use our_companion_network.VisitSocial.Rooms.{
  require_participant_session, load_active_participants, assert_room_eligible, find_share,
  load_room_topics, next_actor,
}
use our_companion_network.Visit.Rows.{find_session, find_participant}
use our_companion_network.Social.{is_eligible, has_friendship, is_blocked, are_available}
use our_companion_network.VisitSocial.Text.{normalize_text, is_space, trim_start}

abbrev queue : ℕ → TopicState → RoomTopic
queue n state = record {
  id = 70 + n;
  session_id = 50;
  sequence = n;
  state = state;
  owner_companion_id = n;
  created_by_user_id = n;
  title = "Tea";
  summary = "A cup of tea";
  source_url = none;
  share_scope = summary_only;
  allow_recipient_save = false;
  minimum_turns = 1;
  maximum_turns = 1;
  started_at = none;
  completed_at = none;
}

abbrev two_topics : Store
two_topics = record silent {
  db = record silent.db {
    room_topics = queue 2 TopicState.queued ∷ queue 1 TopicState.active ∷ [];
  };
}

append_turn_one_topic_example :
    count_where
      (is_told 50)
      (store_of two_topics (append_turn 1 1 50 (says 1) 3000 two_topics)).db.room_topics
    ≤ 1
unfolding append_turn enter_room require_participant_session find_session find_participant
    load_active_participants assert_room_eligible is_eligible has_friendship is_blocked
    are_available find_share load_room_topics append_fresh take_turn next_actor normalize_text
    is_space trim_start insert_turn progress_room topic_is_over topic_turn_count finish_topic
    complete_topic next_topic move_on activate_topic share_topic
append_turn_one_topic_example =
    append_turn_one_topic 1 1 50 (says 1) 3000 two_topics
      (store_of two_topics (append_turn 1 1 50 (says 1) 3000 two_topics))
      (turn_of (append_turn 1 1 50 (says 1) 3000 two_topics))
      (told_of (append_turn 1 1 50 (says 1) 3000 two_topics)) (λ k. ground arith, omega arith) refl
