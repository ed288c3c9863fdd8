-- ===== src/VisitSocial/Turns.antt =====
-- src/visit-social/visit-social.service.ts: a turn is appended, and the room moves on to its next
-- topic or ends.
use Prim.Native.String.{String}
use our_companion_network.Base.{
  ℕ, ◌+◌, Bool, true, false, not, ◌&&◌, ◌||◌, Option, none, some, List, [], ◌∷◌, ◌++◌, ◌==◌, leb,
  ltb, is_id, is_some, find_first, any, count_where, update_where, delete_where, length,
  if◌then◌else◌, Code, conflict, database, Result, ok, err, ◌>>=◌, ◌>>◌, or_fail, guard, map,
}
use our_companion_network.Events.{
  Publications, visit_turn_created, visit_topic_changed, visit_shared_moment_created,
  visit_session_ended,
}
use our_companion_network.Visit.{
  Session, SessionState, Participant, EndReason, social_topics_completed, social_turn_limit,
  RoomTopic, TopicState, Db,
}
use our_companion_network.Visit.Rows.{is_active_session, leave_all}
use our_companion_network.Visit.Snapshots.{has_source}
use our_companion_network.VisitSocial.{Intent, pause, leave, Emotion, Share, Turn, Store}
use our_companion_network.VisitSocial.Text.{normalize_text, is_empty, unless_empty}
use our_companion_network.VisitSocial.Rooms.{
  room_max_turns, legacy_max_turns, require_participant_session, load_active_participants,
  assert_room_eligible, next_actor, is_active_topic, is_queued_topic, load_room_topics, find_share,
  last_sequence, publish_turns,
}
use our_companion_network.VisitSocial.Moments.{ensure_moment}

-- AppendVisitTurnInput
pub record TurnInput : Type 0 where
  pub client_turn_id : ℕ
  pub intent : Intent
  pub message : String
  pub emotion : Option Emotion
  pub topic : Option String

abbrev pub later : Turn → Option Turn → Turn
later t none = t
later t (some u) = if ltb t.sequence u.sequence then u else t

-- `ORDER BY "sequence" DESC LIMIT 1`
abbrev pub latest_turn : ℕ → List Turn → Option Turn
latest_turn session [] = none
latest_turn session (t ∷ ts) =
    let rest = latest_turn session ts in
    if t.session_id == session then some (later t rest) else rest

abbrev pub is_client_turn : ℕ → ℕ → Turn → Bool
is_client_turn session client t = t.session_id == session && t.client_turn_id == client

-- `INSERT`, under the unique indices on session and sequence and on session and client's id.
unfoldable pub insert_turn : Turn → Store → Result Store
insert_turn t st =
    if any
      (λ u.
        u.session_id == t.session_id
        && (u.sequence == t.sequence || u.client_turn_id == t.client_turn_id))
      st.turns
    then err (database Code.unique_violation)
    else ok (record st { turns = t ∷ st.turns })

-- `endRoom`
abbrev pub ended_room : EndReason → ℕ → Session → Session
ended_room reason now s = record s {
  state = SessionState.ended;
  ending_at = some now;
  ended_at = some now;
  end_reason = some reason;
  pack_ref_id = none;
}

unfoldable pub end_room : ℕ → EndReason → ℕ → Db → Db
end_room session reason now db = record db {
  sessions = update_where (λ s. s.id == session) (ended_room reason now) db.sessions;
  reservations = delete_where (λ r. is_id r.session_id session) db.reservations;
  participants = leave_all session now db.participants;
}

-- What a turn comes to, besides being written.
pub record Progress : Type 0 where
  pub auto_ended : Bool
  pub topic_switched : Bool

-- TOPIC_BOUNDARY_INTENTS
abbrev pub is_boundary : Intent → Bool
is_boundary leave = true
is_boundary pause = true
is_boundary _ = false

unfoldable pub topic_is_over : RoomTopic → ℕ → ℕ → Intent → Bool
topic_is_over topic topic_turns total intent =
    leb room_max_turns total
    || leb topic.maximum_turns topic_turns
    || (leb topic.minimum_turns topic_turns && is_boundary intent)

unfoldable pub complete_topic : RoomTopic → ℕ → Db → Db
complete_topic topic now db = record db {
  room_topics =
      update_where (λ t. t.id == topic.id)
        (λ t. record t { state = TopicState.completed; completed_at = some now }) db.room_topics;
}

unfoldable pub next_topic : ℕ → RoomTopic → ℕ → Db → Option RoomTopic
next_topic session topic total db =
    if leb room_max_turns total
    then none
    else find_first (λ t. is_queued_topic t && ltb topic.sequence t.sequence)
        (load_room_topics session db)

unfoldable pub activate_topic : ℕ → RoomTopic → ℕ → Db → Db
activate_topic session topic now db = record db {
  room_topics =
      update_where (λ t. t.id == topic.id)
        (λ t. record t { state = TopicState.active; started_at = some now }) db.room_topics;
  sessions =
      update_where (λ s. s.id == session)
        (λ s. record s { current_topic_sequence = topic.sequence }) db.sessions;
}

unfoldable pub share_topic : ℕ → RoomTopic → List Share → List Share
share_topic session topic =
    update_where (λ s. s.session_id == session)
      (λ s. record s {
        room_topic_id = some topic.id;
        title = topic.title;
        summary = topic.summary;
        source_url = if has_source topic.share_scope then topic.source_url else none;
        created_by_user_id = topic.created_by_user_id;
      })

-- `endRoom`, and then `ensureMoment`.
unfoldable pub close_room : ℕ → EndReason → ℕ → ℕ → Store → Store
close_room session reason turns now st =
    (ensure_moment session turns (record st { db = end_room session reason now st.db })).1

abbrev pub going_on : Progress
going_on = record { auto_ended = false; topic_switched = false }

abbrev pub switched : Progress
switched = record { auto_ended = false; topic_switched = true }

abbrev pub ended_now : Progress
ended_now = record { auto_ended = true; topic_switched = false }

-- After the active topic has been completed.
unfoldable pub move_on : ℕ → Option RoomTopic → ℕ → ℕ → Store → Store × Progress
move_on session (some topic) total now st = (
  record st {
    db = activate_topic session topic now st.db;
    shares = share_topic session topic st.shares;
  },
  switched,
)
move_on session none total now st =
    (close_room session social_topics_completed total now st, ended_now)

unfoldable pub topic_turn_count : RoomTopic → List Turn → ℕ
topic_turn_count topic = count_where (λ t. is_id t.room_topic_id topic.id)

unfoldable pub finish_topic : ℕ → RoomTopic → ℕ → ℕ → Store → Store × Progress
finish_topic session topic total now st =
    let done = complete_topic topic now st.db in
    move_on session (next_topic session topic total done) total now (record st { db = done })

unfoldable pub progress_room : ℕ → RoomTopic → ℕ → Intent → ℕ → Store → Store × Progress
progress_room session topic total intent now st =
    if topic_is_over topic (topic_turn_count topic st.turns) total intent
    then finish_topic session topic total now st
    else (st, going_on)

unfoldable pub progress_legacy_room : ℕ → ℕ → ℕ → Store → Store × Progress
progress_legacy_room session sequence now st =
    if ltb sequence legacy_max_turns
    then (st, going_on)
    else (close_room session social_turn_limit sequence now st, ended_now)

abbrev pub progress : ℕ → Option RoomTopic → ℕ → Intent → ℕ → Store → Store × Progress
progress session (some topic) total intent now st = progress_room session topic total intent now st
progress session none total intent now st = progress_legacy_room session total now st

-- The rows that the tests of a turn read: the session, who speaks in it, the share and the topic.
abbrev pub Room : Type 0
Room = Session × List Participant × Share × Option RoomTopic

-- The tests of a turn on the room, with the rows that they read.
unfoldable pub enter_room : ℕ → ℕ → Store → Result Room
enter_room user session_id st = do
  session ← require_participant_session user session_id st.db
  guard (is_active_session session.state) (conflict Code.visit_session_not_active)
  let participants = load_active_participants session_id st.db
  guard (any (λ p. p.user_id == user) participants) (conflict Code.visit_participant_not_ready)
  assert_room_eligible (map (λ p. p.user_id) participants) st.db
  share ← or_fail (find_share session_id st) (conflict Code.visit_share_required)
  let topics = load_room_topics session_id st.db
  guard (length topics == 0 || is_some (find_first is_active_topic topics))
      (conflict Code.visit_topic_state_changed)
  ok (session, participants, share, find_first is_active_topic topics)

abbrev pub topic_ref : Option RoomTopic → Share → Option ℕ
topic_ref (some topic) share = some topic.id
topic_ref none share = share.room_topic_id

abbrev pub topic_label : Option String → Option String
topic_label none = none
topic_label (some label) = unless_empty (normalize_text label 80)

abbrev pub new_turn : ℕ → ℕ → ℕ → ℕ → TurnInput → Option ℕ → Turn
new_turn id session sequence user input topic = record {
  id = id;
  session_id = session;
  sequence = sequence;
  client_turn_id = input.client_turn_id;
  sender_user_id = user;
  room_topic_id = topic;
  intent = input.intent;
  message = normalize_text input.message 800;
  emotion = input.emotion;
  topic = topic_label input.topic;
}

-- The tests of a turn that is not a repeated one, up to the row that is inserted.
unfoldable pub take_turn :
    ℕ → ℕ → Session → List Participant → Share → Option RoomTopic → TurnInput → Store → Result Turn
take_turn new_id user session participants share topic input st = do
  let last = latest_turn session.id st.turns
  guard (is_id (next_actor session.state participants last) user)
      (conflict Code.visit_turn_order_invalid)
  guard (not (ltb room_max_turns (last_sequence last + 1))) (conflict Code.visit_turn_limit_reached)
  guard (not (is_empty (normalize_text input.message 800))) (conflict Code.visit_turn_invalid)
  ok (new_turn new_id session.id (last_sequence last + 1) user input (topic_ref topic share))

abbrev pub publish_turn : ℕ → Turn → Progress → Db → Publications
publish_turn session t p db =
    publish_turns session (visit_turn_created session t.sequence) db
    ++ (if p.topic_switched then publish_turns session (visit_topic_changed session) db else [])
    ++ (if p.auto_ended
        then publish_turns session (visit_shared_moment_created session) db
          ++ publish_turns session (visit_session_ended session SessionState.ended) db
        else [])

-- The rest of a call whose turn is not a repeated one.
unfoldable pub append_fresh :
    ℕ → ℕ → Room → TurnInput → ℕ → Store → Result (Store × Turn × Publications)
append_fresh new_id user (session, participants, share, topic) input now st = do
  t ← take_turn new_id user session participants share topic input st
  st1 ← insert_turn t st
  let (st2, p) = progress session.id topic t.sequence input.intent now st1
  ok (st2, t, publish_turn session.id t p st2.db)

unfoldable pub append_turn :
    ℕ → ℕ → ℕ → TurnInput → ℕ → Store → Result (Store × Turn × Publications)
append_turn new_id user session_id input now st = do
  room ← enter_room user session_id st
  elim (find_first (is_client_turn session_id input.client_turn_id) st.turns) [
    | some t ↦ ok (st, t, [])
    | none ↦ append_fresh new_id user room input now st
  ]
