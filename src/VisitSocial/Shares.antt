-- ===== src/VisitSocial/Shares.antt =====
-- src/visit-social/visit-social.service.ts: the owner of the visiting Companion approves what it
-- shares, before the visit starts.
use Prim.Native.String.{String}
use our_companion_network.Base.{
  ℕ, Bool, true, false, ◌&&◌, Option, none, some, List, ◌∷◌, map, ◌==◌, any, find_first,
  update_where, if◌then◌else◌, Code, conflict, forbidden, Result, ok, ◌>>=◌, ◌>>◌, guard,
}
use our_companion_network.Events.{Publications, visit_share_updated}
use our_companion_network.Visit.{
  Session, SessionState, ShareScope, summary_only, summary_and_source, RoomTopic, TopicState, Db,
}
use our_companion_network.VisitSocial.{Share, Store}
use our_companion_network.VisitSocial.Text.{ShareInput, sanitize_share}
use our_companion_network.VisitSocial.Rooms.{
  require_participant_session, load_participants, assert_room_eligible, publish_turns,
}

abbrev pub scope_of : Option String → ShareScope
scope_of none = summary_only
scope_of (some _) = summary_and_source

abbrev pub is_first_topic : ℕ → RoomTopic → Bool
is_first_topic session t = t.session_id == session && t.sequence == 1

-- The numbers of turns are the columns' defaults.
abbrev pub first_topic : ℕ → Session → ℕ → ShareInput → ℕ → RoomTopic
first_topic id session user share now = record {
  id = id;
  session_id = session.id;
  sequence = 1;
  state = TopicState.active;
  owner_companion_id = session.companion_id;
  created_by_user_id = user;
  title = share.title;
  summary = share.summary;
  source_url = share.source_url;
  share_scope = scope_of share.source_url;
  allow_recipient_save = false;
  minimum_turns = 3;
  maximum_turns = 6;
  started_at = some now;
  completed_at = none;
}

unfoldable pub upsert_topic : ℕ → Session → ℕ → ShareInput → ℕ → Db → ℕ × Db
upsert_topic id session user share now db =
    elim (find_first (is_first_topic session.id) db.room_topics) [
      | none ↦
          (id, record db { room_topics = first_topic id session user share now ∷ db.room_topics })
      | some topic ↦ (
        topic.id,
        record db {
          room_topics =
              update_where (is_first_topic session.id)
                (λ t. record t {
                  state = TopicState.active;
                  title = share.title;
                  summary = share.summary;
                  source_url = share.source_url;
                  share_scope = scope_of share.source_url;
                })
                db.room_topics;
        },
      )
    ]

-- `INSERT ... ON CONFLICT ("sessionId") DO UPDATE`
unfoldable pub upsert_share : Share → List Share → List Share
upsert_share share ss =
    if any (λ s. s.session_id == share.session_id) ss
    then update_where (λ s. s.session_id == share.session_id) (λ s. record share { id = s.id }) ss
    else share ∷ ss

abbrev pub is_preparing : SessionState → Bool
is_preparing SessionState.preparing = true
is_preparing _ = false

unfoldable pub set_share : ℕ → ℕ → ℕ → ℕ → ShareInput → ℕ → Store → Result (Store × Publications)
set_share new_id new_topic_id user session_id input now st = do
  share ← sanitize_share input
  session ← require_participant_session user session_id st.db
  guard (session.visitor_owner_user_id == user) (forbidden Code.visit_share_not_owner)
  guard (is_preparing session.state) (conflict Code.visit_share_state_changed)
  assert_room_eligible (map (λ p. p.user_id) (load_participants session_id st.db)) st.db
  let (topic_id, db') = upsert_topic new_topic_id session user share now st.db
  ok (
    record st {
      db = db';
      shares =
          upsert_share
            (record {
              id = new_id;
              session_id = session_id;
              room_topic_id = some topic_id;
              title = share.title;
              summary = share.summary;
              source_url = share.source_url;
              created_by_user_id = user;
            })
            st.shares;
    },
    publish_turns session_id (visit_share_updated session_id) db',
  )
