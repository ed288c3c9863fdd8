-- ===== src/VisitSocial/Steps.antt =====
-- src/visit-social/visit-social.service.ts: what a call of appendTurn or finalizeMoment that
-- succeeds went through.
use our_companion_network.Base.{
  ℕ, ◌+◌, ◌≡◌, true, false, Option, none, some, List, ◌∷◌, ◌==◌, ltb, is_id, find_first, arith, inl,
  inr, ◌⊎◌, Option-cases, ok, >>=-eq-ok, ◌≤◌, length, ◌||◌, is_some,
}
use our_companion_network.Events.{Publications}
use our_companion_network.Visit.{Session, Participant, RoomTopic, Db}
use our_companion_network.VisitSocial.{Share, Turn, Moment, Store}
use our_companion_network.VisitSocial.Turns.{
  TurnInput, latest_turn, is_client_turn, insert_turn, progress, take_turn, enter_room, append_turn,
  append_fresh, new_turn, topic_ref,
}
use our_companion_network.Visit.Rows.{is_active_session, find_session-id, find_session}
use our_companion_network.VisitSocial.Rooms.{
  next_actor, last_sequence, find_share, require_participant_session, room_max_turns,
  load_active_participants, is_active_topic, load_room_topics,
}
use our_companion_network.VisitSocial.Moments.{ensure_moment, finalize_moment, count_turns}
use our_companion_network.VisitSocial.Shares.{set_share}
use our_companion_network.VisitSocial.Text.{ShareInput}

-- A turn that is written, with the room that it was tested in.
pub record NewTurn (new_id user session_id : ℕ) (input : TurnInput) (now : ℕ) (st st' : Store)
    (t : Turn) : Type 0 where
  pub session : Session
  pub participants : List Participant
  pub share : Share
  pub topic : Option RoomTopic
  pub entered : enter_room user session_id st ≡ ok (session, participants, share, topic)
  pub is_fresh : find_first (is_client_turn session_id input.client_turn_id) st.turns ≡ none
  pub taken : take_turn new_id user session participants share topic input st ≡ ok t
  pub stored :
      st'
      ≡ (progress session.id topic t.sequence input.intent now
          (record st { turns = t ∷ st.turns })).0

insert_turn-eq-ok :
    (t : Turn) (st st' : Store)
    → insert_turn t st ≡ ok st'
    → st' ≡ record st { turns = t ∷ st.turns }
unfolding insert_turn
insert_turn-eq-ok t st st' h = ground arith

append_fresh-eq-ok :
    (new_id user : ℕ) (session : Session) (participants : List Participant) (share : Share)
    (topic : Option RoomTopic) (input : TurnInput) (now : ℕ) (st st' : Store) (t : Turn)
    (ps : Publications)
    → append_fresh new_id user (session, participants, share, topic) input now st ≡ ok (st', t, ps)
    → (take_turn new_id user session participants share topic input st ≡ ok t)
      × (st'
          ≡ (progress session.id topic t.sequence input.intent now
              (record st { turns = t ∷ st.turns })).0)
unfolding append_fresh
append_fresh-eq-ok new_id user session participants share topic input now st st' t ps h =
    let (u, taken, h1) =
      >>=-eq-ok (take_turn new_id user session participants share topic input st) _ h in
    let (st1, inserted, h2) = >>=-eq-ok (insert_turn u st) _ h1 in
    let e = insert_turn-eq-ok u st st1 inserted in ground arith

module _ (new_id user session_id : ℕ) (input : TurnInput) (now : ℕ) (st st' : Store) (t : Turn)
    (ps : Publications) where
  pub append_turn-cases :
      append_turn new_id user session_id input now st ≡ ok (st', t, ps)
      → ((st' ≡ st)
          × (find_first (is_client_turn session_id input.client_turn_id) st.turns ≡ some t))
        ⊎ NewTurn new_id user session_id input now st st' t
  unfolding append_turn
  append_turn-cases h =
      let ((session, participants, share, topic), entered, h1) =
        >>=-eq-ok (enter_room user session_id st) _ h in
      elim (Option-cases (find_first (is_client_turn session_id input.client_turn_id) st.turns)) [
        | inl e ↦
            let h2 : append_fresh new_id user (session, participants, share, topic) input now st
                ≡ ok (st', t, ps) =
              ground arith in
            let (taken, stored) =
              append_fresh-eq-ok new_id user session participants share topic input now st st' t ps
                h2 in
            inr (record {
              session = session;
              participants = participants;
              share = share;
              topic = topic;
              entered = entered;
              is_fresh = e;
              taken = taken;
              stored = stored;
            })
        | inr (u, e) ↦ inl (ground arith, ground arith)
      ]

-- Each test of the room has passed.
pub enter_room-eq-ok :
    (user session_id : ℕ) (st : Store) (session : Session) (participants : List Participant)
    (share : Share) (topic : Option RoomTopic)
    → enter_room user session_id st ≡ ok (session, participants, share, topic)
    → (require_participant_session user session_id st.db ≡ ok session)
      × (is_active_session session.state ≡ true)
      × (participants ≡ load_active_participants session_id st.db)
      × (find_share session_id st ≡ some share)
      × (topic ≡ find_first is_active_topic (load_room_topics session_id st.db))
      × ((length (load_room_topics session_id st.db) == 0 || is_some topic) ≡ true)
unfolding enter_room
enter_room-eq-ok user session_id st session participants share topic h =
    let (s, e, h1) = >>=-eq-ok (require_participant_session user session_id st.db) _ h in
    (ground arith, ground arith, ground arith, ground arith, ground arith, ground arith)

pub take_turn-eq-ok :
    (new_id user : ℕ) (session : Session) (participants : List Participant) (share : Share)
    (topic : Option RoomTopic) (input : TurnInput) (st : Store) (t : Turn)
    → take_turn new_id user session participants share topic input st ≡ ok t
    → (is_id (next_actor session.state participants (latest_turn session.id st.turns)) user ≡ true)
      × (ltb room_max_turns (last_sequence (latest_turn session.id st.turns) + 1) ≡ false)
      × (t
          ≡ new_turn new_id session.id
              (last_sequence (latest_turn session.id st.turns) + 1)
              user
              input
              (topic_ref topic share))
unfolding take_turn
take_turn-eq-ok new_id user session participants share topic input st t h =
    (ground arith, ground arith, ground arith)

pub require_participant_session-id :
    (user id : ℕ) (db : Db) (s : Session)
    → require_participant_session user id db ≡ ok s
    → s.id ≡ id
unfolding require_participant_session
require_participant_session-id user id db s h =
    let e : find_session id db ≡ some s = ground arith in find_session-id id db s e

pub finalize_moment-eq-ok :
    (user session_id : ℕ) (st st' : Store) (m : Moment) (ps : Publications)
    → finalize_moment user session_id st ≡ ok (st', m, ps)
    → ((m, st') ≡ ensure_moment session_id (count_turns session_id st.turns) st)
      × (2 ≤ count_turns session_id st.turns)
unfolding finalize_moment require_participant_session
finalize_moment-eq-ok user session_id st st' m ps h = (ground arith, ground arith)

pub set_share-eq-ok :
    (new_id new_topic_id user session_id : ℕ) (input : ShareInput) (now : ℕ) (st st' : Store)
    (ps : Publications)
    → set_share new_id new_topic_id user session_id input now st ≡ ok (st', ps)
    → (st'.turns ≡ st.turns)
      × (st'.moments ≡ st.moments)
      × (st'.settlements ≡ st.settlements)
      × (st'.relationships ≡ st.relationships)
unfolding set_share
set_share-eq-ok new_id new_topic_id user session_id input now st st' ps h =
    (ground arith, ground arith, ground arith, ground arith)
