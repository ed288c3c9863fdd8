-- ===== src/VisitSocial/Limits.antt =====
-- src/visit-social/visit-social.service.ts: a room ends with its last turn.
use our_companion_network.Base.{
  ℕ, ◌≡◌, refl, true, false, not, ◌&&◌, Option, none, some, List, [], ◌∷◌, ◌==◌, ltb, leb, is_id,
  is_some, any, length, arith, inl, inr, update_where, any-delete_where_self, subst, sym,
  find_first, ◌||◌, ok, if◌then◌else◌,
}
use our_companion_network.Events.{Publications}
use our_companion_network.Visit.{
  Participant, EndReason, Db, RoomTopic, Session, social_turn_limit, social_topics_completed,
}
use our_companion_network.Visit.Rows.{is_present, leave_all}
use our_companion_network.VisitSocial.{Turn, Store, Intent}
use our_companion_network.VisitSocial.Rooms.{
  find_moment, load_room_topics, room_max_turns, legacy_max_turns, is_active_topic,
}
use our_companion_network.VisitSocial.Moments.{is_ended}
use our_companion_network.VisitSocial.Turns.{
  TurnInput, append_turn, end_room, close_room, ended_room, progress_room, progress_legacy_room,
  is_client_turn, finish_topic, move_on, topic_is_over, next_topic, progress, complete_topic,
}
use our_companion_network.VisitSocial.Settling.{ensure_moment-db, ensure_moment-found}
use our_companion_network.VisitSocial.Steps.{
  append_turn-cases, enter_room-eq-ok, require_participant_session-id,
}

-- The session has ended, nobody is in it and nobody is reserved for it.
abbrev pub IsOver : ℕ → Db → Type 0
IsOver session db =
    (any (λ s. s.id == session && not (is_ended s.state)) db.sessions ≡ false)
    × (any (λ p. p.session_id == session && is_present p.state) db.participants ≡ false)
    × (any (λ r. is_id r.session_id session) db.reservations ≡ false)

over_sessions :
    (session : ℕ) (reason : EndReason) (now : ℕ) (ss : List Session)
    → any
        (λ s. s.id == session && not (is_ended s.state))
        (update_where (λ s. s.id == session) (ended_room reason now) ss)
      ≡ false
over_sessions session reason now [] = refl
over_sessions session reason now (s ∷ ss) = ground (arith, over_sessions session reason now ss)

over_participants :
    (session now : ℕ) (ps : List Participant)
    → any (λ p. p.session_id == session && is_present p.state) (leave_all session now ps) ≡ false
unfolding leave_all
over_participants session now [] = refl
over_participants session now (p ∷ ps) = ground (arith, over_participants session now ps)

end_room-IsOver :
    (session : ℕ) (reason : EndReason) (now : ℕ) (db : Db)
    → IsOver session (end_room session reason now db)
unfolding end_room
end_room-IsOver session reason now db = (
  over_sessions session reason now db.sessions,
  over_participants session now db.participants,
  any-delete_where_self (λ r. is_id r.session_id session) db.reservations,
)

-- The room is over, and it has left its moment.
abbrev pub IsClosed : ℕ → Store → Type 0
IsClosed session st = IsOver session st.db × (is_some (find_moment session st) ≡ true)

close_room-IsClosed :
    (session : ℕ) (reason : EndReason) (total now : ℕ) (st : Store)
    → IsClosed session (close_room session reason total now st)
unfolding close_room
close_room-IsClosed session reason total now st =
    let ended = record st { db = end_room session reason now st.db } in
    (
      subst (IsOver session) (sym (ensure_moment-db session total ended))
          (end_room-IsOver session reason now st.db),
      rw (ensure_moment-found session total ended) refl,
    )

progress-IsClosed :
    (session : ℕ) (topic : Option RoomTopic) (total : ℕ) (intent : Intent) (now : ℕ) (st : Store)
    → leb (if is_some topic then room_max_turns else legacy_max_turns) total ≡ true
    → IsClosed session (progress session topic total intent now st).0
unfolding progress_room progress_legacy_room finish_topic move_on topic_is_over next_topic
progress-IsClosed session none total intent now st l =
    let e : ltb total legacy_max_turns ≡ false = ground arith in
    rw e (close_room-IsClosed session social_turn_limit total now st)
progress-IsClosed session (some topic) total intent now st l = rw (l) (
    close_room-IsClosed session social_topics_completed total now
      (record st { db = complete_topic topic now st.db }))

-- The number of turns after which a room is over for sure.
abbrev pub room_limit : List RoomTopic → ℕ
room_limit [] = legacy_max_turns
room_limit (t ∷ ts) = room_max_turns

limit_of_topics :
    (topics : List RoomTopic) (topic : Option RoomTopic)
    → topic ≡ find_first is_active_topic topics
    → (length topics == 0 || is_some topic) ≡ true
    → (if is_some topic then room_max_turns else legacy_max_turns) ≡ room_limit topics
limit_of_topics [] topic e h = rw e refl
limit_of_topics (t ∷ ts) topic e h = ground arith

-- A turn that is new and has the number 15, or the number 12 in a room without topics, ends the
-- session: nobody is in the room or reserved for it any more, and its shared moment is there.
pub last_turn-IsClosed :
    (new_id user session_id : ℕ) (input : TurnInput) (now : ℕ) (st st' : Store) (t : Turn)
    (ps : Publications)
    → find_first (is_client_turn session_id input.client_turn_id) st.turns ≡ none
    → append_turn new_id user session_id input now st ≡ ok (st', t, ps)
    → leb (room_limit (load_room_topics session_id st.db)) t.sequence ≡ true
    → IsClosed session_id st'
last_turn-IsClosed new_id user session_id input now st st' t ps fresh h l =
    elim (append_turn-cases new_id user session_id input now st st' t ps h) [
      | inl (_, e) ↦ cc
      | inr n ↦
          let (found, _, _, _, eqt, some_topic) =
            enter_room-eq-ok user session_id st n.session n.participants n.share n.topic
              n.entered in
          let sid : n.session.id ≡ session_id =
            require_participant_session-id user session_id st.db n.session found in
          let lim = limit_of_topics (load_room_topics session_id st.db) n.topic eqt some_topic in
          let closed =
            progress-IsClosed n.session.id n.topic t.sequence input.intent now
              (record st { turns = t ∷ st.turns })
              (subst (λ x. leb x t.sequence ≡ true) (sym lim) l) in
          rw n.stored (
            subst
              (λ k.
                IsClosed k
                  (progress n.session.id n.topic t.sequence input.intent now
                    (record st { turns = t ∷ st.turns })).0)
              sid closed)
    ]
