-- ===== src/VisitSocial/Topics.antt =====
-- src/visit-social/visit-social.service.ts: a room talks about one topic at a time.
use our_companion_network.Base.{
  ℕ, ◌+◌, ◌≤◌, ◌≡◌, refl, sym, ap, subst, ◌∙◌, Bool, true, ◌&&◌, Option, none, some, List, [], ◌∷◌,
  ◌==◌, ltb, any, find_first, where_, count_where, update_where, sort, insert, arith, inl, inr,
  Bool-cases, ok, find_first_sound, any_of_find_first,
}
use our_companion_network.Events.{Publications}
use our_companion_network.Visit.{
  RoomTopic, TopicState, Db, EndReason, social_topics_completed, social_turn_limit,
}
use our_companion_network.VisitSocial.{Intent, Turn, Store}
use our_companion_network.VisitSocial.Rooms.{is_active_topic, load_room_topics, legacy_max_turns}
use our_companion_network.VisitSocial.Turns.{
  TurnInput, append_turn, progress, complete_topic, activate_topic, next_topic, move_on,
  finish_topic, progress_room, progress_legacy_room, close_room, end_room, topic_is_over,
  topic_turn_count,
}
use our_companion_network.VisitSocial.Settling.{ensure_moment-db}
use our_companion_network.VisitSocial.Steps.{
  append_turn-cases, enter_room-eq-ok, require_participant_session-id,
}

abbrev pub is_told : ℕ → RoomTopic → Bool
is_told session t = t.session_id == session && is_active_topic t

any-insert :
    (b : RoomTopic → RoomTopic → Bool) (q : RoomTopic → Bool) (x : RoomTopic) (xs : List RoomTopic)
    → any q (insert b x xs) ≡ any q (x ∷ xs)
any-insert b q x [] = refl
any-insert b q x (y ∷ ys) = ground (arith, any-insert b q x ys)

any-sort :
    (b : RoomTopic → RoomTopic → Bool) (q : RoomTopic → Bool) (xs : List RoomTopic)
    → any q (sort b xs) ≡ any q xs
any-sort b q [] = refl
any-sort b q (x ∷ xs) = ground (arith, any-insert b q x (sort b xs), any-sort b q xs)

any-where_ :
    (p q : RoomTopic → Bool) (xs : List RoomTopic) → any q (where_ p xs) ≡ any (λ t. p t && q t) xs
any-where_ p q [] = refl
any-where_ p q (x ∷ xs) = ground (arith, any-where_ p q xs)

-- A completed topic is not told any more, and no other was.
count_complete :
    (session k now : ℕ) (ts : List RoomTopic)
    → count_where (is_told session) (
        update_where
          (λ t. t.id == k)
          (λ t. record t { state = TopicState.completed; completed_at = some now })
          ts)
      ≤ count_where (is_told session) ts
count_complete session k now [] = omega arith
count_complete session k now (t ∷ ts) = ground (arith, count_complete session k now ts)

any-told :
    (session k : ℕ) (ts : List RoomTopic)
    → any (λ t. t.session_id == session && (t.id == k && is_active_topic t)) ts ≡ true
    → 1 ≤ count_where (is_told session) ts
any-told session k [] a = ground arith
any-told session k (t ∷ ts) a = ground (arith, any-told session k ts)

count_completed :
    (session k now : ℕ) (ts : List RoomTopic)
    → any (λ t. t.session_id == session && (t.id == k && is_active_topic t)) ts ≡ true
    → count_where (is_told session) ts ≤ 1
    → count_where (is_told session) (
        update_where
          (λ t. t.id == k)
          (λ t. record t { state = TopicState.completed; completed_at = some now })
          ts)
      ≡ 0
count_completed session k now [] a c = ground arith
count_completed session k now (t ∷ ts) a c = ground (
  arith,
  any-told session k ts,
  count_complete session k now ts,
  count_completed session k now ts,
)

count_activated :
    (session k now : ℕ) (ts : List RoomTopic)
    → count_where (is_told session) (
        update_where
          (λ t. t.id == k)
          (λ t. record t { state = TopicState.active; started_at = some now })
          ts)
      ≤ count_where (is_told session) ts + count_where (λ t. t.id == k) ts
count_activated session k now [] = omega arith
count_activated session k now (t ∷ ts) = ground (arith, count_activated session k now ts)

count_ids :
    (k j now : ℕ) (ts : List RoomTopic)
    → count_where
        (λ t. t.id == k)
        (update_where
          (λ t. t.id == j)
          (λ t. record t { state = TopicState.completed; completed_at = some now })
          ts)
      ≡ count_where (λ t. t.id == k) ts
count_ids k j now [] = refl
count_ids k j now (t ∷ ts) = ground (arith, count_ids k j now ts)

-- Identifiers are distinct, and the session has at most one active topic.
abbrev pub HasOneTopic : ℕ → Db → Type 0
HasOneTopic session db =
    ((k : ℕ) → count_where (λ t. t.id == k) db.room_topics ≤ 1)
    × (count_where (is_told session) db.room_topics ≤ 1)

active_found :
    (session : ℕ) (db : Db) (topic : RoomTopic)
    → find_first is_active_topic (load_room_topics session db) ≡ some topic
    → any (λ t. t.session_id == session && (t.id == topic.id && is_active_topic t)) db.room_topics
      ≡ true
unfolding load_room_topics
active_found session db topic e =
    let mine : RoomTopic → Bool = λ t. t.session_id == session in
    let same : RoomTopic → Bool = λ t. t.id == topic.id && is_active_topic t in
    let active = find_first_sound is_active_topic (load_room_topics session db) topic e in
    let here =
      any_of_find_first is_active_topic same (load_room_topics session db) topic e (ground arith) in
    sym (any-where_ mine same db.room_topics)
    ∙ sym (any-sort (λ t u. ltb t.sequence u.sequence) same (where_ mine db.room_topics))
    ∙ here

module _ (session : ℕ) (now : ℕ) where
  complete_topic-none :
      (topic : RoomTopic) (db : Db)
      → HasOneTopic session db
      → find_first is_active_topic (load_room_topics session db) ≡ some topic
      → ((k : ℕ) → count_where (λ t. t.id == k) (complete_topic topic now db).room_topics ≤ 1)
        × (count_where (is_told session) (complete_topic topic now db).room_topics ≡ 0)
  unfolding complete_topic
  complete_topic-none topic db (ids, one) e = (
    λ k. rw (count_ids k topic.id now db.room_topics) (ids k),
    count_completed session topic.id now db.room_topics (active_found session db topic e) one,
  )

  activate_topic-one :
      (topic : RoomTopic) (db : Db)
      → ((k : ℕ) → count_where (λ t. t.id == k) db.room_topics ≤ 1)
      → count_where (is_told session) db.room_topics ≡ 0
      → count_where (is_told session) (activate_topic session topic now db).room_topics ≤ 1
  unfolding activate_topic
  activate_topic-one topic db ids none_told =
      let a = count_activated session topic.id now db.room_topics in
      let b = ids topic.id in omega arith

  close_room-topics :
      (reason : EndReason) (total : ℕ) (st : Store)
      → (close_room session reason total now st).db.room_topics ≡ st.db.room_topics
  unfolding close_room end_room
  close_room-topics reason total st =
      ap (λ x. x.room_topics)
        (ensure_moment-db session total (record st { db = end_room session reason now st.db }))

  move_on-one :
      (next : Option RoomTopic) (total : ℕ) (st : Store)
      → ((k : ℕ) → count_where (λ t. t.id == k) st.db.room_topics ≤ 1)
      → count_where (is_told session) st.db.room_topics ≡ 0
      → count_where (is_told session) (move_on session next total now st).0.db.room_topics ≤ 1
  unfolding move_on
  move_on-one (some topic) total st ids z = activate_topic-one topic st.db ids z
  move_on-one none total st ids z =
      rw (close_room-topics social_topics_completed total st, z) (omega arith)

  progress-one :
      (topic : Option RoomTopic) (total : ℕ) (intent : Intent) (st : Store)
      → HasOneTopic session st.db
      → topic ≡ find_first is_active_topic (load_room_topics session st.db)
      → count_where (is_told session) (progress session topic total intent now st).0.db.room_topics
        ≤ 1
  unfolding progress_room progress_legacy_room finish_topic
  progress-one none total intent st (ids, one) e = elim (Bool-cases (ltb total legacy_max_turns)) [
    | inl f ↦ rw f one
    | inr f ↦ rw (f, close_room-topics social_turn_limit total st) one
  ]
  progress-one (some topic) total intent st (ids, one) e =
      elim (Bool-cases (topic_is_over topic (topic_turn_count topic st.turns) total intent)) [
        | inr f ↦ rw f one
        | inl f ↦
            let done = complete_topic topic now st.db in
            let (ids', z) = complete_topic-none topic st.db (ids, one) (sym e) in
            rw f (
              move_on-one (next_topic session topic total done) total (record st { db = done }) ids'
                z)
      ]

-- Where the topics have distinct identifiers and the session has at most one active topic, it has at
-- most one after each call of appendTurn that succeeds.
pub append_turn_one_topic :
    (new_id user session_id : ℕ) (input : TurnInput) (now : ℕ) (st st' : Store) (t : Turn)
    (ps : Publications)
    → HasOneTopic session_id st.db
    → append_turn new_id user session_id input now st ≡ ok (st', t, ps)
    → count_where (is_told session_id) st'.db.room_topics ≤ 1
append_turn_one_topic new_id user session_id input now st st' t ps (ids, one) h =
    elim (append_turn-cases new_id user session_id input now st st' t ps h) [
      | inl (e, _) ↦ subst (λ x. count_where (is_told session_id) x.db.room_topics ≤ 1) (sym e) one
      | inr n ↦
          let (found, _, _, _, eqt, _) =
            enter_room-eq-ok user session_id st n.session n.participants n.share n.topic
              n.entered in
          let sid : n.session.id ≡ session_id =
            require_participant_session-id user session_id st.db n.session found in
          let stored = record st { turns = t ∷ st.turns } in
          rw (n.stored, sid)
            (progress-one session_id now n.topic t.sequence input.intent stored (ids, one) eqt)
    ]
