-- ===== src/VisitSocial/Numbering.antt =====
-- src/visit-social/visit-social.service.ts: the numbers of the turns.
pub mod Insertion
use our_companion_network.Base.{
  ℕ, suc, ◌+◌, ◌≤◌, ◌≡◌, refl, Option, none, some, List, [], ◌∷◌, ◌==◌, ltb, length, where_, arith,
  inl, inr, Bool-cases, Option-cases, ap, ◌∙◌, subst, if◌then◌else◌, ok, sym,
}
use our_companion_network.Visit.{RoomTopic, EndReason, social_topics_completed, social_turn_limit}
use our_companion_network.VisitSocial.{Intent, Turn, Store}
use our_companion_network.VisitSocial.Rooms.{last_sequence, legacy_max_turns, room_max_turns}
use our_companion_network.VisitSocial.Turns.{
  latest_turn, progress, progress_room, progress_legacy_room, finish_topic, move_on, close_room,
  topic_is_over, topic_turn_count, next_topic, complete_topic, end_room, TurnInput, append_turn,
}
use our_companion_network.VisitSocial.Settling.{ensure_moment-turns}
use our_companion_network.Events.{Publications}
use our_companion_network.VisitSocial.Steps.{NewTurn, take_turn-eq-ok, append_turn-cases}

abbrev pub turns_of : ℕ → List Turn → List Turn
turns_of session = where_ (λ t. t.session_id == session)

-- The turns are numbered 1, 2, ... without a gap; the last one comes first.
abbrev pub IsNumbered : List Turn → Type 0
IsNumbered [] = Unit {0}
IsNumbered (t ∷ ts) = (t.sequence ≡ suc (length ts)) × IsNumbered ts

pub last_sequence-length :
    (session : ℕ) (ts : List Turn)
    → IsNumbered (turns_of session ts)
    → last_sequence (latest_turn session ts) ≡ length (turns_of session ts)
last_sequence-length session [] n = refl
last_sequence-length session (t ∷ ts) n = elim (Bool-cases (t.session_id == session)) [
  | inl e ↦
      let (h, n') : IsNumbered (t ∷ turns_of session ts) =
        subst (λ b. IsNumbered (if b then t ∷ turns_of session ts else turns_of session ts)) e n in
      elim (Option-cases (latest_turn session ts)) [
        | inl f ↦ ground (arith, last_sequence-length session ts n')
        | inr (u, f) ↦ ground (arith, last_sequence-length session ts n')
      ]
  | inr e ↦ ground (arith, last_sequence-length session ts)
]

close_room-turns :
    (session : ℕ) (reason : EndReason) (total now : ℕ) (st : Store)
    → (close_room session reason total now st).turns ≡ st.turns
unfolding close_room
close_room-turns session reason total now st =
    ensure_moment-turns session total (record st { db = end_room session reason now st.db })

move_on-turns :
    (session : ℕ) (topic : Option RoomTopic) (total now : ℕ) (st : Store)
    → (move_on session topic total now st).0.turns ≡ st.turns
unfolding move_on
move_on-turns session none total now st =
    close_room-turns session social_topics_completed total now st
move_on-turns session (some topic) total now st = refl

pub progress-turns :
    (session : ℕ) (topic : Option RoomTopic) (total : ℕ) (intent : Intent) (now : ℕ) (st : Store)
    → (progress session topic total intent now st).0.turns ≡ st.turns
unfolding progress_room progress_legacy_room finish_topic
progress-turns session none total intent now st = elim (Bool-cases (ltb total legacy_max_turns)) [
  | inl e ↦ rw e refl
  | inr e ↦ rw e (close_room-turns session social_turn_limit total now st)
]
progress-turns session (some topic) total intent now st =
    elim (Bool-cases (topic_is_over topic (topic_turn_count topic st.turns) total intent)) [
      | inl e ↦ rw e (
          move_on-turns session (next_topic session topic total (complete_topic topic now st.db))
            total now (record st { db = complete_topic topic now st.db }))
      | inr e ↦ rw e refl
    ]

-- In every session the turns are numbered without a gap, and there are at most 15.
abbrev pub IsRegular : Store → Type 0
IsRegular st =
    (session : ℕ)
    → IsNumbered (turns_of session st.turns) × (length (turns_of session st.turns) ≤ room_max_turns)

regular_cons :
    (t : Turn) (ts : List Turn) (session : ℕ)
    → IsNumbered (turns_of session ts) × (length (turns_of session ts) ≤ room_max_turns)
    → (t.session_id ≡ session → t.sequence ≡ suc (length (turns_of session ts)))
    → t.sequence ≤ room_max_turns
    → IsNumbered (turns_of session (t ∷ ts)) × (length (turns_of session (t ∷ ts)) ≤ room_max_turns)
regular_cons t ts session (n, l) s b = elim (Bool-cases (t.session_id == session)) [
  | inl e ↦
      let same : t.session_id ≡ session = ground arith in
      let q = s same in rw e ((q, n), omega arith)
  | inr e ↦ rw e (n, l)
]

pub append_turn-IsRegular :
    (new_id user session_id : ℕ) (input : TurnInput) (now : ℕ) (st st' : Store) (t : Turn)
    (ps : Publications)
    → IsRegular st
    → append_turn new_id user session_id input now st ≡ ok (st', t, ps)
    → IsRegular st'
append_turn-IsRegular new_id user session_id input now st st' t ps i h =
    elim (append_turn-cases new_id user session_id input now st st' t ps h) [
      | inl (e, _) ↦ subst IsRegular (sym e) i
      | inr n ↦ new_turn-IsRegular n
    ]
  where
    new_turn-IsRegular : NewTurn new_id user session_id input now st st' t → IsRegular st'
    new_turn-IsRegular n session =
        let (_, b, e) =
          take_turn-eq-ok new_id user n.session n.participants n.share n.topic input st t n.taken in
        let grown : st'.turns ≡ t ∷ st.turns =
          ap (λ x. x.turns) n.stored
          ∙ progress-turns n.session.id n.topic t.sequence input.intent now
              (record st { turns = t ∷ st.turns }) in
        let l = last_sequence-length n.session.id st.turns (i n.session.id).0 in
        let sid : t.session_id ≡ n.session.id = ap (λ x. x.session_id) e in
        let q : t.sequence ≡ last_sequence (latest_turn n.session.id st.turns) + 1 =
          ap (λ x. x.sequence) e in
        rw grown (
          regular_cons t st.turns session (i session)
            (λ k.
              subst (λ x. t.sequence ≡ suc (length (turns_of x st.turns))) (sym sid ∙ k)
                (omega (arith, q, l)))
            (ground arith))
