-- ===== src/VisitSocial/Histories.antt =====
-- src/visit-social/visit-social.service.ts: what every history of calls keeps.
use our_companion_network.Base.{
  ℕ, ◌≡◌, sym, subst, Option, none, some, List, [], ◌∷◌, ltb, inl, inr, Bool-cases, Result, ok, err,
  Result-cases, ap, ◌==◌, ◌∙◌, false, find_first,
}
use our_companion_network.VisitSocial.Relationships.{is_pair}
use our_companion_network.Events.{Publications}
use our_companion_network.Visit.{RoomTopic, EndReason, social_topics_completed, social_turn_limit}
use our_companion_network.VisitSocial.{Intent, Turn, Moment, Store}
use our_companion_network.VisitSocial.Turns.{
  TurnInput, append_turn, progress, progress_room, progress_legacy_room, finish_topic, move_on,
  close_room, topic_is_over, topic_turn_count, next_topic, complete_topic, end_room,
}
use our_companion_network.VisitSocial.Moments.{ensure_moment, finalize_moment, count_turns}
use our_companion_network.VisitSocial.Shares.{set_share}
use our_companion_network.VisitSocial.Steps.{
  append_turn-cases, finalize_moment-eq-ok, set_share-eq-ok,
}
use our_companion_network.VisitSocial.Ledger.{IsLedger, settle_relationships-IsLedger}
use our_companion_network.VisitSocial.Settling.{
  ensure_moment-cases, with_moment, ensure_moment-turns,
}
use our_companion_network.VisitSocial.Rooms.{legacy_max_turns, load_participants}
use our_companion_network.VisitSocial.Text.{ShareInput}
use our_companion_network.VisitSocial.Numbering.{IsRegular, append_turn-IsRegular}
use our_companion_network.VisitSocial.Ledger.Entries.{earned-entry, entry, pair_visits, pair_turns}

ensure_moment-IsLedger :
    (session turns : ℕ) (st : Store) → IsLedger st → IsLedger (ensure_moment session turns st).1
ensure_moment-IsLedger session turns st i = elim (ensure_moment-cases session turns st) [
  | inl (_, e) ↦ subst IsLedger (sym e) i
  | inr (_, e) ↦ subst IsLedger (sym e) (
      settle_relationships-IsLedger session (load_participants session st.db)
        (with_moment session turns st) i)
]

close_room-IsLedger :
    (session : ℕ) (reason : EndReason) (total now : ℕ) (st : Store)
    → IsLedger st
    → IsLedger (close_room session reason total now st)
unfolding close_room
close_room-IsLedger session reason total now st i =
    ensure_moment-IsLedger session total (record st { db = end_room session reason now st.db }) i

move_on-IsLedger :
    (session : ℕ) (topic : Option RoomTopic) (total now : ℕ) (st : Store)
    → IsLedger st
    → IsLedger (move_on session topic total now st).0
unfolding move_on
move_on-IsLedger session none total now st i =
    close_room-IsLedger session social_topics_completed total now st i
move_on-IsLedger session (some topic) total now st i = i

progress-IsLedger :
    (session : ℕ) (topic : Option RoomTopic) (total : ℕ) (intent : Intent) (now : ℕ) (st : Store)
    → IsLedger st
    → IsLedger (progress session topic total intent now st).0
unfolding progress_room progress_legacy_room finish_topic
progress-IsLedger session none total intent now st i =
    elim (Bool-cases (ltb total legacy_max_turns)) [
      | inl e ↦ rw e i
      | inr e ↦ rw e (close_room-IsLedger session social_turn_limit total now st i)
    ]
progress-IsLedger session (some topic) total intent now st i =
    elim (Bool-cases (topic_is_over topic (topic_turn_count topic st.turns) total intent)) [
      | inl e ↦ rw e (
          move_on-IsLedger session (next_topic session topic total (complete_topic topic now st.db))
            total now (record st { db = complete_topic topic now st.db }) i)
      | inr e ↦ rw e i
    ]

append_turn-IsLedger :
    (new_id user session_id : ℕ) (input : TurnInput) (now : ℕ) (st st' : Store) (t : Turn)
    (ps : Publications)
    → IsLedger st
    → append_turn new_id user session_id input now st ≡ ok (st', t, ps)
    → IsLedger st'
append_turn-IsLedger new_id user session_id input now st st' t ps i h =
    elim (append_turn-cases new_id user session_id input now st st' t ps h) [
      | inl (e, _) ↦ subst IsLedger (sym e) i
      | inr n ↦ subst IsLedger (sym n.stored) (
          progress-IsLedger n.session.id n.topic t.sequence input.intent now
            (record st { turns = t ∷ st.turns }) i)
    ]

-- The identifiers are those that the database would give new rows.
pub data SocialCall : Type 0 where
  appends : (new_id user session : ℕ) → TurnInput → SocialCall
  shares : (new_id new_topic_id user session : ℕ) → ShareInput → SocialCall
  finalizes : (user session : ℕ) → SocialCall

abbrev after_turn : Store → Result (Store × Turn × Publications) → Store
after_turn st (ok (st', _, _)) = st'
after_turn st (err _) = st

abbrev after_share : Store → Result (Store × Publications) → Store
after_share st (ok (st', _)) = st'
after_share st (err _) = st

abbrev after_moment : Store → Result (Store × Moment × Publications) → Store
after_moment st (ok (st', _, _)) = st'
after_moment st (err _) = st

-- A call that fails leaves the tables as they were.
unfoldable pub step : ℕ × SocialCall → Store → Store
step (now, appends new_id user session input) st =
    after_turn st (append_turn new_id user session input now st)
step (now, shares new_id new_topic_id user session input) st =
    after_share st (set_share new_id new_topic_id user session input now st)
step (now, finalizes user session) st = after_moment st (finalize_moment user session st)

unfoldable pub run : List (ℕ × SocialCall) → Store → Store
run [] st = st
run (c ∷ cs) st = run cs (step c st)

-- What is kept by each kind of call is kept by each call.
step_keep :
    (P : Store → Type 0)
    → ((new_id user session : ℕ) (input : TurnInput) (now : ℕ) (st st' : Store) (t : Turn)
          (ps : Publications)
        → P st
        → append_turn new_id user session input now st ≡ ok (st', t, ps)
        → P st')
    → ((new_id new_topic_id user session : ℕ) (input : ShareInput) (now : ℕ) (st st' : Store)
          (ps : Publications)
        → P st
        → set_share new_id new_topic_id user session input now st ≡ ok (st', ps)
        → P st')
    → ((user session : ℕ) (st st' : Store) (m : Moment) (ps : Publications)
        → P st
        → finalize_moment user session st ≡ ok (st', m, ps)
        → P st')
    → (c : ℕ × SocialCall) (st : Store) → P st
    → P (step c st)
unfolding step
step_keep P turn share moment (now, appends n u s input) st i =
    elim (Result-cases (append_turn n u s input now st)) [
      | inl ((st', t, ps), e) ↦ rw e (turn n u s input now st st' t ps i e)
      | inr (_, e) ↦ rw e i
    ]
step_keep P turn share moment (now, shares n nt u s input) st i =
    elim (Result-cases (set_share n nt u s input now st)) [
      | inl ((st', ps), e) ↦ rw e (share n nt u s input now st st' ps i e)
      | inr (_, e) ↦ rw e i
    ]
step_keep P turn share moment (now, finalizes u s) st i =
    elim (Result-cases (finalize_moment u s st)) [
      | inl ((st', m, ps), e) ↦ rw e (moment u s st st' m ps i e)
      | inr (_, e) ↦ rw e i
    ]

set_share-IsLedger :
    (new_id new_topic_id user session : ℕ) (input : ShareInput) (now : ℕ) (st st' : Store)
    (ps : Publications)
    → IsLedger st
    → set_share new_id new_topic_id user session input now st ≡ ok (st', ps)
    → IsLedger st'
set_share-IsLedger n nt u s input now st st' ps i h low high d =
    let (_, _, e, f) = set_share-eq-ok n nt u s input now st st' ps h in rw (e, f) (i low high d)

finalize_moment-IsLedger :
    (user session : ℕ) (st st' : Store) (m : Moment) (ps : Publications)
    → IsLedger st
    → finalize_moment user session st ≡ ok (st', m, ps)
    → IsLedger st'
finalize_moment-IsLedger u s st st' m ps i h =
    let (e, _) = finalize_moment-eq-ok u s st st' m ps h in
    subst IsLedger (sym (ap (λ x. x.1) e)) (ensure_moment-IsLedger s (count_turns s st.turns) st i)

set_share-IsRegular :
    (new_id new_topic_id user session : ℕ) (input : ShareInput) (now : ℕ) (st st' : Store)
    (ps : Publications)
    → IsRegular st
    → set_share new_id new_topic_id user session input now st ≡ ok (st', ps)
    → IsRegular st'
set_share-IsRegular n nt u s input now st st' ps i h session =
    let (e, _, _, _) = set_share-eq-ok n nt u s input now st st' ps h in rw e (i session)

finalize_moment-IsRegular :
    (user session : ℕ) (st st' : Store) (m : Moment) (ps : Publications)
    → IsRegular st
    → finalize_moment user session st ≡ ok (st', m, ps)
    → IsRegular st'
finalize_moment-IsRegular u s st st' m ps i h session =
    let (e, _) = finalize_moment-eq-ok u s st st' m ps h in
    rw (ap (λ x. x.1.turns) e, ensure_moment-turns s (count_turns s st.turns) st) (i session)

-- Histories of calls leave the turns of every session numbered 1, 2, 3 and so on without a gap, and
-- at most 15 of them, if the tables they start from are so.
pub run-IsRegular : (cs : List (ℕ × SocialCall)) (st : Store) → IsRegular st → IsRegular (run cs st)
unfolding run
run-IsRegular [] st i = i
run-IsRegular (c ∷ cs) st i =
    run-IsRegular cs (step c st) (
      step_keep IsRegular append_turn-IsRegular set_share-IsRegular finalize_moment-IsRegular c st
        i)

run-IsLedger : (cs : List (ℕ × SocialCall)) (st : Store) → IsLedger st → IsLedger (run cs st)
unfolding run
run-IsLedger [] st i = i
run-IsLedger (c ∷ cs) st i =
    run-IsLedger cs (step c st)
      (step_keep IsLedger append_turn-IsLedger set_share-IsLedger finalize_moment-IsLedger c st i)

-- The relationship of each two Companions, from the number of their settlements and of the turns
-- in them.
abbrev pub IsEarned : Store → Type 0
IsEarned st =
    (low high : ℕ)
    → (low == high) ≡ false
    → find_first (is_pair low high) st.relationships
      ≡ entry low high (pair_visits low high st.settlements) (pair_turns low high st.settlements)

-- If the relationships of each two Companions are those that the number of their settlements and of
-- the turns in them give, then so they are after every history of calls: a stage is reached at the
-- visits 2, 4, 8 and 12, and the scores grow by 8 and 5 hundredths a visit, up to 100.
pub run-IsEarned : (cs : List (ℕ × SocialCall)) (st : Store) → IsEarned st → IsEarned (run cs st)
run-IsEarned cs st i low high d =
    run-IsLedger cs st (λ l h e. i l h e ∙ sym (earned-entry l h st.settlements)) low high d
    ∙ earned-entry low high (run cs st).settlements
