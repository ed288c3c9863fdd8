-- ===== src/VisitSocial/Moments.antt =====
-- src/visit-social/visit-social.service.ts: the shared moment, which a visit leaves once.
use our_companion_network.Base.{
  ℕ, not, none, some, List, ◌∷◌, ◌==◌, ltb, count_where, Code, conflict, Result, ok, ◌>>=◌, ◌>>◌,
  or_fail, guard, Bool, true, false,
}
use our_companion_network.Events.{Publications, visit_shared_moment_created}
use our_companion_network.Visit.{SessionState}
use our_companion_network.VisitSocial.{Turn, Moment, Store}
use our_companion_network.VisitSocial.Rooms.{
  require_participant_session, load_participants, find_share, find_moment, publish_turns,
}
use our_companion_network.VisitSocial.Relationships.{settle_relationships}

unfoldable pub count_turns : ℕ → List Turn → ℕ
count_turns session = count_where (λ t. t.session_id == session)

-- `INSERT ... ON CONFLICT DO NOTHING`: what a moment settles is settled when it is inserted.
unfoldable pub ensure_moment : ℕ → ℕ → Store → Moment × Store
ensure_moment session turns st = elim (find_moment session st) [
  | some m ↦ (m, st)
  | none ↦
      let m : Moment = record { session_id = session; turn_count = turns } in
      (
        m,
        settle_relationships session (load_participants session st.db)
            (record st { moments = m ∷ st.moments }),
      )
]

abbrev pub is_ended : SessionState → Bool
is_ended SessionState.ended = true
is_ended _ = false

unfoldable pub finalize_moment : ℕ → ℕ → Store → Result (Store × Moment × Publications)
finalize_moment user session_id st = do
  session ← require_participant_session user session_id st.db
  guard (is_ended session.state) (conflict Code.visit_session_not_completed)
  _ ← or_fail (find_share session_id st) (conflict Code.visit_share_required)
  guard (not (ltb (count_turns session_id st.turns) 2))
      (conflict Code.visit_shared_moment_too_short)
  let (moment, st') = ensure_moment session_id (count_turns session_id st.turns) st
  ok (st', moment, publish_turns session_id (visit_shared_moment_created session_id) st'.db)
