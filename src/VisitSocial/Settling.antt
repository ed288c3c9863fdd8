-- ===== src/VisitSocial/Settling.antt =====
-- src/visit-social/visit-social.service.ts: what the end of a visit writes, and what it leaves.
use our_companion_network.Base.{
  ℕ, ◌≡◌, refl, ap, ◌∙◌, none, some, List, [], ◌∷◌, any, min, max, arith, inl, inr, Bool-cases,
  Option-cases, ◌⊎◌, ok, subst, sym,
}
use our_companion_network.Visit.{Participant, Db}
use our_companion_network.VisitSocial.{Share, Turn, Moment, Store}
use our_companion_network.VisitSocial.Relationships.{
  settle_pair, settle_with, settle_pairs, settle_relationships, ready_participants, is_settlement,
}
use our_companion_network.VisitSocial.Moments.{ensure_moment, finalize_moment, count_turns}
use our_companion_network.VisitSocial.Rooms.{find_moment, load_participants}
use our_companion_network.Events.{Publications}
use our_companion_network.VisitSocial.Steps.{finalize_moment-eq-ok}

abbrev pub Unsettled : Type 0
Unsettled = Db × List Share × List Turn × List Moment

-- The tables beside the settlements and the relationships.
abbrev pub unsettled : Store → Unsettled
unsettled st = (st.db, st.shares, st.turns, st.moments)

settle_pair-rest :
    (session : ℕ) (p q : Participant) (st : Store)
    → unsettled (settle_pair session p q st) ≡ unsettled st
unfolding settle_pair
settle_pair-rest session p q st =
    elim (Bool-cases (
      any
        (is_settlement session (min p.companion_id q.companion_id)
          (max p.companion_id q.companion_id))
        st.settlements)) [ inl e ↦ rw e refl | inr e ↦ rw e refl ]

settle_with-rest :
    (session : ℕ) (p : Participant) (ps : List Participant) (st : Store)
    → unsettled (settle_with session p ps st) ≡ unsettled st
settle_with-rest session p [] st = refl
settle_with-rest session p (q ∷ ps) st =
    settle_with-rest session p ps (settle_pair session p q st) ∙ settle_pair-rest session p q st

settle_pairs-rest :
    (session : ℕ) (ps : List Participant) (st : Store)
    → unsettled (settle_pairs session ps st) ≡ unsettled st
settle_pairs-rest session [] st = refl
settle_pairs-rest session (p ∷ ps) st =
    settle_pairs-rest session ps (settle_with session p ps st) ∙ settle_with-rest session p ps st

pub settle_relationships-rest :
    (session : ℕ) (ps : List Participant) (st : Store)
    → unsettled (settle_relationships session ps st) ≡ unsettled st
unfolding settle_relationships
settle_relationships-rest session ps = settle_pairs-rest session (ready_participants ps)

abbrev pub with_moment : ℕ → ℕ → Store → Store
with_moment session turns st = record st {
  moments = record { session_id = session; turn_count = turns } ∷ st.moments;
}

module _ (session turns : ℕ) (st : Store) where
  -- A moment is there after it was asked for, and only the first request writes.
  pub ensure_moment-cases :
      ((find_moment session st ≡ some (ensure_moment session turns st).0)
        × ((ensure_moment session turns st).1 ≡ st))
      ⊎ ((find_moment session st ≡ none)
          × ((ensure_moment session turns st).1
              ≡ settle_relationships session
                  (load_participants session st.db)
                  (with_moment session turns st)))
  unfolding ensure_moment
  ensure_moment-cases = elim (Option-cases (find_moment session st)) [
    | inl e ↦ inr (e, rw (ensure_moment, e) refl)
    | inr (m, e) ↦ inl (rw (ensure_moment, e) refl, rw (ensure_moment, e) refl)
  ]

  pub ensure_moment-db : (ensure_moment session turns st).1.db ≡ st.db
  ensure_moment-db = elim ensure_moment-cases [
    | inl (f, e) ↦ ap (λ x. x.db) e
    | inr (f, e) ↦
        ap (λ x. x.db) e
        ∙ ap (λ x. x.0)
            (settle_relationships-rest session (load_participants session st.db)
              (with_moment session turns st))
  ]

  pub ensure_moment-turns : (ensure_moment session turns st).1.turns ≡ st.turns
  ensure_moment-turns = elim ensure_moment-cases [
    | inl (f, e) ↦ ap (λ x. x.turns) e
    | inr (f, e) ↦
        ap (λ x. x.turns) e
        ∙ ap (λ x. x.2)
            (settle_relationships-rest session (load_participants session st.db)
              (with_moment session turns st))
  ]

  settled-found :
      find_moment session (
        settle_relationships session
          (load_participants session st.db)
          (with_moment session turns st))
      ≡ some (record { session_id = session; turn_count = turns })
  unfolding find_moment
  settled-found =
      rw
        (ap (λ x. x.3)
          (settle_relationships-rest session (load_participants session st.db)
            (with_moment session turns st)))
        (ground arith)

  pub ensure_moment-found :
      find_moment session (ensure_moment session turns st).1
      ≡ some (ensure_moment session turns st).0
  unfolding ensure_moment find_moment
  ensure_moment-found = elim (Option-cases (find_moment session st)) [
    | inl e ↦ rw (ensure_moment, e) settled-found
    | inr (m, e) ↦ rw (ensure_moment, e) e
  ]

kept_moment :
    (session turns : ℕ) (st : Store) (m : Moment)
    → find_moment session st ≡ some m
    → ensure_moment session turns st ≡ (m, st)
unfolding ensure_moment
kept_moment session turns st m e = rw (ensure_moment, e) refl

-- Where two calls of finalizeMoment for one session succeed one after the other, whoever makes
-- them, they have the same moment, and the second one changes no table.
pub finalize_moment_twice :
    (first second session : ℕ) (st st' st'' : Store) (m m' : Moment) (ps ps' : Publications)
    → finalize_moment first session st ≡ ok (st', m, ps)
    → finalize_moment second session st' ≡ ok (st'', m', ps')
    → (m' ≡ m) × (st'' ≡ st')
finalize_moment_twice first second session st st' st'' m m' ps ps' h h' =
    let (e, _) = finalize_moment-eq-ok first session st st' m ps h in
    let (e', _) = finalize_moment-eq-ok second session st' st'' m' ps' h' in
    let found : find_moment session st' ≡ some m =
      subst (λ x. find_moment session x.1 ≡ some x.0) (sym e)
        (ensure_moment-found session (count_turns session st.turns) st) in
    let again = kept_moment session (count_turns session st'.turns) st' m found in
    (ap (λ x. x.0) (e' ∙ again), ap (λ x. x.1) (e' ∙ again))
