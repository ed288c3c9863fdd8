-- ===== src/Visit/Sessions/Timeline.antt =====
-- The time stamps of a session go with its state.
use our_companion_network.Base.{
  ℕ, ◌≡◌, refl, Bool, true, false, ◌&&◌, none, some, Option, all, arith, ◌==◌, is_some, value_or,
  ok, inl, inr, Result-cases, all-update_where, all_of_find_first,
}
use our_companion_network.Events.{Publications}
use our_companion_network.Visit.{SessionState, Session, EndReason, Db}
use our_companion_network.Visit.Rows.{
  find_session, write_session, SessionRole, role_for, release_session_reservations,
}
use our_companion_network.Visit.Sessions.{
  ready_session, mark_ready, started_session, start_session, ended_session, end_session,
  end_session_in_transaction, heartbeat, seen_columns, default_reason,
}
use our_companion_network.Visit.Sessions.Outcomes.{
  mark_ready-eq-ok, start_session-eq-ok, end_session_in_transaction-eq-ok, heartbeat-eq-ok,
}

-- Both sides have said that they are ready, and when.
abbrev pub both_ready : Session → Bool
both_ready s = is_some s.visitor_owner_ready_at && is_some s.host_ready_at && is_some s.ready_at

abbrev pub is_none {ℓ} : {A : Type ℓ} → Option A → Bool
is_none none = true
is_none (some _) = false

-- A ready session has the three times of readiness, an active one its start too, and a session
-- that is over has an end, a reason and no live reference to its pack.
abbrev pub is_timed : Session → Bool
is_timed s = elim s.state [
  | SessionState.preparing ↦ is_none s.started_at && is_none s.ended_at
  | SessionState.ready ↦ both_ready s && is_none s.started_at && is_none s.ended_at
  | SessionState.active ↦ both_ready s && is_some s.started_at && is_none s.ended_at
  | SessionState.ended ↦ is_some s.ended_at && is_some s.end_reason && is_none s.pack_ref_id
  | SessionState.cancelled ↦ is_some s.ended_at && is_some s.end_reason && is_none s.pack_ref_id
  | _ ↦ true
]

unfoldable pub AllTimed : Db → Type 0
AllTimed db = all is_timed db.sessions ≡ true

write_session-AllTimed :
    (s : Session) (db db' : Db)
    → db'.sessions ≡ write_session s db.sessions
    → is_timed s ≡ true
    → AllTimed db
    → AllTimed db'
unfolding write_session AllTimed
write_session-AllTimed s db db' e t h =
    rw e (all-update_where is_timed (λ t. t.id == s.id) (λ _. s) db.sessions (λ _ _ _. t) h)

found_is_timed :
    (k : ℕ) (db : Db) (s : Session) → find_session k db ≡ some s → AllTimed db → is_timed s ≡ true
unfolding find_session AllTimed
found_is_timed k db s e h = all_of_find_first is_timed (λ t. t.id == k) db.sessions s h e

ready_session-is_timed :
    (role : SessionRole) (now : ℕ) (s : Session)
    → s.state ≡ SessionState.preparing
    → is_timed s ≡ true
    → is_timed (ready_session role now s) ≡ true
unfolding ready_session
ready_session-is_timed role now s p h = ground arith

started_session-is_timed :
    (now : ℕ) (s : Session)
    → s.state ≡ SessionState.ready
    → is_timed s ≡ true
    → is_timed (started_session now s) ≡ true
unfolding started_session
started_session-is_timed now s p h = ground arith

pub ended_session-is_timed :
    (reason : EndReason) (now : ℕ) (s : Session) → is_timed (ended_session reason now s) ≡ true
unfolding ended_session
ended_session-is_timed reason now s = ground arith

seen_columns-is_timed :
    (role : Option SessionRole) (now : ℕ) (s : Session)
    → is_timed s ≡ true
    → is_timed (seen_columns role now s) ≡ true
seen_columns-is_timed role now s h = ground arith

pub mark_ready-AllTimed :
    (user k now : ℕ) (db db' : Db) (ps : Publications)
    → mark_ready user k now db ≡ ok (db', ps)
    → AllTimed db
    → AllTimed db'
mark_ready-AllTimed user k now db db' ps h t = elim (mark_ready-eq-ok user k now db db' ps h) [
  | inl e ↦ rw e t
  | inr (current, role, e, _, p, f) ↦
      write_session-AllTimed (ready_session role now current) db db' (rw f refl)
        (ready_session-is_timed role now current p (found_is_timed k db current e t)) t
]

pub start_session-AllTimed :
    (user k now : ℕ) (db db' : Db) (ps : Publications)
    → start_session user k now db ≡ ok (db', ps)
    → AllTimed db
    → AllTimed db'
start_session-AllTimed user k now db db' ps h t =
    elim (start_session-eq-ok user k now db db' ps h) [
      | inl e ↦ rw e t
      | inr (current, e, _, p, f) ↦
          write_session-AllTimed (started_session now current) db db' (rw f refl)
            (started_session-is_timed now current p (found_is_timed k db current e t)) t
    ]

end_in_transaction-AllTimed :
    (user k now : ℕ) (reason : Option EndReason) (db db' : Db) (s : Session)
    → end_session_in_transaction user k reason now db ≡ ok (s, db')
    → AllTimed db
    → AllTimed db'
end_in_transaction-AllTimed user k now reason db db' s h t =
    let (current, role, e, _, w) = end_session_in_transaction-eq-ok user k now reason db db' s h in
    elim w [
      | inl (_, _, f) ↦ rw f t
      | inr (_, g, f) ↦
          write_session-AllTimed s db db' (rw f refl)
            (rw g (ended_session-is_timed (value_or reason (default_reason role)) now current)) t
    ]

pub end_session-AllTimed :
    (user k now : ℕ) (reason : Option EndReason) (db db' : Db) (ps : Publications)
    → end_session user k reason now db ≡ ok (db', ps)
    → AllTimed db
    → AllTimed db'
unfolding end_session release_session_reservations AllTimed
end_session-AllTimed user k now reason db db' ps h t =
    elim (Result-cases (end_session_in_transaction user k reason now db)) [
      | inl ((s, u), e) ↦ ground (arith, end_in_transaction-AllTimed user k now reason db u s e t)
      | inr (_, e) ↦ absurd (ground arith)
    ]

pub heartbeat-AllTimed :
    (user k now : ℕ) (db db' : Db) → heartbeat user k now db ≡ ok db' → AllTimed db → AllTimed db'
heartbeat-AllTimed user k now db db' h t =
    let (current, e, _, f, _) = heartbeat-eq-ok user k now db db' h in
    write_session-AllTimed (seen_columns (role_for current user) now current) db db' f
      (seen_columns-is_timed (role_for current user) now current (found_is_timed k db current e t))
      t
