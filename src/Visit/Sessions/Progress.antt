-- ===== src/Visit/Sessions/Progress.antt =====
-- The states of a session are passed in one direction.
use our_companion_network.Base.{
  Option, value_or, ap, ℕ, ◌≡◌, refl, subst, true, some, arith, ◌==◌, ok, Bool-cases, inl, inr, ◌⊎◌,
  Result-cases,
}
use our_companion_network.Events.{Publications}
use our_companion_network.Visit.{SessionState, Session, EndReason, Db}
use our_companion_network.Visit.Rows.{
  find_session, role_for, write_session, find_session-write_session, find_session-id, is_live,
  SessionRole, release_session_reservations,
}
use our_companion_network.Visit.Sessions.{
  ready_session, mark_ready, started_session, start_session, ended_session, end_state,
  default_reason, end_session, end_session_in_transaction, heartbeat, seen_columns,
}
use our_companion_network.Visit.Sessions.Outcomes.{
  mark_ready-eq-ok, start_session-eq-ok, end_session_in_transaction-eq-ok, heartbeat-eq-ok,
}

-- One step of a session, or none.
pub data Advances : SessionState → SessionState → Type 0 where
  stays : (x : SessionState) → Advances x x
  prepared : Advances SessionState.preparing SessionState.ready
  started : Advances SessionState.ready SessionState.active
  withdrawn : Advances SessionState.preparing SessionState.cancelled
  called_off : Advances SessionState.ready SessionState.cancelled
  finished : Advances SessionState.active SessionState.ended
  wound_up : Advances SessionState.ending SessionState.ended
  abandoned : Advances SessionState.ending SessionState.cancelled

between : {x y a b : SessionState} → x ≡ a → y ≡ b → Advances a b → Advances x y
between p q h = rw (p, q) h

-- Every session of `db` is there in `db'`, at most one step on.
abbrev pub Moves : Db → Db → Type 0
Moves db db' =
    (k : ℕ) (x : Session)
    → find_session k db ≡ some x
    → (y : Session) × (find_session k db' ≡ some y) × Advances x.state y.state

pub Moves-refl : (db db' : Db) → db'.sessions ≡ db.sessions → Moves db db'
unfolding find_session
Moves-refl db db' e k x f = (x, rw e f, stays x.state)

-- Writing one row moves the session of that row.
write_session-Moves :
    (s current : Session) (k : ℕ) (db db' : Db)
    → find_session k db ≡ some current
    → s.id ≡ current.id
    → db'.sessions ≡ write_session s db.sessions
    → Advances current.state s.state
    → Moves db db'
write_session-Moves s current k db db' e same f a j x g = elim (Bool-cases (j == s.id)) [
  | inl hit ↦ (
    s,
    rw (find_session-write_session s j db db' x f g) (rw hit refl),
    subst (λ y. Advances y.state s.state) (same_row hit) a,
  )
  | inr miss ↦ (x, rw (find_session-write_session s j db db' x f g) (rw miss refl), stays x.state)
]
  where
    same_row : (j == s.id) ≡ true → current ≡ x
    same_row hit = ground (arith, find_session-id k db current e)

ready_session_step :
    (role : SessionRole) (now : ℕ) (s : Session)
    → s.state ≡ SessionState.preparing
    → (ready_session role now s).id ≡ s.id
unfolding ready_session
ready_session_step role now s p = ground arith

ready_session-Advances :
    (role : SessionRole) (now : ℕ) (s : Session)
    → s.state ≡ SessionState.preparing
    → Advances s.state (ready_session role now s).state
ready_session-Advances role now s p = elim (lands role now s p) [
  | inl e ↦ between p e prepared
  | inr e ↦ between p e (stays SessionState.preparing)
]
  where
    lands :
        (r : SessionRole) (n : ℕ) (t : Session)
        → t.state ≡ SessionState.preparing
        → ((ready_session r n t).state ≡ SessionState.ready)
          ⊎ ((ready_session r n t).state ≡ SessionState.preparing)
    lands r n t q = unfold ready_session in ground arith

ended_session-Advances :
    (reason : EndReason) (now : ℕ) (s : Session)
    → is_live s.state ≡ true
    → Advances s.state (ended_session reason now s).state
unfolding ended_session
ended_session-Advances reason now s h = by_state s.state h
  where
    by_state : (x : SessionState) → is_live x ≡ true → Advances x (end_state x)
    by_state SessionState.preparing h = withdrawn
    by_state SessionState.ready h = called_off
    by_state SessionState.active h = finished
    by_state SessionState.ending h = wound_up
    by_state SessionState.ended h = cc
    by_state SessionState.cancelled h = cc
    by_state SessionState.failed h = cc

pub mark_ready-Moves :
    (user k now : ℕ) (db db' : Db) (ps : Publications)
    → mark_ready user k now db ≡ ok (db', ps)
    → Moves db db'
mark_ready-Moves user k now db db' ps h = elim (mark_ready-eq-ok user k now db db' ps h) [
  | inl e ↦ Moves-refl db db' (rw e refl)
  | inr (current, role, e, _, p, f) ↦
      write_session-Moves (ready_session role now current) current k db db' e
        (ready_session_step role now current p) (rw f refl)
        (ready_session-Advances role now current p)
]

pub start_session-Moves :
    (user k now : ℕ) (db db' : Db) (ps : Publications)
    → start_session user k now db ≡ ok (db', ps)
    → Moves db db'
unfolding started_session
start_session-Moves user k now db db' ps h = elim (start_session-eq-ok user k now db db' ps h) [
  | inl e ↦ Moves-refl db db' (rw e refl)
  | inr (current, e, _, p, f) ↦
      write_session-Moves (started_session now current) current k db db' e refl (rw f refl)
        (between p refl started)
]

end_in_transaction-Moves :
    (user k now : ℕ) (reason : Option EndReason) (db db' : Db) (s : Session)
    → end_session_in_transaction user k reason now db ≡ ok (s, db')
    → Moves db db'
unfolding ended_session
end_in_transaction-Moves user k now reason db db' s h =
    let (current, role, e, _, w) = end_session_in_transaction-eq-ok user k now reason db db' s h in
    elim w [
      | inl (_, _, f) ↦ Moves-refl db db' (rw f refl)
      | inr (l, g, f) ↦ write_session-Moves s current k db db' e (rw g refl) (rw f refl) (
          between refl (ap (λ (t : Session). t.state) g)
            (ended_session-Advances (value_or reason (default_reason role)) now current l))
    ]

pub end_session-Moves :
    (user k now : ℕ) (reason : Option EndReason) (db db' : Db) (ps : Publications)
    → end_session user k reason now db ≡ ok (db', ps)
    → Moves db db'
unfolding end_session release_session_reservations find_session
end_session-Moves user k now reason db db' ps h =
    elim (Result-cases (end_session_in_transaction user k reason now db)) [
      | inl ((s, t), e) ↦ λ j x f.
          let (y, g, a) = end_in_transaction-Moves user k now reason db t s e j x f in
          (y, ground arith, a)
      | inr (_, e) ↦ absurd (ground arith)
    ]

pub heartbeat-Moves :
    (user k now : ℕ) (db db' : Db) → heartbeat user k now db ≡ ok db' → Moves db db'
heartbeat-Moves user k now db db' h =
    let (current, e, _, f, _) = heartbeat-eq-ok user k now db db' h in
    write_session-Moves (seen_columns (role_for current user) now current) current k db db' e
      (same_row (role_for current user) now current) f
      (between refl (same_state (role_for current user) now current) (stays current.state))
  where
    same_row : (r : Option SessionRole) (n : ℕ) (s : Session) → (seen_columns r n s).id ≡ s.id
    same_row r n s = ground arith

    same_state :
        (r : Option SessionRole) (n : ℕ) (s : Session) → (seen_columns r n s).state ≡ s.state
    same_state r n s = ground arith
