-- ===== src/Visit/Sessions/Outcomes.antt =====
-- What a call on a session that succeeds has read and written.
use our_companion_network.Base.{
  Option, value_or, ℕ, ◌≡◌, Bool, true, false, some, arith, ok, Bool-cases, inl, inr, Option-cases,
  ◌⊎◌,
}
use our_companion_network.Events.{Publications}
use our_companion_network.Visit.{SessionState, Session, EndReason, Db}
use our_companion_network.Visit.Rows.{
  find_session, role_for, write_session, is_terminal, is_live, is_beating, SessionRole,
}
use our_companion_network.Visit.Sessions.{
  ready_session, mark_ready, mark_participant_ready, started_session, start_session, ended_session,
  default_reason, activate_participants, end_session_in_transaction, heartbeat, seen_columns,
}

abbrev is_preparing : SessionState → Bool
is_preparing SessionState.preparing = true
is_preparing _ = false

abbrev is_ready : SessionState → Bool
is_ready SessionState.ready = true
is_ready _ = false

-- What `markReady` writes.
pub mark_ready-eq-ok :
    (user k now : ℕ) (db db' : Db) (ps : Publications)
    → mark_ready user k now db ≡ ok (db', ps)
    → (db' ≡ db)
      ⊎ ((current : Session) × (role : SessionRole) × (find_session k db ≡ some current)
          × (role_for current user ≡ some role)
          × (current.state ≡ SessionState.preparing)
          × (db' ≡ record db {
            sessions = write_session (ready_session role now current) db.sessions;
            participants = mark_participant_ready k user now db.participants;
          }))
unfolding mark_ready
mark_ready-eq-ok user k now db db' ps h = elim (Option-cases (find_session k db)) [
  | inl e ↦ absurd (ground arith)
  | inr (current, e) ↦ elim (Option-cases (role_for current user)) [
    | inl f ↦ absurd (ground arith)
    | inr (role, f) ↦ elim (Bool-cases (is_preparing current.state)) [
      | inl p ↦ inr (current, role, e, f, ground arith, ground arith)
      | inr p ↦ inl (ground arith)
    ]
  ]
]

-- What `startSession` writes.
pub start_session-eq-ok :
    (user k now : ℕ) (db db' : Db) (ps : Publications)
    → start_session user k now db ≡ ok (db', ps)
    → (db' ≡ db)
      ⊎ ((current : Session) × (find_session k db ≡ some current)
          × (current.host_user_id ≡ user)
          × (current.state ≡ SessionState.ready)
          × (db' ≡ record db {
            sessions = write_session (started_session now current) db.sessions;
            participants = activate_participants k now db.participants;
          }))
unfolding start_session
start_session-eq-ok user k now db db' ps h = elim (Option-cases (find_session k db)) [
  | inl e ↦ absurd (ground arith)
  | inr (current, e) ↦ elim (Bool-cases (is_ready current.state)) [
    | inl p ↦ inr (current, e, ground arith, ground arith, ground arith)
    | inr p ↦ inl (ground arith)
  ]
]

-- What `endSession` writes before it releases the reservations.
pub end_session_in_transaction-eq-ok :
    (user k now : ℕ) (reason : Option EndReason) (db db' : Db) (s : Session)
    → end_session_in_transaction user k reason now db ≡ ok (s, db')
    → (current : Session) × (role : SessionRole) × (find_session k db ≡ some current)
      × (role_for current user ≡ some role)
      × (((is_terminal current.state ≡ true) × (s ≡ current) × (db' ≡ db))
          ⊎ ((is_live current.state ≡ true)
              × (s ≡ ended_session (value_or reason (default_reason role)) now current)
              × (db' ≡ record db { sessions = write_session s db.sessions })))
unfolding end_session_in_transaction
end_session_in_transaction-eq-ok user k now reason db db' s h =
    elim (Option-cases (find_session k db)) [
      | inl e ↦ absurd (ground arith)
      | inr (current, e) ↦ elim (Option-cases (role_for current user)) [
        | inl f ↦ absurd (ground arith)
        | inr (role, f) ↦ (current, role, e, f, ground arith)
      ]
    ]

pub heartbeat-eq-ok :
    (user k now : ℕ) (db db' : Db)
    → heartbeat user k now db ≡ ok db'
    → (current : Session) × (find_session k db ≡ some current)
      × (is_beating current.state ≡ true)
      × (db'.sessions
          ≡ write_session (seen_columns (role_for current user) now current) db.sessions)
      × (db'.reservations ≡ db.reservations)
unfolding heartbeat
heartbeat-eq-ok user k now db db' h = elim (Option-cases (find_session k db)) [
  | inl e ↦ absurd (ground arith)
  | inr (current, e) ↦ (current, e, ground arith, ground arith, ground arith)
]
