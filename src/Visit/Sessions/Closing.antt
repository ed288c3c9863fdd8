-- ===== src/Visit/Sessions/Closing.antt =====
-- What the end of a session leaves behind.
use our_companion_network.Base.{
  ℕ, ◌≡◌, refl, ap, Bool, true, false, ◌&&◌, none, some, Option, any, arith, ◌==◌, is_id, ok, inl,
  inr, Result-cases, any-delete_where_self, any-update_where_self, delete_where_none,
  update_where_none,
}
use our_companion_network.Events.{Publications, visit_session_ended}
use our_companion_network.Visit.{ParticipantState, Session, Participant, Reservation, EndReason, Db}
use our_companion_network.Visit.Rows.{
  find_session, find_session-id, find_session-write_session, is_terminal, is_present, SessionRole,
  role_for, release_session_reservations,
}
use our_companion_network.Visit.Sessions.{
  ended_session, end_session, end_session_in_transaction, publish_session,
}
use our_companion_network.Visit.Sessions.Outcomes.{end_session_in_transaction-eq-ok}

-- A reservation for a session.
abbrev pub is_reserved_for : ℕ → Reservation → Bool
is_reserved_for k r = is_id r.session_id k

-- A participant who is in a session.
abbrev pub is_present_in : ℕ → Participant → Bool
is_present_in k p = p.session_id == k && is_present p.state

-- No reservation and no participant is left.
abbrev pub IsReleased : ℕ → Db → Type 0
IsReleased k db =
    (any (is_reserved_for k) db.reservations ≡ false)
    × (any (is_present_in k) db.participants ≡ false)

pub release-IsReleased :
    (k now : ℕ) (db : Db) → IsReleased k (release_session_reservations k now db)
unfolding release_session_reservations
release-IsReleased k now db = (
  any-delete_where_self (is_reserved_for k) db.reservations,
  any-update_where_self (is_present_in k)
      (λ p. record p { state = ParticipantState.left; left_at = some now; pack_ref_id = none })
      db.participants (λ p. ground arith),
)

-- To release a session again does nothing.
release_released :
    (k now : ℕ) (db : Db) → IsReleased k db → release_session_reservations k now db ≡ db
unfolding release_session_reservations
release_released k now db (r, p) = ground (
  arith,
  delete_where_none (is_reserved_for k) db.reservations r,
  update_where_none (is_present_in k)
      (λ p. record p { state = ParticipantState.left; left_at = some now; pack_ref_id = none })
      db.participants p,
)

abbrev IsOver : Db → ℕ → Session → Type 0
IsOver db k s = (find_session k db ≡ some s) × (is_terminal s.state ≡ true)

end_in_transaction-IsOver :
    (user k now : ℕ) (reason : Option EndReason) (db db' : Db) (s : Session)
    → end_session_in_transaction user k reason now db ≡ ok (s, db')
    → IsOver db' k s
unfolding ended_session
end_in_transaction-IsOver user k now reason db db' s h =
    let (current, role, e, _, w) = end_session_in_transaction-eq-ok user k now reason db db' s h in
    elim w [
      | inl (t, g, f) ↦ ground arith
      | inr (l, g, f) ↦ ground (
        arith,
        find_session-write_session s k db db' current (ap (λ (d : Db). d.sessions) f) e,
        find_session-id k db current e,
      )
    ]

end_session-eq-ok :
    (user k now : ℕ) (reason : Option EndReason) (db db' : Db) (ps : Publications)
    → end_session user k reason now db ≡ ok (db', ps)
    → (s : Session) × (u : Db) × (end_session_in_transaction user k reason now db ≡ ok (s, u))
      × (db' ≡ release_session_reservations k now u)
      × (ps ≡ publish_session visit_session_ended s)
unfolding end_session
end_session-eq-ok user k now reason db db' ps h =
    elim (Result-cases (end_session_in_transaction user k reason now db)) [
      | inl ((s, u), e) ↦ (s, u, e, ground arith, ground arith)
      | inr (_, e) ↦ absurd (ground arith)
    ]

find_session-release :
    (k j now : ℕ) (db : Db)
    → find_session j (release_session_reservations k now db) ≡ find_session j db
unfolding find_session release_session_reservations
find_session-release k j now db = refl

-- After an end by a participant the session is over, and nobody is in it or reserved for it.
pub end_session_releases :
    (user k now : ℕ) (reason : Option EndReason) (db db' : Db) (ps : Publications)
    → end_session user k reason now db ≡ ok (db', ps)
    → (s : Session) × (find_session k db' ≡ some s)
      × (is_terminal s.state ≡ true)
      × (ps ≡ publish_session visit_session_ended s)
      × IsReleased k db'
end_session_releases user k now reason db db' ps h =
    let (s, u, e, f, g) = end_session-eq-ok user k now reason db db' ps h in
    let (a, t) = end_in_transaction-IsOver user k now reason db u s e in
    (s, rw (f, find_session-release k k now u) a, t, g, rw f (release-IsReleased k now u))

-- The participant who ended a session has a part in it.
role_after :
    (user k now : ℕ) (reason : Option EndReason) (db db' : Db) (s : Session)
    → end_session_in_transaction user k reason now db ≡ ok (s, db')
    → (role : SessionRole) × (role_for s user ≡ some role)
unfolding ended_session role_for
role_after user k now reason db db' s h =
    let (current, role, e, r, w) = end_session_in_transaction-eq-ok user k now reason db db' s h in
    (role, elim w [ inl (_, g, _) ↦ rw g r | inr (_, g, _) ↦ rw g r ])

-- A session that is over is ended again without a change.
end_over :
    (user k now : ℕ) (reason : Option EndReason) (db : Db) (s : Session) (role : SessionRole)
    → find_session k db ≡ some s
    → role_for s user ≡ some role
    → is_terminal s.state ≡ true
    → IsReleased k db
    → end_session user k reason now db ≡ ok (db, publish_session visit_session_ended s)
unfolding end_session end_session_in_transaction
end_over user k now reason db s role e r t free =
    ground (arith, release_released k now db free, e, r)

-- To end a session a second time is answered like the first time, and changes nothing.
pub end_session_twice :
    (user k now later : ℕ) (reason again : Option EndReason) (db db' : Db) (ps : Publications)
    → end_session user k reason now db ≡ ok (db', ps)
    → end_session user k again later db' ≡ ok (db', ps)
end_session_twice user k now later reason again db db' ps h =
    let (s, u, e, f, g) = end_session-eq-ok user k now reason db db' ps h in
    let (a, t) = end_in_transaction-IsOver user k now reason db u s e in
    let (role, r) = role_after user k now reason db u s e in
    rw (f, g)
      (end_over user k later again (release_session_reservations k now u) s role
        (rw (find_session-release k k now u) a) r t (release-IsReleased k now u))
