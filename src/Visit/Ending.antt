-- ===== src/Visit/Ending.antt =====
-- src/visit/visit.service.ts: sessions that are ended for their users, when a friendship or a
-- Companion's publication ends. Each loop reads its sessions first, and then claims one after the
-- other by a conditional write.
pub mod Laws
use our_companion_network.Base.{
  ℕ, Bool, true, false, ◌&&◌, ◌||◌, none, some, List, [], ◌∷◌, ◌++◌, ◌==◌, is_id, any, where_,
  update_where, delete_where, find_first, if◌then◌else◌,
}
use our_companion_network.Events.{Publications, visit_session_ended, visit_invitation_updated}
use our_companion_network.Visit.{SessionState, InviteStatus, Session, Invitation, EndReason, Db}
use our_companion_network.Visit.Rows.{is_live, find_session, release_session_reservations}
use our_companion_network.Visit.Sessions.{publish_session}

abbrev pub state_index : SessionState → ℕ
state_index SessionState.preparing = 0
state_index SessionState.ready = 1
state_index SessionState.active = 2
state_index SessionState.ending = 3
state_index SessionState.ended = 4
state_index SessionState.cancelled = 5
state_index SessionState.failed = 6

-- `session.state === 'active' ? 'ended' : 'cancelled'`
abbrev pub closing_state : SessionState → SessionState
closing_state SessionState.active = SessionState.ended
closing_state _ = SessionState.cancelled

unfoldable pub closed_session : EndReason → ℕ → Session → Session
closed_session reason now s = record s {
  state = closing_state s.state;
  ended_at = some now;
  end_reason = some reason;
  pack_ref_id = none;
}

-- `updateMany({ where: { id, state } })`: the rows that still are as they were read.
abbrev pub is_as_read : Session → Session → Bool
is_as_read read s = s.id == read.id && state_index s.state == state_index read.state

abbrev publish_ended : ℕ → Db → Publications
publish_ended id db = elim (find_session id db) [
  | some s ↦ publish_session visit_session_ended s
  | none ↦ []
]

-- One round of the loop.
unfoldable pub claim : EndReason → ℕ → Session → Db → Db × Publications
unfolding closed_session
claim reason now read db =
    if any (is_as_read read) db.sessions then (closed, publish_ended read.id closed) else (db, [])
  where
    closed : Db
    closed = release_session_reservations read.id now (record db {
      sessions = update_where (is_as_read read) (closed_session reason now) db.sessions;
    })

unfoldable pub claim_all : EndReason → ℕ → List Session → Db → Db × Publications
claim_all reason now [] db = (db, [])
claim_all reason now (s ∷ ss) db =
    let (db', ps) = claim reason now s db in
    let (db'', qs) = claim_all reason now ss db' in (db'', ps ++ qs)

abbrev pub is_between : ℕ → ℕ → Session → Bool
is_between a b s =
    (s.visitor_owner_user_id == a && s.host_user_id == b)
    || (s.visitor_owner_user_id == b && s.host_user_id == a)

unfoldable pub end_sessions_between : ℕ → ℕ → EndReason → ℕ → Db → Db × Publications
end_sessions_between a b reason now db =
    claim_all reason now (where_ (λ s. is_live s.state && is_between a b s) db.sessions) db

unfoldable pub end_sessions_for_companion : ℕ → EndReason → ℕ → Db → Db × Publications
end_sessions_for_companion companion reason now db =
    claim_all reason now (where_ (λ s. s.companion_id == companion && is_live s.state) db.sessions)
      db

abbrev pub is_pending_invite : InviteStatus → Bool
is_pending_invite InviteStatus.pending = true
is_pending_invite _ = false

abbrev pub publish_invitation : Invitation → Publications
publish_invitation i =
    (i.visitor_owner_user_id, visit_invitation_updated i.id)
    ∷ (i.host_user_id, visit_invitation_updated i.id)
    ∷ []

-- One pending invitation of a Companion is cancelled, with its reservation.
unfoldable pub revoke_invitation : ℕ → Invitation → Db → Db × Publications
revoke_invitation now read db =
    if any is_open db.invitations
    then (
      record db {
        invitations =
            update_where is_open
              (λ i. record i {
                status = InviteStatus.cancelled;
                cancelled_at = some now;
                pack_ref_id = none;
              })
              db.invitations;
        reservations = delete_where (λ r. is_id r.invitation_id read.id) db.reservations;
      },
      publish_invitation read,
    )
    else (db, [])
  where
    is_open : Invitation → Bool
    is_open i = i.id == read.id && is_pending_invite i.status

unfoldable pub revoke_invitations : ℕ → List Invitation → Db → Db × Publications
revoke_invitations now [] db = (db, [])
revoke_invitations now (i ∷ is) db =
    let (db', ps) = revoke_invitation now i db in
    let (db'', qs) = revoke_invitations now is db' in (db'', ps ++ qs)

unfoldable pub revoke_companion_visits : ℕ → EndReason → ℕ → Db → Db × Publications
revoke_companion_visits companion reason now db =
    let pending =
      where_ (λ i. i.companion_id == companion && is_pending_invite i.status) db.invitations in
    let live = where_ (λ s. s.companion_id == companion && is_live s.state) db.sessions in
    let (db', ps) = revoke_invitations now pending db in
    let (db'', qs) = claim_all reason now live db' in (db'', ps ++ qs)
