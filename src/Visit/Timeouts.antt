-- ===== src/Visit/Timeouts.antt =====
-- src/visit/visit.service.ts, cleanupExpiredAndTimedOut: what the timer expires and ends. Each of
-- its three loops reads at most `limit` rows first. The loops are not in a transaction, so that
-- what was written before an error stays written.
pub mod Reasons
pub mod Sweep
use our_companion_network.Base.{
  ℕ, zero, suc, ◌+◌, ◌*◌, Bool, true, false, not, ◌&&◌, ◌||◌, Option, none, some, List, [], ◌∷◌,
  ◌++◌, map, ◌==◌, ltb, is_id, is_some, value_or, any, where_, update_where, delete_where,
  if◌then◌else◌, Error, database, Code,
}
use our_companion_network.Config.{VisitRuntimeLimits}
use our_companion_network.Events.{Publications, visit_join_request_updated}
use our_companion_network.Visit.{
  SessionState, InviteStatus, Session, Invitation, JoinRequest, EndReason, Db, session_timeout,
  preparation_timeout, heartbeat_timeout,
}
use our_companion_network.Visit.Rows.{is_live, is_active_session}
use our_companion_network.Visit.Sessions.{present_participants}
use our_companion_network.Visit.Ending.{claim, is_pending_invite, publish_invitation}

-- `take` of a query.
abbrev pub take {ℓ} : {A : Type ℓ} → ℕ → List A → List A
take n [] = []
take zero (x ∷ xs) = []
take (suc n) (x ∷ xs) = x ∷ take n xs

abbrev pub has_timed_out : ℕ → Option ℕ → ℕ → Bool
has_timed_out now none span = false
has_timed_out now (some from) span = ltb (from + span) now

-- A difference of two times against a span, `now - t > span`, is `t + span < now`.
unfoldable pub timeout_reason : VisitRuntimeLimits → ℕ → Session → Option EndReason
timeout_reason l now s =
    if is_active_session s.state && has_timed_out now s.started_at (l.session_max_minutes * 60000)
    then some session_timeout
    else if not (is_active_session s.state)
        && ltb (value_or s.ready_at s.created_at + l.preparation_ttl_minutes * 60000) now
    then some preparation_timeout
    else if ltb (value_or s.visitor_owner_seen_at fallback + span) now
        || ltb (value_or s.host_seen_at fallback + span) now
    then some heartbeat_timeout
    else none
  where
    fallback : ℕ
    fallback = value_or s.started_at (value_or s.ready_at s.created_at)

    span : ℕ
    span = l.heartbeat_timeout_seconds * 1000

-- `{ status: PENDING, expiresAt: { lt: now } }`
abbrev pub is_overdue : ℕ → Invitation → Bool
is_overdue now i = is_pending_invite i.status && ltb i.expires_at now

abbrev pub expired_invitation : ℕ → Invitation → Invitation
expired_invitation now i = record i {
  status = InviteStatus.expired;
  responded_at = some now;
  pack_ref_id = none;
}

unfoldable pub expire_invitation : ℕ → Invitation → Db → Db × Publications
expire_invitation now read db =
    if any is_meant db.invitations
    then (
      record db {
        invitations = update_where is_meant (expired_invitation now) db.invitations;
        reservations = delete_where (λ r. is_id r.invitation_id read.id) db.reservations;
      },
      publish_invitation read,
    )
    else (db, [])
  where
    is_meant : Invitation → Bool
    is_meant i = i.id == read.id && is_overdue now i

unfoldable pub expire_invitations : ℕ → List Invitation → Db → Db × Publications
expire_invitations now [] db = (db, [])
expire_invitations now (i ∷ is) db =
    let (db', ps) = expire_invitation now i db in
    let (db'', qs) = expire_invitations now is db' in (db'', ps ++ qs)

abbrev pub is_overdue_request : ℕ → JoinRequest → Bool
is_overdue_request now r = is_pending_invite r.status && ltb r.expires_at now

abbrev pub is_expired : InviteStatus → Bool
is_expired InviteStatus.expired = true
is_expired _ = false

-- The unique index on the session, the requester and the status refuses a second expired row.
unfoldable pub has_expired_before : JoinRequest → Db → Bool
has_expired_before read db =
    any
      (λ r.
        not (r.id == read.id)
        && r.session_id == read.session_id
        && r.requester_user_id == read.requester_user_id
        && is_expired r.status)
      db.join_requests

abbrev pub publish_join_request : JoinRequest → Db → Publications
publish_join_request r db =
    (r.requester_user_id, visit_join_request_updated r.session_id r.id)
    ∷ map (λ p. (p.user_id, visit_join_request_updated r.session_id r.id))
        (present_participants r.session_id db)

-- What a part of the clean-up leaves behind, with the error that stopped it.
abbrev pub CleanUp : Type 0
CleanUp = Db × Publications × Option Error

unfoldable pub expire_join_request : ℕ → JoinRequest → Db → CleanUp
expire_join_request now read db =
    if not (any is_meant db.join_requests)
    then (db, [], none)
    else if has_expired_before read db
    then (db, [], some (database Code.unique_violation))
    else (expired, publish_join_request read expired, none)
  where
    is_meant : JoinRequest → Bool
    is_meant r = r.id == read.id && is_overdue_request now r

    expired : Db
    expired = record db {
      join_requests =
          update_where is_meant
            (λ r. record r {
              status = InviteStatus.expired;
              responded_at = some now;
              pack_ref_id = none;
            })
            db.join_requests;
      reservations =
          delete_where (λ r. r.user_id == read.requester_user_id && is_id r.join_request_id read.id)
            db.reservations;
    }

-- An error leaves the rest of the work undone.
abbrev pub and_then : CleanUp → (Db → CleanUp) → CleanUp
and_then (db, ps, some e) rest = (db, ps, some e)
and_then (db, ps, none) rest = let (db', qs, e) = rest db in (db', ps ++ qs, e)

unfoldable pub expire_join_requests : ℕ → List JoinRequest → Db → CleanUp
expire_join_requests now [] db = (db, [], none)
expire_join_requests now (r ∷ rs) db =
    and_then (expire_join_request now r db) (expire_join_requests now rs)

unfoldable pub end_timed_out : VisitRuntimeLimits → ℕ → Session → Db → Db × Publications
end_timed_out l now read db = elim (timeout_reason l now read) [
  | none ↦ (db, [])
  | some reason ↦ claim reason now read db
]

unfoldable pub end_all_timed_out : VisitRuntimeLimits → ℕ → List Session → Db → Db × Publications
end_all_timed_out l now [] db = (db, [])
end_all_timed_out l now (s ∷ ss) db =
    let (db', ps) = end_timed_out l now s db in
    let (db'', qs) = end_all_timed_out l now ss db' in (db'', ps ++ qs)

abbrev pub completed : Db × Publications → CleanUp
completed (db, ps) = (db, ps, none)

unfoldable pub cleanup_expired_and_timed_out : VisitRuntimeLimits → ℕ → ℕ → Db → CleanUp
cleanup_expired_and_timed_out l limit now db =
    and_then
      (completed (expire_invitations now (take limit (where_ (is_overdue now) db.invitations)) db))
      (λ db'.
        and_then
          (expire_join_requests now (take limit (where_ (is_overdue_request now) db'.join_requests))
            db')
          (λ db''. completed (
            end_all_timed_out l now (take limit (where_ (λ s. is_live s.state) db''.sessions))
              db'')))
