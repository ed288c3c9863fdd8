-- ===== src/Visit/Invitations.antt =====
-- src/visit/visit.service.ts: an invitation to a visit, and the answers to it. Whether the storage
-- can serve uploads and downloads is an argument, as are the identifiers of new rows.
pub mod Answers
pub mod Capacity
pub mod Withdrawals
use our_companion_network.Base.{
  ℕ, ◌+◌, ◌*◌, Bool, true, false, not, ◌&&◌, ◌||◌, Option, none, some, List, [], ◌∷◌, ◌++◌, map,
  ◌==◌, leb, ltb, is_id, is_some, find_first, any, where_, count_where, update_where, delete_where,
  if◌then◌else◌, Code, Error, not_found, conflict, forbidden, unavailable, database, Result, ok,
  err, ◌>>=◌, ◌>>◌, guard, or_fail,
}
use our_companion_network.Social.{is_active}
use our_companion_network.Config.{VisitRuntimeLimits}
use our_companion_network.Events.{Publications, visit_invitation_created, visit_session_created}
use our_companion_network.Visit.{
  Companion, AssetPack, TopicSnapshot, VisitMode, standard, random_host_topic, visitor_topic,
  Invitation, InviteStatus, Session, SessionState, Participant, ParticipantState, Role, Reservation,
  outgoing_invitation, session_participant, ReservationKind, RoomTopic, TopicState, Db,
}
use our_companion_network.Visit.Rows.{is_live, find_reservation}
use our_companion_network.Visit.Sessions.{publish_session, assert_eligible}
use our_companion_network.Visit.Ending.{is_pending_invite, publish_invitation}
use our_companion_network.Visit.Snapshots.{
  Snapshot, load_current_snapshot, supports_visual_visit, is_kept_pack, find_companion, find_pack,
  topic_snapshot, is_shareable, find_owned_topic, first_topic, chain, assert_no_reservation,
  create_reservation, rewrite_reservation, create_participant, told_topic,
}

abbrev not_available : Error
not_available = conflict Code.visit_invitation_not_available

-- `assertVisitorOwnerAvailable`
unfoldable pub assert_visitor_owner_available : ℕ → Db → Result (Unit {0})
assert_visitor_owner_available user db =
    elim (find_first
      (λ s. is_live s.state && (s.visitor_owner_user_id == user || s.host_user_id == user))
      db.sessions) [
        | none ↦ ok tt
        | some s ↦ err (
            conflict (
              if s.host_user_id == user
              then Code.visit_host_has_active_guests
              else Code.visit_session_already_active))
      ]

-- MAX_CONCURRENT_HOST_VISITORS
abbrev pub max_concurrent_host_visitors : ℕ
max_concurrent_host_visitors = 2

-- `assertHostCapacity`
unfoldable pub assert_host_capacity : ℕ → Db → Result (Unit {0})
assert_host_capacity host db = do
  guard (not (any (λ s. s.visitor_owner_user_id == host && is_live s.state) db.sessions))
      (conflict Code.visit_host_companion_away)
  guard
      (ltb (count_where (λ s. s.host_user_id == host && is_live s.state) db.sessions)
        max_concurrent_host_visitors)
      (conflict Code.visit_host_capacity_reached)

abbrev pub accepts_random_visits : Companion → Bool
accepts_random_visits c =
    c.published
    && c.friends_only
    && is_some c.active_asset_pack_id
    && c.random_visits_enabled
    && c.random_visits_by_friends

-- `resolveInvitationTopic`, with the note of the use of a host's topic.
unfoldable pub resolve_invitation_topic :
    ℕ → ℕ → ℕ → VisitMode → Option ℕ → ℕ → Db → Result (Option TopicSnapshot × Db)
resolve_invitation_topic owner host companion standard topic_id now db = do
  guard (not (is_some topic_id)) (conflict Code.visit_topic_not_available)
  ok (none, db)
resolve_invitation_topic owner host companion visitor_topic topic_id now db = do
  id ← or_fail topic_id (conflict Code.visit_topic_required)
  topic ← or_fail (find_owned_topic id companion now db) (conflict Code.visit_topic_not_available)
  ok (some (topic_snapshot topic owner), db)
resolve_invitation_topic owner host companion random_host_topic topic_id now db = do
  host_companion ←
      or_fail
        (chain (find_first (λ u. u.id == host) db.social.users)
          (λ user. chain user.active_companion_id (λ id. find_companion id db)))
        (conflict Code.random_visit_not_available)
  guard (accepts_random_visits host_companion) (conflict Code.random_visit_not_available)
  topic ←
      or_fail
        (first_topic (
          where_ (λ t. is_shareable host_companion.id now t && t.eligible_for_random_visit)
            db.topics))
        (conflict Code.random_visit_topic_not_available)
  ok (
    some (topic_snapshot topic host),
    record db {
      topics =
          update_where (λ t. t.id == topic.id)
            (λ t. record t { last_used_at = some now; updated_at = now }) db.topics;
    },
  )

-- A pending invitation on the same route that has not expired.
abbrev pub is_same_route : ℕ → ℕ → ℕ → ℕ → Invitation → Bool
is_same_route owner host companion now i =
    i.visitor_owner_user_id == owner
    && i.host_user_id == host
    && i.companion_id == companion
    && is_pending_invite i.status
    && ltb now i.expires_at

unfoldable pub new_invitation :
    VisitRuntimeLimits → ℕ → ℕ → ℕ → Snapshot → VisitMode → Option TopicSnapshot → ℕ → Invitation
new_invitation l id owner host (companion, pack) mode topic now = record {
  id = id;
  visitor_owner_user_id = owner;
  host_user_id = host;
  companion_id = companion.id;
  pack_snapshot_id = pack.id;
  pack_ref_id = some pack.id;
  mode = mode;
  topic = topic;
  status = InviteStatus.pending;
  expires_at = now + l.invitation_ttl_hours * 3600000;
  responded_at = none;
  cancelled_at = none;
}

abbrev pub reservation_of_invitation : Invitation → Reservation
reservation_of_invitation i = record {
  user_id = i.visitor_owner_user_id;
  companion_id = i.companion_id;
  kind = outgoing_invitation;
  invitation_id = some i.id;
  session_id = none;
  join_request_id = none;
  expires_at = some i.expires_at;
}

unfoldable pub create_invitation :
    VisitRuntimeLimits
    → Bool
    → ℕ
    → ℕ
    → ℕ
    → VisitMode
    → Option ℕ
    → ℕ
    → Db
    → Result (Db × Publications)
unfolding new_invitation
create_invitation l feature new_id owner host mode topic_id now db = do
  guard feature (unavailable Code.visit_feature_unavailable)
  guard (not (owner == host)) not_available
  assert_eligible owner host db
  assert_no_reservation owner db
  assert_visitor_owner_available owner db
  snapshot ← or_fail (load_current_snapshot is_active owner db) not_available
  guard (supports_visual_visit snapshot.1) (conflict Code.visit_visual_assets_unavailable)
  (topic, db') ← resolve_invitation_topic owner host snapshot.0.id mode topic_id now db
  guard (not (any (is_same_route owner host snapshot.0.id now) db'.invitations))
      (conflict Code.visit_invitation_already_exists)
  let invitation = new_invitation l new_id owner host snapshot mode topic now
  db'' ←
      create_reservation (reservation_of_invitation invitation)
        (record db' { invitations = invitation ∷ db'.invitations })
  ok (db'', (owner, visit_invitation_created new_id) ∷ (host, visit_invitation_created new_id) ∷ [])
