-- ===== src/Visit/Invitations/Answers.antt =====
-- src/visit/visit.service.ts, acceptInvitation and respondToInvitation.
use our_companion_network.Base.{
  ℕ, Bool, true, false, not, ◌&&◌, Option, none, some, List, [], ◌∷◌, ◌++◌, ◌==◌, leb, is_id,
  find_first, any, where_, update_where, delete_where, if◌then◌else◌, Code, Error, not_found,
  conflict, forbidden, database, Result, ok, err, ◌>>=◌, ◌>>◌, guard, or_fail,
}
use our_companion_network.Social.{is_active}
use our_companion_network.Events.{Publications, visit_session_created}
use our_companion_network.Visit.{
  AssetPack, TopicSnapshot, VisitMode, random_host_topic, Invitation, InviteStatus, Session,
  SessionState, Participant, ParticipantState, Role, Reservation, session_participant,
  outgoing_invitation, TopicState, Db,
}
use our_companion_network.Visit.Rows.{find_reservation}
use our_companion_network.Visit.Sessions.{publish_session, assert_eligible}
use our_companion_network.Visit.Ending.{is_pending_invite, publish_invitation}
use our_companion_network.Visit.Snapshots.{
  load_current_snapshot, supports_visual_visit, is_kept_pack, find_companion, find_pack,
  assert_no_reservation, create_reservation, rewrite_reservation, create_participant, told_topic,
}
use our_companion_network.Visit.Invitations.{assert_visitor_owner_available, assert_host_capacity}

abbrev pub find_invitation : ℕ → Db → Option Invitation
find_invitation id db = find_first (λ i. i.id == id) db.invitations

abbrev pub write_invitation : ℕ → (Invitation → Invitation) → Db → Db
write_invitation id f db = record db {
  invitations = update_where (λ i. i.id == id) f db.invitations;
}

-- The reservation of the visitor's owner for an invitation goes.
abbrev pub drop_reservation : Invitation → Db → Db
drop_reservation i db = record db {
  reservations =
      delete_where (λ r. r.user_id == i.visitor_owner_user_id && is_id r.invitation_id i.id)
        db.reservations;
}

-- `declineInvitation` is the host's answer, `cancelInvitation` the owner's.
pub data Answer : Type 0 where
  declines cancels : Answer

abbrev pub answer_party : Answer → Invitation → ℕ
answer_party declines i = i.host_user_id
answer_party cancels i = i.visitor_owner_user_id

abbrev pub answer_refusal : Answer → Error
answer_refusal declines = forbidden Code.visit_invitation_not_host
answer_refusal cancels = forbidden Code.visit_invitation_not_owned

abbrev pub has_answer : Answer → InviteStatus → Bool
has_answer declines InviteStatus.declined = true
has_answer cancels InviteStatus.cancelled = true
has_answer _ _ = false

abbrev pub answered : Answer → ℕ → Invitation → Invitation
answered declines now i = record i {
  status = InviteStatus.declined;
  responded_at = some now;
  pack_ref_id = none;
}
answered cancels now i = record i {
  status = InviteStatus.cancelled;
  cancelled_at = some now;
  pack_ref_id = none;
}

unfoldable pub respond_to_invitation : ℕ → ℕ → Answer → ℕ → Db → Result (Db × Publications)
respond_to_invitation user id answer now db = do
  current ← or_fail (find_invitation id db) (not_found Code.visit_invitation_not_found)
  guard (answer_party answer current == user) (answer_refusal answer)
  if has_answer answer current.status
      then ok (db, publish_invitation current)
      else if not (is_pending_invite current.status)
      then err (conflict Code.visit_invitation_not_pending)
      else ok (
        drop_reservation current (write_invitation current.id (answered answer now) db),
        publish_invitation current,
      )

-- The identifiers of the rows that an acceptance creates.
pub record NewIds : Type 0 where
  pub session : ℕ
  pub host_participant : ℕ
  pub visitor_participant : ℕ
  pub topic : ℕ

abbrev pub is_accepted : InviteStatus → Bool
is_accepted InviteStatus.accepted = true
is_accepted _ = false

abbrev pub is_random : VisitMode → Bool
is_random random_host_topic = true
is_random _ = false

-- Whether the owner's reservation is the one of the invitation.
abbrev pub holds_invitation : Invitation → Option Reservation → Bool
holds_invitation i none = false
holds_invitation i (some r) = elim r.kind [
  | outgoing_invitation ↦ is_id r.invitation_id i.id
  | _ ↦ false
]

-- The pack that the invitation refers to, if the Companion and the pack still serve.
unfoldable pub invited_pack : Invitation → Db → Result AssetPack
invited_pack i db = do
  companion ← or_fail (find_companion i.companion_id db) refused
  guard (companion.published && companion.friends_only) refused
  ref ← or_fail i.pack_ref_id refused
  pack ← or_fail (find_pack ref db) refused
  guard
      (pack.id == i.pack_snapshot_id
        && pack.companion_id == i.companion_id
        && is_kept_pack pack.status)
      refused
  guard (supports_visual_visit pack) (conflict Code.visit_visual_assets_unavailable)
  ok pack
  where
    refused : Error
    refused = conflict Code.visit_invitation_not_available

-- The host's Companion in the session: of a random visit, the one that the topic belongs to, which
-- has to be the present one.
unfoldable pub host_companion_for : Invitation → ℕ → Result ℕ
host_companion_for i present = if not (is_random i.mode) then ok present else do
  topic ← or_fail i.topic (conflict Code.visit_invitation_not_available)
  guard (present == topic.owner_companion_id) (conflict Code.visit_host_companion_changed)
  ok topic.owner_companion_id

-- That Companion, and the host's pack.
unfoldable pub host_side : Invitation → Db → Result (ℕ × AssetPack)
unfolding host_companion_for
host_side i db = do
  (companion, pack) ←
      or_fail (load_current_snapshot is_active i.host_user_id db)
        (conflict Code.visit_invitation_not_available)
  host_companion ← host_companion_for i companion.id
  ok (host_companion, pack)

abbrev pub new_session : NewIds → Invitation → ℕ → AssetPack → ℕ → Session
new_session ids i host_companion pack now = record {
  id = ids.session;
  invitation_id = i.id;
  visitor_owner_user_id = i.visitor_owner_user_id;
  host_user_id = i.host_user_id;
  host_companion_id = some host_companion;
  companion_id = i.companion_id;
  pack_snapshot_id = i.pack_snapshot_id;
  pack_ref_id = some pack.id;
  mode = i.mode;
  room_capacity = 3;
  current_topic_sequence = 1;
  state = SessionState.preparing;
  visitor_owner_ready_at = none;
  host_ready_at = none;
  visitor_owner_seen_at = none;
  host_seen_at = none;
  ready_at = none;
  started_at = none;
  ending_at = none;
  ended_at = none;
  end_reason = none;
  created_at = now;
}

abbrev pub new_participant : ℕ → ℕ → ℕ → ℕ → ℕ → ℕ → Role → ℕ → Participant
new_participant id session user companion snapshot ref role now = record {
  id = id;
  session_id = session;
  user_id = user;
  companion_id = companion;
  pack_snapshot_id = snapshot;
  pack_ref_id = some ref;
  role = role;
  state = ParticipantState.preparing;
  ready_at = none;
  seen_at = some now;
  joined_at = now;
  left_at = none;
}

-- `visitSession.create`, under the unique index on the invitation.
unfoldable pub create_session : Session → Db → Result Db
create_session s db =
    if any (λ t. t.invitation_id == s.invitation_id) db.sessions
    then err (database Code.unique_violation)
    else ok (record db { sessions = s ∷ db.sessions })

abbrev pub seat : ℕ → Reservation → Reservation
seat session r = record r {
  kind = session_participant;
  invitation_id = none;
  session_id = some session;
  expires_at = none;
}

abbrev pub host_reservation : ℕ → ℕ → ℕ → Reservation
host_reservation session host companion = record {
  user_id = host;
  companion_id = companion;
  kind = session_participant;
  invitation_id = none;
  session_id = some session;
  join_request_id = none;
  expires_at = none;
}

-- The other pending invitations of the host.
abbrev pub is_displaced : Invitation → Invitation → Bool
is_displaced accepted i =
    i.host_user_id == accepted.host_user_id
    && is_pending_invite i.status
    && not (i.id == accepted.id)

unfoldable pub displace : Invitation → ℕ → Db → Db
displace accepted now db = record db {
  invitations = update_where (is_displaced accepted) (answered declines now) db.invitations;
  reservations =
      delete_where
        (λ r. any (λ i. is_displaced accepted i && is_id r.invitation_id i.id) db.invitations)
        db.reservations;
}

unfoldable pub open_first_topic : ℕ → ℕ → Option TopicSnapshot → ℕ → Db → Db
open_first_topic id session none now db = db
open_first_topic id session (some t) now db = record db {
  room_topics =
      record {
        id = id;
        session_id = session;
        sequence = 1;
        state = TopicState.active;
        owner_companion_id = t.owner_companion_id;
        created_by_user_id = t.created_by_user_id;
        title = t.title;
        summary = t.summary;
        source_url = t.source_url;
        share_scope = t.share_scope;
        allow_recipient_save = t.allow_recipient_save;
        minimum_turns = 3;
        maximum_turns = 6;
        started_at = some now;
        completed_at = none;
      }
      ∷ db.room_topics;
}

abbrev pub publish_all : List Invitation → Publications
publish_all [] = []
publish_all (i ∷ is) = publish_invitation i ++ publish_all is

abbrev pub accepted_now : ℕ → Invitation → Invitation
accepted_now now i = record i {
  status = InviteStatus.accepted;
  responded_at = some now;
  pack_ref_id = none;
}

-- The writes of an acceptance, after its tests.
unfoldable pub open_session : NewIds → Invitation → AssetPack → ℕ → AssetPack → ℕ → Db → Result Db
unfolding displace open_first_topic
open_session ids i pack host_companion host_pack now db = do
  db1 ←
      create_session (new_session ids i host_companion pack now)
        (write_invitation i.id (accepted_now now) db)
  db2 ←
      create_participant
        (new_participant ids.host_participant ids.session i.host_user_id host_companion host_pack.id
          host_pack.id Role.host now)
        db1
  db3 ←
      create_participant
        (new_participant ids.visitor_participant ids.session i.visitor_owner_user_id i.companion_id
          i.pack_snapshot_id pack.id Role.visitor now)
        db2
  db4 ←
      create_reservation (host_reservation ids.session i.host_user_id host_companion)
        (rewrite_reservation i.visitor_owner_user_id (seat ids.session) db3)
  ok (open_first_topic ids.topic ids.session (told_topic i.topic) now (displace i now db4))

-- What a request leaves behind when it may fail after its writes are kept.
abbrev pub Outcome : Type 0
Outcome = Db × Publications × Option Error

unfoldable pub accept_pending : NewIds → Invitation → ℕ → Db → Result Outcome
accept_pending ids i now db = do
  assert_eligible i.visitor_owner_user_id i.host_user_id db
  guard (holds_invitation i (find_reservation i.visitor_owner_user_id db))
      (conflict Code.visit_reservation_changed)
  assert_no_reservation i.host_user_id db
  assert_visitor_owner_available i.visitor_owner_user_id db
  assert_host_capacity i.host_user_id db
  pack ← invited_pack i db
  (host_companion, host_pack) ← host_side i db
  db' ← open_session ids i pack host_companion host_pack now db
  ok (
    db',
    publish_invitation i
        ++ publish_all (where_ (is_displaced i) db.invitations)
        ++ publish_session visit_session_created (new_session ids i host_companion pack now),
    none,
  )

-- An invitation that has expired is closed, and the request fails after that.
unfoldable pub expire_on_answer : Invitation → ℕ → Db → Outcome
expire_on_answer i now db = (
  drop_reservation i (
      write_invitation i.id
        (λ j. record j {
          status = InviteStatus.expired;
          responded_at = some now;
          pack_ref_id = none;
        })
        db),
  publish_invitation i,
  some (conflict Code.visit_invitation_expired),
)

unfoldable pub accept_invitation : NewIds → ℕ → ℕ → ℕ → Db → Result Outcome
unfolding accept_pending expire_on_answer
accept_invitation ids host id now db = do
  invitation ← or_fail (find_invitation id db) (not_found Code.visit_invitation_not_found)
  guard (invitation.host_user_id == host) (forbidden Code.visit_invitation_not_host)
  if is_accepted invitation.status && any (λ s. s.invitation_id == invitation.id) db.sessions
      then ok (db, publish_invitation invitation, none)
      else if not (is_pending_invite invitation.status)
      then err (conflict Code.visit_invitation_not_pending)
      else if leb invitation.expires_at now
      then ok (expire_on_answer invitation now db)
      else accept_pending ids invitation now db
