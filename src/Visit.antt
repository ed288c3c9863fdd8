-- ===== src/Visit.antt =====
-- The tables of the visits (prisma/schema.prisma: NetworkCompanion, CompanionAssetPack,
-- ShareableTopic, VisitInvitation, VisitSession, VisitReservation, VisitSessionParticipant,
-- VisitJoinRequest, VisitRoomTopic) with the columns that the services read or write. A time is a
-- number of milliseconds. The columns `createdAt` of most tables and `updatedAt` of all but
-- the topics and the asset packs, which only order lists, are left out.
pub mod Rows
pub mod Sessions
pub mod Ending
pub mod Timeouts
pub mod Snapshots
pub mod Invitations
pub mod Room
use our_companion_network.Base.{
  ℕ, Bool, true, false, not, ◌&&◌, ◌||◌, Option, none, some, List, ◌==◌, is_id, any, find_first,
  update_where,
}
use our_companion_network.Social.{Social, User}
use Prim.Native.String.{String}

pub data SessionState : Type 0 where
  preparing ready active ending ended cancelled failed : SessionState

-- The status of an invitation or of a join request.
pub data InviteStatus : Type 0 where
  pending accepted declined cancelled expired : InviteStatus

pub data ParticipantState : Type 0 where
  preparing ready active left : ParticipantState

pub data Role : Type 0 where
  visitor host guest : Role

pub data ReservationKind : Type 0 where
  outgoing_invitation session_participant join_request : ReservationKind

pub data TopicState : Type 0 where
  queued active completed : TopicState

pub data VisitMode : Type 0 where
  standard random_host_topic visitor_topic : VisitMode

pub data ShareScope : Type 0 where
  summary_only summary_and_source : ShareScope

pub data PackStatus : Type 0 where
  draft uploading verifying ready active superseded failed : PackStatus
  deleting abandoning abandoned : PackStatus

-- The `failureCode` of an asset pack.
pub data PackFailure : Type 0 where
  integrity_failed verification_retryable cleanup_failed : PackFailure
  staging_cleanup_running staging_cleanup_retryable : PackFailure

pub data EndReason : Type 0 where
  visitor_owner_ended host_ended friendship_removed user_blocked : EndReason
  session_timeout preparation_timeout heartbeat_timeout : EndReason
  social_topics_completed social_turn_limit : EndReason
  other_reason : String → EndReason

pub record Companion : Type 0 where
  pub id : ℕ
  pub owner_user_id : ℕ
  pub published : Bool
  pub friends_only : Bool
  pub random_visits_enabled : Bool
  pub random_visits_by_friends : Bool
  pub allow_join_requests : Bool
  pub active_asset_pack_id : Option ℕ

-- `animations`: the names in the manifest, `none` for a manifest of another shape. Hashes are only
-- compared, so they are numbers.
pub record AssetPack : Type 0 where
  pub id : ℕ
  pub companion_id : ℕ
  pub status : PackStatus
  pub animations : Option (List String)
  pub manifest_hash : ℕ
  pub total_bytes : ℕ
  pub failure_code : Option PackFailure
  pub last_upload_url_issued_at : Option ℕ
  pub staging_cleaned_at : Option ℕ
  pub created_at : ℕ
  pub updated_at : ℕ
  pub completed_at : Option ℕ
  pub activated_at : Option ℕ
  pub superseded_at : Option ℕ

pub record AssetFile : Type 0 where
  pub id : ℕ
  pub asset_pack_id : ℕ
  pub relative_path : String
  pub mime_type : String
  pub size_bytes : ℕ
  pub sha256 : ℕ
  pub uploaded : Bool
  pub verified_at : Option ℕ

pub record ShareableTopic : Type 0 where
  pub id : ℕ
  pub companion_id : ℕ
  pub title : String
  pub summary : String
  pub source_url : Option String
  pub for_friends : Bool
  pub share_scope : ShareScope
  pub allow_recipient_save : Bool
  pub eligible_for_random_visit : Bool
  pub expires_at : Option ℕ
  pub revoked_at : Option ℕ
  pub last_used_at : Option ℕ
  pub updated_at : ℕ

-- The copy of a topic that an invitation or a join request carries.
pub record TopicSnapshot : Type 0 where
  pub topic_ref_id : ℕ
  pub owner_companion_id : ℕ
  pub created_by_user_id : ℕ
  pub title : String
  pub summary : String
  pub source_url : Option String
  pub share_scope : ShareScope
  pub allow_recipient_save : Bool

pub record Invitation : Type 0 where
  pub id : ℕ
  pub visitor_owner_user_id : ℕ
  pub host_user_id : ℕ
  pub companion_id : ℕ
  pub pack_snapshot_id : ℕ
  pub pack_ref_id : Option ℕ
  pub mode : VisitMode
  pub topic : Option TopicSnapshot
  pub status : InviteStatus
  pub expires_at : ℕ
  pub responded_at : Option ℕ
  pub cancelled_at : Option ℕ

pub record Session : Type 0 where
  pub id : ℕ
  pub invitation_id : ℕ
  pub visitor_owner_user_id : ℕ
  pub host_user_id : ℕ
  pub host_companion_id : Option ℕ
  pub companion_id : ℕ
  pub pack_snapshot_id : ℕ
  pub pack_ref_id : Option ℕ
  pub mode : VisitMode
  pub room_capacity : ℕ
  pub current_topic_sequence : ℕ
  pub state : SessionState
  pub visitor_owner_ready_at : Option ℕ
  pub host_ready_at : Option ℕ
  pub visitor_owner_seen_at : Option ℕ
  pub host_seen_at : Option ℕ
  pub ready_at : Option ℕ
  pub started_at : Option ℕ
  pub ending_at : Option ℕ
  pub ended_at : Option ℕ
  pub end_reason : Option EndReason
  pub created_at : ℕ

pub record Participant : Type 0 where
  pub id : ℕ
  pub session_id : ℕ
  pub user_id : ℕ
  pub companion_id : ℕ
  pub pack_snapshot_id : ℕ
  pub pack_ref_id : Option ℕ
  pub role : Role
  pub state : ParticipantState
  pub ready_at : Option ℕ
  pub seen_at : Option ℕ
  pub joined_at : ℕ
  pub left_at : Option ℕ

-- The key is `user_id`: a user holds one reservation at most.
pub record Reservation : Type 0 where
  pub user_id : ℕ
  pub companion_id : ℕ
  pub kind : ReservationKind
  pub invitation_id : Option ℕ
  pub session_id : Option ℕ
  pub join_request_id : Option ℕ
  pub expires_at : Option ℕ

pub record JoinRequest : Type 0 where
  pub id : ℕ
  pub session_id : ℕ
  pub requester_user_id : ℕ
  pub companion_id : ℕ
  pub pack_snapshot_id : ℕ
  pub pack_ref_id : Option ℕ
  pub status : InviteStatus
  pub topic : Option TopicSnapshot
  pub expires_at : ℕ
  pub responded_at : Option ℕ
  pub cancelled_at : Option ℕ

pub record RoomTopic : Type 0 where
  pub id : ℕ
  pub session_id : ℕ
  pub sequence : ℕ
  pub state : TopicState
  pub owner_companion_id : ℕ
  pub created_by_user_id : ℕ
  pub title : String
  pub summary : String
  pub source_url : Option String
  pub share_scope : ShareScope
  pub allow_recipient_save : Bool
  pub minimum_turns : ℕ
  pub maximum_turns : ℕ
  pub started_at : Option ℕ
  pub completed_at : Option ℕ

pub record Db : Type 0 where
  pub social : Social
  pub companions : List Companion
  pub packs : List AssetPack
  pub asset_files : List AssetFile
  pub topics : List ShareableTopic
  pub invitations : List Invitation
  pub sessions : List Session
  pub participants : List Participant
  pub reservations : List Reservation
  pub join_requests : List JoinRequest
  pub room_topics : List RoomTopic
