-- ===== src/VisitSocial.antt =====
-- src/visit-social/visit-social.service.ts: the tables of the turns that the Companions take in a
-- visit (prisma/schema.prisma: VisitShareEnvelope, VisitTurn, VisitSharedMoment,
-- VisitRelationshipSettlement, CompanionRelationship), beside those of the visits. The columns
-- with tags, the texts of a shared moment and createdAt are left out.
pub mod Text
pub mod Rooms
pub mod Relationships
pub mod Moments
pub mod Turns
pub mod Shares
pub mod Ledger
pub mod Steps
pub mod Settling
pub mod Numbering
pub mod Histories
pub mod Speaking
pub mod Limits
pub mod Topics
use Prim.Native.String.{String}
use our_companion_network.Base.{ℕ, Option, List}
use our_companion_network.Visit.{Db}

-- VISIT_SOCIAL_INTENTS
pub data Intent : Type 0 where
  greet ask answer share react agree disagree comfort pause leave : Intent

-- VISIT_SOCIAL_EMOTIONS
pub data Emotion : Type 0 where
  neutral gentle curious happy thoughtful concerned : Emotion

pub record Share : Type 0 where
  pub id : ℕ
  pub session_id : ℕ
  pub room_topic_id : Option ℕ
  pub title : String
  pub summary : String
  pub source_url : Option String
  pub created_by_user_id : ℕ

pub record Turn : Type 0 where
  pub id : ℕ
  pub session_id : ℕ
  pub sequence : ℕ
  pub client_turn_id : ℕ
  pub sender_user_id : ℕ
  pub room_topic_id : Option ℕ
  pub intent : Intent
  pub message : String
  pub emotion : Option Emotion
  pub topic : Option String

-- The key is `session_id`.
pub record Moment : Type 0 where
  pub session_id : ℕ
  pub turn_count : ℕ

pub record Settlement : Type 0 where
  pub session_id : ℕ
  pub companion_low_id : ℕ
  pub companion_high_id : ℕ
  pub turn_count : ℕ

pub data Stage : Type 0 where
  acquainted familiar friendly close trusted : Stage

-- The scores are hundredths.
pub record Relationship : Type 0 where
  pub companion_low_id : ℕ
  pub companion_high_id : ℕ
  pub stage : Stage
  pub visit_count : ℕ
  pub interaction_count : ℕ
  pub total_turn_count : ℕ
  pub rapport_score : ℕ
  pub topic_affinity_score : ℕ

pub record Store : Type 0 where
  pub db : Db
  pub shares : List Share
  pub turns : List Turn
  pub moments : List Moment
  pub settlements : List Settlement
  pub relationships : List Relationship
