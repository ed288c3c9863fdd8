-- ===== src/Events.antt =====
-- src/common/social-event-publisher.service.ts: what a handler publishes, as a list of recipients
-- and events.
use our_companion_network.Base.{ℕ, List}
use our_companion_network.Social.{RequestStatus}
use our_companion_network.Visit.{SessionState}

-- The names of the events, with their payloads.
pub data Event : Type 0 where
  friend_request_created : (request : ℕ) → Event
  friend_request_updated : (request : ℕ) → RequestStatus → Event
  friendship_created friendship_removed block_created block_removed : (user : ℕ) → Event
  visit_invitation_created visit_invitation_updated : (invitation : ℕ) → Event
  visit_session_created visit_session_updated visit_session_ended :
      (session : ℕ) → SessionState → Event
  visit_join_request_created visit_join_request_updated : (session request : ℕ) → Event
  visit_participant_joined visit_participant_ready visit_participant_left :
      (session participant : ℕ) → Event
  visit_turn_created : (session sequence : ℕ) → Event
  companion_profile_updated companion_profile_unpublished : (companion : ℕ) → Event
  companion_topic_updated companion_topic_revoked : (companion topic : ℕ) → Event
  companion_asset_pack_activated : (companion pack : ℕ) → Event
  visit_topic_changed visit_shared_moment_created visit_share_updated : (session : ℕ) → Event

abbrev pub Publications : Type 0
Publications = List (ℕ × Event)
