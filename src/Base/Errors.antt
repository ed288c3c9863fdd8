-- ===== src/Base/Errors.antt =====
-- The exceptions of the handlers, and the result of a request.
use mathlib.Core.Path.{◌≡◌, refl}
use mathlib.Core.Bool.{Bool, true, false}
use mathlib.Core.Logic.{◌⊎◌, inl, inr}
use mathlib.Core.Option.{Option, none, some}

-- The `code` of an exception's body.
pub data Code : Type 0 where
  cannot_friend_self friendship_already_exists friend_request_already_exists : Code
  friend_request_not_found friend_request_not_pending friendship_not_found : Code
  social_action_not_allowed user_not_found social_uid_not_found invalid_friend_code : Code
  visit_invitation_not_available visit_visual_assets_unavailable visit_invitation_not_found : Code
  visit_invitation_not_host visit_invitation_not_owned visit_invitation_not_pending : Code
  visit_invitation_already_exists visit_invitation_expired visit_reservation_changed : Code
  visit_reservation_exists visit_host_companion_changed visit_session_not_found : Code
  visit_session_not_participant visit_session_not_preparing visit_session_not_ready : Code
  visit_session_state_changed visit_session_already_active visit_host_has_active_guests : Code
  visit_host_companion_away visit_host_capacity_reached visit_feature_unavailable : Code
  visit_topic_not_available visit_topic_required random_visit_not_available : Code
  random_visit_topic_not_available visit_asset_not_available visit_companion_reserved : Code
  visit_room_not_joinable visit_room_already_participant visit_room_capacity_reached : Code
  visit_join_requests_disabled visit_participant_unavailable visit_room_companion_duplicate : Code
  visit_join_request_exists visit_join_request_not_found visit_join_request_not_host : Code
  visit_join_request_not_pending visit_join_request_expired visit_join_request_not_available : Code
  visit_room_not_available visit_participant_state_changed visit_host_must_end_room : Code
  admin_target_not_found last_superadmin admin_reason_required admin_actor_required : Code
  superadmin_required : Code
  visit_session_not_active visit_participant_not_ready visit_share_required : Code
  visit_topic_state_changed visit_turn_order_invalid visit_turn_limit_reached : Code
  visit_turn_invalid visit_session_not_completed visit_shared_moment_too_short : Code
  visit_shared_moment_race visit_social_not_available visit_share_not_owner : Code
  visit_share_state_changed visit_share_invalid rate_limited : Code
  invalid_credentials account_suspended invalid_refresh_token device_session_mismatch : Code
  unauthenticated : Code
  companion_not_found companion_not_owned companion_not_available : Code
  asset_pack_not_found asset_pack_not_owned asset_pack_not_complete : Code
  asset_pack_state_changed asset_pack_not_uploadable asset_pack_already_exists : Code
  asset_pack_storage_quota_exceeded asset_pack_manifest_invalid asset_pack_file_invalid : Code
  asset_pack_file_missing asset_upload_urls_active asset_upload_session_expired : Code
  asset_storage_unavailable asset_integrity_failed asset_verification_retryable : Code
  asset_storage_source_etag_missing : Code
  account_deletion_pending shareable_topic_not_found shareable_topic_not_owned : Code
  shareable_topic_invalid shareable_topic_expired : Code
  random_visit_companion_not_ready random_visit_topic_required : Code
  unique_violation : Code

-- The Nest exception classes, an error of the database, and a plain `Error`.
pub data Error : Type 0 where
  not_found conflict forbidden bad_request unauthorized unavailable too_many_requests database
        internal :
      Code → Error

-- What a request comes to.
pub data Result {ℓ} (A : Type ℓ) : Type ℓ where
  err : Error → Result A
  ok : A → Result A

-- `if (!row) throw e`
abbrev pub or_fail {ℓ} : {A : Type ℓ} → Option A → Error → Result A
or_fail none e = err e
or_fail (some a) e = ok a

-- `if (!test) throw e`
abbrev pub guard : Bool → Error → Result (Unit {0})
guard false problem = err problem
guard true _ = ok tt

-- `await`, where the rest is skipped after an exception.
infixl 5 ◌>>=◌ ◌>>◌
abbrev pub ◌>>=◌ {ℓ κ} : {A : Type ℓ} {B : Type κ} → Result A → (A → Result B) → Result B
err problem >>= rest = err problem
ok value >>= rest = rest value

abbrev pub ◌>>◌ {ℓ κ} : {A : Type ℓ} {B : Type κ} → Result A → Result B → Result B
first >> rest = first >>= λ value. rest

pub Result-cases {ℓ} :
    {A : Type ℓ} (m : Result A) → ((a : A) × (m ≡ ok a)) ⊎ ((e : Error) × (m ≡ err e))
Result-cases (ok a) = inl (a, refl)
Result-cases (err e) = inr (e, refl)

-- What a request that succeeds went through.
pub >>=-eq-ok {ℓ κ} :
    {A : Type ℓ} {B : Type κ} {b : B} (m : Result A) (rest : A → Result B)
    → (m >>= rest) ≡ ok b
    → (value : A) × (m ≡ ok value) × (rest value ≡ ok b)
>>=-eq-ok (err problem) rest h = cc
>>=-eq-ok (ok value) rest h = (value, refl, h)
