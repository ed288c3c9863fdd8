-- ===== src/Examples/Invitations.antt =====
-- The theorems on invitations, rooms and roles at concrete calls.
use our_companion_network.Base.{
  ℕ, ◌≡◌, refl, [], ◌∷◌, none, some, ok, err, true, false, any, Code, conflict, count_where, Result,
}
use our_companion_network.Social.{has_friendship, is_blocked, are_available, is_eligible}
use our_companion_network.Visit.{
  Db, Companion, AssetPack, PackStatus, Invitation, InviteStatus, Reservation, outgoing_invitation,
  standard,
}
use our_companion_network.Visit.Rows.{find_reservation}
use our_companion_network.Visit.Snapshots.{
  assert_no_reservation, load_current_snapshot, supports_visual_visit, required_animations,
  create_reservation, create_participant,
}
use our_companion_network.Visit.Invitations.{assert_host_capacity, assert_visitor_owner_available}
use our_companion_network.Visit.Invitations.Answers.{
  NewIds, Outcome, accept_invitation, accept_pending, respond_to_invitation, declines, is_displaced,
  invited_pack, host_side, open_session, create_session,
}
use our_companion_network.Visit.Invitations.Capacity.{is_hosted_by, accept_invitation_hosts_once}
use our_companion_network.Visit.Invitations.Withdrawals.{answered_cannot_be_accepted}
use our_companion_network.Examples.{friends, empty_db, db_of, publications_of}

abbrev companion : ℕ → Companion
companion n = record {
  id = n;
  owner_user_id = n;
  published = true;
  friends_only = true;
  random_visits_enabled = true;
  random_visits_by_friends = true;
  allow_join_requests = true;
  active_asset_pack_id = some n;
}

abbrev pack : ℕ → AssetPack
pack n = record {
  id = n;
  companion_id = n;
  status = PackStatus.active;
  animations = some required_animations;
  manifest_hash = n;
  total_bytes = 1000;
  failure_code = none;
  last_upload_url_issued_at = none;
  staging_cleaned_at = none;
  created_at = 100;
  updated_at = 100;
  completed_at = some 100;
  activated_at = some 100;
  superseded_at = none;
}

-- User 1 has invited themselves to user 2.
abbrev invitation : Invitation
invitation = record {
  id = 40;
  visitor_owner_user_id = 1;
  host_user_id = 2;
  companion_id = 1;
  pack_snapshot_id = 1;
  pack_ref_id = some 1;
  mode = standard;
  topic = none;
  status = InviteStatus.pending;
  expires_at = 9000;
  responded_at = none;
  cancelled_at = none;
}

abbrev reservation : Reservation
reservation = record {
  user_id = 1;
  companion_id = 1;
  kind = outgoing_invitation;
  invitation_id = some 40;
  session_id = none;
  join_request_id = none;
  expires_at = some 9000;
}

abbrev invited : Db
invited = record (empty_db friends) {
  companions = companion 1 ∷ companion 2 ∷ [];
  packs = pack 1 ∷ pack 2 ∷ [];
  invitations = invitation ∷ [];
  reservations = reservation ∷ [];
}

abbrev new_ids : NewIds
new_ids = record { session = 50; host_participant = 61; visitor_participant = 62; topic = 70 }

abbrev outcome_of : Result Outcome → Outcome
outcome_of (ok out) = out
outcome_of (err e) = (invited, [], some e)

abbrev accepted : Outcome
accepted = outcome_of (accept_invitation new_ids 2 40 5000 invited)

accept_invitation_hosts_once_example :
    (count_where (is_hosted_by 2) accepted.0.sessions ≡ 1)
    × (any (is_displaced invitation) accepted.0.invitations ≡ false)
unfolding accept_invitation accept_pending has_friendship is_blocked are_available is_eligible
    find_reservation assert_no_reservation assert_visitor_owner_available assert_host_capacity
    invited_pack supports_visual_visit host_side load_current_snapshot open_session create_session
    create_participant create_reservation
accept_invitation_hosts_once_example =
    accept_invitation_hosts_once new_ids 2 40 5000 invitation invited accepted refl refl refl refl
      refl

abbrev declined : Db
declined = db_of invited (respond_to_invitation 2 40 declines 3000 invited)

answered_cannot_be_accepted_example :
    accept_invitation new_ids 2 40 4000 declined ≡ err (conflict Code.visit_invitation_not_pending)
unfolding respond_to_invitation
answered_cannot_be_accepted_example =
    answered_cannot_be_accepted new_ids 2 40 3000 4000 declines invitation invited declined
      (publications_of (respond_to_invitation 2 40 declines 3000 invited)) refl refl refl
