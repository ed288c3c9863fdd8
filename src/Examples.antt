-- ===== src/Examples.antt =====
-- A small world on which the theorems are applied.
pub mod Friends
pub mod Lookups
pub mod Visits
pub mod Invitations
pub mod Rooms
pub mod Roles
pub mod Turns
pub mod Topics
pub mod Identity
pub mod Limits
pub mod Packs
use our_companion_network.Base.{ℕ, Option, none, some, List, [], ◌∷◌, Result, ok, err, refl}
use our_companion_network.Social.{Social, User, active, Friendship}
use our_companion_network.Events.{Publications}
use our_companion_network.Visit.{Db, Session, SessionState, standard}

abbrev pub user : ℕ → User
user n = record {
  id = n;
  uid = "OC-ABCD1234";
  friend_code = "ABCD1234";
  account_status = active;
  deletion_requested_at = none;
  active_companion_id = some n;
}

-- Three users who do not know each other.
abbrev pub strangers : Social
strangers = record {
  users = user 1 ∷ user 2 ∷ user 3 ∷ [];
  friendships = [];
  requests = [];
  blocks = [];
}

abbrev pub friends : Social
friends = record strangers {
  friendships = record { user_id = 1; friend_id = 2 } ∷ record { user_id = 2; friend_id = 1 } ∷ [];
}

abbrev pub empty_db : Social → Db
empty_db s = record {
  social = s;
  companions = [];
  packs = [];
  asset_files = [];
  topics = [];
  invitations = [];
  sessions = [];
  participants = [];
  reservations = [];
  join_requests = [];
  room_topics = [];
}

abbrev pub db_of : Db → Result (Db × Publications) → Db
db_of db (ok (db', _)) = db'
db_of db (err _) = db

abbrev pub publications_of : Result (Db × Publications) → Publications
publications_of (ok (_, ps)) = ps
publications_of (err _) = []

-- User 1 visits user 2; both have just been seen.
abbrev pub preparing_session : Session
preparing_session = record {
  id = 50;
  invitation_id = 40;
  visitor_owner_user_id = 1;
  host_user_id = 2;
  host_companion_id = some 2;
  companion_id = 1;
  pack_snapshot_id = 11;
  pack_ref_id = some 11;
  mode = standard;
  room_capacity = 4;
  current_topic_sequence = 0;
  state = SessionState.preparing;
  visitor_owner_ready_at = none;
  host_ready_at = none;
  visitor_owner_seen_at = some 1000;
  host_seen_at = some 1000;
  ready_at = none;
  started_at = none;
  ending_at = none;
  ended_at = none;
  end_reason = none;
  created_at = 1000;
}
