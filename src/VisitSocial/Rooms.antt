-- ===== src/VisitSocial/Rooms.antt =====
-- src/visit-social/visit-social.service.ts: who may read a session, who speaks in it, and whose
-- turn is next. The branches for a database without participants and topics are left out.
use our_companion_network.Base.{
  ℕ, zero, suc, ◌%◌, Bool, true, false, not, ◌&&◌, ◌||◌, Option, none, some, List, [], ◌∷◌, map,
  ◌==◌, leb, ltb, find_first, all, where_, length, sort, if◌then◌else◌, Code, not_found, forbidden,
  conflict, Result, ok, ◌>>=◌, ◌>>◌, or_fail, guard,
}
use our_companion_network.Social.{is_eligible}
use our_companion_network.Events.{Event, Publications}
use our_companion_network.Visit.{
  Session, SessionState, Participant, Role, RoomTopic, TopicState, Db,
}
use our_companion_network.Visit.Rows.{is_active_session, is_present, find_session, find_participant}
use our_companion_network.Visit.Room.{is_active_participant}
use our_companion_network.VisitSocial.{Share, Turn, Moment, Store}

-- ROOM_MAX_TURNS, LEGACY_MAX_TURNS
abbrev pub room_max_turns : ℕ
room_max_turns = 15

abbrev pub legacy_max_turns : ℕ
legacy_max_turns = 12

abbrev pub is_present_row : Option Participant → Bool
is_present_row none = false
is_present_row (some p) = is_present p.state

unfoldable pub require_participant_session : ℕ → ℕ → Db → Result Session
require_participant_session user id db = do
  session ← or_fail (find_session id db) (not_found Code.visit_session_not_found)
  guard
      (session.visitor_owner_user_id == user
        || session.host_user_id == user
        || is_present_row (find_participant id user db))
      (forbidden Code.visit_session_not_participant)
  ok session

-- `participantRank`
abbrev pub participant_rank : Role → ℕ
participant_rank Role.visitor = 0
participant_rank Role.host = 1
participant_rank Role.guest = 2

abbrev pub less : ℕ → ℕ → Bool → Bool
less a b rest = if a == b then rest else ltb a b

abbrev pub speaks_before : Participant → Participant → Bool
speaks_before p q =
    less (participant_rank p.role) (participant_rank q.role)
      (less p.joined_at q.joined_at (ltb p.id q.id))

unfoldable pub load_participants : ℕ → Db → List Participant
load_participants session db =
    sort speaks_before (where_ (λ p. p.session_id == session) db.participants)

unfoldable pub load_active_participants : ℕ → Db → List Participant
load_active_participants session db =
    sort speaks_before
      (where_ (λ p. p.session_id == session && is_active_participant p.state) db.participants)

-- `new Set(ids)`: each id once, where it is first.
abbrev pub unique : List ℕ → List ℕ
unique [] = []
unique (x ∷ xs) = x ∷ where_ (λ y. not (y == x)) (unique xs)

-- `assertRoomEligible`: each two users pass `assertEligible`.
abbrev pub are_all_eligible : List ℕ → Db → Bool
are_all_eligible [] db = true
are_all_eligible (x ∷ xs) db = all (λ y. is_eligible x y db.social) xs && are_all_eligible xs db

unfoldable pub assert_room_eligible : List ℕ → Db → Result (Unit {0})
assert_room_eligible users db =
    guard (are_all_eligible (unique users) db) (conflict Code.visit_social_not_available)

-- `findIndex`
abbrev pub find_index : ℕ → List Participant → Option ℕ
find_index user [] = none
find_index user (p ∷ ps) =
    let rest = find_index user ps in
    if p.user_id == user then some 0 else elim rest [ some i ↦ some (suc i) | none ↦ none ]

abbrev pub get_elem? : List Participant → ℕ → Option ℕ
get_elem? [] n = none
get_elem? (p ∷ ps) zero = some p.user_id
get_elem? (p ∷ ps) (suc n) = get_elem? ps n

abbrev pub index_after : Option ℕ → ℕ
index_after none = 0
index_after (some i) = suc i

abbrev pub last_sequence : Option Turn → ℕ
last_sequence none = 0
last_sequence (some t) = t.sequence

-- The participant after the one who spoke last, in a circle.
abbrev pub turn_after : List Participant → Option Turn → Option ℕ
turn_after ps none = get_elem? ps 0
turn_after ps (some t) = get_elem? ps (index_after (find_index t.sender_user_id ps) % length ps)

unfoldable pub next_actor : SessionState → List Participant → Option Turn → Option ℕ
next_actor state ps last =
    if not (is_active_session state) || length ps == 0 || leb room_max_turns (last_sequence last)
    then none
    else turn_after ps last

abbrev pub is_active_topic : RoomTopic → Bool
is_active_topic t = elim t.state [ TopicState.active ↦ true | _ ↦ false ]

abbrev pub is_queued_topic : RoomTopic → Bool
is_queued_topic t = elim t.state [ TopicState.queued ↦ true | _ ↦ false ]

unfoldable pub load_room_topics : ℕ → Db → List RoomTopic
load_room_topics session db =
    sort (λ t u. ltb t.sequence u.sequence) (where_ (λ t. t.session_id == session) db.room_topics)

-- `readShares`, `readMoments`
unfoldable pub find_share : ℕ → Store → Option Share
find_share session st = find_first (λ s. s.session_id == session) st.shares

unfoldable pub find_moment : ℕ → Store → Option Moment
find_moment session st = find_first (λ m. m.session_id == session) st.moments

-- `publish`
abbrev pub publish_turns : ℕ → Event → Db → Publications
publish_turns session event db =
    map (λ user. (user, event))
      (unique (map (λ p. p.user_id) (where_ (λ p. p.session_id == session) db.participants)))
