-- ===== src/Visit/Snapshots.antt =====
-- What an invitation or a join request copies at the moment it is made: the Companion and the
-- asset pack of a user (`loadCurrentSnapshot...` of src/visit/visit.service.ts and
-- src/visit/visit-room.service.ts, supportsVisualVisit of src/companion/asset-manifest.ts), and a
-- topic; and the tests and writes on reservations and participants that both services make.
use our_companion_network.Base.{
  ℕ, Bool, true, false, not, ◌&&◌, ◌||◌, Option, none, some, List, [], ◌∷◌, ◌==◌, ltb, find_first,
  any, all, update_where, if◌then◌else◌, Code, conflict, database, Result, ok, err, guard,
}
use our_companion_network.Social.{User}
use our_companion_network.Visit.{
  Companion, AssetPack, PackStatus, ShareableTopic, TopicSnapshot, ShareScope, summary_and_source,
  Reservation, Participant, Db,
}
use Prim.Native.String.{String}
use text.Mathlib.Text.{◌==◌ as ◌==ₛ◌}

-- VISUAL_VISIT_REQUIRED_ANIMATIONS
abbrev pub required_animations : List String
required_animations =
    "Idle_Neutral" ∷ "Enter" ∷ "Leave" ∷ "Walk_Left" ∷ "Walk_Right" ∷ "Walk_Up" ∷ "Walk_Down" ∷ []

unfoldable pub supports_visual_visit : AssetPack → Bool
supports_visual_visit pack = elim pack.animations [
  | none ↦ false
  | some names ↦ all (λ name. any (λ n. n ==ₛ name) names) required_animations
]

abbrev pub is_active_pack : PackStatus → Bool
is_active_pack PackStatus.active = true
is_active_pack _ = false

-- `['active', 'superseded'].includes(pack.status)`
abbrev pub is_kept_pack : PackStatus → Bool
is_kept_pack PackStatus.active = true
is_kept_pack PackStatus.superseded = true
is_kept_pack _ = false

abbrev pub find_companion : ℕ → Db → Option Companion
find_companion id db = find_first (λ c. c.id == id) db.companions

abbrev pub find_pack : ℕ → Db → Option AssetPack
find_pack id db = find_first (λ p. p.id == id) db.packs

-- `a?.b`, and the early returns of `undefined`.
abbrev pub chain {ℓ κ} : {A : Type ℓ} {B : Type κ} → Option A → (A → Option B) → Option B
chain none rest = none
chain (some a) rest = rest a

abbrev pub only_if {ℓ} : {A : Type ℓ} → Bool → Option A → Option A
only_if test o = if test then o else none

abbrev pub Snapshot : Type 0
Snapshot = Companion × AssetPack

-- `served` is the test on the owner's account: it must be active, and in a room also not about to
-- be deleted.
unfoldable pub load_current_snapshot : (User → Bool) → ℕ → Db → Option Snapshot
load_current_snapshot served owner_id db =
    chain (find_first (λ u. u.id == owner_id) db.social.users) (λ user. only_if (served user) (
      chain user.active_companion_id (λ companion_id.
        chain (find_companion companion_id db) (λ companion.
          only_if
            (companion.owner_user_id == owner_id && companion.published && companion.friends_only)
            (chain companion.active_asset_pack_id (λ pack_id. chain (find_pack pack_id db) (λ pack.
              only_if (pack.companion_id == companion.id && is_active_pack pack.status)
                (some (companion, pack)))))))))

abbrev pub has_source : ShareScope → Bool
has_source summary_and_source = true
has_source _ = false

abbrev pub topic_snapshot : ShareableTopic → ℕ → TopicSnapshot
topic_snapshot topic user = record {
  topic_ref_id = topic.id;
  owner_companion_id = topic.companion_id;
  created_by_user_id = user;
  title = topic.title;
  summary = topic.summary;
  source_url = if has_source topic.share_scope then topic.source_url else none;
  share_scope = topic.share_scope;
  allow_recipient_save = topic.allow_recipient_save;
}

-- `audience: 'friends', revokedAt: null, OR: [{ expiresAt: null }, { expiresAt: { gt: now } }]`
abbrev pub is_shareable : ℕ → ℕ → ShareableTopic → Bool
is_shareable companion now t =
    t.companion_id == companion
    && t.for_friends
    && elim t.revoked_at [ none ↦ true | some _ ↦ false ]
    && elim t.expires_at [ none ↦ true | some at ↦ ltb now at ]

-- `resolveOwnedTopic`, and the visitor's topic of an invitation.
unfoldable pub find_owned_topic : ℕ → ℕ → ℕ → Db → Option ShareableTopic
find_owned_topic id companion now db =
    find_first (λ t. t.id == id && is_shareable companion now t) db.topics

abbrev pub is_none : Option ℕ → Bool
is_none none = true
is_none (some _) = false

-- `[{ lastUsedAt: { sort: 'asc', nulls: 'first' } }, { updatedAt: 'desc' }]`
abbrev pub is_earlier : ShareableTopic → ShareableTopic → Bool
is_earlier s t = elim s.last_used_at [
  | none ↦ elim t.last_used_at [ none ↦ ltb t.updated_at s.updated_at | some _ ↦ true ]
  | some m ↦ elim t.last_used_at [
    | none ↦ false
    | some n ↦ ltb m n || m == n && ltb t.updated_at s.updated_at
  ]
]

-- `findFirst` under that order.
abbrev pub first_topic : List ShareableTopic → Option ShareableTopic
first_topic [] = none
first_topic (t ∷ ts) = elim (first_topic ts) [
  | none ↦ some t
  | some s ↦ if is_earlier s t then some s else some t
]

-- `assertNoReservation`
unfoldable pub assert_no_reservation : ℕ → Db → Result (Unit {0})
assert_no_reservation user db =
    guard (not (any (λ r. r.user_id == user) db.reservations))
      (conflict Code.visit_reservation_exists)

-- `visitReservation.create`, where the user is the key.
unfoldable pub create_reservation : Reservation → Db → Result Db
create_reservation r db =
    if any (λ q. q.user_id == r.user_id) db.reservations
    then err (database Code.unique_violation)
    else ok (record db { reservations = r ∷ db.reservations })

-- `visitReservation.update` of a user's row
abbrev pub rewrite_reservation : ℕ → (Reservation → Reservation) → Db → Db
rewrite_reservation user f db = record db {
  reservations = update_where (λ r. r.user_id == user) f db.reservations;
}

-- `visitSessionParticipant.create`, under the unique indexes on the session with the user and on
-- the session with the Companion.
unfoldable pub create_participant : Participant → Db → Result Db
create_participant p db =
    if any
      (λ q.
        q.session_id == p.session_id
        && (q.user_id == p.user_id || q.companion_id == p.companion_id))
      db.participants
    then err (database Code.unique_violation)
    else ok (record db { participants = p ∷ db.participants })

-- Whether a text is empty, so that a test of it fails in the source.
abbrev pub is_blank : String → Bool
is_blank String.[] = true
is_blank (String.◌∷◌ _ _) = false

-- The topic of an invitation or a request, if its texts pass the tests of the source.
abbrev pub told_topic : Option TopicSnapshot → Option TopicSnapshot
told_topic none = none
told_topic (some t) = if is_blank t.title || is_blank t.summary then none else some t
