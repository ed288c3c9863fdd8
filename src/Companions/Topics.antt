-- ===== src/Companions/Topics.antt =====
-- src/companion/companion.service.ts: the topics that a Companion may talk about on a visit, and
-- whether it accepts random visits. The tags of a topic are left out.
use our_companion_network.Base.{
  ℕ, Bool, true, false, not, ◌&&◌, Option, none, some, [], ◌∷◌, ◌++◌, ◌==◌, ltb, leb, is_some, any,
  update_where, if◌then◌else◌, value_or, Code, conflict, bad_request, Result, ok, guard, ◌>>=◌,
  ◌>>◌,
}
use our_companion_network.Events.{
  Publications, companion_profile_updated, companion_topic_updated, companion_topic_revoked,
}
use our_companion_network.Visit.{
  Companion, ShareableTopic, ShareScope, summary_only, summary_and_source, Db,
}
use our_companion_network.Visit.Snapshots.{is_blank}
use our_companion_network.VisitSocial.Text.{collapse, trim, units}
use our_companion_network.Companions.{
  require_owned_companion, require_owned_topic, publish_invalidation, write_companion,
}
use Prim.Native.String.{String}

-- UpsertShareableTopicDto, its expiry as a time.
pub record UpsertTopic : Type 0 where
  pub title : String
  pub summary : String
  pub source_url : Option String
  pub share_scope : Option ShareScope
  pub allow_recipient_save : Option Bool
  pub eligible_for_random_visit : Option Bool
  pub expires_at : Option ℕ

-- UpdateCompanionSocialPolicyDto
pub record SocialPolicy : Type 0 where
  pub random_visits_enabled : Option Bool
  pub random_visits_by_friends : Option Bool
  pub allow_join_requests : Option Bool

-- `trim().replace(/\s+/g, ' ')`
abbrev pub tidy : String → String
tidy s = collapse (trim s) false

abbrev told_source : UpsertTopic → Option String
told_source dto = elim dto.share_scope [
  | some summary_and_source ↦ elim dto.source_url [ none ↦ none | some url ↦ some (trim url) ]
  | _ ↦ none
]

-- `normalizeShareableTopic`: the columns that it gives, written to a row.
unfoldable pub normalize_shareable_topic :
    UpsertTopic → ℕ → Result (ShareableTopic → ShareableTopic)
normalize_shareable_topic dto now =
    guard
      (not (is_blank (tidy dto.title))
        && not (is_blank (tidy dto.summary))
        && leb (units (tidy dto.title)) 120
        && leb (units (tidy dto.summary)) 600)
      (bad_request Code.shareable_topic_invalid)
    >> guard (elim dto.expires_at [ none ↦ true | some at ↦ ltb now at ])
        (bad_request Code.shareable_topic_expired)
    >> ok (λ t. record t {
      title = tidy dto.title;
      summary = tidy dto.summary;
      source_url = told_source dto;
      for_friends = true;
      share_scope = value_or dto.share_scope summary_only;
      allow_recipient_save = value_or dto.allow_recipient_save false;
      eligible_for_random_visit = value_or dto.eligible_for_random_visit false;
      expires_at = dto.expires_at;
    })

abbrev empty_topic : ℕ → ℕ → ℕ → ShareableTopic
empty_topic id companion now = record {
  id = id;
  companion_id = companion;
  title = "";
  summary = "";
  source_url = none;
  for_friends = true;
  share_scope = summary_only;
  allow_recipient_save = false;
  eligible_for_random_visit = false;
  expires_at = none;
  revoked_at = none;
  last_used_at = none;
  updated_at = now;
}

unfoldable pub create_shareable_topic :
    ℕ → ℕ → UpsertTopic → (new_id now : ℕ) → Db → Result (Db × Publications)
create_shareable_topic user companion dto new_id now db =
    require_owned_companion user companion db >> normalize_shareable_topic dto now >>= λ fill. ok (
      record db { topics = fill (empty_topic new_id companion now) ∷ db.topics },
      publish_invalidation user (companion_topic_updated companion new_id) db,
    )

abbrev write_topic : ℕ → ℕ → (ShareableTopic → ShareableTopic) → Db → Db
write_topic topic now f db = record db {
  topics = update_where (λ t. t.id == topic) (λ t. record (f t) { updated_at = now }) db.topics;
}

-- A column that the request leaves out (`undefined`) is not written.
abbrev keep_omitted : UpsertTopic → ShareableTopic → ShareableTopic → ShareableTopic
keep_omitted dto before after = record after {
  source_url = if is_some after.source_url then after.source_url else before.source_url;
  expires_at = if is_some dto.expires_at then dto.expires_at else before.expires_at;
  revoked_at = none;
}

unfoldable pub update_shareable_topic :
    ℕ → ℕ → ℕ → UpsertTopic → (now : ℕ) → Db → Result (Db × Publications)
update_shareable_topic user companion topic dto now db =
    require_owned_topic user companion topic db >> normalize_shareable_topic dto now >>= λ fill.
    ok (
      write_topic topic now (λ t. keep_omitted dto t (fill t)) db,
      publish_invalidation user (companion_topic_updated companion topic) db,
    )

-- `eligibleForRandomVisit: true, revokedAt: null, OR: [{ expiresAt: null }, { expiresAt: { gt } }]`
abbrev pub is_random_topic : ℕ → ℕ → ShareableTopic → Bool
is_random_topic companion now t =
    t.companion_id == companion
    && t.eligible_for_random_visit
    && elim t.revoked_at [ none ↦ true | some _ ↦ false ]
    && elim t.expires_at [ none ↦ true | some at ↦ ltb now at ]

abbrev pub has_random_topic : ℕ → ℕ → Db → Bool
has_random_topic companion now db = any (is_random_topic companion now) db.topics

abbrev pub accepts_random_visits : ℕ → ℕ → Companion → Bool
accepts_random_visits user companion c =
    c.id == companion && c.owner_user_id == user && c.random_visits_enabled

abbrev stop_random_visits : Companion → Companion
stop_random_visits c = record c { random_visits_enabled = false }

-- Where no random topic is left, the Companion stops to accept random visits; also whether it did.
unfoldable pub stop_without_topic : ℕ → ℕ → (now : ℕ) → Db → Db × Bool
stop_without_topic user companion now db =
    if has_random_topic companion now db then (db, false) else (
      record db {
        companions =
            update_where (accepts_random_visits user companion) stop_random_visits db.companions;
      },
      any (accepts_random_visits user companion) db.companions,
    )

abbrev pub revoked_topic : ℕ → ℕ → Db → Db
revoked_topic topic now db =
    write_topic topic now
      (λ t. record t { revoked_at = some now; eligible_for_random_visit = false }) db

unfoldable pub revoke_shareable_topic : ℕ → ℕ → ℕ → (now : ℕ) → Db → Result (Db × Publications)
revoke_shareable_topic user companion topic now db =
    require_owned_topic user companion topic db
    >> (let (db', disabled) = stop_without_topic user companion now (revoked_topic topic now db) in
        ok (
          db',
          publish_invalidation user (companion_topic_revoked companion topic) db'
              ++ (if disabled
                  then publish_invalidation user (companion_profile_updated companion) db'
                  else []),
        ))

abbrev pub set_policy : Bool → SocialPolicy → Companion → Companion
set_policy enabled dto c = record c {
  random_visits_enabled = enabled;
  random_visits_by_friends = value_or dto.random_visits_by_friends c.random_visits_by_friends;
  allow_join_requests = value_or dto.allow_join_requests c.allow_join_requests;
}

abbrev assert_ready_for_random_visits : ℕ → Companion → Db → Result (Unit {0})
assert_ready_for_random_visits now c db =
    guard (c.published && is_some c.active_asset_pack_id)
      (conflict Code.random_visit_companion_not_ready)
    >> guard (has_random_topic c.id now db) (conflict Code.random_visit_topic_required)

-- The count of the topics and the update, two statements in the source, are one step here.
unfoldable pub update_social_policy :
    ℕ → ℕ → SocialPolicy → (now : ℕ) → Db → Result (Db × Publications)
update_social_policy user companion dto now db = require_owned_companion user companion db >>= λ c.
    (let enabled = value_or dto.random_visits_enabled c.random_visits_enabled in
      (if enabled then assert_ready_for_random_visits now c db else ok tt)
      >> ok (
        write_companion companion (set_policy enabled dto) db,
        publish_invalidation user (companion_profile_updated companion) db,
      ))
