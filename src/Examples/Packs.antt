-- ===== src/Examples/Packs.antt =====
-- The theorems on Companions and their asset packs at concrete calls.
use our_companion_network.Companions.{assert_companion_mutation_allowed}
use our_companion_network.Companions.Packs.Verification.{verify_pack, verify_files, verify_file}
use our_companion_network.Companions.Packs.Activation.{
  finish_completion, set_active, supersede_others,
}
use our_companion_network.Base.{
  ok, err, Option, List, all, Bool, Bool-cases, ◌==◌, ==_iff, ap, subst, inr, ◌≢◌, if◌then◌else◌, ℕ,
  ◌≡◌, refl, List, [], ◌∷◌, none, some, true, false, any, arith, Result, inl, ◌≤◌,
}
use our_companion_network.Visit.{
  Db, Companion, AssetPack, PackStatus, AssetFile, ShareableTopic, summary_only,
}
use our_companion_network.Companions.Topics.{
  revoke_shareable_topic, SocialPolicy, stop_without_topic,
}
use our_companion_network.Companions.Random.{is_without_topic, random_visits_have_topic}
use our_companion_network.Events.{Publications}
use our_companion_network.Companions.{require_owned_pack, require_owned_topic, publish_invalidation}
use our_companion_network.Companions.Packs.{
  StorageLimits, require_storage, assert_upload_session_current, claim_pack,
}
use our_companion_network.Companions.Packs.Uploads.{
  begin_completion, issue_upload_urls, usage, lock_active_account,
}
use our_companion_network.Companions.Packs.Activation.{
  activate_verified_pack, with_active_pack_unique_retry,
}
use our_companion_network.Companions.Packs.Jobs.{
  State, Call, step, run, issues, begins, finishes, supersedes, ends_removal, activates, abandons,
  deletes,
}
use our_companion_network.Companions.Packs.Verification.{
  ObjectKey, staging_object, published_object, manifest_object, Inspected, Storage, IsFramed,
  complete_asset_pack, complete_asset_pack_publishes, is_published,
}
use our_companion_network.Companions.Packs.Switching.{no_second_attempt}
use our_companion_network.Companions.Packs.Succession.{Succeeds, run-Succeeds}
use our_companion_network.Companions.Packs.Quota.{HaveOneOwner, run-usage}
use our_companion_network.Companions.Packs.Spared.{is_spared, issued_pack-IsSpared}
use our_companion_network.Companions.Packs.OneActive.{AreCoherent}
use our_companion_network.Companions.Packs.Reference.{run-AreCoherent}
use our_companion_network.Examples.{friends, empty_db, db_of, publications_of}

abbrev limits : StorageLimits
limits = record {
  upload_session_ttl_hours = 24;
  upload_url_ttl_seconds = 900;
  max_user_storage_bytes = 5000;
  superseded_pack_retention_days = 30;
}

abbrev pack : ℕ → PackStatus → AssetPack
pack n status = record {
  id = n;
  companion_id = 1;
  status = status;
  animations = none;
  manifest_hash = n;
  total_bytes = 1000;
  failure_code = none;
  last_upload_url_issued_at = none;
  staging_cleaned_at = none;
  created_at = 100;
  updated_at = 100;
  completed_at = none;
  activated_at = none;
  superseded_at = none;
}

abbrev file : AssetFile
file = record {
  id = 70;
  asset_pack_id = 12;
  relative_path = "assets/idle.png";
  mime_type = "image/png";
  size_bytes = 1000;
  sha256 = 7;
  uploaded = false;
  verified_at = none;
}

abbrev companion : Companion
companion = record {
  id = 1;
  owner_user_id = 1;
  published = true;
  friends_only = true;
  random_visits_enabled = true;
  random_visits_by_friends = true;
  allow_join_requests = true;
  active_asset_pack_id = some 11;
}

abbrev topic : ShareableTopic
topic = record {
  id = 80;
  companion_id = 1;
  title = "Tea";
  summary = "How to brew it.";
  source_url = none;
  for_friends = true;
  share_scope = summary_only;
  allow_recipient_save = false;
  eligible_for_random_visit = true;
  expires_at = none;
  revoked_at = none;
  last_used_at = none;
  updated_at = 100;
}

-- User 1 has a Companion with an active pack, and uploads another.
abbrev packs_db : Db
packs_db = record (empty_db friends) {
  companions = companion ∷ [];
  packs = pack 11 PackStatus.active ∷ pack 12 PackStatus.uploading ∷ [];
  asset_files = file ∷ [];
  topics = topic ∷ [];
}

abbrev uploading : State
uploading = record { db = packs_db; in_flight = [] }

-- The upload is completed and activated, the pack before is superseded and goes after a month.
abbrev calls : List (ℕ × Call)
calls =
    (1000, issues 1 12 (70 ∷ []))
    ∷ (2000, begins 1 12)
    ∷ (3000, finishes 1 (pack 12 PackStatus.verifying))
    ∷ (4000, activates 1 11)
    ∷ (9000000000, supersedes 500 12)
    ∷ (9000001000, ends_removal 12)
    ∷ []

run-AreCoherent_example : AreCoherent (run limits calls uploading).db
run-AreCoherent_example = run-AreCoherent limits calls uploading (refl, refl) refl

run-Succeeds_example : Succeeds limits packs_db.packs (run limits calls uploading).db.packs
run-Succeeds_example = run-Succeeds limits calls uploading (refl, refl)

one_owner : HaveOneOwner (companion ∷ [])
one_owner user other id a b = ground arith

run-usage_example : usage 1 (run limits calls uploading).db ≤ 5000
unfolding usage
run-usage_example = run-usage limits 1 calls uploading (refl, refl) one_owner (omega arith)

abbrev soon : List (ℕ × Call)
soon = (2000, begins 1 12) ∷ (800000, deletes 1 12) ∷ (900000, abandons 0 12) ∷ []

issued_pack-IsSpared_example :
    any
      (is_spared 12 1000)
      (run limits soon (step limits 1000 (issues 1 12 (70 ∷ [])) uploading)).db.packs
    ≡ true
unfolding issue_upload_urls require_storage require_owned_pack assert_upload_session_current
    lock_active_account claim_pack
issued_pack-IsSpared_example =
    issued_pack-IsSpared limits 12 1000 1 (70 ∷ []) soon uploading issued (file ∷ []) (refl, refl)
      refl refl
  where
    issued : Db
    issued = record packs_db {
      packs =
          pack 11 PackStatus.active
          ∷ record (pack 12 PackStatus.uploading) {
            last_upload_url_issued_at = some 1000;
            updated_at = 1000;
          }
          ∷ [];
    }

abbrev revoking : Result (Db × Publications)
revoking = revoke_shareable_topic 1 1 80 5000 packs_db

random_visits_have_topic_example : is_without_topic 1 1 5000 (db_of packs_db revoking) ≡ false
unfolding revoke_shareable_topic require_owned_topic stop_without_topic publish_invalidation
random_visits_have_topic_example =
    random_visits_have_topic 1 1 80 no_policy 5000 packs_db (db_of packs_db revoking)
      (publications_of revoking) (inl refl)
  where
    no_policy : SocialPolicy
    no_policy = record {
      random_visits_enabled = none;
      random_visits_by_friends = none;
      allow_join_requests = none;
    }

no_second_attempt_example :
    with_active_pack_unique_retry
      (activate_verified_pack 1 12 PackStatus.verifying (some 3000) 3000)
      (record packs_db { packs = pack 11 PackStatus.active ∷ pack 12 PackStatus.verifying ∷ [] })
      (empty_db friends)
    ≡ activate_verified_pack 1 12 PackStatus.verifying
        (some 3000)
        3000
        (record packs_db { packs = pack 11 PackStatus.active ∷ pack 12 PackStatus.verifying ∷ [] })
no_second_attempt_example =
    no_second_attempt 1 12 PackStatus.verifying (some 3000) 3000
      (record packs_db { packs = pack 11 PackStatus.active ∷ pack 12 PackStatus.verifying ∷ [] })
      (empty_db friends)

-- A storage whose objects are a function of the key.
abbrev Store : Type 0
Store = ObjectKey → Option Inspected

abbrev is_key : ObjectKey → ObjectKey → Bool
is_key (staging_object m) (staging_object n) = m == n
is_key (published_object m) (published_object n) = m == n
is_key (manifest_object m) (manifest_object n) = m == n
is_key _ _ = false

abbrev written : ObjectKey → Option Inspected → Store → Store
written key object s k = if is_key k key then object else s k

abbrev storage : Storage Store
storage = record {
  inspect = λ key most s. ok (s key);
  copy = λ source destination etag mime sha256 s. ok (written destination (s source) s);
  put_manifest = λ key s. ok (written key none s);
}

same_key : (k d : ObjectKey) → is_key k d ≡ true → k ≡ d
same_key (staging_object m) (staging_object n) e = ap staging_object ((==_iff m n).0 e)
same_key (published_object m) (published_object n) e = ap published_object ((==_iff m n).0 e)
same_key (manifest_object m) (manifest_object n) e = ap manifest_object ((==_iff m n).0 e)
same_key (staging_object m) (published_object n) e = absurd (ground arith)
same_key (staging_object m) (manifest_object n) e = absurd (ground arith)
same_key (published_object m) (staging_object n) e = absurd (ground arith)
same_key (published_object m) (manifest_object n) e = absurd (ground arith)
same_key (manifest_object m) (staging_object n) e = absurd (ground arith)
same_key (manifest_object m) (published_object n) e = absurd (ground arith)

written_other : (d k : ObjectKey) (o : Option Inspected) (s : Store) → k ≢ d → written d o s k ≡ s k
written_other d k o s n = elim (Bool-cases (is_key k d)) [
  | inl e ↦ absurd (n (same_key k d e))
  | inr e ↦ rw e refl
]

unwrap : (s t : Store) → ◌≡◌ {A = Result Store} (ok s) (ok t) → s ≡ t
unwrap s t h = ap (value_of s) h
  where
    value_of : Store → Result Store → Store
    value_of s (ok t) = t
    value_of s (err _) = s

storage-IsFramed : IsFramed storage
storage-IsFramed = (
  λ source d key etag mime sha256 most s s' n h.
      subst (λ t. ok (t key) ≡ ok (s key)) (unwrap (written d (s source) s) s' h)
        (ap ok (written_other d key (s source) s n)),
  λ d key most s s' n h.
      subst (λ t. ok (t key) ≡ ok (s key)) (unwrap (written d none s) s' h)
        (ap ok (written_other d key none s n)),
)

abbrev uploaded : Store
uploaded (staging_object _) =
    some (record { size_bytes = 1000; mime_type = some "image/png"; sha256 = 7; etag = some 3 })
uploaded _ = none

abbrev completing : Db × Result (Store × Publications)
completing = complete_asset_pack storage (λ p. ok tt) limits true 1 12 2000 uploaded packs_db

abbrev store_of : Db × Result (Store × Publications) → Store
store_of (_, ok (s, _)) = s
store_of (_, err _) = uploaded

abbrev told_of : Db × Result (Store × Publications) → Publications
told_of (_, ok (_, ps)) = ps
told_of (_, err _) = []

complete_asset_pack_publishes_example :
    all (is_published storage (store_of completing)) (file ∷ []) ≡ true
unfolding complete_asset_pack begin_completion require_owned_pack assert_companion_mutation_allowed
    require_storage assert_upload_session_current claim_pack verify_pack verify_files verify_file
    finish_completion with_active_pack_unique_retry activate_verified_pack set_active
    supersede_others
complete_asset_pack_publishes_example =
    complete_asset_pack_publishes storage (λ p. ok tt) limits 1 12 2000 uploaded
      (store_of completing) packs_db completing.0 (told_of completing) storage-IsFramed refl refl
      refl
