-- ===== src/Companions/Packs/Uploads.antt =====
-- src/companion/companion.service.ts: a pack is made, its files are uploaded by URLs, and its
-- completion begins.
use our_companion_network.Base.{
  ℕ, ◌+◌, Bool, true, false, not, ◌&&◌, ◌||◌, Option, none, some, List, [], ◌∷◌, ◌++◌, ◌==◌, ltb,
  leb, is_id, length, any, find_first, where_, if◌then◌else◌, Code, not_found, conflict, database,
  bad_request, Result, ok, err, guard, ◌>>=◌, ◌>>◌,
}
use our_companion_network.Social.{is_available}
use our_companion_network.Visit.{Companion, AssetPack, PackStatus, PackFailure, AssetFile, Db}
use our_companion_network.Companions.{
  require_owned_companion, require_owned_pack, owns, assert_companion_mutation_allowed,
}
use our_companion_network.Companions.Packs.{
  StorageLimits, is_status, write_packs, claim_pack, assert_upload_session_current, require_storage,
}
use Prim.Native.String.{String}

-- A file of a manifest, and what `validateManifest` gives.
pub record FileSpec : Type 0 where
  pub relative_path : String
  pub mime_type : String
  pub size_bytes : ℕ
  pub sha256 : ℕ

pub record Validated : Type 0 where
  pub manifest_hash : ℕ
  pub files : List FileSpec
  pub animations : Option (List String)
  pub total_bytes : ℕ

-- `lockActiveAccountForAssetMutation`
unfoldable pub lock_active_account : ℕ → Db → Result (Unit {0})
lock_active_account user db =
    guard (any (λ u. u.id == user && is_available u) db.social.users)
      (conflict Code.account_deletion_pending)

abbrev pub is_pack_of : ℕ → ℕ → AssetPack → Bool
is_pack_of companion hash p = p.companion_id == companion && p.manifest_hash == hash

-- The statuses whose packs count for the storage of a user.
abbrev pub is_stored : AssetPack → Bool
is_stored p = elim p.status [
  | PackStatus.uploading ↦ true
  | PackStatus.verifying ↦ true
  | PackStatus.active ↦ true
  | PackStatus.superseded ↦ true
  | _ ↦ false
]

-- `_sum: { totalBytes: true }`
abbrev pub sum_bytes : (AssetPack → Bool) → List AssetPack → ℕ
sum_bytes test [] = 0
sum_bytes test (p ∷ ps) = (if test p then p.total_bytes else 0) + sum_bytes test ps

abbrev pub counts_for : ℕ → List Companion → AssetPack → Bool
counts_for user companions p =
    any (λ c. c.id == p.companion_id && c.owner_user_id == user) companions && is_stored p

unfoldable pub usage : ℕ → Db → ℕ
usage user db = sum_bytes (counts_for user db.companions) db.packs

-- What the request answers: the pack, whether it is reused, and whether it has to be activated.
pub data Initiated : Type 0 where
  reused : (pack : ℕ) (requires_activation : Bool) → Initiated
  resumed created : (pack : ℕ) → Initiated

-- A verification that was interrupted goes back to uploading.
unfoldable pub resume_upload : StorageLimits → ℕ → AssetPack → Db → Result (Db × Initiated)
resume_upload l now p db =
    assert_upload_session_current l now p
    >> (if is_status PackStatus.verifying p
        then claim_pack now (λ q. q.id == p.id && is_status PackStatus.verifying q)
            (λ q. record q { status = PackStatus.uploading; failure_code = none }) db
        else ok db)
    >>= λ db'. ok (db', resumed p.id)

unfoldable pub reuse_pack : StorageLimits → ℕ → Companion → AssetPack → Db → Result (Db × Initiated)
reuse_pack l now c p db = elim p.status [
  | PackStatus.active ↦ ok (db, reused p.id (not (is_id c.active_asset_pack_id p.id)))
  | PackStatus.superseded ↦ ok (db, reused p.id true)
  | PackStatus.uploading ↦ resume_upload l now p db
  | PackStatus.verifying ↦ resume_upload l now p db
  | _ ↦ err (conflict Code.asset_pack_already_exists)
]

abbrev pub new_pack : ℕ → ℕ → ℕ → Validated → AssetPack
new_pack id companion now v = record {
  id = id;
  companion_id = companion;
  status = PackStatus.uploading;
  animations = v.animations;
  manifest_hash = v.manifest_hash;
  total_bytes = v.total_bytes;
  failure_code = none;
  last_upload_url_issued_at = none;
  staging_cleaned_at = none;
  created_at = now;
  updated_at = now;
  completed_at = none;
  activated_at = none;
  superseded_at = none;
}

-- The identifiers of the new rows come from `first_file` on.
abbrev new_files : ℕ → ℕ → List FileSpec → List AssetFile
new_files pack first_file [] = []
new_files pack first_file (f ∷ fs) =
    record {
      id = first_file;
      asset_pack_id = pack;
      relative_path = f.relative_path;
      mime_type = f.mime_type;
      size_bytes = f.size_bytes;
      sha256 = f.sha256;
      uploaded = false;
      verified_at = none;
    }
    ∷ new_files pack (1 + first_file) fs

unfoldable pub create_pack :
    StorageLimits → ℕ → ℕ → Validated → (new_id first_file now : ℕ) → Db → Result (Db × Initiated)
create_pack l user companion v new_id first_file now db =
    if ltb l.max_user_storage_bytes (usage user db + v.total_bytes)
    then err (conflict Code.asset_pack_storage_quota_exceeded)
    else if any (λ p. p.id == new_id) db.packs
    then err (database Code.unique_violation)
    else ok (
      record db {
        packs = new_pack new_id companion now v ∷ db.packs;
        asset_files = new_files new_id first_file v.files ++ db.asset_files;
      },
      created new_id,
    )

-- `initiateAssetPack`: the totals of the request are compared with the manifest's.
unfoldable pub initiate_asset_pack :
    StorageLimits
    → (uploads_enabled : Bool) → ℕ
    → ℕ
    → Result Validated
    → (schema_version total_files total_bytes new_id first_file now : ℕ) → Db
    → Result (Db × Initiated)
initiate_asset_pack l enabled user companion manifest version files bytes new_id first_file now db =
    require_storage enabled >> manifest >>= λ v.
    guard (version == 1 && files == length v.files && bytes == v.total_bytes)
      (bad_request Code.asset_pack_manifest_invalid)
    >> lock_active_account user db
    >> require_owned_companion user companion db
    >>= λ c. elim (find_first (is_pack_of companion v.manifest_hash) db.packs) [
      | some p ↦ reuse_pack l now c p db
      | none ↦ create_pack l user companion v new_id first_file now db
    ]

abbrev are_distinct_ids : List ℕ → Bool
are_distinct_ids [] = true
are_distinct_ids (x ∷ xs) = not (any (λ y. y == x) xs) && are_distinct_ids xs

-- `if (!fileIds.length || fileIds.length > 50 || new Set(fileIds).size !== fileIds.length)`
abbrev pub is_file_selection : List ℕ → Bool
is_file_selection ids = ltb 0 (length ids) && leb (length ids) 50 && are_distinct_ids ids

abbrev pub select_files : ℕ → List ℕ → Db → List AssetFile
select_files pack ids db =
    where_ (λ f. f.asset_pack_id == pack && any (λ i. i == f.id) ids) db.asset_files

-- `createUploadUrls` up to the signing of the URLs; the result has the files to be signed for. The
-- reads before the transaction and the conditional write are one step here.
unfoldable pub issue_upload_urls :
    StorageLimits
    → (uploads_enabled : Bool) → ℕ
    → ℕ
    → List ℕ
    → (now : ℕ) → Db
    → Result (Db × List AssetFile)
issue_upload_urls l enabled user pack ids now db =
    require_storage enabled >> require_owned_pack user pack db >>= λ p.
    assert_upload_session_current l now p
    >> guard (is_status PackStatus.uploading p) (conflict Code.asset_pack_not_uploadable)
    >> guard (is_file_selection ids) (bad_request Code.asset_pack_file_invalid)
    >> guard (length (select_files pack ids db) == length ids)
        (not_found Code.asset_pack_file_missing)
    >> lock_active_account user db
    >> claim_pack now
        (λ q. q.id == pack && is_status PackStatus.uploading q && owns user q.companion_id db)
        (λ q. record q { last_upload_url_issued_at = some now }) db
    >>= λ db'. ok (db', select_files pack ids db)

-- How `completeAssetPack` goes on: the pack is active already, or it has to be verified.
pub data Completion : Type 0 where
  complete : Completion
  to_verify : AssetPack → Completion

-- `completeAssetPack` up to the verification: the claim, and the pack read again. The three
-- statements are one step here.
unfoldable pub begin_completion :
    StorageLimits → (uploads_enabled : Bool) → ℕ → ℕ → (now : ℕ) → Db → Result (Db × Completion)
begin_completion l enabled user pack now db = require_owned_pack user pack db >>= λ p.
    if is_status PackStatus.active p
    then ok (db, complete)
    else (assert_companion_mutation_allowed user p.companion_id db
        >> require_storage enabled
        >> guard (is_status PackStatus.uploading p || is_status PackStatus.verifying p)
            (conflict Code.asset_pack_not_uploadable)
        >> assert_upload_session_current l now p
        >> (if is_status PackStatus.uploading p
            then claim_pack now (λ q. q.id == pack && is_status PackStatus.uploading q)
                (λ q. record q { status = PackStatus.verifying; failure_code = none }) db
            else ok db)
        >>= λ db'. require_owned_pack user pack db' >>= λ started.
            guard (is_status PackStatus.verifying started) (conflict Code.asset_pack_not_uploadable)
            >> ok (db', to_verify started))

abbrev pub is_verifying : ℕ → AssetPack → Bool
is_verifying pack q = q.id == pack && is_status PackStatus.verifying q

-- The `catch` of `completeAssetPack`, for a file that was not the manifest's
unfoldable pub fail_completion : ℕ → (now : ℕ) → Db → Db
fail_completion pack now db =
    write_packs now (is_verifying pack)
      (λ q. record q {
        status = PackStatus.failed;
        failure_code = some PackFailure.integrity_failed;
      })
      db

-- and for another error
unfoldable pub retry_completion : ℕ → (now : ℕ) → Db → Db
retry_completion pack now db =
    write_packs now (is_verifying pack)
      (λ q. record q { failure_code = some PackFailure.verification_retryable }) db
