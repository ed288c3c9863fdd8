-- ===== src/Companions/Packs/Removal.antt =====
-- src/companion/companion.service.ts: how packs go: the request of the owner, the uploads that
-- were left unfinished, the superseded packs that are old, and the staging objects of the active
-- ones. A job reads its packs first and claims one after the other by a conditional write, then
-- has the objects deleted, and then writes what came of it.
use our_companion_network.Base.{
  ℕ, ◌+◌, ◌*◌, max, Bool, true, false, not, ◌&&◌, ◌||◌, none, some, ◌==◌, ltb, is_id, is_some, any,
  update_where, delete_where, if◌then◌else◌, Code, conflict, Result, guard, ◌>>=◌, ◌>>◌,
}
use our_companion_network.Visit.{AssetPack, PackStatus, PackFailure, Db}
use our_companion_network.Visit.Rows.{is_live}
use our_companion_network.Visit.Ending.{is_pending_invite}
use our_companion_network.Companions.{require_owned_pack, owns}
use our_companion_network.Companions.Packs.{
  StorageLimits, is_status, pack_index, write_packs, claim_pack, upload_urls_expired,
  upload_url_life, upload_url_expiry_skew_ms, assert_upload_urls_expired, upload_session_life,
  require_storage,
}

-- `['draft', 'failed', 'abandoned'].includes(pack.status)`
abbrev pub is_deletable : PackStatus → Bool
is_deletable PackStatus.draft = true
is_deletable PackStatus.failed = true
is_deletable PackStatus.abandoned = true
is_deletable _ = false

-- `deleteAssetPack` up to the deletion of the objects
unfoldable pub claim_deletion :
    StorageLimits → (uploads_enabled : Bool) → ℕ → ℕ → (now : ℕ) → Db → Result Db
claim_deletion l enabled user pack now db = require_owned_pack user pack db >>= λ p.
    guard (is_deletable p.status) (conflict Code.asset_pack_not_uploadable)
    >> require_storage enabled
    >> assert_upload_urls_expired l now p
    >> claim_pack now
        (λ q.
          q.id == pack && pack_index q.status == pack_index p.status && owns user q.companion_id db)
        (λ q. record q { status = PackStatus.deleting; failure_code = none }) db

-- A deletion of objects that failed is kept on the row, for the next attempt.
unfoldable pub mark_cleanup_failed : ℕ → PackStatus → (now : ℕ) → Db → Db
mark_cleanup_failed pack s now db =
    write_packs now (λ q. q.id == pack && is_status s q)
      (λ q. record q { failure_code = some PackFailure.cleanup_failed }) db

-- A row that is deleted takes its files along; a reference to it becomes null.
unfoldable pub remove_packs : (AssetPack → Bool) → ℕ → Db → Db
remove_packs test pack db = record db {
  packs = delete_where test db.packs;
  asset_files = delete_where (λ f. f.asset_pack_id == pack) db.asset_files;
  companions =
      update_where (λ c. is_id c.active_asset_pack_id pack)
        (λ c. record c { active_asset_pack_id = none }) db.companions;
  invitations =
      update_where (λ i. is_id i.pack_ref_id pack) (λ i. record i { pack_ref_id = none })
        db.invitations;
  sessions =
      update_where (λ s. is_id s.pack_ref_id pack) (λ s. record s { pack_ref_id = none })
        db.sessions;
  participants =
      update_where (λ p. is_id p.pack_ref_id pack) (λ p. record p { pack_ref_id = none })
        db.participants;
  join_requests =
      update_where (λ j. is_id j.pack_ref_id pack) (λ j. record j { pack_ref_id = none })
        db.join_requests;
}

abbrev pub is_deleting : ℕ → AssetPack → Bool
is_deleting pack q = q.id == pack && is_status PackStatus.deleting q

-- `deleteMany({ where: { id, status: 'deleting' } })`
unfoldable pub finish_deletion : ℕ → Db → Db
finish_deletion pack db =
    if any (is_deleting pack) db.packs then remove_packs (is_deleting pack) pack db else db

-- `delete({ where: { id } })`
unfoldable pub finish_removal : ℕ → Db → Db
finish_removal pack db =
    if any (λ q. q.id == pack) db.packs then remove_packs (λ q. q.id == pack) pack db else db

-- `expired` of `abandonExpiredUploads`, as the job began.
abbrev pub is_expired_upload : StorageLimits → ℕ → AssetPack → Bool
is_expired_upload l started p =
    (is_status PackStatus.uploading p && ltb (p.created_at + upload_session_life l) started)
    || (is_status PackStatus.verifying p && ltb (p.updated_at + upload_session_life l) started)

-- The claim of a round; `false` stands for `continue`.
unfoldable pub claim_abandonment : StorageLimits → (started now : ℕ) → ℕ → Db → Db × Bool
claim_abandonment l started now pack db =
    if any claimable db.packs
    then (
      write_packs now claimable
          (λ q. record q { status = PackStatus.abandoning; failure_code = none }) db,
      true,
    )
    else (db, false)
  where
    claimable : AssetPack → Bool
    claimable q = q.id == pack && is_expired_upload l started q && upload_urls_expired l started q

-- `update({ where: { id }, data: { status: 'abandoned' } })`
unfoldable pub finish_abandonment : ℕ → (now : ℕ) → Db → Db
finish_abandonment pack now db =
    write_packs now (λ q. q.id == pack) (λ q. record q { status = PackStatus.abandoned }) db

-- `cleanupSupersededPacks`: old, and in no live visit.
abbrev pub is_free : ℕ → Db → Bool
is_free pack db =
    not (any (λ i. is_id i.pack_ref_id pack && is_pending_invite i.status) db.invitations)
    && not (any (λ s. is_id s.pack_ref_id pack && is_live s.state) db.sessions)

abbrev pub is_old_superseded : StorageLimits → ℕ → Db → AssetPack → Bool
is_old_superseded l started db p =
    is_status PackStatus.superseded p
    && elim p.superseded_at [
      | none ↦ false
      | some t ↦ ltb (t + l.superseded_pack_retention_days * 24 * 3600000) started
    ]
    && is_free p.id db

unfoldable pub claim_superseded : StorageLimits → (started now : ℕ) → ℕ → Db → Db × Bool
claim_superseded l started now pack db =
    if any claimable db.packs
    then (
      write_packs now claimable
          (λ q. record q { status = PackStatus.deleting; failure_code = none }) db,
      true,
    )
    else (db, false)
  where
    claimable : AssetPack → Bool
    claimable q =
        q.id == pack && is_old_superseded l started db q && upload_urls_expired l started q

-- `activeStagingCleanupBefore`
abbrev staging_life : StorageLimits → ℕ
staging_life l =
    max (l.upload_url_ttl_seconds * 1000) (upload_session_life l) + upload_url_expiry_skew_ms

-- `eligibleClaim`
abbrev is_claimable_staging : StorageLimits → ℕ → AssetPack → Bool
is_claimable_staging l started p = elim p.failure_code [
  | none ↦ true
  | some PackFailure.staging_cleanup_retryable ↦ true
  | some PackFailure.staging_cleanup_running ↦ ltb (p.updated_at + upload_url_life l) started
  | some _ ↦ false
]

-- `cleanupFence`
abbrev pub is_staging_due : StorageLimits → ℕ → AssetPack → Bool
is_staging_due l started p =
    is_status PackStatus.active p
    && not (is_some p.staging_cleaned_at)
    && elim p.activated_at [ none ↦ false | some t ↦ ltb (t + staging_life l) started ]
    && upload_urls_expired l started p
    && is_claimable_staging l started p

unfoldable pub claim_staging : StorageLimits → (started now : ℕ) → ℕ → Db → Db × Bool
claim_staging l started now pack db =
    if any (λ q. q.id == pack && is_staging_due l started q) db.packs
    then (
      write_packs now (λ q. q.id == pack && is_staging_due l started q)
          (λ q. record q { failure_code = some PackFailure.staging_cleanup_running }) db,
      true,
    )
    else (db, false)

abbrev pub is_cleaning_staging : ℕ → AssetPack → Bool
is_cleaning_staging pack q =
    q.id == pack
    && is_status PackStatus.active q
    && not (is_some q.staging_cleaned_at)
    && elim q.failure_code [ some PackFailure.staging_cleanup_running ↦ true | _ ↦ false ]

unfoldable pub retry_staging : ℕ → (now : ℕ) → Db → Db
retry_staging pack now db =
    write_packs now (is_cleaning_staging pack)
      (λ q. record q { failure_code = some PackFailure.staging_cleanup_retryable }) db

unfoldable pub finish_staging : ℕ → (now : ℕ) → Db → Db
finish_staging pack now db =
    write_packs now (is_cleaning_staging pack)
      (λ q. record q { staging_cleaned_at = some now; failure_code = none }) db
