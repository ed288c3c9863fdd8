-- ===== src/Companions/Packs.antt =====
-- src/companion/companion.service.ts: the asset packs of a Companion. A request or a clean-up that
-- calls the storage has several statements or transactions on the database, between which others
-- may run; each of them is a function here, which reads and writes at one moment `now`. What the
-- storage answers comes in as an argument. Reads and the conditional write that tests
-- them again are one function, although others may run between them in the source too. The
-- animations of a manifest are left to Visit/Snapshots.antt.
pub mod Uploads
pub mod Activation
pub mod Removal
pub mod Jobs
pub mod LifeCycle
pub mod Steps
pub mod Switching
pub mod Changes
pub mod Distinct
pub mod Histories
pub mod Succession
pub mod Quota
pub mod Spared
pub mod OneActive
pub mod Coherence
pub mod Reference
pub mod Verification
use our_companion_network.Base.{
  ℕ, ◌+◌, ◌*◌, max, Bool, true, false, not, ◌&&◌, Option, none, some, List, ◌==◌, ltb, leb, any,
  update_where, Code, conflict, unavailable, Result, ok, err, guard, ◌>>◌,
}
use our_companion_network.Visit.{AssetPack, PackStatus, AssetFile, Db}

-- The limits of src/storage/storage.service.ts that the packs need.
pub record StorageLimits : Type 0 where
  pub upload_session_ttl_hours : ℕ
  pub upload_url_ttl_seconds : ℕ
  pub max_user_storage_bytes : ℕ
  pub superseded_pack_retention_days : ℕ

abbrev pub pack_index : PackStatus → ℕ
pack_index PackStatus.draft = 0
pack_index PackStatus.uploading = 1
pack_index PackStatus.verifying = 2
pack_index PackStatus.ready = 3
pack_index PackStatus.active = 4
pack_index PackStatus.superseded = 5
pack_index PackStatus.failed = 6
pack_index PackStatus.deleting = 7
pack_index PackStatus.abandoning = 8
pack_index PackStatus.abandoned = 9

-- `status: s` of a query
abbrev pub is_status : PackStatus → AssetPack → Bool
is_status s p = pack_index p.status == pack_index s

-- `update`, `updateMany`: the column updatedAt is always written.
abbrev pub write_packs : ℕ → (AssetPack → Bool) → (AssetPack → AssetPack) → Db → Db
write_packs now test f db = record db {
  packs = update_where test (λ p. record (f p) { updated_at = now }) db.packs;
}

-- A conditional write, where `claimed.count !== 1` is an error.
unfoldable pub claim_pack : ℕ → (AssetPack → Bool) → (AssetPack → AssetPack) → Db → Result Db
claim_pack now test f db =
    guard (any test db.packs) (conflict Code.asset_pack_state_changed)
    >> ok (write_packs now test f db)

-- UPLOAD_URL_EXPIRY_SKEW_MS
abbrev pub upload_url_expiry_skew_ms : ℕ
upload_url_expiry_skew_ms = 5000

-- How long after its issue an upload URL may be in use.
abbrev pub upload_url_life : StorageLimits → ℕ
upload_url_life l = l.upload_url_ttl_seconds * 1000 + upload_url_expiry_skew_ms

-- `uploadUrlsExpiredWhere(now)`; `t < now - life` is written as `t + life < now`.
abbrev pub upload_urls_expired : StorageLimits → ℕ → AssetPack → Bool
upload_urls_expired l now p = elim p.last_upload_url_issued_at [
  | none ↦ true
  | some t ↦ ltb (t + upload_url_life l) now
]

-- `assertUploadUrlsExpired`
unfoldable pub assert_upload_urls_expired : StorageLimits → ℕ → AssetPack → Result (Unit {0})
assert_upload_urls_expired l now p =
    guard
      (elim p.last_upload_url_issued_at [ none ↦ true | some t ↦ leb (t + upload_url_life l) now ])
      (conflict Code.asset_upload_urls_active)

abbrev pub upload_session_life : StorageLimits → ℕ
upload_session_life l = l.upload_session_ttl_hours * 3600000

-- `assertUploadSessionCurrent`
unfoldable pub assert_upload_session_current : StorageLimits → ℕ → AssetPack → Result (Unit {0})
assert_upload_session_current l now p =
    guard (not (ltb (p.created_at + upload_session_life l) now))
      (conflict Code.asset_upload_session_expired)

-- `requireStorage`
unfoldable pub require_storage : (uploads_enabled : Bool) → Result (Unit {0})
require_storage uploads_enabled = guard uploads_enabled (unavailable Code.asset_storage_unavailable)
