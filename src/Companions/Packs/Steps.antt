-- ===== src/Companions/Packs/Steps.antt =====
-- What the requests on asset packs that succeed have checked and written.
use our_companion_network.Base.{
  ℕ, ◌≡◌, Bool, true, false, ◌&&◌, none, some, List, ◌==◌, arith, any, find_first, Result, ok,
  Result-cases, Option-cases, inl, inr, ◌⊎◌, ◌≤◌, ◌+◌, ◌∷◌,
}
use our_companion_network.Visit.{Companion, AssetPack, PackStatus, AssetFile, Db}
use our_companion_network.Visit.Snapshots.{find_companion, find_pack}
use our_companion_network.Companions.{
  require_owned_companion, require_owned_pack, owns, assert_companion_mutation_allowed,
}
use our_companion_network.Companions.Packs.{
  StorageLimits, is_status, pack_index, write_packs, claim_pack, assert_upload_urls_expired,
  assert_upload_session_current, require_storage,
}
use our_companion_network.Companions.Packs.Uploads.{
  Validated, Initiated, Completion, initiate_asset_pack, issue_upload_urls, begin_completion,
  reuse_pack, resume_upload, create_pack, lock_active_account, new_pack, usage, is_pack_of,
}
use our_companion_network.Companions.Packs.Removal.{claim_deletion, is_deletable}
use our_companion_network.Companions.Packs.LifeCycle.{is_expired_at}

claim_pack-eq-ok :
    (now : ℕ) (test : AssetPack → Bool) (f : AssetPack → AssetPack) (db db' : Db)
    → claim_pack now test f db ≡ ok db'
    → (any test db.packs ≡ true) × (db' ≡ write_packs now test f db)
unfolding claim_pack
claim_pack-eq-ok now test f db db' h = ground arith

require_owned_pack-eq-ok :
    (user pack : ℕ) (db : Db) (p : AssetPack)
    → require_owned_pack user pack db ≡ ok p
    → (find_pack pack db ≡ some p) × (owns user p.companion_id db ≡ true)
unfolding require_owned_pack
require_owned_pack-eq-ok user pack db p h = elim (Option-cases (find_pack pack db)) [
  | inl e ↦ absurd (ground arith)
  | inr (q, e) ↦ ground arith
]

require_owned_companion-eq-ok :
    (user companion : ℕ) (db : Db) (c : Companion)
    → require_owned_companion user companion db ≡ ok c
    → (find_companion companion db ≡ some c) × (c.owner_user_id ≡ user)
unfolding require_owned_companion
require_owned_companion-eq-ok user companion db c h =
    elim (Option-cases (find_companion companion db)) [
      | inl e ↦ absurd (ground arith)
      | inr (q, e) ↦ ground arith
    ]

pub issue_upload_urls-eq-ok :
    (l : StorageLimits) (user pack : ℕ) (ids : List ℕ) (now : ℕ) (db db' : Db) (fs : List AssetFile)
    → issue_upload_urls l true user pack ids now db ≡ ok (db', fs)
    → (any
          (λ q. q.id == pack && is_status PackStatus.uploading q && owns user q.companion_id db)
          db.packs
        ≡ true)
      × (db'
          ≡ write_packs now
              (λ q. q.id == pack && is_status PackStatus.uploading q && owns user q.companion_id db)
              (λ q. record q { last_upload_url_issued_at = some now })
              db)
unfolding issue_upload_urls require_storage claim_pack assert_upload_session_current
    lock_active_account
issue_upload_urls-eq-ok l user pack ids now db db' fs h =
    elim (Result-cases (require_owned_pack user pack db)) [
      | inr (_, e) ↦ absurd (ground arith)
      | inl (p, e) ↦ ground arith
    ]

pub claim_deletion-eq-ok :
    (l : StorageLimits) (user pack now : ℕ) (db db' : Db)
    → claim_deletion l true user pack now db ≡ ok db'
    → (p : AssetPack) × (find_pack pack db ≡ some p)
      × (is_deletable p.status ≡ true)
      × (is_expired_at l now p ≡ true)
      × (any
            (λ q.
              q.id == pack
              && pack_index q.status == pack_index p.status
              && owns user q.companion_id db)
            db.packs
          ≡ true)
      × (db'
          ≡ write_packs now
              (λ q.
                q.id == pack
                && pack_index q.status == pack_index p.status
                && owns user q.companion_id db)
              (λ q. record q { status = PackStatus.deleting; failure_code = none })
              db)
unfolding claim_deletion require_storage claim_pack assert_upload_urls_expired
claim_deletion-eq-ok l user pack now db db' h =
    elim (Result-cases (require_owned_pack user pack db)) [
      | inr (_, e) ↦ absurd (ground arith)
      | inl (p, e) ↦
          let (f, _) = require_owned_pack-eq-ok user pack db p e in
          (p, f, ground arith, ground arith, ground arith, ground arith)
    ]

pub begin_completion-eq-ok :
    (l : StorageLimits) (user pack now : ℕ) (db db' : Db) (c : Completion)
    → begin_completion l true user pack now db ≡ ok (db', c)
    → (db' ≡ db)
      ⊎ (db'
          ≡ write_packs now
              (λ q. q.id == pack && is_status PackStatus.uploading q)
              (λ q. record q { status = PackStatus.verifying; failure_code = none })
              db)
unfolding begin_completion require_storage claim_pack assert_upload_session_current
    assert_companion_mutation_allowed
begin_completion-eq-ok l user pack now db db' c h =
    elim (Result-cases (require_owned_pack user pack db)) [
      | inr (_, e) ↦ absurd (ground arith)
      | inl (p, e) ↦ ground arith
    ]

resume_upload-eq-ok :
    (l : StorageLimits) (now : ℕ) (p : AssetPack) (db db' : Db) (i : Initiated)
    → resume_upload l now p db ≡ ok (db', i)
    → (db' ≡ db)
      ⊎ (db'
          ≡ write_packs now
              (λ q. q.id == p.id && is_status PackStatus.verifying q)
              (λ q. record q { status = PackStatus.uploading; failure_code = none })
              db)
unfolding resume_upload claim_pack assert_upload_session_current
resume_upload-eq-ok l now p db db' i h = ground arith

reuse_pack-eq-ok :
    (l : StorageLimits) (now : ℕ) (c : Companion) (p : AssetPack) (db db' : Db) (i : Initiated)
    → reuse_pack l now c p db ≡ ok (db', i)
    → (db' ≡ db)
      ⊎ (db'
          ≡ write_packs now
              (λ q. q.id == p.id && is_status PackStatus.verifying q)
              (λ q. record q { status = PackStatus.uploading; failure_code = none })
              db)
unfolding reuse_pack
reuse_pack-eq-ok l now c p db db' i h = ground (arith, resume_upload-eq-ok l now p db db' i)

create_pack-eq-ok :
    (l : StorageLimits) (user companion : ℕ) (v : Validated) (new_id first_file now : ℕ)
    (db db' : Db) (i : Initiated)
    → create_pack l user companion v new_id first_file now db ≡ ok (db', i)
    → (any (λ p. p.id == new_id) db.packs ≡ false)
      × (usage user db + v.total_bytes ≤ l.max_user_storage_bytes)
      × (db'.companions ≡ db.companions)
      × (db'.packs ≡ new_pack new_id companion now v ∷ db.packs)
unfolding create_pack
create_pack-eq-ok l user companion v new_id first_file now db db' i h = ground arith

pub initiate_asset_pack-eq-ok :
    (l : StorageLimits) (user companion : ℕ) (manifest : Result Validated)
    (version files bytes new_id first_file now : ℕ) (db db' : Db) (i : Initiated)
    → initiate_asset_pack l true user companion manifest version files bytes new_id first_file now
        db
      ≡ ok (db', i)
    → ((db' ≡ db)
        ⊎ ((pack : ℕ) × (db'
              ≡ write_packs now
                  (λ q. q.id == pack && is_status PackStatus.verifying q)
                  (λ q. record q { status = PackStatus.uploading; failure_code = none })
                  db)))
      ⊎ ((v : Validated) × (c : Companion) × (find_companion companion db ≡ some c)
          × (c.owner_user_id ≡ user)
          × (any (λ p. p.id == new_id) db.packs ≡ false)
          × (usage user db + v.total_bytes ≤ l.max_user_storage_bytes)
          × (db'.companions ≡ db.companions)
          × (db'.packs ≡ new_pack new_id companion now v ∷ db.packs))
unfolding initiate_asset_pack require_storage lock_active_account
initiate_asset_pack-eq-ok l user companion manifest version files bytes new_id first_file now db db'
      i h =
    elim (Result-cases manifest) [
      | inr (_, e) ↦ absurd (ground arith)
      | inl (v, e) ↦ elim (Result-cases (require_owned_companion user companion db)) [
        | inr (_, f) ↦ absurd (ground arith)
        | inl (c, f) ↦
            let (g, o) = require_owned_companion-eq-ok user companion db c f in
            elim (Option-cases (find_first (is_pack_of companion v.manifest_hash) db.packs)) [
              | inl k ↦
                  let (a, b, s, r) =
                    create_pack-eq-ok l user companion v new_id first_file now db db' i
                      (ground arith) in
                  inr (v, c, g, o, a, b, s, r)
              | inr (p, k) ↦ elim (reuse_pack-eq-ok l now c p db db' i (ground arith)) [
                | inl a ↦ inl (inl a)
                | inr a ↦ inl (inr (p.id, a))
              ]
            ]
      ]
    ]
