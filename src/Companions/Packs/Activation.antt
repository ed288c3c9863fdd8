-- ===== src/Companions/Packs/Activation.antt =====
-- src/companion/companion.service.ts: a pack becomes the active one of its Companion, and the one
-- before is superseded.
use our_companion_network.Base.{
  ℕ, Bool, true, false, not, ◌&&◌, Option, none, some, ◌==◌, is_id, is_some, any, update_where,
  if◌then◌else◌, value_or, Code, Error, not_found, conflict, database, Result, ok, err, guard,
  or_fail, ◌>>=◌, ◌>>◌,
}
use our_companion_network.Events.{Publications, companion_asset_pack_activated}
use our_companion_network.Visit.{AssetPack, PackStatus, Db}
use our_companion_network.Visit.Snapshots.{find_companion, find_pack, is_active_pack}
use our_companion_network.Companions.{
  require_owned_pack, assert_companion_mutation_allowed, publish_invalidation, write_companion,
}
use our_companion_network.Companions.Packs.{is_status, pack_index, write_packs, claim_pack}

-- The active packs of a Companion other than the one.
abbrev pub is_other_active : ℕ → ℕ → AssetPack → Bool
is_other_active companion target p =
    p.companion_id == companion && is_active_pack p.status && not (p.id == target)

unfoldable pub supersede_others : ℕ → ℕ → (at now : ℕ) → Db → Db
supersede_others companion target at now db =
    write_packs now (is_other_active companion target)
      (λ p. record p { status = PackStatus.superseded; superseded_at = some at }) db

abbrev pub point_to : ℕ → ℕ → Db → Db
point_to companion target db =
    write_companion companion (λ c. record c { active_asset_pack_id = some target }) db

-- The pack gets active, under the unique index on the Companion of an active pack.
unfoldable pub set_active : ℕ → AssetPack → (completed_at : Option ℕ) → (now : ℕ) → Db → Result Db
set_active companion target completed_at now db =
    if any (is_other_active companion target.id) db.packs
    then err (database Code.unique_violation)
    else claim_pack now
        (λ p.
          p.id == target.id
          && p.companion_id == companion
          && pack_index p.status == pack_index target.status)
        (λ p. record p {
          status = PackStatus.active;
          activated_at = some (value_or completed_at now);
          superseded_at = none;
          failure_code = none;
          completed_at = if is_some completed_at then completed_at else p.completed_at;
        })
        db

-- `afterTargetActivated` of a completion
unfoldable pub mark_verified : ℕ → Option ℕ → Db → Db
mark_verified pack none db = db
mark_verified pack (some at) db = record db {
  asset_files =
      update_where (λ f. f.asset_pack_id == pack)
        (λ f. record f { uploaded = true; verified_at = some at }) db.asset_files;
}

-- `activateVerifiedPackInTransaction`; a completion gives its time, and marks the files.
unfoldable pub activate_verified_pack :
    ℕ → ℕ → (allowed : PackStatus) → (completed_at : Option ℕ) → (now : ℕ) → Db → Result Db
activate_verified_pack companion target allowed completed_at now db =
    or_fail (find_companion companion db) (not_found Code.companion_not_found) >>= λ current.
    or_fail (find_pack target db) (not_found Code.asset_pack_not_found) >>= λ p.
    guard (p.companion_id == companion) (conflict Code.asset_pack_state_changed)
    >> (if is_active_pack p.status
        then ok (
            if is_id current.active_asset_pack_id target
            then db
            else point_to companion target (supersede_others companion target now now db))
        else (guard (is_status allowed p) (conflict Code.asset_pack_state_changed)
            >> set_active companion p completed_at now
                (supersede_others companion target (value_or completed_at now) now db)
            >>= λ db'. ok (point_to companion target (mark_verified target completed_at db'))))

abbrev is_unique_conflict : Error → Bool
is_unique_conflict (database Code.unique_violation) = true
is_unique_conflict _ = false

abbrev after_retry : Result Db → Result Db
after_retry (ok db) = ok db
after_retry (err e) =
    err (if is_unique_conflict e then conflict Code.asset_pack_state_changed else e)

abbrev pub unless_unique : Result Db → Result Db → Result Db
unless_unique (ok db) again = ok db
unless_unique (err e) again = if is_unique_conflict e then after_retry again else err e

-- `withActivePackUniqueRetry`: the second attempt finds the database as it is then.
unfoldable pub with_active_pack_unique_retry : (Db → Result Db) → Db → Db → Result Db
with_active_pack_unique_retry operation db later = unless_unique (operation db) (operation later)

-- The end of `completeAssetPack`, for a pack whose files have been verified.
unfoldable pub finish_completion : ℕ → AssetPack → (now : ℕ) → Db → Db → Result (Db × Publications)
finish_completion user started now db later =
    with_active_pack_unique_retry
      (activate_verified_pack started.companion_id started.id PackStatus.verifying (some now) now)
      db later
    >>= λ db'. ok (
      db',
      publish_invalidation user (companion_asset_pack_activated started.companion_id started.id)
          db',
    )

unfoldable pub activate_asset_pack : ℕ → ℕ → (now : ℕ) → Db → Db → Result (Db × Publications)
activate_asset_pack user pack now db later = require_owned_pack user pack db >>= λ p.
    assert_companion_mutation_allowed user p.companion_id db
    >> with_active_pack_unique_retry
        (activate_verified_pack p.companion_id pack PackStatus.superseded none now) db later
    >>= λ db'.
        ok (db', publish_invalidation user (companion_asset_pack_activated p.companion_id pack) db')
