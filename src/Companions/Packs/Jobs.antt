-- ===== src/Companions/Packs/Jobs.antt =====
-- src/companion/companion.service.ts: the statements and transactions on asset packs of any
-- requests and clean-ups, in any order. A worker that has claimed a pack, or has read it as
-- claimed, writes without a condition once its objects are deleted; `in_flight` are the packs of
-- such workers, which the program has in its local variables. Two operations of
-- src/portal/portal.service.ts write packs too and are not among the calls: deleteAccount, which
-- sets every pack of the user to deleting with no test of its status or its upload URLs, and
-- deleteSupersededAssetPacks, which does not test the URLs.
use our_companion_network.Base.{
  ℕ, ◌-◌, Bool, true, false, ◌&&◌, ◌||◌, List, [], ◌∷◌, ◌==◌, any, if◌then◌else◌, Result, ok, err,
}
use our_companion_network.Visit.{AssetPack, PackStatus, Db}
use our_companion_network.Companions.Packs.{StorageLimits, is_status}
use our_companion_network.Companions.Packs.Uploads.{
  Validated, initiate_asset_pack, issue_upload_urls, begin_completion, fail_completion,
  retry_completion,
}
use our_companion_network.Companions.Packs.Activation.{finish_completion, activate_asset_pack}
use our_companion_network.Companions.Packs.Removal.{
  claim_deletion, mark_cleanup_failed, finish_deletion, finish_removal, claim_abandonment,
  finish_abandonment, claim_superseded, claim_staging, retry_staging, finish_staging,
}

pub record State : Type 0 where
  pub db : Db
  pub in_flight : List ℕ

-- A clean-up goes by the time `ago` at which it began. A request after an activation that failed
-- for the unique index finds the database as it was, since the row of the Companion is locked.
pub data Call : Type 0 where
  initiates :
      (user companion : ℕ) → Result Validated → (version files bytes new_id first_file : ℕ) → Call
  issues : (user pack : ℕ) → (files : List ℕ) → Call
  begins : (user pack : ℕ) → Call
  finishes : (user : ℕ) → (started : AssetPack) → Call
  fails retries : (pack : ℕ) → Call
  activates : (user pack : ℕ) → Call
  deletes : (user pack : ℕ) → Call
  abandons supersedes stages : (ago pack : ℕ) → Call
  picks_up : (pack : ℕ) → Call
  cleanup_fails : (pack : ℕ) → PackStatus → Call
  ends_deletion ends_removal ends_abandonment : (pack : ℕ) → Call
  stage_fails ends_stage : (pack : ℕ) → Call

abbrev pub is_in : ℕ → List ℕ → Bool
is_in pack = any (λ i. i == pack)

-- A request that fails leaves the database.
abbrev pub after {ℓ} : {A : Type ℓ} → State → Result (Db × A) → State
after st (ok (db, _)) = record st { db = db }
after st (err _) = st

-- A claim that succeeds puts the pack in flight.
abbrev pub claiming : State → ℕ → Db × Bool → State
claiming st pack (db, true) = record { db = db; in_flight = pack ∷ st.in_flight }
claiming st pack (db, false) = record st { db = db }

abbrev pub deletion : State → ℕ → Result Db → State
deletion st pack (ok db) = record { db = db; in_flight = pack ∷ st.in_flight }
deletion st pack (err _) = st

abbrev pub flying : State → ℕ → (Db → Db) → State
flying st pack f = if is_in pack st.in_flight then record st { db = f st.db } else st

abbrev pub being_removed : ℕ → AssetPack → Bool
being_removed pack q =
    q.id == pack && (is_status PackStatus.abandoning q || is_status PackStatus.deleting q)

-- Identifiers are uuids: a new one is not that of a pack in flight, which may be deleted.
unfoldable pub step : StorageLimits → (now : ℕ) → Call → State → State
step l now (initiates user companion manifest version files bytes new_id first_file) st =
    if is_in new_id st.in_flight
    then st
    else after st (
        initiate_asset_pack l true user companion manifest version files bytes new_id first_file now
          st.db)
step l now (issues user pack files) st =
    after st (issue_upload_urls l true user pack files now st.db)
step l now (begins user pack) st = after st (begin_completion l true user pack now st.db)
step l now (finishes user started) st = after st (finish_completion user started now st.db st.db)
step l now (fails pack) st = record st { db = fail_completion pack now st.db }
step l now (retries pack) st = record st { db = retry_completion pack now st.db }
step l now (activates user pack) st = after st (activate_asset_pack user pack now st.db st.db)
step l now (deletes user pack) st = deletion st pack (claim_deletion l true user pack now st.db)
step l now (abandons ago pack) st =
    claiming st pack (claim_abandonment l (now - ago) now pack st.db)
step l now (supersedes ago pack) st =
    claiming st pack (claim_superseded l (now - ago) now pack st.db)
step l now (stages ago pack) st = record st { db = (claim_staging l (now - ago) now pack st.db).0 }
step l now (picks_up pack) st =
    if any (being_removed pack) st.db.packs
    then record st { in_flight = pack ∷ st.in_flight }
    else st
step l now (cleanup_fails pack s) st = record st { db = mark_cleanup_failed pack s now st.db }
step l now (ends_deletion pack) st = flying st pack (finish_deletion pack)
step l now (ends_removal pack) st = flying st pack (finish_removal pack)
step l now (ends_abandonment pack) st = flying st pack (finish_abandonment pack now)
step l now (stage_fails pack) st = record st { db = retry_staging pack now st.db }
step l now (ends_stage pack) st = record st { db = finish_staging pack now st.db }

unfoldable pub run : StorageLimits → List (ℕ × Call) → State → State
run l [] st = st
run l ((now, call) ∷ calls) st = run l calls (step l now call st)
