-- ===== src/Companions/Packs/Succession.antt =====
-- The life cycle of asset packs as a specification: what may become of a table of packs.
use our_companion_network.Base.{ℕ, ◌≡◌, refl, false, List, [], ◌∷◌, ◌==◌, any}
use our_companion_network.Visit.{AssetPack, PackStatus}
use our_companion_network.Companions.Packs.{StorageLimits}
use our_companion_network.Companions.Packs.LifeCycle.{Evolves}
use our_companion_network.Companions.Packs.Jobs.{State, Call, step, run}
use our_companion_network.Companions.Packs.Changes.{Change, evolves, adds}
use our_companion_network.Companions.Packs.Histories.{IsSound, step-Change, step-IsSound}
use our_companion_network.Companions.Packs.Uploads.{new_pack}

-- One change after the other at some times: rows move along, rows that are given up may go, and
-- new rows begin as uploads.
pub data Succeeds (l : StorageLimits) (ps : List AssetPack) : List AssetPack → Type 0 where
  begins : Succeeds l ps ps
  evolved :
      {qs rs : List AssetPack} (now : ℕ) → Succeeds l ps qs → Evolves l now qs rs → Succeeds l ps rs
  joined :
      {qs : List AssetPack} (p : AssetPack)
      → Succeeds l ps qs
      → any (λ q. q.id == p.id) qs ≡ false
      → p.status ≡ PackStatus.uploading
      → Succeeds l ps (p ∷ qs)

by_change :
    (l : StorageLimits) (now : ℕ) (st st' : State) (ps : List AssetPack)
    → Succeeds l ps st.db.packs
    → Change l now st.in_flight st.db st'.db
    → Succeeds l ps st'.db.packs
by_change l now st st' ps h (evolves e _ _) = evolved now h e
by_change l now st st' ps h (adds user companion id v c fresh f o n q r w) =
    rw w (joined (new_pack id companion now v) h n refl)

run_from :
    (l : StorageLimits) (calls : List (ℕ × Call)) (st : State) (ps : List AssetPack)
    → IsSound st
    → Succeeds l ps st.db.packs
    → Succeeds l ps (run l calls st).db.packs
unfolding run
run_from l [] st ps s h = h
run_from l ((now, call) ∷ calls) st ps s h =
    run_from l calls (step l now call st) ps (step-IsSound l now call st s)
      (by_change l now st (step l now call st) ps h (step-Change l now call st s))

-- While only the companion service writes asset packs, by whatever of its requests and clean-ups and
-- in whatever order their statements come, the table only changes along the life cycle, if at first
-- the identifiers were distinct and the packs in flight were given up.
pub run-Succeeds :
    (l : StorageLimits) (calls : List (ℕ × Call)) (st : State)
    → IsSound st
    → Succeeds l st.db.packs (run l calls st).db.packs
run-Succeeds l calls st s = run_from l calls st st.db.packs s begins

-- In any such order the identifiers stay distinct and the packs in flight stay given up.
pub run-IsSound :
    (l : StorageLimits) (calls : List (ℕ × Call)) (st : State)
    → IsSound st
    → IsSound (run l calls st)
unfolding run
run-IsSound l [] st s = s
run-IsSound l ((now, call) ∷ calls) st s =
    run-IsSound l calls (step l now call st) (step-IsSound l now call st s)
