-- ===== src/Companions/Packs/Reference.antt =====
-- The active pack of each Companion under the statements of any requests and clean-ups.
use our_companion_network.Base.{ℕ, refl, List, [], ◌∷◌}
use our_companion_network.Visit.{Db}
use our_companion_network.Companions.Packs.{StorageLimits}
use our_companion_network.Companions.Packs.Uploads.{new_pack}
use our_companion_network.Companions.Packs.Jobs.{State, Call, step, run}
use our_companion_network.Companions.Packs.OneActive.{AreCoherent}
use our_companion_network.Companions.Packs.Coherence.{Settles, adds_upload, Settles-AreCoherent}
use our_companion_network.Companions.Packs.Changes.{Change, evolves, adds}
use our_companion_network.Companions.Packs.Histories.{IsSound, step-Change, step-IsSound}

Change-Settles :
    (l : StorageLimits) (now : ℕ) (flying : List ℕ) (db db' : Db)
    → Change l now flying db db'
    → Settles now db db'
Change-Settles l now flying db db' (evolves e same s) = s
Change-Settles l now flying db db' (adds user companion id v c fresh f o n q r w) =
    adds_upload (new_pack id companion now v) refl w r

-- Whatever requests and clean-ups of the companion service do and in whatever order their
-- statements come, a Companion that refers to a pack refers to an active pack of its own, and it
-- has no other active pack, if this was so at first, the identifiers of packs were distinct and the
-- packs in flight were given up.
pub run-AreCoherent :
    (l : StorageLimits) (calls : List (ℕ × Call)) (st : State)
    → IsSound st
    → AreCoherent st.db
    → AreCoherent (run l calls st).db
unfolding run
run-AreCoherent l [] st s h = h
run-AreCoherent l ((now, call) ∷ calls) st s h =
    run-AreCoherent l calls (step l now call st) (step-IsSound l now call st s) (
      Settles-AreCoherent now st.db (step l now call st).db
        (Change-Settles l now st.in_flight st.db (step l now call st).db
          (step-Change l now call st s))
        h)
