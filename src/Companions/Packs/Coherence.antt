-- ===== src/Companions/Packs/Coherence.antt =====
-- The Companions and their active packs stay coherent: under writes by which no pack gets active
-- or stops to be so, and under a switch to another pack.
use our_companion_network.Base.{
  ℕ, ◌≡◌, refl, subst, true, false, not, ◌||◌, some, none, Option, List, [], ◌∷◌, ◌==◌, arith, any,
  all, is_id, update_where, value_or, any_of_find_first, update_where_none, find_first_sound,
}
use our_companion_network.Visit.{Companion, AssetPack, PackStatus, Db}
use our_companion_network.Visit.Snapshots.{is_active_pack}
use our_companion_network.Companions.Packs.Activation.{
  is_other_active, supersede_others, mark_verified,
}
use our_companion_network.Companions.Packs.LifeCycle.{is_doomed}
use our_companion_network.Companions.Packs.Distinct.{update_same}
use our_companion_network.Companions.Packs.Switching.{
  set_active_where, made_active, Activated, unchanged, repaired, activated,
}
use our_companion_network.Companions.Packs.OneActive.{
  AreCoherent, is_coherent, is_active_of, Quiet, Quiet-coherent, unrefer_none, switched-is_coherent,
}

-- What a statement may do to the active packs and the references to them.
pub data Settles (now : ℕ) (db db' : Db) : Type 0 where
  quiet : Quiet db.packs db'.packs → db'.companions ≡ db.companions → Settles now db db'
  unrefers :
      (pack : ℕ)
      → Quiet db.packs db'.packs
      → all (λ p. not (p.id == pack) || is_doomed p.status) db.packs ≡ true
      → db'.companions
        ≡ update_where
            (λ c. is_id c.active_asset_pack_id pack)
            (λ c. record c { active_asset_pack_id = none })
            db.companions
      → Settles now db db'
  adds_upload :
      (p : AssetPack)
      → is_active_pack p.status ≡ false
      → db'.packs ≡ p ∷ db.packs
      → db'.companions ≡ db.companions
      → Settles now db db'
  switches :
      (companion target : ℕ) (allowed : PackStatus) (completed_at : Option ℕ)
      → Activated companion target allowed completed_at now db db'
      → Settles now db db'

abbrev superseded_row : ℕ → ℕ → AssetPack → AssetPack
superseded_row at now p = record p {
  status = PackStatus.superseded;
  superseded_at = some at;
  updated_at = now;
}

added_coherent :
    (p : AssetPack) (ps : List AssetPack) (cs : List Companion)
    → is_active_pack p.status ≡ false
    → all (is_coherent ps) cs ≡ true
    → all (is_coherent (p ∷ ps)) cs ≡ true
added_coherent p ps [] e h = refl
added_coherent p ps (c ∷ cs) e h = ground (arith, added_coherent p ps cs e)

still_active :
    (companion target : ℕ) (f : AssetPack → AssetPack) (ps : List AssetPack)
    → any (is_active_of companion target) ps ≡ true
    → any (is_active_of companion target) (update_where (is_other_active companion target) f ps)
      ≡ true
still_active companion target f [] h = h
still_active companion target f (p ∷ ps) h = ground (arith, still_active companion target f ps)

Activated-AreCoherent :
    (companion target : ℕ) (allowed : PackStatus) (completed_at : Option ℕ) (now : ℕ) (db db' : Db)
    → Activated companion target allowed completed_at now db db'
    → AreCoherent db
    → AreCoherent db'
unfolding supersede_others mark_verified
Activated-AreCoherent companion target allowed at now db db' (unchanged e) h = rw e h
Activated-AreCoherent companion target allowed at now db db' (repaired p f c a e) h = rw e (
    subst
      (λ ps.
        all (is_coherent ps) (
          update_where (λ c. c.id == companion)
            (λ c. record c { active_asset_pack_id = some target }) db.companions)
        ≡ true)
      (update_same (is_active_of companion target)
        (update_where (is_other_active companion target) (superseded_row now now) db.packs))
      (switched-is_coherent companion target (superseded_row now now) (λ p. p)
        (is_active_of companion target) (λ p. refl) (λ p. refl) (λ p. refl) (λ p. refl) (λ p. refl)
        (λ p t. ground arith) (λ p t. ground arith) (λ p t. ground arith) db.packs db.companions
        (still_active companion target (superseded_row now now) db.packs (
          any_of_find_first (λ q. q.id == target) (is_active_of companion target) db.packs p f
            (ground (arith, find_first_sound (λ q. q.id == target) db.packs p f))))
        h))
Activated-AreCoherent companion target allowed none now db db' (activated p i s a e) h = rw e (
    switched-is_coherent companion target (superseded_row (value_or none now) now)
      (λ q. record (made_active none now q) { updated_at = now }) (set_active_where companion p)
      (λ p. refl) (λ p. refl) (λ p. refl) (λ p. refl) (λ p. refl) (λ p t. refl)
      (λ q t. ground arith) (λ q t. ground arith) db.packs db.companions a h)
Activated-AreCoherent companion target allowed (some at) now db db' (activated p i s a e) h = rw e (
    switched-is_coherent companion target (superseded_row (value_or (some at) now) now)
      (λ q. record (made_active (some at) now q) { updated_at = now })
      (set_active_where companion p) (λ p. refl) (λ p. refl) (λ p. refl) (λ p. refl) (λ p. refl)
      (λ p t. refl) (λ q t. ground arith) (λ q t. ground arith) db.packs db.companions a h)

-- A statement keeps the Companions coherent with their packs.
pub Settles-AreCoherent :
    (now : ℕ) (db db' : Db) → Settles now db db' → AreCoherent db → AreCoherent db'
Settles-AreCoherent now db db' (quiet e c) h = rw c (Quiet-coherent db.companions e h)
Settles-AreCoherent now db db' (unrefers pack e d c) h = rw c (
    rw
      (update_where_none (λ c. is_id c.active_asset_pack_id pack)
        (λ c. record c { active_asset_pack_id = none }) db.companions
        (unrefer_none pack db.packs db.companions d h))
      (Quiet-coherent db.companions e h))
Settles-AreCoherent now db db' (adds_upload p n e c) h =
    rw (c, e) (added_coherent p db.packs db.companions n h)
Settles-AreCoherent now db db' (switches companion target allowed at a) h =
    Activated-AreCoherent companion target allowed at now db db' a h
