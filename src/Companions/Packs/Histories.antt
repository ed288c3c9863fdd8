-- ===== src/Companions/Packs/Histories.antt =====
-- The statements on asset packs in any order: each of them is a change along the life cycle, and
-- the packs in flight stay given up.
use our_companion_network.Base.{
  ◌-◌, none, some, ℕ, ◌≡◌, refl, Bool, true, false, not, ◌&&◌, ◌||◌, List, [], ◌∷◌, ◌==◌, arith,
  any, all, ok, err, Result, Result-cases, Bool-cases, inl, inr, some, none, ◌-◌, subst, sym,
  ==_iff, ◌⊎◌,
}
use our_companion_network.Visit.{AssetPack, PackStatus, Db}
use our_companion_network.Companions.Packs.{StorageLimits}
use our_companion_network.Companions.Packs.Jobs.{
  State, Call, is_in, after, claiming, flying, being_removed, step, initiates, issues, begins,
  finishes, fails, retries, activates, deletes, abandons, supersedes, stages, picks_up,
  cleanup_fails, ends_deletion, ends_removal, ends_abandonment, stage_fails, ends_stage,
}
use our_companion_network.Companions.Packs.Uploads.{new_pack}
use our_companion_network.Companions.Packs.Removal.{
  claim_deletion, claim_abandonment, claim_superseded, finish_deletion, finish_removal,
  finish_abandonment,
}
use our_companion_network.Companions.Packs.Steps.{issue_upload_urls-eq-ok, claim_deletion-eq-ok}
use our_companion_network.Companions.Packs.Switching.{
  finish_completion-eq-ok, activate_asset_pack-eq-ok,
}
use our_companion_network.Companions.Packs.LifeCycle.{is_doomed}
use our_companion_network.Companions.Packs.Distinct.{
  are_distinct, are_doomed, Evolves-distinct, Evolves-doomed, doomed_by_write, update_same,
}
use our_companion_network.Companions.Packs.Changes.{
  Change, evolves, adds, stays, initiate_asset_pack-Change, issue_upload_urls-Change,
  begin_completion-Change, Activated-Change, fail_completion-Change, retry_completion-Change,
  claim_deletion-Change, claim_abandonment-Change, claim_superseded-Change, claim_staging-Change,
  mark_cleanup_failed-Change, finish_deletion-Change, finish_removal-Change,
  finish_abandonment-Change, retry_staging-Change, finish_staging-Change, to_abandon, to_delete,
  to_remove, abandoning_now, deleting_now,
}
use our_companion_network.Companions.Packs.Removal.{
  claim_deletion, claim_abandonment, claim_superseded, finish_deletion, finish_removal,
  finish_abandonment,
}

-- The identifiers are distinct, and a pack in flight is given up.
abbrev pub IsSound : State → Type 0
IsSound st = (are_distinct st.db.packs ≡ true) × (are_doomed st.in_flight st.db.packs ≡ true)

doomed_in_flight :
    (pack : ℕ) (flying : List ℕ) (ps : List AssetPack)
    → is_in pack flying ≡ true
    → are_doomed flying ps ≡ true
    → all (λ p. not (p.id == pack) || is_doomed p.status) ps ≡ true
doomed_in_flight pack flying [] i h = refl
doomed_in_flight pack flying (p ∷ ps) i h = elim (Bool-cases (p.id == pack)) [
  | inl e ↦
      let here : is_in p.id flying ≡ true =
        subst (λ k. is_in k flying ≡ true) (sym ((==_iff p.id pack).0 e)) i in
      rw e (ground (arith, doomed_in_flight pack flying ps i))
  | inr e ↦ rw e (doomed_in_flight pack flying ps i (ground arith))
]

module _ (l : StorageLimits) (now : ℕ) where
  Change-flying :
      (st : State) (pack : ℕ) (f : Db → Db)
      → IsSound st
      → (all (λ p. not (p.id == pack) || is_doomed p.status) st.db.packs ≡ true
          → Change l now st.in_flight st.db (f st.db))
      → Change l now st.in_flight st.db (flying st pack f).db
  Change-flying st pack f (d, s) h = elim (Bool-cases (is_in pack st.in_flight)) [
    | inl e ↦ rw e (h (doomed_in_flight pack st.in_flight st.db.packs e s))
    | inr e ↦ rw e (stays l now st.in_flight st.db)
  ]

  Change-after :
      {A : Type 0} (st : State) (m : Result (Db × A))
      → ((db : Db) (a : A) → m ≡ ok (db, a) → Change l now st.in_flight st.db db)
      → Change l now st.in_flight st.db (after st m).db
  Change-after st (ok (db, a)) h = h db a refl
  Change-after st (err e) h = stays l now st.in_flight st.db

  Change-claiming :
      (st : State) (pack : ℕ) (r : Db × Bool)
      → Change l now st.in_flight st.db r.0
      → Change l now st.in_flight st.db (claiming st pack r).db
  Change-claiming st pack (db, true) h = h
  Change-claiming st pack (db, false) h = h

  -- Every statement is a change along the life cycle.
  pub step-Change :
      (call : Call) (st : State)
      → IsSound st
      → Change l now st.in_flight st.db (step l now call st).db
  unfolding step
  step-Change (initiates user companion manifest version files bytes id first_file) st s =
      elim (Bool-cases (is_in id st.in_flight)) [
        | inl e ↦ rw e (stays l now st.in_flight st.db)
        | inr e ↦ rw e (
            Change-after st _ (λ db i f.
              initiate_asset_pack-Change l now st.in_flight user companion manifest version files
                bytes id first_file st.db db i e f))
      ]
  step-Change (issues user pack files) st s = Change-after st _ (λ db fs e.
      rw ((issue_upload_urls-eq-ok l user pack files now st.db db fs e).1)
        (issue_upload_urls-Change l now st.in_flight user pack st.db))
  step-Change (begins user pack) st s =
      Change-after st _ (begin_completion-Change l now st.in_flight user pack st.db)
  step-Change (finishes user started) st s = Change-after st _ (λ db ps e.
      Activated-Change l now st.in_flight started.companion_id started.id PackStatus.verifying
        (some now) st.db db refl (finish_completion-eq-ok user started now st.db st.db db ps e))
  step-Change (fails pack) st s = fail_completion-Change l now st.in_flight pack st.db
  step-Change (retries pack) st s = retry_completion-Change l now st.in_flight pack st.db
  step-Change (activates user pack) st s = Change-after st _ (λ db ps e.
      let (companion, a) = activate_asset_pack-eq-ok user pack now st.db st.db db ps e in
      Activated-Change l now st.in_flight companion pack PackStatus.superseded none st.db db refl a)
  step-Change (deletes user pack) st s =
      elim (Result-cases (claim_deletion l true user pack now st.db)) [
        | inl (db, e) ↦ rw e (claim_deletion-Change l now st.in_flight user pack st.db db s.0 e)
        | inr (x, e) ↦ rw e (stays l now st.in_flight st.db)
      ]
  step-Change (abandons ago pack) st s =
      Change-claiming st pack (claim_abandonment l (now - ago) now pack st.db)
        (claim_abandonment-Change l now st.in_flight (now - ago) pack st.db (ground arith))
  step-Change (supersedes ago pack) st s =
      Change-claiming st pack (claim_superseded l (now - ago) now pack st.db)
        (claim_superseded-Change l now st.in_flight (now - ago) pack st.db (ground arith))
  step-Change (stages ago pack) st s =
      claim_staging-Change l now st.in_flight (now - ago) pack st.db
  step-Change (picks_up pack) st s = elim (Bool-cases (any (being_removed pack) st.db.packs)) [
    | inl e ↦ rw e (stays l now st.in_flight st.db)
    | inr e ↦ rw e (stays l now st.in_flight st.db)
  ]
  step-Change (cleanup_fails pack t) st s =
      mark_cleanup_failed-Change l now st.in_flight pack t st.db
  step-Change (ends_deletion pack) st s =
      Change-flying st pack (finish_deletion pack) s
        (finish_deletion-Change l now st.in_flight pack st.db)
  step-Change (ends_removal pack) st s =
      Change-flying st pack (finish_removal pack) s
        (finish_removal-Change l now st.in_flight pack st.db)
  step-Change (ends_abandonment pack) st s =
      Change-flying st pack (finish_abandonment pack now) s
        (finish_abandonment-Change l now st.in_flight pack st.db)
  step-Change (stage_fails pack) st s = retry_staging-Change l now st.in_flight pack st.db
  step-Change (ends_stage pack) st s = finish_staging-Change l now st.in_flight pack st.db

  added_distinct :
      (id : ℕ) (flying : List ℕ) (p : AssetPack) (ps : List AssetPack)
      → p.id ≡ id
      → any (λ q. q.id == id) ps ≡ false
      → is_in id flying ≡ false
      → are_distinct ps ≡ true
      → are_doomed flying ps ≡ true
      → (are_distinct (p ∷ ps) ≡ true) × (are_doomed flying (p ∷ ps) ≡ true)
  added_distinct id flying p ps i h f d s =
      let absent : any (λ q. q.id == p.id) ps ≡ false =
        subst (λ k. any (λ q. q.id == k) ps ≡ false) (sym i) h in
      let fresh : is_in p.id flying ≡ false = subst (λ k. is_in k flying ≡ false) (sym i) f in
      (ground arith, ground arith)

  -- So the identifiers stay distinct, and what was in flight stays given up.
  Change-IsSound :
      (flying : List ℕ) (db db' : Db)
      → Change l now flying db db'
      → are_distinct db.packs ≡ true
      → are_doomed flying db.packs ≡ true
      → (are_distinct db'.packs ≡ true) × (are_doomed flying db'.packs ≡ true)
  Change-IsSound flying db db' (evolves e _ _) d s =
      (Evolves-distinct e d, Evolves-doomed flying e s)
  Change-IsSound flying db db' (adds user companion id v c fresh f o n q r w) d s =
      rw w (added_distinct id flying (new_pack id companion now v) db.packs refl n fresh d s)

  more_doomed :
      (pack : ℕ) (flying : List ℕ) (ps : List AssetPack)
      → all (λ p. not (p.id == pack) || is_doomed p.status) ps ≡ true
      → are_doomed flying ps ≡ true
      → are_doomed (pack ∷ flying) ps ≡ true
  more_doomed pack flying [] h s = refl
  more_doomed pack flying (p ∷ ps) h s =
      one_more (pack == p.id) (p.id == pack) (is_in p.id flying) (is_doomed p.status)
        (all (λ p. not (p.id == pack) || is_doomed p.status) ps) (are_doomed flying ps) _
        (turned pack p.id) h s (more_doomed pack flying ps)
    where
      turned : (a b : ℕ) → (a == b) ≡ (b == a)
      turned a b = ground arith

      one_more :
          (a b c d r s t : Bool)
          → a ≡ b
          → ((not b || d) && r) ≡ true
          → ((not c || d) && s) ≡ true
          → (r ≡ true → s ≡ true → t ≡ true)
          → ((not (a || c) || d) && t) ≡ true
      one_more a b c d r s t e h g k = ground (arith, k)

  -- What a claim puts in flight is given up.
  abbrev Flown : State → State → Type 0
  Flown st st' =
      (st'.in_flight ≡ st.in_flight)
      ⊎ ((pack : ℕ) × (st'.in_flight ≡ pack ∷ st.in_flight)
          × (all (λ p. not (p.id == pack) || is_doomed p.status) st'.db.packs ≡ true))

  after-Flown : {A : Type 0} (st : State) (m : Result (Db × A)) → Flown st (after st m)
  after-Flown st (ok (db, a)) = inl refl
  after-Flown st (err e) = inl refl

  flying-Flown : (st : State) (pack : ℕ) (f : Db → Db) → Flown st (flying st pack f)
  flying-Flown st pack f = elim (Bool-cases (is_in pack st.in_flight)) [
    | inl e ↦ rw e (inl refl)
    | inr e ↦ rw e (inl refl)
  ]

  deletion-Flown :
      (user pack : ℕ) (st : State) (db : Db)
      → IsSound st
      → claim_deletion l true user pack now st.db ≡ ok db
      → all (λ p. not (p.id == pack) || is_doomed p.status) db.packs ≡ true
  deletion-Flown user pack st db s h =
      let (p, f, g, x, a, w) = claim_deletion-eq-ok l user pack now st.db db h in
      rw w (
        doomed_by_write pack (to_remove l now st.in_flight user pack p st.db)
          (λ q. record (deleting_now l now st.in_flight q) { updated_at = now }) st.db.packs s.0 a
          (λ q t. ground arith) (λ q. refl) (λ q t. refl))

  abandonment-Flown :
      (started pack : ℕ) (st : State)
      → IsSound st
      → Flown st (claiming st pack (claim_abandonment l started now pack st.db))
  unfolding claim_abandonment
  abandonment-Flown started pack st s =
      elim (Bool-cases (any (to_abandon l now st.in_flight started pack) st.db.packs)) [
        | inl e ↦
            rw (claim_abandonment, e)
              (inr (
                pack,
                refl,
                doomed_by_write pack (to_abandon l now st.in_flight started pack)
                    (λ q. record (abandoning_now l now st.in_flight q) { updated_at = now })
                    st.db.packs s.0 e (λ q t. ground arith) (λ q. refl) (λ q t. refl),
              ))
        | inr e ↦ rw (claim_abandonment, e) (inl refl)
      ]

  superseded-Flown :
      (started pack : ℕ) (st : State)
      → IsSound st
      → Flown st (claiming st pack (claim_superseded l started now pack st.db))
  unfolding claim_superseded
  superseded-Flown started pack st s =
      elim (Bool-cases (any (to_delete l now st.in_flight started st.db pack) st.db.packs)) [
        | inl e ↦
            rw (claim_superseded, e)
              (inr (
                pack,
                refl,
                doomed_by_write pack (to_delete l now st.in_flight started st.db pack)
                    (λ q. record (deleting_now l now st.in_flight q) { updated_at = now })
                    st.db.packs s.0 e (λ q t. ground arith) (λ q. refl) (λ q t. refl),
              ))
        | inr e ↦ rw (claim_superseded, e) (inl refl)
      ]

  picked_doomed :
      (pack : ℕ) (ps : List AssetPack)
      → are_distinct ps ≡ true
      → any (being_removed pack) ps ≡ true
      → all (λ p. not (p.id == pack) || is_doomed p.status) ps ≡ true
  picked_doomed pack ps d a =
      subst (λ qs. all (λ p. not (p.id == pack) || is_doomed p.status) qs ≡ true)
        (update_same (being_removed pack) ps)
        (doomed_by_write pack (being_removed pack) (λ p. p) ps d a (λ q t. ground arith) (λ q. refl)
          (λ q t. ground arith))

  step-Flown : (call : Call) (st : State) → IsSound st → Flown st (step l now call st)
  unfolding step
  step-Flown (initiates user companion manifest version files bytes id first_file) st s =
      elim (Bool-cases (is_in id st.in_flight)) [
        | inl e ↦ rw e (inl refl)
        | inr e ↦ rw e (after-Flown st _)
      ]
  step-Flown (issues user pack files) st s = after-Flown st _
  step-Flown (begins user pack) st s = after-Flown st _
  step-Flown (finishes user started) st s = after-Flown st _
  step-Flown (fails pack) st s = inl refl
  step-Flown (retries pack) st s = inl refl
  step-Flown (activates user pack) st s = after-Flown st _
  step-Flown (deletes user pack) st s =
      elim (Result-cases (claim_deletion l true user pack now st.db)) [
        | inl (db, e) ↦ rw e (inr (pack, refl, deletion-Flown user pack st db s e))
        | inr (x, e) ↦ rw e (inl refl)
      ]
  step-Flown (abandons ago pack) st s = abandonment-Flown (now - ago) pack st s
  step-Flown (supersedes ago pack) st s = superseded-Flown (now - ago) pack st s
  step-Flown (stages ago pack) st s = inl refl
  step-Flown (picks_up pack) st s = elim (Bool-cases (any (being_removed pack) st.db.packs)) [
    | inl e ↦ rw e (inr (pack, refl, picked_doomed pack st.db.packs s.0 e))
    | inr e ↦ rw e (inl refl)
  ]
  step-Flown (cleanup_fails pack t) st s = inl refl
  step-Flown (ends_deletion pack) st s = flying-Flown st pack (finish_deletion pack)
  step-Flown (ends_removal pack) st s = flying-Flown st pack (finish_removal pack)
  step-Flown (ends_abandonment pack) st s = flying-Flown st pack (finish_abandonment pack now)
  step-Flown (stage_fails pack) st s = inl refl
  step-Flown (ends_stage pack) st s = inl refl

  -- Every statement keeps the identifiers distinct and the packs in flight given up.
  pub step-IsSound : (call : Call) (st : State) → IsSound st → IsSound (step l now call st)
  step-IsSound call st s =
      let (d, h) =
        Change-IsSound st.in_flight st.db (step l now call st).db (step-Change call st s) s.0 s.1 in
      elim (step-Flown call st s) [
        | inl e ↦ (d, rw e h)
        | inr (pack, e, g) ↦
            (d, rw e (more_doomed pack st.in_flight (step l now call st).db.packs g h))
      ]
