-- ===== src/Companions/Packs/Changes.antt =====
-- Each statement on asset packs moves rows along their life cycle, or adds one row.
use our_companion_network.Base.{
  ℕ, ◌≡◌, refl, sym, ap, subst, ◌∙◌, Bool, true, false, not, ◌&&◌, ◌||◌, Option, none, some, List,
  [], ◌∷◌, ◌==◌, arith, any, all, is_id, value_or, Result, ok, Bool-cases, inl, inr, ◌≤◌, ◌+◌,
  update_where, any-update_where,
}
use our_companion_network.Visit.{Companion, AssetPack, PackStatus, PackFailure, Db}
use our_companion_network.Visit.Snapshots.{is_active_pack, find_companion}
use our_companion_network.Companions.{owns}
use our_companion_network.Companions.Packs.{
  StorageLimits, is_status, pack_index, write_packs, upload_urls_expired,
}
use our_companion_network.Companions.Packs.Uploads.{
  Validated, usage, new_pack, begin_completion, initiate_asset_pack, fail_completion,
  retry_completion, Completion, Initiated,
}
use our_companion_network.Companions.Packs.Activation.{
  is_other_active, supersede_others, point_to, mark_verified,
}
use our_companion_network.Companions.Packs.Removal.{
  is_deletable, claim_deletion, mark_cleanup_failed, remove_packs, is_deleting, finish_deletion,
  finish_removal, is_expired_upload, claim_abandonment, finish_abandonment, is_old_superseded,
  claim_superseded, is_staging_due, claim_staging, retry_staging, finish_staging,
}
use our_companion_network.Companions.Packs.Jobs.{is_in}
use our_companion_network.Companions.Packs.LifeCycle.{
  is_doomed, is_next, is_next_refl, is_expired_at, is_same_pack, spares_uploads, has_known_urls,
  moves, Evolves, Evolves-refl, Evolves-update_where, Evolves-update_known, Evolves-delete_where,
  next_of, Evolves-update_twice, moves-columns,
}
use our_companion_network.Companions.Packs.Distinct.{are_distinct, all_with_id}
use our_companion_network.Companions.Packs.OneActive.{
  Quiet-refl, Quiet-update_where, Quiet-delete_where, Quiet-abandon,
}
use our_companion_network.Companions.Packs.Coherence.{Settles, quiet, unrefers, switches}
use our_companion_network.Companions.Packs.Switching.{
  set_active_where, made_active, Activated, unchanged, repaired, activated,
}
use our_companion_network.Companions.Packs.Steps.{
  claim_deletion-eq-ok, begin_completion-eq-ok, initiate_asset_pack-eq-ok,
}

abbrev pub SameOwners : List Companion → List Companion → Type 0
SameOwners cs cs' =
    (user companion : ℕ)
    → any (λ c. c.id == companion && c.owner_user_id == user) cs'
      ≡ any (λ c. c.id == companion && c.owner_user_id == user) cs

activity_of :
    (s r : PackStatus)
    → (pack_index r == pack_index s) ≡ true
    → is_active_pack s ≡ false
    → is_active_pack r ≡ false
activity_of s r e h = ground arith

module _ (l : StorageLimits) (now : ℕ) (flying : List ℕ) where
  abbrev pub superseded_row : ℕ → ℕ → AssetPack → AssetPack
  superseded_row at now p = record p {
    status = PackStatus.superseded;
    superseded_at = some at;
    updated_at = now;
  }

  pub data Change (db db' : Db) : Type 0 where
    evolves :
        Evolves l now db.packs db'.packs
        → SameOwners db.companions db'.companions
        → Settles now db db'
        → Change db db'
    adds :
        (user companion id : ℕ) (v : Validated) (c : Companion)
        → is_in id flying ≡ false
        → find_companion companion db ≡ some c
        → c.owner_user_id ≡ user
        → any (λ p. p.id == id) db.packs ≡ false
        → usage user db + v.total_bytes ≤ l.max_user_storage_bytes
        → db'.companions ≡ db.companions
        → db'.packs ≡ new_pack id companion now v ∷ db.packs
        → Change db db'

  pub stays : (db : Db) → Change db db
  stays db = evolves (Evolves-refl l now db.packs) (λ u c. refl) (quiet (Quiet-refl db.packs) refl)

  Change-write_packs :
      (test : AssetPack → Bool) (f : AssetPack → AssetPack) (db : Db)
      → ((p : AssetPack) → test p ≡ true → moves l now p (record (f p) { updated_at = now }) ≡ true)
      → ((p : AssetPack) → test p ≡ true → is_active_pack (f p).status ≡ is_active_pack p.status)
      → Change db (write_packs now test f db)
  Change-write_packs test f db h a =
      evolves (Evolves-update_where l now test (λ p. record (f p) { updated_at = now }) db.packs h)
        (λ u c. refl)
        (quiet
          (Quiet-update_where test (λ p. record (f p) { updated_at = now }) db.packs
            (λ p t.
              let (i, c, _) = moves-columns l now p (record (f p) { updated_at = now }) (h p t) in
              (i, c, a p t)))
          refl)

  -- A row that gets a status that is not given up keeps its URLs.
  moves_alive :
      (p q : AssetPack)
      → is_same_pack p q ≡ true
      → q.last_upload_url_issued_at ≡ p.last_upload_url_issued_at
      → is_next p.status q.status ≡ true
      → is_doomed q.status ≡ false
      → moves l now p q ≡ true
  unfolding spares_uploads has_known_urls
  moves_alive p q s u n d = ground arith

  moves_expired :
      (p q : AssetPack)
      → is_same_pack p q ≡ true
      → q.last_upload_url_issued_at ≡ p.last_upload_url_issued_at
      → is_next p.status q.status ≡ true
      → is_expired_at l now p ≡ true
      → moves l now p q ≡ true
  unfolding spares_uploads has_known_urls
  moves_expired p q s u n d = ground arith

  same_row : (p : AssetPack) → is_same_pack p p ≡ true
  unfolding is_same_pack
  same_row p = ground arith

  -- A write that changes no status and no URL.
  Change-note :
      (test : AssetPack → Bool) (f : AssetPack → AssetPack) (db : Db)
      → ((p : AssetPack) → is_same_pack p (f p) ≡ true)
      → ((p : AssetPack) → (f p).status ≡ p.status)
      → ((p : AssetPack) → (f p).last_upload_url_issued_at ≡ p.last_upload_url_issued_at)
      → Change db (write_packs now test f db)
  unfolding is_same_pack spares_uploads has_known_urls
  Change-note test f db a b c =
      Change-write_packs test f db (λ p e. ground (arith, a p, b p, c p, is_next_refl p.status))
        (λ p e. ap is_active_pack (b p))

  pub issue_upload_urls-Change :
      (user pack : ℕ) (db : Db)
      → Change db (
          write_packs now
            (λ q. q.id == pack && is_status PackStatus.uploading q && owns user q.companion_id db)
            (λ q. record q { last_upload_url_issued_at = some now })
            db)
  unfolding is_same_pack spares_uploads has_known_urls
  issue_upload_urls-Change user pack db =
      Change-write_packs _ (λ q. record q { last_upload_url_issued_at = some now }) db
        (λ p e. ground (arith, is_next_refl p.status)) (λ p e. refl)

  -- A claim by the status.
  pub Change-claim :
      (pack : ℕ) (s t : PackStatus) (f : AssetPack → AssetPack) (db : Db)
      → is_next s t ≡ true
      → is_doomed t ≡ false
      → is_active_pack s ≡ false
      → is_active_pack t ≡ false
      → ((p : AssetPack) → is_same_pack p (f p) ≡ true)
      → ((p : AssetPack) → (f p).status ≡ t)
      → ((p : AssetPack) → (f p).last_upload_url_issued_at ≡ p.last_upload_url_issued_at)
      → Change db (write_packs now (λ q. q.id == pack && is_status s q) f db)
  unfolding is_same_pack
  Change-claim pack s t f db n d v w a b c =
      Change-write_packs _ f db
        (λ p e.
          moves_alive p (record (f p) { updated_at = now }) (a p) (c p)
            (subst (λ r. is_next p.status r ≡ true) (sym (b p))
              (next_of s p.status t (ground arith) n))
            (subst (λ r. is_doomed r ≡ false) (sym (b p)) d))
        (λ p e. ap is_active_pack (b p) ∙ w ∙ sym (activity_of s p.status (ground arith) v))

  pub fail_completion-Change : (pack : ℕ) (db : Db) → Change db (fail_completion pack now db)
  unfolding fail_completion is_same_pack
  fail_completion-Change pack db =
      Change-claim pack PackStatus.verifying PackStatus.failed
        (λ q. record q {
          status = PackStatus.failed;
          failure_code = some PackFailure.integrity_failed;
        })
        db refl refl refl refl same_row (λ p. refl) (λ p. refl)

  pub retry_completion-Change : (pack : ℕ) (db : Db) → Change db (retry_completion pack now db)
  unfolding retry_completion is_same_pack
  retry_completion-Change pack db =
      Change-note _ (λ q. record q { failure_code = some PackFailure.verification_retryable }) db
        same_row (λ p. refl) (λ p. refl)

  pub mark_cleanup_failed-Change :
      (pack : ℕ) (s : PackStatus) (db : Db) → Change db (mark_cleanup_failed pack s now db)
  unfolding mark_cleanup_failed is_same_pack
  mark_cleanup_failed-Change pack s db =
      Change-note _ (λ q. record q { failure_code = some PackFailure.cleanup_failed }) db same_row
        (λ p. refl) (λ p. refl)

  pub retry_staging-Change : (pack : ℕ) (db : Db) → Change db (retry_staging pack now db)
  unfolding retry_staging is_same_pack
  retry_staging-Change pack db =
      Change-note _ (λ q. record q { failure_code = some PackFailure.staging_cleanup_retryable }) db
        same_row (λ p. refl) (λ p. refl)

  pub finish_staging-Change : (pack : ℕ) (db : Db) → Change db (finish_staging pack now db)
  unfolding finish_staging is_same_pack
  finish_staging-Change pack db =
      Change-note _ (λ q. record q { staging_cleaned_at = some now; failure_code = none }) db
        same_row (λ p. refl) (λ p. refl)

  pub claim_staging-Change :
      (started pack : ℕ) (db : Db) → Change db (claim_staging l started now pack db).0
  unfolding claim_staging is_same_pack
  claim_staging-Change started pack db =
      elim (Bool-cases (any (λ q. q.id == pack && is_staging_due l started q) db.packs)) [
        | inl e ↦
            rw (claim_staging, e)
              (Change-note _
                (λ q. record q { failure_code = some PackFailure.staging_cleanup_running }) db
                same_row (λ p. refl) (λ p. refl))
        | inr e ↦ rw (claim_staging, e) (stays db)
      ]

  -- A claim of a job that began earlier.
  was_expired :
      (started : ℕ) (p : AssetPack)
      → started ≤ now
      → upload_urls_expired l started p ≡ true
      → is_expired_at l now p ≡ true
  was_expired started p h e = ground arith

  abbrev pub to_abandon : ℕ → ℕ → AssetPack → Bool
  to_abandon started pack q =
      q.id == pack && is_expired_upload l started q && upload_urls_expired l started q

  abbrev pub abandoning_now : AssetPack → AssetPack
  abandoning_now q = record q { status = PackStatus.abandoning; failure_code = none }

  pub claim_abandonment-Change :
      (started pack : ℕ) (db : Db)
      → started ≤ now
      → Change db (claim_abandonment l started now pack db).0
  unfolding claim_abandonment is_same_pack
  claim_abandonment-Change started pack db h =
      elim (Bool-cases (any (to_abandon started pack) db.packs)) [
        | inl e ↦
            rw (claim_abandonment, e)
              (Change-write_packs (to_abandon started pack) abandoning_now db
                (λ p t.
                  moves_expired p (record (abandoning_now p) { updated_at = now }) (same_row p) refl
                    (unfinished p started (ground arith)) (was_expired started p h (ground arith)))
                (λ p t. sym (idle p started (ground arith))))
        | inr e ↦ rw (claim_abandonment, e) (stays db)
      ]
    where
      idle :
          (p : AssetPack) (started : ℕ)
          → is_expired_upload l started p ≡ true
          → is_active_pack p.status ≡ false
      idle p started h = ground arith

      unfinished :
          (p : AssetPack) (started : ℕ)
          → is_expired_upload l started p ≡ true
          → is_next p.status PackStatus.abandoning ≡ true
      unfinished p started h = ground arith

  abbrev pub to_delete : ℕ → Db → ℕ → AssetPack → Bool
  to_delete started db pack q =
      q.id == pack && is_old_superseded l started db q && upload_urls_expired l started q

  abbrev pub deleting_now : AssetPack → AssetPack
  deleting_now q = record q { status = PackStatus.deleting; failure_code = none }

  pub claim_superseded-Change :
      (started pack : ℕ) (db : Db)
      → started ≤ now
      → Change db (claim_superseded l started now pack db).0
  unfolding claim_superseded is_same_pack
  claim_superseded-Change started pack db h =
      elim (Bool-cases (any (to_delete started db pack) db.packs)) [
        | inl e ↦
            rw (claim_superseded, e)
              (Change-write_packs (to_delete started db pack) deleting_now db
                (λ p t.
                  moves_expired p (record (deleting_now p) { updated_at = now }) (same_row p) refl
                    (next_of PackStatus.superseded p.status PackStatus.deleting (ground arith) refl)
                    (was_expired started p h (ground arith)))
                (λ p t. sym (activity_of PackStatus.superseded p.status (ground arith) refl)))
        | inr e ↦ rw (claim_superseded, e) (stays db)
      ]

  moves_deletable :
      (q p : AssetPack)
      → is_deletable p.status ≡ true
      → (pack_index q.status == pack_index p.status) ≡ true
      → is_expired_at l now q ≡ true
      → moves l now q (record (deleting_now q) { updated_at = now }) ≡ true
  unfolding is_same_pack
  moves_deletable q p g e x =
      moves_expired q (record (deleting_now q) { updated_at = now }) (same_row q) refl
        (next_of p.status q.status PackStatus.deleting e (going p.status g)) x
    where
      going : (s : PackStatus) → is_deletable s ≡ true → is_next s PackStatus.deleting ≡ true
      going s g = ground arith

  abbrev pub to_remove : ℕ → ℕ → AssetPack → Db → AssetPack → Bool
  to_remove user pack p db q =
      q.id == pack && pack_index q.status == pack_index p.status && owns user q.companion_id db

  move_all_deletable :
      (user pack : ℕ) (p : AssetPack) (db : Db) (ps : List AssetPack)
      → all (λ q. not (q.id == pack) || is_expired_at l now q) ps ≡ true
      → is_deletable p.status ≡ true
      → all
          (λ q.
            not (to_remove user pack p db q)
            || moves l now q (record (deleting_now q) { updated_at = now }))
          ps
        ≡ true
  move_all_deletable user pack p db [] a g = refl
  move_all_deletable user pack p db (q ∷ qs) a g =
      all_cons (q.id == pack) (pack_index q.status == pack_index p.status)
        (owns user q.companion_id db) (is_expired_at l now q)
        (all (λ q. not (q.id == pack) || is_expired_at l now q) qs) _ _ a (moves_deletable q p g)
        (λ r. move_all_deletable user pack p db qs r g)
    where
      all_cons :
          (a b c x r m n : Bool)
          → ((not a || x) && r) ≡ true
          → (b ≡ true → x ≡ true → m ≡ true)
          → (r ≡ true → n ≡ true)
          → ((not (a && b && c) || m) && n) ≡ true
      all_cons a b c x r m n h f g = ground (arith, f, g)

  -- A deletion that the owner asked for.
  pub claim_deletion-Change :
      (user pack : ℕ) (db db' : Db)
      → are_distinct db.packs ≡ true
      → claim_deletion l true user pack now db ≡ ok db'
      → Change db db'
  claim_deletion-Change user pack db db' d h =
      let (p, f, g, x, _, w) = claim_deletion-eq-ok l user pack now db db' h in
      rw w (
        evolves
          (Evolves-update_known l now (to_remove user pack p db)
            (λ q. record (deleting_now q) { updated_at = now }) db.packs
            (move_all_deletable user pack p db db.packs
              (all_with_id (is_expired_at l now) pack p db.packs d f x) g))
          (λ u c. refl)
          (quiet
            (Quiet-update_where (to_remove user pack p db)
              (λ q. record (deleting_now q) { updated_at = now }) db.packs
              (λ q t.
                (refl, refl, sym (activity_of p.status q.status (ground arith) (idle p.status g)))))
            refl))
    where
      idle : (s : PackStatus) → is_deletable s ≡ true → is_active_pack s ≡ false
      idle s g = ground arith

  row_superseded :
      (companion target at : ℕ) (p : AssetPack)
      → is_other_active companion target p ≡ true
      → moves l now p (superseded_row at now p) ≡ true
  unfolding is_same_pack
  row_superseded companion target at p e =
      moves_alive p (superseded_row at now p) (same_row p) refl (ground arith) refl

  row_activated :
      (companion : ℕ) (target p : AssetPack) (allowed : PackStatus) (completed_at : Option ℕ)
      → is_next allowed PackStatus.active ≡ true
      → is_status allowed target ≡ true
      → set_active_where companion target p ≡ true
      → moves l now p (record (made_active completed_at now p) { updated_at = now }) ≡ true
  unfolding is_same_pack
  row_activated companion target p allowed completed_at n a e =
      moves_alive p (record (made_active completed_at now p) { updated_at = now }) (same_row p) refl
        (next_of allowed p.status PackStatus.active (ground arith) n) refl

  pub point_to-SameOwners :
      (companion target : ℕ) (db : Db)
      → SameOwners db.companions (point_to companion target db).companions
  point_to-SameOwners companion target db u c =
      any-update_where (λ x. x.id == c && x.owner_user_id == u) (λ x. x.id == companion)
        (λ x. record x { active_asset_pack_id = some target }) db.companions (λ x. refl)

  Evolves-activation :
      (companion target : ℕ) (p : AssetPack) (allowed : PackStatus) (at : Option ℕ) (db : Db)
      → is_next allowed PackStatus.active ≡ true
      → p.id ≡ target
      → is_status allowed p ≡ true
      → Evolves l now db.packs (
          update_where
            (set_active_where companion p)
            (λ q. record (made_active at now q) { updated_at = now })
            (update_where
              (is_other_active companion target)
              (superseded_row (value_or at now) now)
              db.packs))
  Evolves-activation companion target p allowed at db n i s =
      Evolves-update_twice l now (is_other_active companion target)
        (superseded_row (value_or at now) now) (set_active_where companion p)
        (λ q. record (made_active at now q) { updated_at = now }) db.packs
        (row_superseded companion target (value_or at now))
        (λ q. row_activated companion p q allowed at n s) (λ q t. ground arith)

  pub Activated-Change :
      (companion target : ℕ) (allowed : PackStatus) (completed_at : Option ℕ) (db db' : Db)
      → is_next allowed PackStatus.active ≡ true
      → Activated companion target allowed completed_at now db db'
      → Change db db'
  unfolding supersede_others mark_verified
  Activated-Change companion target allowed completed_at db db' n (unchanged e) = rw e (stays db)
  Activated-Change companion target allowed completed_at db db' n (repaired p f c a e) = rw e (
      evolves
        (Evolves-update_where l now (is_other_active companion target) (superseded_row now now)
          db.packs (row_superseded companion target now))
        (point_to-SameOwners companion target db)
        (switches companion target allowed completed_at (repaired p f c a refl)))
  Activated-Change companion target allowed none db db' n (activated p i s a e) = rw e (
      evolves (Evolves-activation companion target p allowed none db n i s)
        (point_to-SameOwners companion target db)
        (switches companion target allowed none (activated p i s a refl)))
  Activated-Change companion target allowed (some at) db db' n (activated p i s a e) = rw e (
      evolves (Evolves-activation companion target p allowed (some at) db n i s)
        (point_to-SameOwners companion target db)
        (switches companion target allowed (some at) (activated p i s a refl)))

  abandon_all :
      (pack : ℕ) (ps : List AssetPack)
      → all (λ p. not (p.id == pack) || is_doomed p.status) ps ≡ true
      → all
          (λ p.
            not (p.id == pack)
            || moves l now p (record p { status = PackStatus.abandoned; updated_at = now }))
          ps
        ≡ true
  unfolding is_same_pack spares_uploads has_known_urls
  abandon_all pack [] h = refl
  abandon_all pack (p ∷ ps) h = ground (arith, abandon_all pack ps, to_abandoned p.status)
    where
      to_abandoned : (s : PackStatus) → is_doomed s ≡ true → is_next s PackStatus.abandoned ≡ true
      to_abandoned s h = ground arith

  deleting_doomed :
      (pack : ℕ) (ps : List AssetPack)
      → all (λ p. not (is_deleting pack p) || is_doomed p.status) ps ≡ true
  deleting_doomed pack [] = refl
  deleting_doomed pack (p ∷ ps) = ground (arith, deleting_doomed pack ps)

  -- A row in flight is given up.
  pub finish_abandonment-Change :
      (pack : ℕ) (db : Db)
      → all (λ p. not (p.id == pack) || is_doomed p.status) db.packs ≡ true
      → Change db (finish_abandonment pack now db)
  unfolding finish_abandonment is_same_pack spares_uploads has_known_urls
  finish_abandonment-Change pack db h =
      evolves
        (Evolves-update_known l now (λ p. p.id == pack)
          (λ p. record p { status = PackStatus.abandoned; updated_at = now }) db.packs
          (abandon_all pack db.packs h))
        (λ u c. refl) (quiet (Quiet-abandon pack now db.packs h) refl)

  -- A Companion does not refer to a pack that is given up.
  remove_packs-Change :
      (test : AssetPack → Bool) (pack : ℕ) (db : Db)
      → all (λ p. not (test p) || is_doomed p.status) db.packs ≡ true
      → all (λ p. not (p.id == pack) || is_doomed p.status) db.packs ≡ true
      → Change db (remove_packs test pack db)
  unfolding remove_packs
  remove_packs-Change test pack db h g =
      evolves (Evolves-delete_where l now test db.packs h)
        (λ u c.
          any-update_where (λ x. x.id == c && x.owner_user_id == u)
            (λ x. is_id x.active_asset_pack_id pack) (λ x. record x { active_asset_pack_id = none })
            db.companions (λ x. refl))
        (unrefers pack (Quiet-delete_where test db.packs h) g refl)

  pub finish_removal-Change :
      (pack : ℕ) (db : Db)
      → all (λ p. not (p.id == pack) || is_doomed p.status) db.packs ≡ true
      → Change db (finish_removal pack db)
  unfolding finish_removal
  finish_removal-Change pack db h = elim (Bool-cases (any (λ p. p.id == pack) db.packs)) [
    | inl e ↦ rw (finish_removal, e) (remove_packs-Change (λ p. p.id == pack) pack db h h)
    | inr e ↦ rw (finish_removal, e) (stays db)
  ]

  pub finish_deletion-Change :
      (pack : ℕ) (db : Db)
      → all (λ p. not (p.id == pack) || is_doomed p.status) db.packs ≡ true
      → Change db (finish_deletion pack db)
  unfolding finish_deletion
  finish_deletion-Change pack db h = elim (Bool-cases (any (is_deleting pack) db.packs)) [
    | inl e ↦
        rw (finish_deletion, e)
          (remove_packs-Change (is_deleting pack) pack db (deleting_doomed pack db.packs) h)
    | inr e ↦ rw (finish_deletion, e) (stays db)
  ]

  pub begin_completion-Change :
      (user pack : ℕ) (db db' : Db) (c : Completion)
      → begin_completion l true user pack now db ≡ ok (db', c)
      → Change db db'
  unfolding is_same_pack
  begin_completion-Change user pack db db' c h =
      elim (begin_completion-eq-ok l user pack now db db' c h) [
        | inl e ↦ rw e (stays db)
        | inr e ↦ rw e (
            Change-claim pack PackStatus.uploading PackStatus.verifying
              (λ q. record q { status = PackStatus.verifying; failure_code = none }) db refl refl
              refl refl same_row (λ p. refl) (λ p. refl))
      ]

  pub initiate_asset_pack-Change :
      (user companion : ℕ) (manifest : Result Validated) (version files bytes new_id first_file : ℕ)
      (db db' : Db) (i : Initiated)
      → is_in new_id flying ≡ false
      → initiate_asset_pack l true user companion manifest version files bytes new_id first_file now
          db
        ≡ ok (db', i)
      → Change db db'
  unfolding is_same_pack
  initiate_asset_pack-Change user companion manifest version files bytes id first_file db db' i
        fresh h =
      elim (initiate_asset_pack-eq-ok l user companion manifest version files bytes id first_file
        now db db' i h) [
          | inl (inl e) ↦ rw e (stays db)
          | inl (inr (pack, e)) ↦ rw e (
              Change-claim pack PackStatus.verifying PackStatus.uploading
                (λ q. record q { status = PackStatus.uploading; failure_code = none }) db refl refl
                refl refl same_row (λ p. refl) (λ p. refl))
          | inr (v, c, f, o, n, q, r, s) ↦ adds user companion id v c fresh f o n q r s
        ]
