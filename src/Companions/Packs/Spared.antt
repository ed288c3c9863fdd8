-- ===== src/Companions/Packs/Spared.antt =====
-- src/companion/companion.service.ts: the asset packs whose upload URLs may be in use, under the
-- statements of the service.
use our_companion_network.Base.{
  ℕ, ◌≡◌, Bool, true, false, not, ◌&&◌, ◌||◌, some, none, List, [], ◌∷◌, ◌==◌, arith, any, all, ◌+◌,
  ◌≤◌, ◌<◌, ltb, leb, ok, update_where,
}
use our_companion_network.Visit.{AssetPack, AssetFile, PackStatus, Db}
use our_companion_network.Companions.{owns}
use our_companion_network.Companions.Packs.{StorageLimits, is_status, upload_url_life, write_packs}
use our_companion_network.Companions.Packs.Uploads.{issue_upload_urls}
use our_companion_network.Companions.Packs.LifeCycle.{
  is_doomed, is_same_pack, spares_uploads, has_known_urls, moves, Evolves, nothing, moved, dropped,
}
use our_companion_network.Companions.Packs.Jobs.{State, Call, issues, step, run}
use our_companion_network.Companions.Packs.Changes.{Change, evolves, adds}
use our_companion_network.Companions.Packs.Histories.{IsSound, step-Change, step-IsSound}
use our_companion_network.Companions.Packs.Steps.{issue_upload_urls-eq-ok}

-- The pack is not given up, and its last URLs were issued at `since` or later.
abbrev pub is_spared : ℕ → ℕ → AssetPack → Bool
is_spared pack since p =
    p.id == pack
    && not (is_doomed p.status)
    && elim p.last_upload_url_issued_at [ none ↦ false | some t ↦ leb since t ]

module _ (l : StorageLimits) (pack since : ℕ) where
  spared_row :
      (now : ℕ) (p q : AssetPack)
      → since ≤ now
      → now < since + upload_url_life l
      → moves l now p q ≡ true
      → is_spared pack since p ≡ true
      → is_spared pack since q ≡ true
  unfolding is_same_pack spares_uploads has_known_urls
  spared_row now p q a b m h = ground arith

  Evolves-spared :
      (now : ℕ) {ps qs : List AssetPack}
      → since ≤ now
      → now < since + upload_url_life l
      → Evolves l now ps qs
      → any (is_spared pack since) ps ≡ true
      → any (is_spared pack since) qs ≡ true
  Evolves-spared now a b nothing h = h
  Evolves-spared now a b (moved {p} {q} m e) h =
      either (is_spared pack since p) (is_spared pack since q) _ _ (spared_row now p q a b m)
        (Evolves-spared now a b e) h
    where
      either :
          (x y r s : Bool)
          → (x ≡ true → y ≡ true)
          → (r ≡ true → s ≡ true)
          → (x || r) ≡ true
          → (y || s) ≡ true
      either x y r s f g k = ground (arith, f, g)
  Evolves-spared now a b (dropped {p} d e) h = Evolves-spared now a b e (ground arith)

  keeps_spared :
      (now : ℕ) (flying : List ℕ) (db db' : Db)
      → since ≤ now
      → now < since + upload_url_life l
      → Change l now flying db db'
      → any (is_spared pack since) db.packs ≡ true
      → any (is_spared pack since) db'.packs ≡ true
  keeps_spared now flying db db' a b (evolves e _ _) h = Evolves-spared now a b e h
  keeps_spared now flying db db' a b (adds user companion id v c fresh f o n q r w) h =
      rw w (ground arith)

  abbrev pub in_use : ℕ × Call → Bool
  in_use c = leb since c.0 && ltb c.0 (since + upload_url_life l)

  run-spared :
      (calls : List (ℕ × Call)) (st : State)
      → IsSound st
      → all in_use calls ≡ true
      → any (is_spared pack since) st.db.packs ≡ true
      → any (is_spared pack since) (run l calls st).db.packs ≡ true
  unfolding run
  run-spared [] st s w h = h
  run-spared ((now, call) ∷ calls) st s w h =
      run-spared calls (step l now call st) (step-IsSound l now call st s) (ground arith) (
        keeps_spared now st.in_flight st.db (step l now call st).db (ground arith) (ground arith)
          (step-Change l now call st s) h)

  issued_rows :
      (user : ℕ) (db : Db)
      → any
          (λ q. q.id == pack && is_status PackStatus.uploading q && owns user q.companion_id db)
          db.packs
        ≡ true
      → any
          (is_spared pack since)
          (write_packs since
            (λ q. q.id == pack && is_status PackStatus.uploading q && owns user q.companion_id db)
            (λ q. record q { last_upload_url_issued_at = some since })
            db).packs
        ≡ true
  issued_rows user db h = go db.packs h
    where
      go :
          (ps : List AssetPack)
          → any
              (λ q. q.id == pack && is_status PackStatus.uploading q && owns user q.companion_id db)
              ps
            ≡ true
          → any (is_spared pack since) (
              update_where
                (λ q.
                  q.id == pack && is_status PackStatus.uploading q && owns user q.companion_id db)
                (λ q. record q { last_upload_url_issued_at = some since; updated_at = since })
                ps)
            ≡ true
      go [] e = e
      go (p ∷ ps) e = ground (arith, go ps)

  -- After upload URLs of a pack have been issued, the pack is there and is not given up for as
  -- long as the URLs may be in use, if meanwhile only the companion service writes packs, by
  -- whatever of its requests and clean-ups and in whatever order their statements come, and if the
  -- identifiers were distinct and the packs in flight were given up when the URLs were issued.
  pub issued_pack-IsSpared :
      (user : ℕ) (ids : List ℕ) (calls : List (ℕ × Call)) (st : State) (db : Db)
      (files : List AssetFile)
      → IsSound st
      → issue_upload_urls l true user pack ids since st.db ≡ ok (db, files)
      → all in_use calls ≡ true
      → any (is_spared pack since) (run l calls (step l since (issues user pack ids) st)).db.packs
        ≡ true
  unfolding step
  issued_pack-IsSpared user ids calls st db files s h w =
      let (found, e) = issue_upload_urls-eq-ok l user pack ids since st.db db files h in
      run-spared calls (step l since (issues user pack ids) st)
        (step-IsSound l since (issues user pack ids) st s) w
        (rw (h, e) (issued_rows user st.db found))
