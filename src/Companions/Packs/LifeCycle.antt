-- ===== src/Companions/Packs/LifeCycle.antt =====
-- What may become of the row of an asset pack under the writes of
-- src/companion/companion.service.ts.
use our_companion_network.Base.{
  ℕ, ◌≡◌, refl, Bool, true, false, not, ◌&&◌, ◌||◌, none, some, List, [], ◌∷◌, ◌==◌, arith, leb,
  is_id, is_some, all, update_where, delete_where, Bool-cases, inl, inr, ◌+◌, if◌then◌else◌, ◌⊎◌,
}
use our_companion_network.Visit.{AssetPack, PackStatus}
use our_companion_network.Companions.Packs.{StorageLimits, pack_index, upload_url_life}

-- The pack is given up: its objects may be deleted at any time.
abbrev pub is_doomed : PackStatus → Bool
is_doomed PackStatus.deleting = true
is_doomed PackStatus.abandoning = true
is_doomed PackStatus.abandoned = true
is_doomed _ = false

-- The statuses that may come next.
abbrev pub is_next : PackStatus → PackStatus → Bool
is_next PackStatus.draft s = pack_index s == 0 || pack_index s == 7
is_next PackStatus.uploading s = pack_index s == 1 || pack_index s == 2 || pack_index s == 8
is_next PackStatus.verifying s =
    pack_index s == 1
    || pack_index s == 2
    || pack_index s == 4
    || pack_index s == 6
    || pack_index s == 8
is_next PackStatus.ready s = pack_index s == 3
is_next PackStatus.active s = pack_index s == 4 || pack_index s == 5
is_next PackStatus.superseded s = pack_index s == 4 || pack_index s == 5 || pack_index s == 7
is_next PackStatus.failed s = pack_index s == 6 || pack_index s == 7
is_next PackStatus.deleting s = is_doomed s
is_next PackStatus.abandoning s = is_doomed s
is_next PackStatus.abandoned s = is_doomed s

abbrev pub is_expired_at : StorageLimits → ℕ → AssetPack → Bool
is_expired_at l now p = elim p.last_upload_url_issued_at [
  | none ↦ true
  | some t ↦ leb (t + upload_url_life l) now
]

unfoldable pub is_same_pack : AssetPack → AssetPack → Bool
is_same_pack p q =
    q.id == p.id && q.companion_id == p.companion_id && q.total_bytes == p.total_bytes

unfoldable pub spares_uploads : StorageLimits → ℕ → AssetPack → AssetPack → Bool
spares_uploads l now p q = is_doomed p.status || not (is_doomed q.status) || is_expired_at l now p

unfoldable pub has_known_urls : ℕ → AssetPack → AssetPack → Bool
has_known_urls now p q = elim q.last_upload_url_issued_at [
  | none ↦ not (is_some p.last_upload_url_issued_at)
  | some t ↦ t == now || is_id p.last_upload_url_issued_at t
]

-- The row `q` in place of `p`: the same pack of the same Companion and size, with a status that
-- may come next; not given up while an upload URL may be in use; and with URLs that were issued
-- before or are issued now.
abbrev pub moves : StorageLimits → ℕ → AssetPack → AssetPack → Bool
moves l now p q =
    is_same_pack p q
    && is_next p.status q.status
    && spares_uploads l now p q
    && has_known_urls now p q

pub is_next_refl : (s : PackStatus) → is_next s s ≡ true
is_next_refl PackStatus.draft = refl
is_next_refl PackStatus.uploading = refl
is_next_refl PackStatus.verifying = refl
is_next_refl PackStatus.ready = refl
is_next_refl PackStatus.active = refl
is_next_refl PackStatus.superseded = refl
is_next_refl PackStatus.failed = refl
is_next_refl PackStatus.deleting = refl
is_next_refl PackStatus.abandoning = refl
is_next_refl PackStatus.abandoned = refl

doomed_stays : (s t : PackStatus) → is_next s t ≡ true → is_doomed s ≡ true → is_doomed t ≡ true
doomed_stays PackStatus.deleting t h e = h
doomed_stays PackStatus.abandoning t h e = h
doomed_stays PackStatus.abandoned t h e = h
doomed_stays PackStatus.draft t h e = absurd (ground arith)
doomed_stays PackStatus.uploading t h e = absurd (ground arith)
doomed_stays PackStatus.verifying t h e = absurd (ground arith)
doomed_stays PackStatus.ready t h e = absurd (ground arith)
doomed_stays PackStatus.active t h e = absurd (ground arith)
doomed_stays PackStatus.superseded t h e = absurd (ground arith)
doomed_stays PackStatus.failed t h e = absurd (ground arith)

-- A status is known by its index.
pub next_of :
    (s r t : PackStatus)
    → (pack_index r == pack_index s) ≡ true
    → is_next s t ≡ true
    → is_next r t ≡ true
next_of s r t e h = ground arith

module _ (l : StorageLimits) (now : ℕ) where
  pub moves-next : (p q : AssetPack) → moves l now p q ≡ true → is_next p.status q.status ≡ true
  moves-next p q h = ground arith

  pub moves-columns :
      (p q : AssetPack)
      → moves l now p q ≡ true
      → (q.id ≡ p.id) × (q.companion_id ≡ p.companion_id) × (q.total_bytes ≡ p.total_bytes)
  unfolding is_same_pack
  moves-columns p q h = ground arith

  pub moves-doomed :
      (p q : AssetPack)
      → moves l now p q ≡ true
      → is_doomed p.status ≡ true
      → is_doomed q.status ≡ true
  moves-doomed p q h = doomed_stays p.status q.status (moves-next p q h)

  -- Rows move along, and the rows of packs that are given up may go.
  pub data Evolves : List AssetPack → List AssetPack → Type 0 where
    nothing : Evolves [] []
    moved :
        {p q : AssetPack} {ps qs : List AssetPack}
        → moves l now p q ≡ true
        → Evolves ps qs
        → Evolves (p ∷ ps) (q ∷ qs)
    dropped :
        {p : AssetPack} {ps qs : List AssetPack}
        → is_doomed p.status ≡ true
        → Evolves ps qs
        → Evolves (p ∷ ps) qs

  pub moves_refl : (p : AssetPack) → moves l now p p ≡ true
  unfolding is_same_pack spares_uploads has_known_urls
  moves_refl p = ground (arith, is_next_refl p.status)

  pub Evolves-refl : (ps : List AssetPack) → Evolves ps ps
  Evolves-refl [] = nothing
  Evolves-refl (p ∷ ps) = moved (moves_refl p) (Evolves-refl ps)

  pub Evolves-update_where :
      (test : AssetPack → Bool) (f : AssetPack → AssetPack) (ps : List AssetPack)
      → ((p : AssetPack) → test p ≡ true → moves l now p (f p) ≡ true)
      → Evolves ps (update_where test f ps)
  Evolves-update_where test f [] h = nothing
  Evolves-update_where test f (p ∷ ps) h =
      moved (ground (arith, h p, moves_refl p)) (Evolves-update_where test f ps h)

  pub Evolves-delete_where :
      (test : AssetPack → Bool) (ps : List AssetPack)
      → all (λ p. not (test p) || is_doomed p.status) ps ≡ true
      → Evolves ps (delete_where test ps)
  Evolves-delete_where test [] h = nothing
  Evolves-delete_where test (p ∷ ps) h = elim (Bool-cases (test p)) [
    | inl e ↦ rw e (dropped (ground arith) (Evolves-delete_where test ps (ground arith)))
    | inr e ↦ rw e (moved (moves_refl p) (Evolves-delete_where test ps (ground arith)))
  ]

  -- So for a write of rows that are known to move.
  pub Evolves-update_known :
      (test : AssetPack → Bool) (f : AssetPack → AssetPack) (ps : List AssetPack)
      → all (λ p. not (test p) || moves l now p (f p)) ps ≡ true
      → Evolves ps (update_where test f ps)
  Evolves-update_known test f [] h = nothing
  Evolves-update_known test f (p ∷ ps) h =
      moved (ground (arith, moves_refl p)) (Evolves-update_known test f ps (ground arith))

  -- So for two writes after each other of different rows.
  pub Evolves-update_twice :
      (test : AssetPack → Bool) (f : AssetPack → AssetPack) (other : AssetPack → Bool)
      (g : AssetPack → AssetPack) (ps : List AssetPack)
      → ((p : AssetPack) → test p ≡ true → moves l now p (f p) ≡ true)
      → ((p : AssetPack) → other p ≡ true → moves l now p (g p) ≡ true)
      → ((p : AssetPack) → test p ≡ true → other (f p) ≡ false)
      → Evolves ps (update_where other g (update_where test f ps))
  Evolves-update_twice test f other g [] a b c = nothing
  Evolves-update_twice test f other g (p ∷ ps) a b c =
      moved (row (Bool-cases (test p))) (Evolves-update_twice test f other g ps a b c)
    where
      written : AssetPack → AssetPack
      written q = if other q then g q else q

      row :
          (test p ≡ true) ⊎ (test p ≡ false)
          → moves l now p (written (if test p then f p else p)) ≡ true
      row (inl e) = rw (e, c p e) (a p e)
      row (inr e) =
          rw e (elim (Bool-cases (other p)) [ inl o ↦ rw o (b p o) | inr o ↦ rw o (moves_refl p) ])
