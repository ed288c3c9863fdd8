-- ===== src/Companions/Packs/OneActive.antt =====
-- The active pack of a Companion: the one that its row refers to, and no other.
use our_companion_network.Base.{
  ℕ, ◌≡◌, refl, sym, subst, Bool, true, false, not, ◌&&◌, ◌||◌, some, none, Option, List, [], ◌∷◌,
  ◌==◌, arith, any, all, is_id, update_where, if◌then◌else◌, Bool-cases, inl, inr, delete_where,
  ◌⊎◌, Option-cases, ==_iff,
}
use our_companion_network.Visit.{Companion, AssetPack, PackStatus, Db}
use our_companion_network.Visit.Snapshots.{is_active_pack}
use our_companion_network.Companions.Packs.Activation.{is_other_active}
use our_companion_network.Companions.Packs.LifeCycle.{is_doomed}

-- The pack that the Companion refers to is its own and active,
abbrev pub is_active_of : ℕ → ℕ → AssetPack → Bool
is_active_of companion pack p =
    p.id == pack && p.companion_id == companion && is_active_pack p.status

abbrev refers_to_active : List AssetPack → Companion → Bool
refers_to_active ps c = elim c.active_asset_pack_id [
  | none ↦ true
  | some pack ↦ any (is_active_of c.id pack) ps
]

-- and an active pack is the one that its Companion refers to.
abbrev is_only_active : ℕ → Option ℕ → AssetPack → Bool
is_only_active companion pack p =
    not (p.companion_id == companion && is_active_pack p.status) || is_id pack p.id

abbrev pub is_coherent : List AssetPack → Companion → Bool
is_coherent ps c = refers_to_active ps c && all (is_only_active c.id c.active_asset_pack_id) ps

abbrev pub AreCoherent : Db → Type 0
AreCoherent db = all (is_coherent db.packs) db.companions ≡ true

-- A row by row rewriting under which no pack gets active or stops to be so.
pub data Quiet : List AssetPack → List AssetPack → Type 0 where
  nothing : Quiet [] []
  kept :
      {p q : AssetPack} {ps qs : List AssetPack}
      → q.id ≡ p.id
      → q.companion_id ≡ p.companion_id
      → is_active_pack q.status ≡ is_active_pack p.status
      → Quiet ps qs
      → Quiet (p ∷ ps) (q ∷ qs)
  dropped :
      {p : AssetPack} {ps qs : List AssetPack}
      → is_active_pack p.status ≡ false
      → Quiet ps qs
      → Quiet (p ∷ ps) qs

module _ (companion : ℕ) where
  Quiet-any :
      (pack : ℕ) {ps qs : List AssetPack}
      → Quiet ps qs
      → any (is_active_of companion pack) qs ≡ any (is_active_of companion pack) ps
  Quiet-any pack nothing = refl
  Quiet-any pack (kept i c a e) = rw (i, c, a, Quiet-any pack e) refl
  Quiet-any pack (dropped a e) = ground (arith, Quiet-any pack e)

  Quiet-all :
      (pack : Option ℕ) {ps qs : List AssetPack}
      → Quiet ps qs
      → all (is_only_active companion pack) qs ≡ all (is_only_active companion pack) ps
  Quiet-all pack nothing = refl
  Quiet-all pack (kept i c a e) = rw (i, c, a, Quiet-all pack e) refl
  Quiet-all pack (dropped a e) = ground (arith, Quiet-all pack e)

Quiet-is_coherent :
    (c : Companion) {ps qs : List AssetPack} → Quiet ps qs → is_coherent qs c ≡ is_coherent ps c
Quiet-is_coherent c {ps} {qs} e = go c.active_asset_pack_id
  where
    go :
        (pack : Option ℕ)
        → (elim pack [ none ↦ true | some k ↦ any (is_active_of c.id k) qs ]
            && all (is_only_active c.id pack) qs)
          ≡ (elim pack [ none ↦ true | some k ↦ any (is_active_of c.id k) ps ]
              && all (is_only_active c.id pack) ps)
    go none = Quiet-all c.id none e
    go (some k) = rw (Quiet-any c.id k e, Quiet-all c.id (some k) e) refl

pub Quiet-coherent :
    (cs : List Companion) {ps qs : List AssetPack}
    → Quiet ps qs
    → all (is_coherent ps) cs ≡ true
    → all (is_coherent qs) cs ≡ true
Quiet-coherent [] e h = refl
Quiet-coherent (c ∷ cs) e h = rw (Quiet-is_coherent c e) (ground (arith, Quiet-coherent cs e))

pub Quiet-refl : (ps : List AssetPack) → Quiet ps ps
Quiet-refl [] = nothing
Quiet-refl (p ∷ ps) = kept refl refl refl (Quiet-refl ps)

pub Quiet-update_where :
    (test : AssetPack → Bool) (f : AssetPack → AssetPack) (ps : List AssetPack)
    → ((p : AssetPack)
        → test p ≡ true
        → ((f p).id ≡ p.id)
          × ((f p).companion_id ≡ p.companion_id)
          × (is_active_pack (f p).status ≡ is_active_pack p.status))
    → Quiet ps (update_where test f ps)
Quiet-update_where test f [] h = nothing
Quiet-update_where test f (p ∷ ps) h = elim (Bool-cases (test p)) [
  | inl e ↦ rw e (kept ((h p e).0) ((h p e).1) ((h p e).2) (Quiet-update_where test f ps h))
  | inr e ↦ rw e (kept refl refl refl (Quiet-update_where test f ps h))
]

-- Packs that are given up are not active, and stay so.
pub Quiet-abandon :
    (pack now : ℕ) (ps : List AssetPack)
    → all (λ p. not (p.id == pack) || is_doomed p.status) ps ≡ true
    → Quiet ps (
        update_where
          (λ p. p.id == pack)
          (λ p. record p { status = PackStatus.abandoned; updated_at = now })
          ps)
Quiet-abandon pack now [] h = nothing
Quiet-abandon pack now (p ∷ ps) h = elim (Bool-cases (p.id == pack)) [
  | inl e ↦ rw e (
      kept refl refl (sym (idle p.status (ground arith)))
        (Quiet-abandon pack now ps (ground arith)))
  | inr e ↦ rw e (kept refl refl refl (Quiet-abandon pack now ps (ground arith)))
]
  where
    idle : (s : PackStatus) → is_doomed s ≡ true → is_active_pack s ≡ false
    idle s h = ground arith

pub Quiet-delete_where :
    (test : AssetPack → Bool) (ps : List AssetPack)
    → all (λ p. not (test p) || is_doomed p.status) ps ≡ true
    → Quiet ps (delete_where test ps)
Quiet-delete_where test [] h = nothing
Quiet-delete_where test (p ∷ ps) h = elim (Bool-cases (test p)) [
  | inl e ↦ rw e (dropped (ground arith) (Quiet-delete_where test ps (ground arith)))
  | inr e ↦ rw e (kept refl refl refl (Quiet-delete_where test ps (ground arith)))
]

doomed_none :
    (pack k i : ℕ) (ps : List AssetPack)
    → all (λ p. not (p.id == pack) || is_doomed p.status) ps ≡ true
    → (i == pack) ≡ true
    → any (is_active_of k i) ps ≡ false
doomed_none pack k i [] d e = refl
doomed_none pack k i (p ∷ ps) d e = ground (arith, doomed_none pack k i ps)

refers_none :
    (pack k : ℕ) (o : Option ℕ) (ps : List AssetPack)
    → all (λ p. not (p.id == pack) || is_doomed p.status) ps ≡ true
    → elim o [ none ↦ true | some i ↦ any (is_active_of k i) ps ] ≡ true
    → is_id o pack ≡ false
refers_none pack k none ps d h = refl
refers_none pack k (some i) ps d h = ground (arith, doomed_none pack k i ps d)

-- No Companion refers to a pack that is given up.
pub unrefer_none :
    (pack : ℕ) (ps : List AssetPack) (cs : List Companion)
    → all (λ p. not (p.id == pack) || is_doomed p.status) ps ≡ true
    → all (is_coherent ps) cs ≡ true
    → any (λ c. is_id c.active_asset_pack_id pack) cs ≡ false
unrefer_none pack ps [] d h = refl
unrefer_none pack ps (c ∷ cs) d h =
    let first : is_coherent ps c ≡ true = ground arith in
    let rest : all (is_coherent ps) cs ≡ true = ground arith in
    neither (is_id c.active_asset_pack_id pack) (any (λ x. is_id x.active_asset_pack_id pack) cs)
      (refers_none pack c.id c.active_asset_pack_id ps d
        (left (refers_to_active ps c) (all (is_only_active c.id c.active_asset_pack_id) ps) first))
      (unrefer_none pack ps cs d rest)
  where
    left : (a b : Bool) → (a && b) ≡ true → a ≡ true
    left a b h = ground arith

    neither : (a b : Bool) → a ≡ false → b ≡ false → (a || b) ≡ false
    neither a b h k = ground arith

-- The rows after a switch to a pack: the supersession of the others, and a write that makes rows of
-- the pack active.
module _ (companion target : ℕ) (f g : AssetPack → AssetPack) (test : AssetPack → Bool) where
  abbrev switched : List AssetPack → List AssetPack
  switched ps = update_where test g (update_where (is_other_active companion target) f ps)

  module _ (f_id : (p : AssetPack) → (f p).id ≡ p.id)
      (f_companion : (p : AssetPack) → (f p).companion_id ≡ p.companion_id)
      (f_status : (p : AssetPack) → is_active_pack (f p).status ≡ false)
      (g_id : (p : AssetPack) → (g p).id ≡ p.id)
      (g_companion : (p : AssetPack) → (g p).companion_id ≡ p.companion_id)
      (g_status : (p : AssetPack) → test p ≡ true → is_active_pack (g p).status ≡ true)
      (test_id : (p : AssetPack) → test p ≡ true → p.id ≡ target)
      (test_companion : (p : AssetPack) → test p ≡ true → p.companion_id ≡ companion) where
    others_any :
        (k i : ℕ) (ps : List AssetPack)
        → (k == companion) ≡ false
        → any (is_active_of k i) (switched ps) ≡ any (is_active_of k i) ps
    others_any k i [] n = refl
    others_any k i (p ∷ ps) n = ground (
      arith,
      others_any k i ps n,
      f_id p,
      f_companion p,
      f_status p,
      g_id p,
      g_companion p,
      g_id (f p),
      g_companion (f p),
      test_companion p,
      test_companion (f p),
    )

    others_all :
        (k : ℕ) (o : Option ℕ) (ps : List AssetPack)
        → (k == companion) ≡ false
        → all (is_only_active k o) (switched ps) ≡ all (is_only_active k o) ps
    others_all k o [] n = refl
    others_all k o (p ∷ ps) n = ground (
      arith,
      others_all k o ps n,
      f_id p,
      f_companion p,
      f_status p,
      g_id p,
      g_companion p,
      g_id (f p),
      g_companion (f p),
      test_companion p,
      test_companion (f p),
    )

    only_g : (p : AssetPack) → test p ≡ true → is_only_active companion (some target) (g p) ≡ true
    only_g p t = ground (arith, g_id p, test_id p t)

    only_f : (p : AssetPack) → is_only_active companion (some target) (f p) ≡ true
    only_f p = ground (arith, f_status p)

    only_other :
        (p : AssetPack)
        → is_other_active companion target p ≡ false
        → is_only_active companion (some target) p ≡ true
    only_other p e = ground arith

    only_then :
        (q : AssetPack)
        → is_only_active companion (some target) q ≡ true
        → is_only_active companion (some target) (if test q then g q else q) ≡ true
    only_then q h = elim (Bool-cases (test q)) [ inl t ↦ rw t (only_g q t) | inr t ↦ rw t h ]

    only_row :
        (p : AssetPack)
        → is_only_active companion
            (some target)
            (if is_other_active companion target p then f p else p)
          ≡ true
    only_row p = elim (Bool-cases (is_other_active companion target p)) [
      | inl e ↦ rw e (only_f p)
      | inr e ↦ rw e (only_other p e)
    ]

    and_true : {a b : Bool} → a ≡ true → b ≡ true → (a && b) ≡ true
    and_true {a} {b} h k = ground arith

    own_all :
        (ps : List AssetPack) → all (is_only_active companion (some target)) (switched ps) ≡ true
    own_all [] = refl
    own_all (p ∷ ps) =
        and_true (only_then (if is_other_active companion target p then f p else p) (only_row p))
          (own_all ps)

    active_g : (p : AssetPack) → test p ≡ true → is_active_of companion target (g p) ≡ true
    active_g p t =
        ground (arith, g_id p, g_companion p, g_status p t, test_id p t, test_companion p t)

    any_g :
        (ps : List AssetPack)
        → any test ps ≡ true
        → any (is_active_of companion target) (update_where test g ps) ≡ true
    any_g [] h = h
    any_g (p ∷ ps) h = elim (Bool-cases (test p)) [
      | inl t ↦ rw t (or_left _ _ (active_g p t))
      | inr t ↦ rw t (or_right _ _ (any_g ps (rw t at h)))
    ]
      where
        or_left : (a b : Bool) → a ≡ true → (a || b) ≡ true
        or_left a b h = ground arith

        or_right : (a b : Bool) → b ≡ true → (a || b) ≡ true
        or_right a b h = ground arith

    -- After a switch the Companions are coherent, where those with the identifier refer to the
    -- pack.
    pub switched-is_coherent :
        (ps : List AssetPack) (cs : List Companion)
        → any test (update_where (is_other_active companion target) f ps) ≡ true
        → all (is_coherent ps) cs ≡ true
        → all (is_coherent (switched ps)) (
            update_where
              (λ c. c.id == companion)
              (λ c. record c { active_asset_pack_id = some target })
              cs)
          ≡ true
    switched-is_coherent ps [] a h = refl
    switched-is_coherent ps (c ∷ cs) a h =
        and_true (one c (Bool-cases (c.id == companion)) (ground arith))
          (switched-is_coherent ps cs a (ground arith))
      where
        one :
            (c : Companion)
            → ((c.id == companion) ≡ true) ⊎ ((c.id == companion) ≡ false)
            → is_coherent ps c ≡ true
            → is_coherent
                (switched ps)
                (if c.id == companion then record c { active_asset_pack_id = some target } else c)
              ≡ true
        one c (inl e) h = rw e (
            subst
              (λ k.
                (any (is_active_of k target) (switched ps)
                  && all (is_only_active k (some target)) (switched ps))
                ≡ true)
              (sym ((==_iff c.id companion).0 e)) (and_true (any_g _ a) (own_all ps)))
        one c (inr e) h = rw e (other c e (Option-cases c.active_asset_pack_id) h)
          where
            other :
                (c : Companion)
                → (c.id == companion) ≡ false
                → (c.active_asset_pack_id ≡ none) ⊎ ((k : ℕ) × (c.active_asset_pack_id ≡ some k))
                → is_coherent ps c ≡ true
                → is_coherent (switched ps) c ≡ true
            other c e (inl o) h = rw (o, others_all c.id none ps e) (rw o at h)
            other c e (inr (k, o)) h =
                rw (o, others_any c.id k ps e, others_all c.id (some k) ps e) (rw o at h)
