-- ===== src/Companions/Packs/Distinct.antt =====
-- The rows of asset packs have distinct identifiers, and those in flight are given up.
use our_companion_network.Base.{
  inl, inr, Bool-cases, any_mono, ℕ, ◌≡◌, refl, Bool, true, false, not, ◌&&◌, ◌||◌, some, List, [],
  ◌∷◌, ◌==◌, arith, any, all, find_first, update_where,
}
use our_companion_network.Visit.{AssetPack}
use our_companion_network.Companions.Packs.{StorageLimits}
use our_companion_network.Companions.Packs.Jobs.{is_in}
use our_companion_network.Companions.Packs.LifeCycle.{
  is_doomed, Evolves, nothing, moved, dropped, moves-columns, moves-doomed,
}

abbrev pub are_distinct : List AssetPack → Bool
are_distinct [] = true
are_distinct (p ∷ ps) = not (any (λ q. q.id == p.id) ps) && are_distinct ps

abbrev pub are_doomed : List ℕ → List AssetPack → Bool
are_doomed flying ps = all (λ p. not (is_in p.id flying) || is_doomed p.status) ps

module _ {l : StorageLimits} {now : ℕ} where
  Evolves-absent :
      (i : ℕ) {ps qs : List AssetPack}
      → Evolves l now ps qs
      → any (λ q. q.id == i) ps ≡ false
      → any (λ q. q.id == i) qs ≡ false
  Evolves-absent i nothing h = h
  Evolves-absent i (moved {p} {q} m e) h =
      let (same, _, _) = moves-columns l now p q m in ground (arith, Evolves-absent i e)
  Evolves-absent i (dropped d e) h = ground (arith, Evolves-absent i e)

  pub Evolves-distinct :
      {ps qs : List AssetPack}
      → Evolves l now ps qs
      → are_distinct ps ≡ true
      → are_distinct qs ≡ true
  Evolves-distinct nothing h = h
  Evolves-distinct (moved {p} {q} m e) h =
      let (same, _, _) = moves-columns l now p q m in
      ground (arith, Evolves-distinct e, Evolves-absent p.id e)
  Evolves-distinct (dropped d e) h = ground (arith, Evolves-distinct e)

  pub Evolves-doomed :
      (flying : List ℕ) {ps qs : List AssetPack}
      → Evolves l now ps qs
      → are_doomed flying ps ≡ true
      → are_doomed flying qs ≡ true
  Evolves-doomed flying nothing h = h
  Evolves-doomed flying (moved {p} {q} m e) h =
      let (same, _, _) = moves-columns l now p q m in
      let kept = moves-doomed l now p q m in
      kept_doomed flying p q _ _ (rw same refl) kept (Evolves-doomed flying e) h
    where
      kept_doomed :
          (flying : List ℕ) (p q : AssetPack) (ps qs : List AssetPack)
          → is_in q.id flying ≡ is_in p.id flying
          → (is_doomed p.status ≡ true → is_doomed q.status ≡ true)
          → (are_doomed flying ps ≡ true → are_doomed flying qs ≡ true)
          → are_doomed flying (p ∷ ps) ≡ true
          → are_doomed flying (q ∷ qs) ≡ true
      kept_doomed flying p q ps qs same kept rest h = ground (arith, kept, rest)
  Evolves-doomed flying (dropped d e) h = ground (arith, Evolves-doomed flying e)

-- What holds of the row with an identifier holds of every row with it.
pub all_with_id :
    (good : AssetPack → Bool) (i : ℕ) (p : AssetPack) (ps : List AssetPack)
    → are_distinct ps ≡ true
    → find_first (λ q. q.id == i) ps ≡ some p
    → good p ≡ true
    → all (λ q. not (q.id == i) || good q) ps ≡ true
all_with_id good i p [] d f h = refl
all_with_id good i p (q ∷ qs) d f h = ground (arith, all_with_id good i p qs, none_with_id i qs)
  where
    none_with_id :
        (j : ℕ) (qs : List AssetPack)
        → any (λ q. q.id == j) qs ≡ false
        → all (λ q. not (q.id == j) || good q) qs ≡ true
    none_with_id j [] e = refl
    none_with_id j (r ∷ rs) e = ground (arith, none_with_id j rs)

-- A write of a row by which it is given up gives up every row with its identifier.
pub doomed_by_write :
    (i : ℕ) (test : AssetPack → Bool) (f : AssetPack → AssetPack) (ps : List AssetPack)
    → are_distinct ps ≡ true
    → any test ps ≡ true
    → ((p : AssetPack) → test p ≡ true → p.id ≡ i)
    → ((p : AssetPack) → (f p).id ≡ p.id)
    → ((p : AssetPack) → test p ≡ true → is_doomed (f p).status ≡ true)
    → all (λ q. not (q.id == i) || is_doomed q.status) (update_where test f ps) ≡ true
doomed_by_write i test f [] d a t g h = refl
doomed_by_write i test f (q ∷ qs) d a t g h = elim (Bool-cases (test q)) [
  | inl e ↦ rw e (ground (arith, t q e, g q, h q e, untouched i qs))
  | inr e ↦
      rw e (
        ground (arith, doomed_by_write i test f qs (ground arith) (ground arith) t g h, present qs))
]
  where
    untouched :
        (j : ℕ) (qs : List AssetPack)
        → any (λ q. q.id == j) qs ≡ false
        → all (λ q. not (q.id == j) || is_doomed q.status) (update_where test f qs) ≡ true
    untouched j [] e = refl
    untouched j (r ∷ rs) e = ground (arith, g r, untouched j rs)

    present : (qs : List AssetPack) → any test qs ≡ true → any (λ r. r.id == i) qs ≡ true
    present qs a = any_mono test (λ r. r.id == i) qs (λ r e. ground (arith, t r e)) a

pub update_same :
    (test : AssetPack → Bool) (ps : List AssetPack) → update_where test (λ p. p) ps ≡ ps
update_same test [] = refl
update_same test (p ∷ ps) = ground (arith, update_same test ps)
