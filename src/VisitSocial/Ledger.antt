-- ===== src/VisitSocial/Ledger.antt =====
-- src/visit-social/visit-social.service.ts: the table of relationships against the settlements.
pub mod Entries
use our_companion_network.Base.{
  ℕ, suc, ◌+◌, ◌*◌, ◌≡◌, refl, Bool, true, false, not, ◌&&◌, ◌||◌, Option, none, some, List, [],
  ◌∷◌, ◌==◌, leb, any, find_first, update_where, count_where, if◌then◌else◌, min, max, arith, inl,
  inr, Bool-cases, is_some, Option-cases, sym, ◌≤◌,
}
use our_companion_network.Visit.{Participant}
use our_companion_network.VisitSocial.{Settlement, Relationship, Store}
use our_companion_network.VisitSocial.Relationships.{
  is_pair, stage_of, new_relationship, deepen, upsert_relationship, update_relationship_pair,
  settle_pair, settle_with, settle_pairs, settle_relationships, ready_participants, pair_turn_count,
  is_settlement,
}

abbrev pub is_pair_settlement : ℕ → ℕ → Settlement → Bool
is_pair_settlement low high s = low == s.companion_low_id && high == s.companion_high_id

-- What the settlements of two Companions come to.
abbrev pub add_visit : ℕ → ℕ → ℕ → Option Relationship → Relationship
add_visit low high turns none = new_relationship low high turns
add_visit low high turns (some r) = deepen turns r

abbrev pub earned : ℕ → ℕ → List Settlement → Option Relationship
earned low high [] = none
earned low high (s ∷ ss) =
    let rest = earned low high ss in
    if is_pair_settlement low high s then some (add_visit low high s.turn_count rest) else rest

-- Each two Companions have the relationship that their settlements come to.
abbrev pub IsLedger : Store → Type 0
IsLedger st =
    (low high : ℕ)
    → (low == high) ≡ false
    → find_first (is_pair low high) st.relationships ≡ earned low high st.settlements

find_pair_self :
    (low high turns : ℕ) (rs : List Relationship)
    → find_first (is_pair low high) (update_where (is_pair low high) (deepen turns) rs)
      ≡ elim (find_first (is_pair low high) rs) [ none ↦ none | some r ↦ some (deepen turns r) ]
unfolding deepen
find_pair_self low high turns [] = refl
find_pair_self low high turns (r ∷ rs) = ground (arith, find_pair_self low high turns rs)

find_pair_other :
    (low high low' high' turns : ℕ) (rs : List Relationship)
    → (low == low' && high == high') ≡ false
    → find_first (is_pair low high) (update_where (is_pair low' high') (deepen turns) rs)
      ≡ find_first (is_pair low high) rs
unfolding deepen
find_pair_other low high low' high' turns [] n = refl
find_pair_other low high low' high' turns (r ∷ rs) n =
    ground (arith, find_pair_other low high low' high' turns rs n)

find_pair_any :
    (low high : ℕ) (rs : List Relationship)
    → any (is_pair low high) rs ≡ is_some (find_first (is_pair low high) rs)
find_pair_any low high [] = refl
find_pair_any low high (r ∷ rs) = ground (arith, find_pair_any low high rs)

upsert_self :
    (low high turns : ℕ) (rs : List Relationship)
    → find_first (is_pair low high) (upsert_relationship low high turns rs)
      ≡ some (add_visit low high turns (find_first (is_pair low high) rs))
unfolding upsert_relationship
upsert_self low high turns rs = elim (Option-cases (find_first (is_pair low high) rs)) [
  | inl e ↦ rw (find_pair_any low high rs, e) (ground arith)
  | inr (r, e) ↦ rw (find_pair_any low high rs, e, find_pair_self low high turns rs) (rw e refl)
]

upsert_other :
    (low high low' high' turns : ℕ) (rs : List Relationship)
    → (low == low' && high == high') ≡ false
    → find_first (is_pair low high) (upsert_relationship low' high' turns rs)
      ≡ find_first (is_pair low high) rs
unfolding upsert_relationship
upsert_other low high low' high' turns rs n = elim (Bool-cases (any (is_pair low' high') rs)) [
  | inl e ↦ rw e (find_pair_other low high low' high' turns rs n)
  | inr e ↦ rw e (ground arith)
]

find_upsert :
    (low high x y turns : ℕ) (rs : List Relationship)
    → find_first (is_pair low high) (upsert_relationship x y turns rs) ≡ (
        if low == x && high == y
        then some (add_visit low high turns (find_first (is_pair low high) rs))
        else find_first (is_pair low high) rs)
find_upsert low high x y turns rs = elim (Bool-cases (low == x && high == y)) [
  | inr m ↦ rw m (upsert_other low high x y turns rs m)
  | inl m ↦
      let l : low ≡ x = ground arith in
      let h : high ≡ y = ground arith in rw m (rw (sym l, sym h) (upsert_self low high turns rs))
]

update_pair :
    (low high x y turns : ℕ) (rs : List Relationship)
    → (low == high) ≡ false
    → x ≤ y
    → find_first (is_pair low high) (update_relationship_pair x y turns rs) ≡ (
        if low == x && high == y
        then some (add_visit low high turns (find_first (is_pair low high) rs))
        else find_first (is_pair low high) rs)
unfolding update_relationship_pair
update_pair low high x y turns rs d o = elim (Bool-cases (x == y)) [
  | inl e ↦ let m : (low == x && high == y) ≡ false = ground arith in rw (e, m) refl
  | inr e ↦
      let a : min x y ≡ x = omega arith in
      let b : max x y ≡ y = omega arith in rw (e, a, b) (find_upsert low high x y turns rs)
]

pub settle_pair-IsLedger :
    (session : ℕ) (p q : Participant) (st : Store)
    → IsLedger st
    → IsLedger (settle_pair session p q st)
unfolding settle_pair
settle_pair-IsLedger session p q st i low high d =
    let a = min p.companion_id q.companion_id in
    let b = max p.companion_id q.companion_id in
    let o : a ≤ b = omega arith in
    let n = pair_turn_count session p q st.turns in
    elim (Bool-cases (any (is_settlement session a b) st.settlements)) [
      | inl e ↦ rw e (i low high d)
      | inr e ↦ rw (e, update_pair low high a b n st.relationships d o, i low high d) refl
    ]

settle_with-IsLedger :
    (session : ℕ) (p : Participant) (ps : List Participant) (st : Store)
    → IsLedger st
    → IsLedger (settle_with session p ps st)
settle_with-IsLedger session p [] st i = i
settle_with-IsLedger session p (q ∷ ps) st i =
    settle_with-IsLedger session p ps (settle_pair session p q st)
      (settle_pair-IsLedger session p q st i)

settle_pairs-IsLedger :
    (session : ℕ) (ps : List Participant) (st : Store)
    → IsLedger st
    → IsLedger (settle_pairs session ps st)
settle_pairs-IsLedger session [] st i = i
settle_pairs-IsLedger session (p ∷ ps) st i =
    settle_pairs-IsLedger session ps (settle_with session p ps st)
      (settle_with-IsLedger session p ps st i)

pub settle_relationships-IsLedger :
    (session : ℕ) (ps : List Participant) (st : Store)
    → IsLedger st
    → IsLedger (settle_relationships session ps st)
unfolding settle_relationships
settle_relationships-IsLedger session ps = settle_pairs-IsLedger session (ready_participants ps)
