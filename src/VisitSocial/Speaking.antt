-- ===== src/VisitSocial/Speaking.antt =====
-- src/visit-social/visit-social.service.ts: nextActor in a room whose participants stay.
pub mod Turns
use our_companion_network.Base.{
  ℕ, zero, suc, ◌+◌, ◌%◌, ◌<◌, ◌≡◌, ◌≢◌, refl, Bool, true, false, Option, none, some, List, [], ◌∷◌,
  ◌==◌, any, Unique, length, arith, inl, inr, Bool-cases, Option-cases, subst, ◌≤◌, ltb, ◌∙◌, ap,
}
use native.Mathlib.Nat.{suc-mod, zero-mod, mod-lt, mod-eq_of_lt, mod_self}
use our_companion_network.Visit.{Participant, SessionState}
use our_companion_network.VisitSocial.{Turn}
use our_companion_network.VisitSocial.Rooms.{
  find_index, get_elem?, index_after, turn_after, next_actor,
}

abbrev pub is_same_user : Participant → Participant → Bool
is_same_user p q = p.user_id == q.user_id

get_elem?-any :
    (ps : List Participant) (i user : ℕ)
    → get_elem? ps i ≡ some user
    → any (λ q. user == q.user_id) ps ≡ true
get_elem?-any [] i user e = ground arith
get_elem?-any (p ∷ ps) zero user e = ground arith
get_elem?-any (p ∷ ps) (suc i) user e = ground (arith, get_elem?-any ps i user)

-- A participant is found where it stands.
find_index-get_elem? :
    (ps : List Participant) (i user : ℕ)
    → Unique is_same_user ps
    → get_elem? ps i ≡ some user
    → find_index user ps ≡ some i
find_index-get_elem? [] i user u e = ground arith
find_index-get_elem? (p ∷ ps) zero user u e = ground arith
find_index-get_elem? (p ∷ ps) (suc i) user (h, u) e = elim (Bool-cases (p.user_id == user)) [
  | inl f ↦
      let g = get_elem?-any ps i user e in
      let same : p.user_id ≡ user = ground arith in ground arith
  | inr f ↦ ground (arith, find_index-get_elem? ps i user u e)
]

-- What `nextActor` has answered in an active room.
next_actor-eq-some :
    (ps : List Participant) (last : Option Turn) (user : ℕ)
    → next_actor SessionState.active ps last ≡ some user
    → turn_after ps last ≡ some user
unfolding next_actor
next_actor-eq-some ps last user h = ground arith

abbrev pub latest : List Turn → Option Turn
latest [] = none
latest (t ∷ ts) = some t

-- The turns of a talk, the last one first: each was taken by the actor of that time.
abbrev pub IsTalk : List Participant → List Turn → Type 0
IsTalk ps [] = Unit {0}
IsTalk ps (t ∷ ts) =
    (next_actor SessionState.active ps (latest ts) ≡ some t.sender_user_id) × IsTalk ps ts

-- If no user has two places in the room, each turn of a talk is taken by the participant whose
-- place is the number of turns before it, counted round the room.
pub talk_in_a_circle :
    (ps : List Participant) (t : Turn) (ts : List Turn)
    → Unique is_same_user ps
    → IsTalk ps (t ∷ ts)
    → get_elem? ps (length ts % length ps) ≡ some t.sender_user_id
talk_in_a_circle ps t [] u (h, _) =
    rw (zero-mod (length ps)) (next_actor-eq-some ps none t.sender_user_id h)
talk_in_a_circle ps t (v ∷ vs) u (h, rest) =
    let ih = talk_in_a_circle ps v vs u rest in
    let f = find_index-get_elem? ps (length vs % length ps) v.sender_user_id u ih in
    let g = next_actor-eq-some ps (some v) t.sender_user_id h in
    rw (suc-mod (length vs) (length ps))
      (subst (λ o. get_elem? ps (index_after o % length ps) ≡ some t.sender_user_id) f g)

-- Nobody is next to himself in a circle of at least two places.
no_fixpoint : (a n : ℕ) → 2 ≤ n → a % n ≢ suc a % n
no_fixpoint a n two e =
    let lower : a % n < n = mod-lt a (omega arith) in
    elim (Bool-cases (ltb (suc (a % n)) n)) [
      | inl l ↦
          let inside : suc (a % n) < n = ground arith in
          let f : suc a % n ≡ suc (a % n) = suc-mod a n ∙ mod-eq_of_lt inside in omega arith
      | inr l ↦
          let border : suc (a % n) ≡ n = ground arith in
          let f : suc a % n ≡ 0 = suc-mod a n ∙ ap (λ x. x % n) border ∙ mod_self n in omega arith
    ]

-- If no user has two places in a room of at least two, nobody takes two turns of a talk in a row.
pub talk_alternates :
    (ps : List Participant) (t v : Turn) (ts : List Turn)
    → Unique is_same_user ps
    → 2 ≤ length ps
    → IsTalk ps (t ∷ v ∷ ts)
    → t.sender_user_id ≢ v.sender_user_id
talk_alternates ps t v ts u two (h, rest) e =
    let n = length ps in
    let here =
      find_index-get_elem? ps (length ts % n) v.sender_user_id u
        (talk_in_a_circle ps v ts u rest) in
    let there = find_index-get_elem? ps (suc (length ts) % n) v.sender_user_id u (
      subst (λ x. get_elem? ps (suc (length ts) % n) ≡ some x) e
        (talk_in_a_circle ps t (v ∷ ts) u (h, rest))) in
    let same : length ts % n ≡ suc (length ts) % n = ground arith in
    no_fixpoint (length ts) n two same
