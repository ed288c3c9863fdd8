-- ===== src/VisitSocial/Numbering/Insertion.antt =====
-- src/visit-social/visit-social.service.ts: a turn that passes its tests meets no unique index.
use our_companion_network.Base.{
  if◌then◌else◌, ℕ, suc, ◌+◌, ◌≤◌, ◌≡◌, refl, false, ◌&&◌, ◌||◌, Option, none, List, [], ◌∷◌, ◌==◌,
  any, find_first, length, arith, inl, inr, Bool-cases, ok, subst,
}
use our_companion_network.Visit.{Session, Participant, RoomTopic}
use our_companion_network.VisitSocial.{Share, Turn, Store}
use our_companion_network.VisitSocial.Turns.{
  TurnInput, insert_turn, take_turn, is_client_turn, latest_turn,
}
use our_companion_network.VisitSocial.Numbering.{
  IsNumbered, turns_of, take_turn-eq-ok, last_sequence-length, last_sequence,
}

-- The numbers of numbered turns are not beyond their count.
number_taken :
    (session n : ℕ) (ts : List Turn)
    → IsNumbered (turns_of session ts)
    → length (turns_of session ts) ≤ n
    → any (λ u. u.session_id == session && u.sequence == suc n) ts ≡ false
number_taken session n [] i l = refl
number_taken session n (t ∷ ts) i l = elim (Bool-cases (t.session_id == session)) [
  | inr e ↦
      let i' =
        subst (λ b. IsNumbered (if b then t ∷ turns_of session ts else turns_of session ts)) e i in
      let l' : length (turns_of session ts) ≤ n =
        subst (λ b. length (if b then t ∷ turns_of session ts else turns_of session ts) ≤ n) e l in
      let ih = number_taken session n ts i' l' in ground (arith, e, ih)
  | inl e ↦
      let (h, i') : IsNumbered (t ∷ turns_of session ts) =
        subst (λ b. IsNumbered (if b then t ∷ turns_of session ts else turns_of session ts)) e i in
      let l' : suc (length (turns_of session ts)) ≤ n =
        subst (λ b. length (if b then t ∷ turns_of session ts else turns_of session ts) ≤ n) e l in
      let ih = number_taken session n ts i' (omega arith) in ground (arith, e, ih, h, l')
]

client_taken :
    (session client : ℕ) (ts : List Turn)
    → find_first (is_client_turn session client) ts ≡ none
    → any (is_client_turn session client) ts ≡ false
client_taken session client [] e = refl
client_taken session client (t ∷ ts) e = ground (arith, client_taken session client ts)

free_slot :
    (session n client : ℕ) (ts : List Turn)
    → any (λ u. u.session_id == session && u.sequence == n) ts ≡ false
    → any (is_client_turn session client) ts ≡ false
    → any (λ u. u.session_id == session && (u.sequence == n || u.client_turn_id == client)) ts
      ≡ false
free_slot session n client [] a b = refl
free_slot session n client (t ∷ ts) a b = ground (arith, free_slot session n client ts)

-- If the turns of a session are numbered without a gap, a turn that passes the tests of a new one,
-- with an identifier of the client that the session has not seen, is inserted: no unique index
-- stands against it.
pub take_turn-insert_turn :
    (new_id user : ℕ) (session : Session) (participants : List Participant) (share : Share)
    (topic : Option RoomTopic) (input : TurnInput) (st : Store) (t : Turn)
    → IsNumbered (turns_of session.id st.turns)
    → find_first (is_client_turn session.id input.client_turn_id) st.turns ≡ none
    → take_turn new_id user session participants share topic input st ≡ ok t
    → insert_turn t st ≡ ok (record st { turns = t ∷ st.turns })
unfolding insert_turn
take_turn-insert_turn new_id user session participants share topic input st t i fresh h =
    let (_, _, e) = take_turn-eq-ok new_id user session participants share topic input st t h in
    let l = last_sequence-length session.id st.turns i in
    let n = last_sequence (latest_turn session.id st.turns) in
    let more : n + 1 ≡ suc n = omega arith in
    let free =
      free_slot session.id (n + 1) input.client_turn_id st.turns
        (rw more (number_taken session.id n st.turns i (omega (arith, l))))
        (client_taken session.id input.client_turn_id st.turns fresh) in
    rw (e, free) refl
