-- ===== src/Visit/Invitations/Withdrawals.antt =====
-- An invitation that is withdrawn or declined leaves nothing behind.
use our_companion_network.Base.{
  ℕ, ◌≡◌, refl, sym, ◌∙◌, true, false, some, List, [], ◌∷◌, ◌==◌, arith, find_first, update_where,
  ok, err, Code, conflict, inl, inr, Option-cases, ◌⊎◌,
}
use our_companion_network.Events.{Publications}
use our_companion_network.Visit.{Invitation, InviteStatus, Db}
use our_companion_network.Visit.Ending.{is_pending_invite}
use our_companion_network.Visit.Invitations.Answers.{
  NewIds, Answer, declines, cancels, answered, answer_party, find_invitation, write_invitation,
  drop_reservation, respond_to_invitation, accept_invitation, is_accepted,
}

respond_to_invitation-eq-ok :
    (user id now : ℕ) (answer : Answer) (db db' : Db) (ps : Publications)
    → respond_to_invitation user id answer now db ≡ ok (db', ps)
    → (i : Invitation) × (find_invitation id db ≡ some i)
      × (answer_party answer i ≡ user)
      × (((is_pending_invite i.status ≡ false) × (db' ≡ db))
          ⊎ (db' ≡ drop_reservation i (write_invitation i.id (answered answer now) db)))
unfolding respond_to_invitation
respond_to_invitation-eq-ok user id now answer db db' ps h =
    elim (Option-cases (find_invitation id db)) [
      | inl e ↦ absurd (ground arith)
      | inr (i, e) ↦ (i, e, ground arith, ground arith)
    ]

answered_row :
    (id now : ℕ) (answer : Answer) (is : List Invitation) (i : Invitation)
    → find_first (λ j. j.id == id) is ≡ some i
    → find_first (λ j. j.id == id) (update_where (λ j. j.id == i.id) (answered answer now) is)
      ≡ some (answered answer now i)
answered_row id now answer [] i e = ground arith
answered_row id now answer (j ∷ is) i e = ground (arith, answered_row id now answer is i)

is_closed_by_answer :
    (answer : Answer) (now : ℕ) (i : Invitation)
    → is_pending_invite (answered answer now i).status ≡ false
is_closed_by_answer answer now i = ground arith

-- After an invitation has been declined or cancelled, it is not pending.
pub respond_closes :
    (user id now : ℕ) (answer : Answer) (db db' : Db) (ps : Publications)
    → respond_to_invitation user id answer now db ≡ ok (db', ps)
    → (i : Invitation) × (find_invitation id db' ≡ some i) × (is_pending_invite i.status ≡ false)
respond_closes user id now answer db db' ps h =
    let (i, e, _, w) = respond_to_invitation-eq-ok user id now answer db db' ps h in
    elim w [
      | inl (c, f) ↦ (i, rw f e, c)
      | inr f ↦ (
        answered answer now i,
        rw f (answered_row id now answer db.invitations i e),
        is_closed_by_answer answer now i,
      )
    ]

not_pending_refused :
    (ids : NewIds) (id now : ℕ) (db : Db) (i : Invitation)
    → find_invitation id db ≡ some i
    → is_pending_invite i.status ≡ false
    → is_accepted i.status ≡ false
    → accept_invitation ids i.host_user_id id now db
      ≡ err (conflict Code.visit_invitation_not_pending)
unfolding accept_invitation
not_pending_refused ids id now db i e p a = ground arith

-- A pending invitation that has been declined or cancelled cannot be accepted any more.
pub answered_cannot_be_accepted :
    (ids : NewIds) (user id now later : ℕ) (answer : Answer) (i : Invitation) (db db' : Db)
    (ps : Publications)
    → find_invitation id db ≡ some i
    → is_pending_invite i.status ≡ true
    → respond_to_invitation user id answer now db ≡ ok (db', ps)
    → accept_invitation ids i.host_user_id id later db'
      ≡ err (conflict Code.visit_invitation_not_pending)
answered_cannot_be_accepted ids user id now later answer i db db' ps f p h =
    let (j, e, _, w) = respond_to_invitation-eq-ok user id now answer db db' ps h in
    let same : j ≡ i = unwrap j i (sym e ∙ f) in
    elim w [
      | inl (c, _) ↦ absurd (ground (arith, clash i.status p (rw same at c)))
      | inr g ↦
          rw (g, same)
            (refused answer i (drop_reservation i (write_invitation i.id (answered answer now) db))
              (answered_row id now answer db.invitations i f))
    ]
  where
    unwrap : (x y : Invitation) → some x ≡ some y → x ≡ y
    unwrap x y k = cc

    clash :
        (t : InviteStatus) → is_pending_invite t ≡ true → is_pending_invite t ≡ false → true ≡ false
    clash t a b = sym a ∙ b

    refused :
        (a : Answer) (x : Invitation) (d : Db)
        → find_invitation id d ≡ some (answered a now x)
        → accept_invitation ids x.host_user_id id later d
          ≡ err (conflict Code.visit_invitation_not_pending)
    refused declines x d k =
        not_pending_refused ids id later d (answered declines now x) k refl refl
    refused cancels x d k = not_pending_refused ids id later d (answered cancels now x) k refl refl
