-- ===== src/Visit/Invitations/Capacity.antt =====
-- What the acceptance of an invitation brings about.
use our_companion_network.Base.{
  ℕ, ◌+◌, ◌≡◌, refl, sym, ◌∙◌, Bool, true, false, not, ◌&&◌, ◌||◌, Option, none, some, List, [],
  ◌∷◌, ◌==◌, arith, any, all, count_where, update_where, ok, inl, inr, Bool-cases, Result-cases,
  Option-cases, if◌then◌else◌, ◌⊎◌, any-update_where_self,
}
use our_companion_network.Visit.{
  AssetPack, TopicSnapshot, Invitation, InviteStatus, Session, Reservation, Db,
}
use our_companion_network.Visit.Rows.{is_live}
use our_companion_network.Visit.Ending.{is_pending_invite}
use our_companion_network.Visit.Snapshots.{
  assert_no_reservation, create_reservation, create_participant, told_topic,
}
use our_companion_network.Visit.Invitations.Answers.{
  NewIds, find_invitation, is_displaced, displace, open_first_topic, create_session, open_session,
  accept_pending, accept_invitation, Outcome, new_session, accepted_now, is_accepted, answered,
  declines, host_side, invited_pack,
}

abbrev pub is_hosted_by : ℕ → Session → Bool
is_hosted_by host s = s.host_user_id == host && is_live s.state

abbrev pub has_reservation : ℕ → Db → Bool
has_reservation user db = any (λ r. r.user_id == user) db.reservations

-- Who hosts a live session has a reservation.
abbrev pub AreHostsReserved : Db → Type 0
AreHostsReserved db =
    all (λ s. not (is_live s.state) || has_reservation s.host_user_id db) db.sessions ≡ true

-- A host without a reservation hosts nothing.
no_session_hosted :
    (host : ℕ) (rs : List Reservation) (ss : List Session)
    → any (λ r. r.user_id == host) rs ≡ false
    → all (λ s. not (is_live s.state) || any (λ r. r.user_id == s.host_user_id) rs) ss ≡ true
    → count_where (is_hosted_by host) ss ≡ 0
no_session_hosted host rs [] e h = refl
no_session_hosted host rs (s ∷ ss) e h = elim (Bool-cases (s.host_user_id == host)) [
  | inl q ↦ ground (arith, no_session_hosted host rs ss e, same s.host_user_id q)
  | inr q ↦ ground (arith, no_session_hosted host rs ss e)
]
  where
    same : (k : ℕ) → (k == host) ≡ true → any (λ r. r.user_id == k) rs ≡ false
    same k q = let p : k ≡ host = ground arith in rw p e

topic_frame :
    (id session now : ℕ) (t : Option TopicSnapshot) (db : Db)
    → ((open_first_topic id session t now db).sessions ≡ db.sessions)
      × ((open_first_topic id session t now db).invitations ≡ db.invitations)
unfolding open_first_topic
topic_frame id session now none db = (refl, refl)
topic_frame id session now (some t) db = (refl, refl)

-- The rows of sessions and invitations after the writes of an acceptance.
open_session-eq-ok :
    (ids : NewIds) (i : Invitation) (pack : AssetPack) (host_companion : ℕ) (host_pack : AssetPack)
    (now : ℕ) (db db' : Db)
    → open_session ids i pack host_companion host_pack now db ≡ ok db'
    → (db'.sessions ≡ new_session ids i host_companion pack now ∷ db.sessions)
      × (db'.invitations
          ≡ update_where
              (is_displaced i)
              (answered declines now)
              (update_where (λ j. j.id == i.id) (accepted_now now) db.invitations))
unfolding open_session create_session create_participant create_reservation displace
open_session-eq-ok ids i pack host_companion host_pack now db db' h =
    ground (arith, topic_frame ids.topic ids.session now (told_topic i.topic))

accept_pending-eq-ok :
    (ids : NewIds) (i : Invitation) (now : ℕ) (db : Db) (out : Outcome)
    → accept_pending ids i now db ≡ ok out
    → (has_reservation i.host_user_id db ≡ false)
      × ((pack : AssetPack) × (c : ℕ) × (host_pack : AssetPack) × (open_session ids i pack c
              host_pack now db
            ≡ ok out.0))
unfolding accept_pending assert_no_reservation
accept_pending-eq-ok ids i now db out h = elim (Result-cases (invited_pack i db)) [
  | inr (_, e) ↦ absurd (ground arith)
  | inl (pack, e) ↦ elim (Result-cases (host_side i db)) [
    | inr (_, f) ↦ absurd (ground arith)
    | inl ((c, host_pack), f) ↦ elim (Result-cases (open_session ids i pack c host_pack now db)) [
      | inr (_, g) ↦ absurd (ground arith)
      | inl (db', g) ↦ (ground arith, (pack, c, host_pack, ground arith))
    ]
  ]
]

accept_invitation-eq-ok :
    (ids : NewIds) (host id now : ℕ) (db : Db) (out : Outcome)
    → accept_invitation ids host id now db ≡ ok out
    → out.2 ≡ none
    → (i : Invitation) × (find_invitation id db ≡ some i)
      × (i.host_user_id ≡ host)
      × (((is_accepted i.status ≡ true) × (out.0 ≡ db))
          ⊎ ((is_pending_invite i.status ≡ true) × (accept_pending ids i now db ≡ ok out)))
unfolding accept_invitation
accept_invitation-eq-ok ids host id now db out h e = elim (Option-cases (find_invitation id db)) [
  | inl f ↦ absurd (ground arith)
  | inr (i, f) ↦ (i, f, ground arith, ground arith)
]

new_session_live :
    (ids : NewIds) (i : Invitation) (c now : ℕ) (pack : AssetPack)
    → is_hosted_by i.host_user_id (new_session ids i c pack now) ≡ true
new_session_live ids i c now pack = ground arith

accept_hosts_once :
    (ids : NewIds) (now : ℕ) (i : Invitation) (db : Db) (out : Outcome)
    → AreHostsReserved db
    → accept_pending ids i now db ≡ ok out
    → (count_where (is_hosted_by i.host_user_id) out.0.sessions ≡ 1)
      × (any (is_displaced i) out.0.invitations ≡ false)
accept_hosts_once ids now i db out h e =
    let (free, (pack, c, host_pack, f)) = accept_pending-eq-ok ids i now db out e in
    let (s, r) = open_session-eq-ok ids i pack c host_pack now db out.0 f in
    (
      rw s (
          one_more (is_hosted_by i.host_user_id (new_session ids i c pack now))
            (count_where (is_hosted_by i.host_user_id) db.sessions)
            (new_session_live ids i c now pack)
            (no_session_hosted i.host_user_id db.reservations db.sessions free h)),
      rw r (
          any-update_where_self (is_displaced i) (answered declines now)
            (update_where (λ j. j.id == i.id) (accepted_now now) db.invitations)
            (λ j. ground arith)),
    )
  where
    one_more : (b : Bool) (n : ℕ) → b ≡ true → n ≡ 0 → (if b then 1 else 0) + n ≡ 1
    one_more b n p q = ground arith

-- While every host of a live session holds a reservation, a host who accepts a pending invitation
-- in time hosts one live session after that, and no other invitation to the host is pending.
pub accept_invitation_hosts_once :
    (ids : NewIds) (host id now : ℕ) (i : Invitation) (db : Db) (out : Outcome)
    → AreHostsReserved db
    → find_invitation id db ≡ some i
    → is_pending_invite i.status ≡ true
    → accept_invitation ids host id now db ≡ ok out
    → out.2 ≡ none
    → (count_where (is_hosted_by host) out.0.sessions ≡ 1)
      × (any (is_displaced i) out.0.invitations ≡ false)
accept_invitation_hosts_once ids host id now i db out h f p e n =
    let (j, g, q, w) = accept_invitation-eq-ok ids host id now db out e n in
    let same : j ≡ i = unwrap j i (sym g ∙ f) in
    elim w [
      | inl (a, _) ↦ absurd (ground (arith, clash j.status a (rw same p)))
      | inr (_, a) ↦
          let (c, d) = accept_hosts_once ids now j db out h a in (rw q at c, rw same at d)
    ]
  where
    unwrap : (x y : Invitation) → some x ≡ some y → x ≡ y
    unwrap x y e = cc

    clash : (t : InviteStatus) → is_accepted t ≡ true → is_pending_invite t ≡ true → true ≡ false
    clash t a b = ground arith
