-- ===== src/Visit/Room/Seats.antt =====
-- The seats of a room, and what a guest gives back.
use our_companion_network.Base.{
  ℕ, suc, ◌≤◌, ◌≡◌, refl, true, ◌&&◌, Option, none, some, List, ◌∷◌, ◌==◌, arith, ltb, where_,
  length, ok, inl, inr, Option-cases, Result-cases, Bool-cases, ◌⊎◌,
}
use our_companion_network.Events.{Publications}
use our_companion_network.Visit.{Session, Participant, JoinRequest, TopicSnapshot, Role, Db}
use our_companion_network.Visit.Rows.{is_present, find_session}
use our_companion_network.Visit.Sessions.{present_participants}
use our_companion_network.Visit.Snapshots.{create_participant, told_topic}
use our_companion_network.Visit.Invitations.Answers.{is_accepted, new_participant}
use our_companion_network.Visit.Room.{close_request}
use our_companion_network.Visit.Room.Joining.{
  find_join_request, accept_join_request, accept_pending_request, seat_guest, queue_topic,
}

-- The number of those who have not left a room.
abbrev pub seats_taken : ℕ → Db → ℕ
seats_taken session db = length (present_participants session db)

queue_topic-participants :
    (id session : ℕ) (t : Option TopicSnapshot) (db : Db)
    → (queue_topic id session t db).participants ≡ db.participants
unfolding queue_topic
queue_topic-participants id session none db = refl
queue_topic-participants id session (some t) db = refl

seat_guest-eq-ok :
    (pid tid ref now : ℕ) (r : JoinRequest) (s : Session) (db db' : Db)
    → seat_guest pid tid r ref s now db ≡ ok db'
    → db'.participants
      ≡ new_participant pid s.id r.requester_user_id r.companion_id r.pack_snapshot_id ref
          Role.guest now
        ∷ db.participants
unfolding seat_guest create_participant close_request
seat_guest-eq-ok pid tid ref now r s db db' h =
    ground (arith, queue_topic-participants tid s.id (told_topic r.topic))

accept_pending_request-eq-ok :
    (pid tid now : ℕ) (r : JoinRequest) (s : Session) (db db' : Db)
    → accept_pending_request pid tid r s now db ≡ ok db'
    → (ltb (seats_taken s.id db) s.room_capacity ≡ true)
      × ((ref : ℕ) × (seat_guest pid tid r ref s now db ≡ ok db'))
unfolding accept_pending_request
accept_pending_request-eq-ok pid tid now r s db db' h = elim (Option-cases r.pack_ref_id) [
  | inl e ↦ absurd (ground arith)
  | inr (ref, e) ↦ (ground arith, (ref, ground arith))
]

seats_after :
    (k : ℕ) (p : Participant) (db db' : Db)
    → db'.participants ≡ p ∷ db.participants
    → p.session_id ≡ k
    → is_present p.state ≡ true
    → seats_taken k db' ≡ suc (seats_taken k db)
unfolding present_participants
seats_after k p db db' e q t = rw e (counted k p db.participants q t)
  where
    counted :
        (j : ℕ) (x : Participant) (xs : List Participant)
        → x.session_id ≡ j
        → is_present x.state ≡ true
        → length (where_ (λ y. y.session_id == j && is_present y.state) (x ∷ xs))
          ≡ suc (length (where_ (λ y. y.session_id == j && is_present y.state) xs))
    counted j x xs a b = ground arith

seated :
    (pid tid now : ℕ) (r : JoinRequest) (s : Session) (db db' : Db)
    → accept_pending_request pid tid r s now db ≡ ok db'
    → (seats_taken s.id db' ≡ suc (seats_taken s.id db)) × (seats_taken s.id db' ≤ s.room_capacity)
seated pid tid now r s db db' h =
    let (few, (ref, e)) = accept_pending_request-eq-ok pid tid now r s db db' h in
    let q =
      seats_after s.id
        (new_participant pid s.id r.requester_user_id r.companion_id r.pack_snapshot_id ref
          Role.guest now)
        db db' (seat_guest-eq-ok pid tid ref now r s db db' e) refl refl in
    (q, fits (seats_taken s.id db) s.room_capacity (seats_taken s.id db') q few)
  where
    fits : (n c m : ℕ) → m ≡ suc n → ltb n c ≡ true → m ≤ c
    fits n c m e f = ground arith

-- The acceptance of a request to join either changes nothing, since the request was accepted
-- before, or takes exactly one more seat, and the room stays within its capacity.
pub accept_join_request_seats :
    (pid tid host id now : ℕ) (r : JoinRequest) (s : Session) (db db' : Db) (ps : Publications)
    → find_join_request id db ≡ some r
    → find_session r.session_id db ≡ some s
    → accept_join_request pid tid host id now db ≡ ok (db', ps)
    → ((is_accepted r.status ≡ true) × (db' ≡ db))
      ⊎ ((seats_taken s.id db' ≡ suc (seats_taken s.id db))
          × (seats_taken s.id db' ≤ s.room_capacity))
unfolding accept_join_request
accept_join_request_seats pid tid host id now r s db db' ps e f h =
    elim (Result-cases (accept_pending_request pid tid r s now db)) [
      | inr (_, g) ↦ inl (ground arith)
      | inl (u, g) ↦ elim (Bool-cases (is_accepted r.status)) [
        | inl a ↦ inl (a, ground arith)
        | inr a ↦ inr (let same : db' ≡ u = ground arith in rw same (seated pid tid now r s db u g))
      ]
    ]
