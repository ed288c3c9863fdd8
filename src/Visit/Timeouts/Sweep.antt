-- ===== src/Visit/Timeouts/Sweep.antt =====
-- What a clean-up leaves.
use our_companion_network.Base.{
  ℕ, zero, suc, ◌≤◌, ◌≡◌, refl, sym, ◌∙◌, Bool, true, false, ◌&&◌, none, some, List, [], ◌∷◌, ◌==◌,
  arith, any, where_, update_where, is_some, inl, inr, Option-cases, Bool-cases, update_where_none,
  length, IsPlanned, plan_write, plan_none, plan_skip, plan_write_by, plan_wide,
}
use our_companion_network.Config.{VisitRuntimeLimits}
use our_companion_network.Events.{Publications}
use our_companion_network.Visit.{Session, Invitation, JoinRequest, Db}
use our_companion_network.Visit.Rows.{is_live, release_session_reservations}
use our_companion_network.Visit.Ending.{is_as_read, closed_session, claim}
use our_companion_network.Visit.Ending.Laws.{claim-sessions, closed_not_live, is_as_read_self}
use our_companion_network.Visit.Timeouts.{
  CleanUp, and_then, completed, expire_join_request, expire_join_requests, is_overdue_request, take,
  timeout_reason, is_overdue, expired_invitation, expire_invitation, expire_invitations,
  end_timed_out, end_all_timed_out, cleanup_expired_and_timed_out,
}

take_all : {A : Type 0} (n : ℕ) (xs : List A) → length xs ≤ n → take n xs ≡ xs
take_all n [] h = refl
take_all zero (x ∷ xs) h = absurd (ground arith)
take_all (suc n) (x ∷ xs) h = ground (arith, take_all n xs)

-- A live session that the clean-up has to end.
abbrev pub is_late : VisitRuntimeLimits → ℕ → Session → Bool
is_late l now s = is_live s.state && is_some (timeout_reason l now s)

module _ (l : VisitRuntimeLimits) (now : ℕ) where
  abbrev is_meant : Session → Session → Bool
  is_meant read s = is_some (timeout_reason l now read) && is_as_read read s

  plan_end :
      (r : Session) (rs : List Session) (db : Db)
      → IsPlanned (is_late l now) is_meant (r ∷ rs) db.sessions
      → IsPlanned (is_late l now) is_meant rs (end_timed_out l now r db).0.sessions
  unfolding end_timed_out
  plan_end r rs db h = elim (Option-cases (timeout_reason l now r)) [
    | inl e ↦
        rw (end_timed_out, e)
          (plan_skip (is_late l now) is_meant r rs db.sessions (λ x. rw e refl) h)
    | inr (reason, e) ↦
        rw (end_timed_out, e, claim-sessions reason now r db)
          (plan_write_by (is_late l now) is_meant (is_as_read r) r rs (closed_session reason now)
            db.sessions (λ x. rw e refl) (λ x _. rw (closed_not_live reason now x) refl) h)
  ]

  end_all_timed_out-IsPlanned :
      (reads : List Session) (db : Db)
      → IsPlanned (is_late l now) is_meant reads db.sessions
      → IsPlanned (is_late l now) is_meant [] (end_all_timed_out l now reads db).0.sessions
  unfolding end_all_timed_out
  end_all_timed_out-IsPlanned [] db h = h
  end_all_timed_out-IsPlanned (r ∷ rs) db h =
      end_all_timed_out-IsPlanned rs (end_timed_out l now r db).0 (plan_end r rs db h)

  end_all_timed_out_clears :
      (db : Db)
      → any
          (is_late l now)
          (end_all_timed_out l now (where_ (λ s. is_live s.state) db.sessions) db).0.sessions
        ≡ false
  end_all_timed_out_clears db =
      plan_none (is_late l now) is_meant
        (end_all_timed_out l now (where_ (λ s. is_live s.state) db.sessions) db).0.sessions
        (end_all_timed_out-IsPlanned (where_ (λ s. is_live s.state) db.sessions) db (
          plan_wide (is_late l now) is_meant (λ s. is_live s.state) db.sessions
            (λ s h. ground arith) (λ s h. meets s h)))
    where
      meets : (s : Session) → is_late l now s ≡ true → is_meant s s ≡ true
      meets s h = ground (arith, is_as_read_self s)

  abbrev is_meant_invitation : Invitation → Invitation → Bool
  is_meant_invitation read i = i.id == read.id && is_overdue now i

  expire_invitation-invitations :
      (read : Invitation) (db : Db)
      → (expire_invitation now read db).0.invitations
        ≡ update_where (is_meant_invitation read) (expired_invitation now) db.invitations
  unfolding expire_invitation
  expire_invitation-invitations read db =
      elim (Bool-cases (any (is_meant_invitation read) db.invitations)) [
        | inl e ↦ rw (expire_invitation, e) refl
        | inr e ↦
            rw (expire_invitation, e)
              (sym (
                update_where_none (is_meant_invitation read) (expired_invitation now) db.invitations
                  e))
      ]

  expire_invitations-IsPlanned :
      (reads : List Invitation) (db : Db)
      → IsPlanned (is_overdue now) is_meant_invitation reads db.invitations
      → IsPlanned
          (is_overdue now)
          is_meant_invitation
          []
          (expire_invitations now reads db).0.invitations
  unfolding expire_invitations
  expire_invitations-IsPlanned [] db h = h
  expire_invitations-IsPlanned (r ∷ rs) db h =
      expire_invitations-IsPlanned rs (expire_invitation now r db).0 (
        rw (expire_invitation-invitations r db) (
          plan_write (is_overdue now) is_meant_invitation r rs (expired_invitation now)
            db.invitations (λ i. refl) h))

  expire_invitations_clears :
      (db : Db)
      → any
          (is_overdue now)
          (expire_invitations now (where_ (is_overdue now) db.invitations) db).0.invitations
        ≡ false
  expire_invitations_clears db =
      plan_none (is_overdue now) is_meant_invitation
        (expire_invitations now (where_ (is_overdue now) db.invitations) db).0.invitations
        (expire_invitations-IsPlanned (where_ (is_overdue now) db.invitations) db (
          plan_wide (is_overdue now) is_meant_invitation (is_overdue now) db.invitations (λ i h. h)
            (λ i h. ground arith)))

  -- What the loops leave alone.
  expire_invitations-sessions :
      (reads : List Invitation) (db : Db)
      → (expire_invitations now reads db).0.sessions ≡ db.sessions
  unfolding expire_invitations expire_invitation
  expire_invitations-sessions [] db = refl
  expire_invitations-sessions (r ∷ rs) db =
      expire_invitations-sessions rs (expire_invitation now r db).0 ∙ one r db
    where
      one : (read : Invitation) (d : Db) → (expire_invitation now read d).0.sessions ≡ d.sessions
      one read d = ground arith

  end_all_timed_out-invitations :
      (reads : List Session) (db : Db)
      → (end_all_timed_out l now reads db).0.invitations ≡ db.invitations
  unfolding end_all_timed_out end_timed_out claim release_session_reservations
  end_all_timed_out-invitations [] db = refl
  end_all_timed_out-invitations (r ∷ rs) db =
      end_all_timed_out-invitations rs (end_timed_out l now r db).0 ∙ one r db
    where
      one : (read : Session) (d : Db) → (end_timed_out l now read d).0.invitations ≡ d.invitations
      one read d = ground arith

  expire_join_requests_frame :
      (reads : List JoinRequest) (db : Db)
      → ((expire_join_requests now reads db).0.sessions ≡ db.sessions)
        × ((expire_join_requests now reads db).0.invitations ≡ db.invitations)
  unfolding expire_join_requests expire_join_request
  expire_join_requests_frame [] db = (refl, refl)
  expire_join_requests_frame (r ∷ rs) db =
      stop (expire_join_request now r db) (λ d. expire_join_requests_frame rs d) (one r db)
    where
      one :
          (read : JoinRequest) (d : Db)
          → ((expire_join_request now read d).0.sessions ≡ d.sessions)
            × ((expire_join_request now read d).0.invitations ≡ d.invitations)
      one read d = (ground arith, ground arith)

      stop :
          (c : CleanUp)
          → ((d : Db)
              → ((expire_join_requests now rs d).0.sessions ≡ d.sessions)
                × ((expire_join_requests now rs d).0.invitations ≡ d.invitations))
          → (c.0.sessions ≡ db.sessions) × (c.0.invitations ≡ db.invitations)
          → ((and_then c (expire_join_requests now rs)).0.sessions ≡ db.sessions)
            × ((and_then c (expire_join_requests now rs)).0.invitations ≡ db.invitations)
      stop (d, ps, some e) rest h = h
      stop (d, ps, none) rest (h, k) = let (f, g) = rest d in (f ∙ h, g ∙ k)

  -- A completed clean-up has gone through all its loops.
  cleanup_parts :
      (limit : ℕ) (db : Db)
      → (cleanup_expired_and_timed_out l limit now db).2 ≡ none
      → (d : Db) × ((cleanup_expired_and_timed_out l limit now db).0
          ≡ (end_all_timed_out l now (take limit (where_ (λ s. is_live s.state) d.sessions)) d).0)
        × (d.sessions ≡ db.sessions)
        × (d.invitations
            ≡ (expire_invitations now
                (take limit (where_ (is_overdue now) db.invitations))
                db).0.invitations)
  unfolding cleanup_expired_and_timed_out
  cleanup_parts limit db h = parts (expire_join_requests now reads first) frame h
    where
      first : Db
      first = (expire_invitations now (take limit (where_ (is_overdue now) db.invitations)) db).0

      reads : List JoinRequest
      reads = take limit (where_ (is_overdue_request now) first.join_requests)

      frame :
          ((expire_join_requests now reads first).0.sessions ≡ db.sessions)
          × ((expire_join_requests now reads first).0.invitations ≡ first.invitations)
      frame =
          let (f, g) = expire_join_requests_frame reads first in
          (
            f
                ∙ expire_invitations-sessions (take limit (where_ (is_overdue now) db.invitations))
                    db,
            g,
          )

      finish : Db → Db × Publications
      finish d = end_all_timed_out l now (take limit (where_ (λ s. is_live s.state) d.sessions)) d

      parts :
          (c : CleanUp)
          → (c.0.sessions ≡ db.sessions) × (c.0.invitations ≡ first.invitations)
          → (and_then c (λ d. completed (finish d))).2 ≡ none
          → (d : Db) × ((and_then c (λ d. completed (finish d))).0 ≡ (finish d).0)
            × (d.sessions ≡ db.sessions)
            × (d.invitations ≡ first.invitations)
      parts (d, ps, some e) (f, g) k = cc
      parts (d, ps, none) (f, g) k = (d, refl, f, g)

-- A clean-up that ends without an error, and whose limit covers the rows it reads, leaves no live
-- session that has timed out and no pending invitation that has expired.
pub cleanup_clears :
    (l : VisitRuntimeLimits) (limit now : ℕ) (db : Db)
    → (cleanup_expired_and_timed_out l limit now db).2 ≡ none
    → length (where_ (λ s. is_live s.state) db.sessions) ≤ limit
    → length (where_ (is_overdue now) db.invitations) ≤ limit
    → (any (is_late l now) (cleanup_expired_and_timed_out l limit now db).0.sessions ≡ false)
      × (any (is_overdue now) (cleanup_expired_and_timed_out l limit now db).0.invitations ≡ false)
cleanup_clears l limit now db h few_sessions few_invitations =
    let (d, e, f, g) = cleanup_parts l now limit db h in
    (
      rw (e, take_all limit (where_ (λ s. is_live s.state) d.sessions) (rw f few_sessions))
          (end_all_timed_out_clears l now d),
      rw
          (
            e,
            end_all_timed_out-invitations l now
                (take limit (where_ (λ s. is_live s.state) d.sessions)) d,
            g,
            take_all limit (where_ (is_overdue now) db.invitations) few_invitations,
          )
          (expire_invitations_clears l now db),
    )
