-- ===== src/Visit/Ending/Laws.antt =====
-- The loops that end sessions leave none of those that they were to end.
use our_companion_network.Base.{
  ℕ, ◌≡◌, refl, sym, ◌∙◌, Bool, true, false, ◌&&◌, List, [], ◌∷◌, any, where_, arith, inl, inr,
  update_where, Bool-cases, update_where_none, IsPlanned, plan_write, plan_all, plan_none,
}
use our_companion_network.Visit.{Session, EndReason, Db}
use our_companion_network.Visit.Rows.{is_live, release_session_reservations}
use our_companion_network.Visit.Ending.{
  is_as_read, closed_session, claim, claim_all, is_between, end_sessions_between,
}

pub claim-sessions :
    (reason : EndReason) (now : ℕ) (read : Session) (db : Db)
    → (claim reason now read db).0.sessions
      ≡ update_where (is_as_read read) (closed_session reason now) db.sessions
unfolding claim release_session_reservations
claim-sessions reason now read db = elim (Bool-cases (any (is_as_read read) db.sessions)) [
  | inl e ↦ rw (e, claim) refl
  | inr e ↦
      rw (e, claim)
        (sym (update_where_none (is_as_read read) (closed_session reason now) db.sessions e))
]

pub closed_not_live :
    (reason : EndReason) (now : ℕ) (s : Session)
    → is_live (closed_session reason now s).state ≡ false
unfolding closed_session
closed_not_live reason now s = ground arith

pub is_as_read_self : (s : Session) → is_as_read s s ≡ true
is_as_read_self s = ground arith

module _ (kind : Session → Bool) (reason : EndReason) (now : ℕ) where
  abbrev is_meant : Session → Bool
  is_meant s = is_live s.state && kind s

  claim_all-IsPlanned :
      (reads : List Session) (db : Db)
      → IsPlanned is_meant is_as_read reads db.sessions
      → IsPlanned is_meant is_as_read [] (claim_all reason now reads db).0.sessions
  unfolding claim_all
  claim_all-IsPlanned [] db h = h
  claim_all-IsPlanned (r ∷ rs) db h = claim_all-IsPlanned rs (claim reason now r db).0 (
      rw (claim-sessions reason now r db) (
        plan_write is_meant is_as_read r rs (closed_session reason now) db.sessions
          (λ s. rw (closed_not_live reason now s) refl) h))

  pub claim_all_clears :
      (db : Db)
      → any is_meant (claim_all reason now (where_ is_meant db.sessions) db).0.sessions ≡ false
  claim_all_clears db =
      plan_none is_meant is_as_read
        (claim_all reason now (where_ is_meant db.sessions) db).0.sessions
        (claim_all-IsPlanned (where_ is_meant db.sessions) db
          (plan_all is_meant is_as_read db.sessions is_as_read_self))

-- No live session between two users is left.
pub end_sessions_between_clears :
    (a b : ℕ) (reason : EndReason) (now : ℕ) (db : Db)
    → any
        (λ s. is_live s.state && is_between a b s)
        (end_sessions_between a b reason now db).0.sessions
      ≡ false
unfolding end_sessions_between
end_sessions_between_clears a b reason now db = claim_all_clears (is_between a b) reason now db

claim-social :
    (reason : EndReason) (now : ℕ) (read : Session) (db : Db)
    → (claim reason now read db).0.social ≡ db.social
unfolding claim release_session_reservations
claim-social reason now read db = ground arith

claim_all-social :
    (reason : EndReason) (now : ℕ) (reads : List Session) (db : Db)
    → (claim_all reason now reads db).0.social ≡ db.social
unfolding claim_all
claim_all-social reason now [] db = refl
claim_all-social reason now (r ∷ rs) db =
    claim_all-social reason now rs (claim reason now r db).0 ∙ claim-social reason now r db

-- The end of sessions leaves the social graph alone.
pub end_sessions_between-social :
    (a b : ℕ) (reason : EndReason) (now : ℕ) (db : Db)
    → (end_sessions_between a b reason now db).0.social ≡ db.social
unfolding end_sessions_between
end_sessions_between-social a b reason now db =
    claim_all-social reason now (where_ (λ s. is_live s.state && is_between a b s) db.sessions) db
