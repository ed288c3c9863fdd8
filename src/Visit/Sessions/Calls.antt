-- ===== src/Visit/Sessions/Calls.antt =====
-- Histories of calls on sessions.
use our_companion_network.Base.{
  ℕ, ◌≡◌, refl, ◌∙◌, List, [], ◌∷◌, true, some, Option, Result, ok, err,
}
use our_companion_network.Events.{Publications}
use our_companion_network.Visit.{SessionState, Session, EndReason, Db}
use our_companion_network.Visit.Rows.{find_session, is_terminal}
use our_companion_network.Visit.Sessions.{mark_ready, start_session, end_session, heartbeat}
use our_companion_network.Visit.Sessions.Progress.{
  Advances, stays, prepared, started, withdrawn, called_off, finished, wound_up, abandoned, Moves,
  Moves-refl, mark_ready-Moves, start_session-Moves, end_session-Moves, heartbeat-Moves,
}
use our_companion_network.Visit.Sessions.Timeline.{
  AllTimed, mark_ready-AllTimed, start_session-AllTimed, end_session-AllTimed, heartbeat-AllTimed,
}

-- A request by a user about a session.
pub data SessionCall : Type 0 where
  readies starts beats : (user session : ℕ) → SessionCall
  ends : (user session : ℕ) → Option EndReason → SessionCall

abbrev after : Db → Result (Db × Publications) → Db
after db (ok (db', _)) = db'
after db (err _) = db

abbrev after_beat : Db → Result Db → Db
after_beat db (ok db') = db'
after_beat db (err _) = db

-- A call that fails leaves the tables as they were.
unfoldable pub step : ℕ × SessionCall → Db → Db
step (now, readies user k) db = after db (mark_ready user k now db)
step (now, starts user k) db = after db (start_session user k now db)
step (now, beats user k) db = after_beat db (heartbeat user k now db)
step (now, ends user k reason) db = after db (end_session user k reason now db)

unfoldable pub run : List (ℕ × SessionCall) → Db → Db
run [] db = db
run (c ∷ cs) db = run cs (step c db)

module _ {ℓ} (P : Db → Type ℓ) (db : Db) (same : P db) where
  after_cases :
      (m : Result (Db × Publications))
      → ((db' : Db) (ps : Publications) → m ≡ ok (db', ps) → P db')
      → P (after db m)
  after_cases (ok (db', ps)) h = h db' ps refl
  after_cases (err _) h = same

  after_beat_cases : (m : Result Db) → ((db' : Db) → m ≡ ok db' → P db') → P (after_beat db m)
  after_beat_cases (ok db') h = h db' refl
  after_beat_cases (err _) h = same

-- One call takes each session one step on at most, and loses none.
pub step-Moves : (c : ℕ × SessionCall) (db : Db) → Moves db (step c db)
unfolding step
step-Moves (now, readies user k) db =
    after_cases (Moves db) db (Moves-refl db db refl) (mark_ready user k now db)
      (mark_ready-Moves user k now db)
step-Moves (now, starts user k) db =
    after_cases (Moves db) db (Moves-refl db db refl) (start_session user k now db)
      (start_session-Moves user k now db)
step-Moves (now, beats user k) db =
    after_beat_cases (Moves db) db (Moves-refl db db refl) (heartbeat user k now db)
      (heartbeat-Moves user k now db)
step-Moves (now, ends user k reason) db =
    after_cases (Moves db) db (Moves-refl db db refl) (end_session user k reason now db)
      (end_session-Moves user k now reason db)

step-AllTimed : (c : ℕ × SessionCall) (db : Db) → AllTimed db → AllTimed (step c db)
unfolding step
step-AllTimed (now, readies user k) db t =
    after_cases AllTimed db t (mark_ready user k now db)
      (λ db' ps e. mark_ready-AllTimed user k now db db' ps e t)
step-AllTimed (now, starts user k) db t =
    after_cases AllTimed db t (start_session user k now db)
      (λ db' ps e. start_session-AllTimed user k now db db' ps e t)
step-AllTimed (now, beats user k) db t =
    after_beat_cases AllTimed db t (heartbeat user k now db)
      (λ db' e. heartbeat-AllTimed user k now db db' e t)
step-AllTimed (now, ends user k reason) db t =
    after_cases AllTimed db t (end_session user k reason now db)
      (λ db' ps e. end_session-AllTimed user k now reason db db' ps e t)

-- If at first the time stamps of every session go with its state, they do after every history of
-- ready, start, end and heartbeat calls.
pub run-AllTimed : (cs : List (ℕ × SessionCall)) (db : Db) → AllTimed db → AllTimed (run cs db)
unfolding run
run-AllTimed [] db t = t
run-AllTimed (c ∷ cs) db t = run-AllTimed cs (step c db) (step-AllTimed c db t)

-- Any number of steps.
pub data Passes : SessionState → SessionState → Type 0 where
  here : (x : SessionState) → Passes x x
  next : {x y z : SessionState} → Advances x y → Passes y z → Passes x z

-- A history of calls takes a session through the transitions of its state machine only, and never
-- loses it.
pub run-Passes :
    (cs : List (ℕ × SessionCall)) (db : Db) (k : ℕ) (x : Session)
    → find_session k db ≡ some x
    → (y : Session) × (find_session k (run cs db) ≡ some y) × Passes x.state y.state
unfolding run
run-Passes [] db k x e = (x, e, here x.state)
run-Passes (c ∷ cs) db k x e =
    let (y, f, a) = step-Moves c db k x e in
    let (z, g, p) = run-Passes cs (step c db) k y f in (z, g, next a p)

Passes-terminal :
    {x y : SessionState} → Passes x y → is_terminal x ≡ true → (y ≡ x) × (is_terminal y ≡ true)
Passes-terminal (here x) t = (refl, t)
Passes-terminal (next a p) t =
    let (e, u) = Advances-terminal a t in let (f, v) = Passes-terminal p u in (f ∙ e, v)
  where
    Advances-terminal :
        {v w : SessionState}
        → Advances v w
        → is_terminal v ≡ true
        → (w ≡ v) × (is_terminal w ≡ true)
    Advances-terminal (stays v) h = (refl, h)
    Advances-terminal prepared h = cc
    Advances-terminal started h = cc
    Advances-terminal withdrawn h = cc
    Advances-terminal called_off h = cc
    Advances-terminal finished h = cc
    Advances-terminal wound_up h = cc
    Advances-terminal abandoned h = cc

-- A session that is over stays in its state, whatever calls follow.
pub over_is_final :
    (cs : List (ℕ × SessionCall)) (db : Db) (k : ℕ) (x : Session)
    → find_session k db ≡ some x
    → is_terminal x.state ≡ true
    → (y : Session) × (find_session k (run cs db) ≡ some y) × (y.state ≡ x.state)
over_is_final cs db k x e t =
    let (y, f, p) = run-Passes cs db k x e in (y, f, (Passes-terminal p t).0)
