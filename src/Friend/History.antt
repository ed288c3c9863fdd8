-- ===== src/Friend/History.antt =====
-- Histories of calls of the friend service.
use our_companion_network.Base.{ℕ, ◌≡◌, refl, List, [], ◌∷◌, Result, ok, err}
use our_companion_network.Social.{Social}
use our_companion_network.Events.{Publications}
use our_companion_network.Visit.{Db}
use our_companion_network.Friend.{
  send_friend_request, accept_friend_request, reject_friend_request, cancel_friend_request,
}
use our_companion_network.Friend.Requests.{IsFresh}
use our_companion_network.Friend.Consistency.{IsConsistent}
use our_companion_network.Friend.Calls.{
  Keeps, send_friend_request-Keeps, accept_friend_request-Keeps, reject_friend_request-Keeps,
  cancel_friend_request-Keeps,
}
use our_companion_network.Friend.Ties.{remove_friend, block_user, unblock_user}
use our_companion_network.Friend.Ties.Blocks.{
  remove_friend-IsConsistent, block_user-IsConsistent, unblock_user-IsConsistent,
}

-- `new_id` is the identifier that the database would give a new row.
pub data FriendCall : Type 0 where
  sends : (new_id user other : ℕ) → FriendCall
  accepts rejects cancels : (user request : ℕ) → FriendCall
  removes blocks unblocks : (user other : ℕ) → FriendCall

abbrev after_social : Db → Result (Social × Publications) → Db
after_social db (ok (s, _)) = record db { social = s }
after_social db (err _) = db

abbrev after_db : Db → Result (Db × Publications) → Db
after_db db (ok (db', _)) = db'
after_db db (err _) = db

-- A call that fails leaves the tables as they were.
unfoldable pub step : ℕ × FriendCall → Db → Db
step (now, sends new_id user other) db =
    after_social db (send_friend_request new_id now user other db.social)
step (now, accepts user id) db = after_social db (accept_friend_request user id now db.social)
step (now, rejects user id) db = after_social db (reject_friend_request user id now db.social)
step (now, cancels user id) db = after_social db (cancel_friend_request user id now db.social)
step (now, removes user other) db = after_db db (remove_friend user other now db)
step (now, blocks user other) db = after_db db (block_user user other now db)
step (now, unblocks user other) db = after_social db (unblock_user user other db.social)

unfoldable pub run : List (ℕ × FriendCall) → Db → Db
run [] db = db
run (c ∷ cs) db = run cs (step c db)

-- The database gives a new row an identifier that no row has.
abbrev pub IsFreshCall : FriendCall → Social → Type 0
IsFreshCall (sends new_id _ _) s = IsFresh new_id s
IsFreshCall _ s = Unit {0}

abbrev pub AreFreshCalls : List (ℕ × FriendCall) → Db → Type 0
AreFreshCalls [] db = Unit {0}
AreFreshCalls (c ∷ cs) db = IsFreshCall c.1 db.social × AreFreshCalls cs (step c db)

after_social-Keeps :
    (db : Db) (m : Result (Social × Publications))
    → IsConsistent db.social
    → Keeps m
    → IsConsistent (after_social db m).social
after_social-Keeps db (ok (s, _)) c k = k
after_social-Keeps db (err _) c k = c

keep_after_db :
    (db : Db) (m : Result (Db × Publications))
    → IsConsistent db.social
    → ((db' : Db) (ps : Publications) → m ≡ ok (db', ps) → IsConsistent db'.social)
    → IsConsistent (after_db db m).social
keep_after_db db (ok (db', ps)) c k = k db' ps refl
keep_after_db db (err _) c k = c

unblock_user-Keeps : (a b : ℕ) (s : Social) → IsConsistent s → Keeps (unblock_user a b s)
unblock_user-Keeps a b s c =
    kept (unblock_user a b s) λ t ps h. unblock_user-IsConsistent a b s t ps h c
  where
    kept :
        (m : Result (Social × Publications))
        → ((t : Social) (ps : Publications) → m ≡ ok (t, ps) → IsConsistent t)
        → Keeps m
    kept (ok (t, ps)) h = h t ps refl
    kept (err _) h = tt

step-IsConsistent :
    (c : ℕ × FriendCall) (db : Db)
    → IsFreshCall c.1 db.social
    → IsConsistent db.social
    → IsConsistent (step c db).social
unfolding step
step-IsConsistent (now, sends new_id a b) db f c =
    after_social-Keeps db (send_friend_request new_id now a b db.social) c
      (send_friend_request-Keeps new_id now a b db.social f c)
step-IsConsistent (now, accepts a id) db f c =
    after_social-Keeps db (accept_friend_request a id now db.social) c
      (accept_friend_request-Keeps a id now db.social c)
step-IsConsistent (now, rejects a id) db f c =
    after_social-Keeps db (reject_friend_request a id now db.social) c
      (reject_friend_request-Keeps a id now db.social c)
step-IsConsistent (now, cancels a id) db f c =
    after_social-Keeps db (cancel_friend_request a id now db.social) c
      (cancel_friend_request-Keeps a id now db.social c)
step-IsConsistent (now, removes a b) db f c =
    keep_after_db db (remove_friend a b now db) c
      (λ db' ps h. remove_friend-IsConsistent a b now db db' ps h c)
step-IsConsistent (now, blocks a b) db f c =
    keep_after_db db (block_user a b now db) c
      (λ db' ps h. block_user-IsConsistent a b now db db' ps h c)
step-IsConsistent (now, unblocks a b) db f c =
    after_social-Keeps db (unblock_user a b db.social) c (unblock_user-Keeps a b db.social c)

-- Every history of calls keeps the social graph consistent: friendships go both ways and never to
-- oneself, friends and parties of a pending request do not block each other, a request is not
-- pending between friends nor in both directions, and no two requests share a key.
pub run-IsConsistent :
    (cs : List (ℕ × FriendCall)) (db : Db)
    → AreFreshCalls cs db
    → IsConsistent db.social
    → IsConsistent (run cs db).social
unfolding run
run-IsConsistent [] db f c = c
run-IsConsistent (x ∷ cs) db (f, fs) c =
    run-IsConsistent cs (step x db) fs (step-IsConsistent x db f c)
