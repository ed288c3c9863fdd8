-- ===== src/Presence.antt =====
-- src/presence/presence.service.ts: who is online. A new row was last seen when it was made; the
-- column updatedAt is left out.
use our_companion_network.Base.{
  ℕ, ◌≡◌, refl, Bool, true, false, ◌&&◌, none, some, List, [], ◌∷◌, map, arith, ◌==◌, any,
  find_first, where_, update_where, if◌then◌else◌, inl, inr, Bool-cases,
}
use our_companion_network.Social.{Social, User, is_available}

pub data Status : Type 0 where
  online idle offline : Status

pub record Presence : Type 0 where
  pub user_id : ℕ
  pub status : Status
  pub last_seen_at : ℕ

abbrev pub is_online : Status → Bool
is_online online = true
is_online _ = false

-- `onModuleInit`: after a restart nobody is connected.
unfoldable pub on_module_init : ℕ → List Presence → List Presence
on_module_init now =
    update_where (λ p. elim p.status [ offline ↦ false | _ ↦ true ])
      (λ p. record p { status = offline; last_seen_at = now })

-- `setOnline`, `setOffline` and `setIdle`: an `upsert`.
unfoldable pub set_status : Status → ℕ → ℕ → List Presence → List Presence
set_status status user now ps =
    if any (λ p. p.user_id == user) ps
    then update_where (λ p. p.user_id == user)
        (λ p. record p { status = status; last_seen_at = now }) ps
    else record { user_id = user; status = status; last_seen_at = now } ∷ ps

unfoldable pub get_presence : ℕ → List Presence → Status
get_presence user ps = elim (find_first (λ p. p.user_id == user) ps) [
  | some p ↦ p.status
  | none ↦ offline
]

abbrev pub serves : (User → Bool) → ℕ → Social → Bool
serves test id s = any (λ u. u.id == id && test u) s.users

-- `getFriendIds`
unfoldable pub get_friend_ids : ℕ → Social → List ℕ
get_friend_ids user s =
    map (λ f. f.friend_id)
      (where_ (λ f. f.user_id == user && serves is_available f.friend_id s) s.friendships)

-- The friends of `getFriendsPresence` and `getOnlineFriends`, where both accounts are available.
unfoldable pub served_friends : ℕ → Social → List ℕ
served_friends user s =
    map (λ f. f.friend_id)
      (where_
        (λ f.
          f.user_id == user && serves is_available f.user_id s && serves is_available f.friend_id s)
        s.friendships)

unfoldable pub get_friends_presence : ℕ → Social → List Presence → List (ℕ × Status)
unfolding served_friends
get_friends_presence user s ps = map (λ id. (id, get_presence id ps)) (served_friends user s)

unfoldable pub get_online_friends : ℕ → Social → List Presence → List Presence
unfolding served_friends
get_online_friends user s ps =
    where_ (λ p. any (λ id. id == p.user_id) (served_friends user s) && is_online p.status) ps

restarted :
    (now user : ℕ) (ps : List Presence) → get_presence user (on_module_init now ps) ≡ offline
unfolding get_presence on_module_init
restarted now user [] = refl
restarted now user (p ∷ ps) = ground (arith, restarted now user ps)

module _ (status : Status) (user now : ℕ) where
  abbrev written : List Presence → List Presence
  written =
      update_where (λ p. p.user_id == user) (λ p. record p { status = status; last_seen_at = now })

  others_as_before :
      (other : ℕ) (ps : List Presence)
      → (other == user) ≡ false
      → get_presence other (written ps) ≡ get_presence other ps
  unfolding get_presence
  others_as_before other [] e = refl
  others_as_before other (p ∷ ps) e = ground (arith, others_as_before other ps e)

  self_written :
      (ps : List Presence)
      → any (λ p. p.user_id == user) ps ≡ true
      → get_presence user (written ps) ≡ status
  unfolding get_presence
  self_written [] e = cc
  self_written (p ∷ ps) e = ground (arith, self_written ps)

  self_set : (ps : List Presence) → get_presence user (set_status status user now ps) ≡ status
  unfolding set_status get_presence
  self_set ps = elim (Bool-cases (any (λ p. p.user_id == user) ps)) [
    | inl e ↦ rw (e, self_written ps e) refl
    | inr e ↦ rw e (ground arith)
  ]

  others_set :
      (other : ℕ) (ps : List Presence)
      → (other == user) ≡ false
      → get_presence other (set_status status user now ps) ≡ get_presence other ps
  unfolding set_status get_presence
  others_set other ps d = elim (Bool-cases (any (λ p. p.user_id == user) ps)) [
    | inl e ↦ rw (e, others_as_before other ps d) refl
    | inr e ↦ rw e (ground arith)
  ]

-- After a restart and a change of one user's status, that user is shown with the new status and
-- everybody else as offline.
pub set_status_after_restart :
    (status : Status) (user now later other : ℕ) (ps : List Presence)
    → get_presence other (set_status status user later (on_module_init now ps))
      ≡ (if other == user then status else offline)
set_status_after_restart status user now later other ps = elim (Bool-cases (other == user)) [
  | inl e ↦
      let same : other ≡ user = ground arith in
      rw same (rw (self_set status user later (on_module_init now ps)) (ground arith))
  | inr e ↦
      rw (others_set status user later other (on_module_init now ps) e, restarted now other ps, e)
        refl
]
