-- ===== src/RateLimit/Doors.antt =====
-- src/common/guards/auth-rate-limit.guard.ts, and allowAttempt of src/common/socket-auth.service.ts:
-- how often an address may try. Both go by one minute; the guard lets 10 tries through, and a socket's
-- limit is set by the environment.
use our_companion_network.Base.{
  ℕ, suc, ◌-◌, ◌≤◌, ◌≡◌, refl, Bool, true, false, none, some, List, [], ◌∷◌, ◌++◌, ◌==◌, leb, ltb,
  all, any, find_first, where_, update_where, delete_where, length, if◌then◌else◌, drop, arith, inl,
  inr, Bool-cases,
}
use our_companion_network.RateLimit.{max_keys}
use our_companion_network.RateLimit.Bounds.{length-snoc}

-- One entry of the map: an address, for the guard with its route.
pub record Tries : Type 0 where
  pub key : ℕ
  pub times : List ℕ

abbrev pub auth_limit : ℕ
auth_limit = 10

abbrev pub is_tried : ℕ → Tries → Bool
is_tried key t = t.key == key

abbrev pub last_minute : ℕ → List ℕ → List ℕ
last_minute now = where_ (λ time. ltb (now - time) 60000)

unfoldable pub recent_tries : ℕ → ℕ → List Tries → List ℕ
recent_tries key now tries = elim (find_first (is_tried key) tries) [
  | none ↦ []
  | some t ↦ last_minute now t.times
]

-- `map.set`
unfoldable pub set_tries : ℕ → List ℕ → List Tries → List Tries
set_tries key times tries =
    if any (is_tried key) tries
    then update_where (is_tried key) (λ t. record t { times = times }) tries
    else tries ++ record { key = key; times = times } ∷ []

-- The key that was set first goes when there are too many.
unfoldable pub drop_first : List Tries → List Tries
drop_first tries = if ltb max_keys (length tries) then drop 1 tries else tries

-- An address without a recent try is forgotten first.
unfoldable pub clear_old : ℕ → List ℕ → List Tries → List Tries
clear_old key recent tries = if length recent == 0 then delete_where (is_tried key) tries else tries

unfoldable pub allow_attempt : ℕ → ℕ → ℕ → List Tries → Bool × List Tries
allow_attempt limit key now tries =
    let recent = recent_tries key now tries in
    let cleared = clear_old key recent tries in
    if leb limit (length recent)
    then (false, cleared)
    else (true, drop_first (set_tries key (recent ++ now ∷ []) cleared))

module _ (limit : ℕ) where
  abbrev has_few : Tries → Bool
  has_few t = leb (length t.times) limit

  abbrev pub AreFew : List Tries → Type 0
  AreFew tries = (all has_few tries ≡ true) × (length tries ≤ max_keys)

  delete_where-few :
      (p : Tries → Bool) (ts : List Tries)
      → all has_few ts ≡ true
      → (all has_few (delete_where p ts) ≡ true) × (length (delete_where p ts) ≤ length ts)
  delete_where-few p [] h = (refl, omega arith)
  delete_where-few p (t ∷ ts) h = ground (arith, delete_where-few p ts)

  update_where-few :
      (key : ℕ) (times : List ℕ) (ts : List Tries)
      → length times ≤ limit
      → all has_few ts ≡ true
      → (all has_few (update_where (is_tried key) (λ t. record t { times = times }) ts) ≡ true)
        × (length (update_where (is_tried key) (λ t. record t { times = times }) ts) ≡ length ts)
  update_where-few key times [] l h = (refl, refl)
  update_where-few key times (t ∷ ts) l h = ground (arith, update_where-few key times ts l)

  snoc-few :
      (x : Tries) (ts : List Tries)
      → has_few x ≡ true
      → all has_few ts ≡ true
      → all has_few (ts ++ x ∷ []) ≡ true
  snoc-few x [] w h = ground arith
  snoc-few x (t ∷ ts) w h = ground (arith, snoc-few x ts w)

  set_tries-few :
      (key : ℕ) (times : List ℕ) (ts : List Tries)
      → length times ≤ limit
      → all has_few ts ≡ true
      → (all has_few (set_tries key times ts) ≡ true)
        × (length (set_tries key times ts) ≤ suc (length ts))
  unfolding set_tries
  set_tries-few key times ts l h = elim (Bool-cases (any (is_tried key) ts)) [
    | inl e ↦ rw e (let (a, b) = update_where-few key times ts l h in (a, omega arith))
    | inr e ↦
        let x : Tries = record { key = key; times = times } in
        rw e (snoc-few x ts (ground arith) h, let b = length-snoc ts x in omega arith)
  ]

  drop_first-few :
      (ts : List Tries) → all has_few ts ≡ true → length ts ≤ suc max_keys → AreFew (drop_first ts)
  unfolding drop_first
  drop_first-few [] h l = (refl, omega arith)
  drop_first-few (t ∷ ts) h l = ground arith

  clear_old-few :
      (key : ℕ) (recent : List ℕ) (ts : List Tries) → AreFew ts → AreFew (clear_old key recent ts)
  unfolding clear_old
  clear_old-few key recent ts (h, l) = elim (Bool-cases (length recent == 0)) [
    | inl e ↦ rw e (let (a, b) = delete_where-few (is_tried key) ts h in (a, omega arith))
    | inr e ↦ rw e (h, l)
  ]

  -- Whatever it answers, an attempt leaves at most 10,000 keys, and for each of them at most as many
  -- times as the limit, if there were no more before it.
  pub allow_attempt-AreFew :
      (key now : ℕ) (ts : List Tries) → AreFew ts → AreFew (allow_attempt limit key now ts).1
  unfolding allow_attempt
  allow_attempt-AreFew key now ts few =
      let recent = recent_tries key now ts in
      let cleared = clear_old key recent ts in
      let (h, l) = clear_old-few key recent ts few in
      elim (Bool-cases (leb limit (length recent))) [
        | inl e ↦ rw e (h, l)
        | inr e ↦
            let n = length-snoc recent now in
            let (a, b) = set_tries-few key (recent ++ now ∷ []) cleared (ground arith) h in
            rw e (drop_first-few (set_tries key (recent ++ now ∷ []) cleared) a (omega arith))
      ]
