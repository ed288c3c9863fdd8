-- ===== src/Identity/Rotation.antt =====
-- src/identity/identity.service.ts: a refresh token that has been used.
use our_companion_network.Base.{
  ℕ, ◌+◌, ◌≡◌, refl, Bool, true, false, not, ◌&&◌, Option, none, some, List, [], ◌∷◌, ◌==◌, is_some,
  find_first, any, where_, arith, inl, inr, Bool-cases, Option-cases, Result, ok, err, Unique,
  any_of_find_first, unauthorized, find_first_sound, take, Code, ◌∙◌, find_first_cong,
}
use our_companion_network.Identity.{
  Account, DeviceSession, Token, Crypto, find_reused, find_current, revoke, rotated,
  rotate_session_tokens, is_usable, refresh_token, matches,
}

module _ (c : Crypto) (jti : ℕ) (token : Token) (device now : ℕ) where
  -- What a refresh that succeeds went through.
  refresh_token-eq-ok :
      (accounts : List Account) (ss ss' : List DeviceSession) (new : Token)
      → refresh_token c jti token device now accounts ss ≡ (ok new, ss')
      → (s : DeviceSession) × (find_reused c token device ss ≡ none)
        × (find_current c token device ss ≡ some s)
        × (new ≡ c.issue s.user_id device jti)
        × (ss' ≡ rotate_session_tokens c jti s device now ss)
  unfolding refresh_token
  refresh_token-eq-ok accounts ss ss' new h = elim (Option-cases (find_reused c token device ss)) [
    | inr (r, e) ↦ ground arith
    | inl e ↦ elim (Option-cases (find_current c token device ss)) [
      | inl f ↦ ground arith
      | inr (s, f) ↦ elim (Bool-cases (is_usable s now accounts)) [
        | inr g ↦ ground arith
        | inl g ↦ (s, e, f, ground arith, ground arith)
      ]
    ]
  ]

abbrev pub is_same_id : DeviceSession → DeviceSession → Bool
is_same_id a b = a.id == b.id

any-where_ :
    (p q : DeviceSession → Bool) (ss : List DeviceSession)
    → any q (where_ p ss) ≡ true
    → any q ss ≡ true
any-where_ p q [] h = h
any-where_ p q (x ∷ ss) h = ground (arith, any-where_ p q ss)

found_later :
    (p q : DeviceSession → Bool) (x s : DeviceSession) (ss : List DeviceSession)
    → any (is_same_id x) ss ≡ false
    → find_first q (where_ p ss) ≡ some s
    → (x.id == s.id) ≡ false
found_later p q x s ss n f = elim (Bool-cases (x.id == s.id)) [
  | inr e ↦ e
  | inl e ↦
      let a =
        any-where_ p (is_same_id x) ss (any_of_find_first q (is_same_id x) (where_ p ss) s f e) in
      cc
]

-- Once the hash of a session is its previous one, a token that matches it is found as a used one.
rotated_is_reused :
    (c : Crypto) (jti : ℕ) (token again : Token) (device now : ℕ) (ss : List DeviceSession)
    (s : DeviceSession)
    → Unique is_same_id ss
    → find_reused c again device ss ≡ none
    → find_current c token device ss ≡ some s
    → c.compare again s.refresh_token_hash ≡ true
    → find_reused c again device (rotate_session_tokens c jti s device now ss)
      ≡ some (rotated (c.hash (c.issue s.user_id device jti)) (now + c.lifetime) s)
unfolding find_reused find_current rotate_session_tokens
rotated_is_reused c jti token again device now [] s u r f m = ground arith
rotated_is_reused c jti token again device now (x ∷ ss) s (n, u) r f m =
    let earlier =
      found_later (λ t. t.device_id == device) (λ t. c.compare token t.refresh_token_hash) x s ss
        n in
    elim (Bool-cases (x.device_id == device)) [
      | inr e ↦ ground (arith, earlier, rotated_is_reused c jti token again device now ss s u)
      | inl e ↦ elim (Bool-cases (c.compare token x.refresh_token_hash)) [
        | inl g ↦ (let same : s ≡ x = ground arith in ground arith)
        | inr g ↦ ground (arith, earlier, rotated_is_reused c jti token again device now ss s u)
      ]
    ]

matches_alike :
    (c : Crypto) (t u : Token) (o : Option ℕ)
    → ((h : ℕ) → c.compare t h ≡ c.compare u h)
    → matches c t o ≡ matches c u o
matches_alike c t u none e = refl
matches_alike c t u (some h) e = e h

-- A refresh that finds a used token.
reused-refused :
    (c : Crypto) (jti : ℕ) (token : Token) (device now : ℕ) (accounts : List Account)
    (ss : List DeviceSession) (s : DeviceSession)
    → find_reused c token device ss ≡ some s
    → refresh_token c jti token device now accounts ss
      ≡ (err (unauthorized Code.invalid_refresh_token), revoke s.id now ss)
unfolding refresh_token
reused-refused c jti token device now accounts ss s e = rw (refresh_token, e) refl

all_revoked :
    (id now : ℕ) (ss : List DeviceSession)
    → any (λ t. t.id == id && not (is_some t.revoked_at)) (revoke id now ss) ≡ false
unfolding revoke
all_revoked id now [] = refl
all_revoked id now (t ∷ ss) = ground (arith, all_revoked id now ss)

-- A call that is refused as one with a used token, and that revokes a session.
abbrev pub IsRefused :
    DeviceSession → ℕ → List DeviceSession → Result Token × List DeviceSession → Type 0
IsRefused s now ss answer =
    (answer ≡ (err (unauthorized Code.invalid_refresh_token), revoke s.id now ss))
    × (any (λ t. t.id == s.id && not (is_some t.revoked_at)) answer.1 ≡ false)

module _ (c : Crypto) (jti jti' : ℕ) (token new : Token) (device now later : ℕ)
    (accounts accounts' : List Account) (ss ss' : List DeviceSession) (s : DeviceSession) where
  next_use :
      (again : Token)
      → Unique is_same_id ss
      → find_current c token device ss ≡ some s
      → refresh_token c jti token device now accounts ss ≡ (ok new, ss')
      → find_reused c again device ss ≡ none
      → c.compare again s.refresh_token_hash ≡ true
      → IsRefused s later ss' (refresh_token c jti' again device later accounts' ss')
  next_use again u f h r m =
      let (s', _, f', _, stored) =
        refresh_token-eq-ok c jti token device now accounts ss ss' new h in
      let same : s' ≡ s = ground arith in
      let e : find_reused c again device ss'
          ≡ some (rotated (c.hash (c.issue s.user_id device jti)) (now + c.lifetime) s) =
        rw (stored, same) (rotated_is_reused c jti token again device now ss s u r f m) in
      let refused =
        reused-refused c jti' again device later accounts' ss'
          (rotated (c.hash (c.issue s.user_id device jti)) (now + c.lifetime) s) e in
      (refused, rw refused (all_revoked s.id later ss'))

  current-matches :
      find_current c token device ss ≡ some s → c.compare token s.refresh_token_hash ≡ true
  unfolding find_current
  current-matches f =
      find_first_sound (λ t. c.compare token t.refresh_token_hash)
        (where_ (λ t. t.device_id == device) ss) s f

  -- A refresh token that has been used is refused at its next use, and the session that it
  -- refreshed is revoked then, if the identifiers of the sessions are distinct.
  pub used_token-IsRefused :
      Unique is_same_id ss
      → find_current c token device ss ≡ some s
      → refresh_token c jti token device now accounts ss ≡ (ok new, ss')
      → IsRefused s later ss' (refresh_token c jti' token device later accounts' ss')
  used_token-IsRefused u f h =
      let (_, r, _, _, _) = refresh_token-eq-ok c jti token device now accounts ss ss' new h in
      next_use token u f h r (current-matches f)

  -- If bcrypt reads the first 72 bytes of a token, and the tokens of one user and device begin with
  -- the same 72 bytes, then the token that a refresh with an issued token gives is itself refused at
  -- its first use, and its session is revoked, where the identifiers of the sessions are distinct.
  pub new_token-IsRefused :
      (k : ℕ)
      → ((t u : Token) (h : ℕ) → take 72 t ≡ take 72 u → c.compare t h ≡ c.compare u h)
      → ((user device i j : ℕ) → take 72 (c.issue user device i) ≡ take 72 (c.issue user device j))
      → token ≡ c.issue s.user_id device k
      → Unique is_same_id ss
      → find_current c token device ss ≡ some s
      → refresh_token c jti token device now accounts ss ≡ (ok new, ss')
      → IsRefused s later ss' (refresh_token c jti' new device later accounts' ss')
  unfolding find_reused
  new_token-IsRefused k reads_72 begins issued u f h =
      let (s', r, f', e, _) = refresh_token-eq-ok c jti token device now accounts ss ss' new h in
      let same : s' ≡ s = ground arith in
      let agree : take 72 new ≡ take 72 token =
        rw (e, same, issued) (begins s.user_id device jti k) in
      let alike = λ (hash : ℕ). reads_72 new token hash agree in
      next_use new u f h
        (find_first_cong (λ t. matches c new t.previous_refresh_token_hash)
            (λ t. matches c token t.previous_refresh_token_hash)
            (where_ (λ t. t.device_id == device) ss)
            (λ t. matches_alike c new token t.previous_refresh_token_hash alike)
          ∙ r)
        (alike s.refresh_token_hash ∙ current-matches f)
