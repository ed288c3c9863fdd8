-- ===== src/Identity.antt =====
-- src/identity/identity.service.ts: the sessions of devices, with the checks of a request by
-- src/common/strategies/jwt.strategy.ts and of a socket by src/common/socket-auth.service.ts. The
-- hashes of bcrypt and the signed tokens are parameters; a token is the list of its bytes.
pub mod Rotation
use our_companion_network.Base.{
  ℕ, ◌+◌, ◌≡◌, Bool, true, false, not, ◌&&◌, ◌||◌, Option, none, some, List, [], ◌∷◌, ◌==◌, leb,
  is_some, find_first, any, where_, update_where, if◌then◌else◌, Code, Error, unauthorized,
  forbidden, Result, ok, err, ◌>>=◌, ◌>>◌, guard, or_fail,
}
use our_companion_network.Social.{AccountStatus}

pub record Account : Type 0 where
  pub id : ℕ
  pub normalized_email : ℕ
  pub password_hash : ℕ
  pub account_status : AccountStatus
  pub deletion_requested_at : Option ℕ

pub record DeviceSession : Type 0 where
  pub id : ℕ
  pub user_id : ℕ
  pub device_id : ℕ
  pub refresh_token_hash : ℕ
  pub previous_refresh_token_hash : Option ℕ
  pub csrf_token_hash : Option ℕ
  pub expires_at : ℕ
  pub revoked_at : Option ℕ

abbrev pub Token : Type 0
Token = List ℕ

-- What bcrypt does, and how the JWT service signs the refresh token of a user, a device and a fresh
-- identifier.
pub record Crypto : Type 0 where
  pub hash : Token → ℕ
  pub compare : Token → ℕ → Bool
  pub issue : ℕ → ℕ → ℕ → Token
  -- how long a refresh token lives, in milliseconds
  pub lifetime : ℕ

abbrev pub is_account_active : AccountStatus → Bool
is_account_active AccountStatus.active = true
is_account_active AccountStatus.suspended = false

abbrev pub find_account : ℕ → List Account → Option Account
find_account id = find_first (λ a. a.id == id)

abbrev pub is_device_of : ℕ → ℕ → DeviceSession → Bool
is_device_of user device s = s.user_id == user && s.device_id == device

-- `createSessionTokens`: the row of the user and the device, made or rewritten.
unfoldable pub create_session_tokens :
    Crypto → ℕ → ℕ → ℕ → ℕ → ℕ → List DeviceSession → Token × List DeviceSession
create_session_tokens c new_id jti user device now ss =
    let token = c.issue user device jti in
    (
      token,
      if any (is_device_of user device) ss
          then update_where (is_device_of user device)
              (λ s. record s {
                refresh_token_hash = c.hash token;
                previous_refresh_token_hash = none;
                csrf_token_hash = none;
                expires_at = now + c.lifetime;
                revoked_at = none;
              })
              ss
          else record {
            id = new_id;
            user_id = user;
            device_id = device;
            refresh_token_hash = c.hash token;
            previous_refresh_token_hash = none;
            csrf_token_hash = none;
            expires_at = now + c.lifetime;
            revoked_at = none;
          }
            ∷ ss,
    )

unfoldable pub login :
    Crypto
    → ℕ
    → ℕ
    → ℕ
    → Token
    → ℕ
    → ℕ
    → List Account
    → List DeviceSession
    → Result (Token × List DeviceSession)
login c new_id jti email password device now accounts ss = do
  user ←
      or_fail (find_first (λ a. a.normalized_email == email) accounts)
        (unauthorized Code.invalid_credentials)
  guard (c.compare password user.password_hash) (unauthorized Code.invalid_credentials)
  guard (is_account_active user.account_status) (forbidden Code.account_suspended)
  ok (create_session_tokens c new_id jti user.id device now ss)

-- `findMatchingSession`
abbrev pub matches : Crypto → Token → Option ℕ → Bool
matches c token none = false
matches c token (some hash) = c.compare token hash

unfoldable pub find_reused : Crypto → Token → ℕ → List DeviceSession → Option DeviceSession
find_reused c token device ss =
    find_first (λ s. matches c token s.previous_refresh_token_hash)
      (where_ (λ s. s.device_id == device) ss)

unfoldable pub find_current : Crypto → Token → ℕ → List DeviceSession → Option DeviceSession
find_current c token device ss =
    find_first (λ s. c.compare token s.refresh_token_hash) (where_ (λ s. s.device_id == device) ss)

unfoldable pub revoke : ℕ → ℕ → List DeviceSession → List DeviceSession
revoke id now =
    update_where (λ s. s.id == id) (λ s. record s { revoked_at = some now; csrf_token_hash = none })

abbrev pub rotated : ℕ → ℕ → DeviceSession → DeviceSession
rotated hash expires s = record s {
  refresh_token_hash = hash;
  previous_refresh_token_hash = some s.refresh_token_hash;
  expires_at = expires;
  revoked_at = none;
}

unfoldable pub rotate_session_tokens :
    Crypto → ℕ → DeviceSession → ℕ → ℕ → List DeviceSession → List DeviceSession
rotate_session_tokens c jti s device now =
    update_where (λ t. t.id == s.id)
      (rotated (c.hash (c.issue s.user_id device jti)) (now + c.lifetime))

-- A session that may be refreshed, `expiresAt <= new Date()` being too late.
unfoldable pub is_usable : DeviceSession → ℕ → List Account → Bool
is_usable s now accounts =
    not (is_some s.revoked_at)
    && not (leb s.expires_at now)
    && elim (find_account s.user_id accounts) [
      | none ↦ false
      | some a ↦ is_account_active a.account_status
    ]

-- The new refresh token, and the sessions after the call, which are kept when it fails.
unfoldable pub refresh_token :
    Crypto
    → ℕ
    → Token
    → ℕ
    → ℕ
    → List Account
    → List DeviceSession
    → Result Token × List DeviceSession
refresh_token c jti token device now accounts ss = elim (find_reused c token device ss) [
  | some s ↦ (err (unauthorized Code.invalid_refresh_token), revoke s.id now ss)
  | none ↦ elim (find_current c token device ss) [
    | none ↦ (err (unauthorized Code.invalid_refresh_token), ss)
    | some s ↦
        if is_usable s now accounts
        then (ok (c.issue s.user_id device jti), rotate_session_tokens c jti s device now ss)
        else (err (unauthorized Code.invalid_refresh_token), ss)
  ]
]

unfoldable pub logout : ℕ → ℕ → ℕ → ℕ → List DeviceSession → Result (List DeviceSession)
logout user token_device device now ss =
    guard (token_device == device) (forbidden Code.device_session_mismatch)
    >> ok (
        update_where (λ s. is_device_of user device s && not (is_some s.revoked_at))
          (λ s. record s { revoked_at = some now; csrf_token_hash = none }) ss)

-- `validate` of the JWT strategy, after the signature of the access token.
unfoldable pub validate : ℕ → ℕ → ℕ → List Account → List DeviceSession → Result Account
validate user device now accounts ss = do
  session ← or_fail (find_first (is_device_of user device) ss) (unauthorized Code.unauthenticated)
  guard (not (is_some session.revoked_at) && not (leb session.expires_at now))
      (unauthorized Code.unauthenticated)
  account ← or_fail (find_account user accounts) (unauthorized Code.unauthenticated)
  guard (is_account_active account.account_status) (unauthorized Code.unauthenticated)
  ok account

-- `isSessionActive` of a socket.
unfoldable pub is_session_active : ℕ → ℕ → ℕ → List Account → List DeviceSession → Bool
is_session_active user device now accounts ss = elim (find_first (is_device_of user device) ss) [
  | none ↦ false
  | some s ↦
      not (is_some s.revoked_at)
      && not (leb s.expires_at now)
      && elim (find_account user accounts) [
        | none ↦ false
        | some a ↦ is_account_active a.account_status && not (is_some a.deletion_requested_at)
      ]
]
