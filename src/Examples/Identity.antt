-- ===== src/Examples/Identity.antt =====
-- The theorems on the sessions of devices at concrete calls.
use our_companion_network.Base.{
  ℕ, zero, suc, refl, [], ◌∷◌, ◌++◌, none, List, Result, ◌==◌, take, ap, ◌+◌,
}
use our_companion_network.Social.{AccountStatus}
use our_companion_network.Identity.{
  Account, DeviceSession, Token, Crypto, refresh_token, find_reused, find_current, is_usable,
  rotate_session_tokens,
}
use our_companion_network.Identity.Rotation.{IsRefused, used_token-IsRefused, new_token-IsRefused}

abbrev member : Account
member = record {
  id = 1;
  normalized_email = 1;
  password_hash = 1;
  account_status = AccountStatus.active;
  deletion_requested_at = none;
}

abbrev last_byte : Token → ℕ
last_byte [] = 0
last_byte (b ∷ []) = b
last_byte (b ∷ c ∷ bs) = last_byte (c ∷ bs)

-- A token of one byte, which is its own hash.
abbrev plain : Crypto
plain = record {
  hash = last_byte;
  compare = λ t h. last_byte t == h;
  issue = λ user device jti. jti ∷ [];
  lifetime = 100000;
}

abbrev device_row : ℕ → DeviceSession
device_row hash = record {
  id = 5;
  user_id = 1;
  device_id = 9;
  refresh_token_hash = hash;
  previous_refresh_token_hash = none;
  csrf_token_hash = none;
  expires_at = 50000;
  revoked_at = none;
}

abbrev refreshed : Result Token × List DeviceSession
refreshed = refresh_token plain 8 (7 ∷ []) 9 1000 (member ∷ []) (device_row 7 ∷ [])

used_token-IsRefused_example :
    IsRefused
      (device_row 7)
      2000
      refreshed.1
      (refresh_token plain 3 (7 ∷ []) 9 2000 (member ∷ []) refreshed.1)
unfolding refresh_token find_reused find_current is_usable rotate_session_tokens
used_token-IsRefused_example =
    used_token-IsRefused plain 8 3 (7 ∷ []) (8 ∷ []) 9 1000 2000 (member ∷ []) (member ∷ [])
      (device_row 7 ∷ []) refreshed.1 (device_row 7) (refl, tt) refl refl

abbrev sum : Token → ℕ
sum [] = 0
sum (b ∷ bs) = b + sum bs

-- The header of 72 bytes comes before the identifier.
abbrev header : ℕ → Token
header zero = []
header (suc n) = 65 ∷ header n

abbrev truncating : Crypto
truncating = record {
  hash = λ t. sum (take 72 t);
  compare = λ t h. sum (take 72 t) == h;
  issue = λ user device jti. header 72 ++ jti ∷ [];
  lifetime = 100000;
}

abbrev long_row : DeviceSession
long_row = device_row 4680

abbrev refreshed_long : Result Token × List DeviceSession
refreshed_long =
    refresh_token truncating 8 (header 72 ++ 7 ∷ []) 9 1000 (member ∷ []) (long_row ∷ [])

new_token-IsRefused_example :
    IsRefused long_row 2000 refreshed_long.1
      (refresh_token truncating 3 (header 72 ++ 8 ∷ []) 9 2000 (member ∷ []) refreshed_long.1)
unfolding refresh_token find_reused find_current is_usable rotate_session_tokens
new_token-IsRefused_example =
    new_token-IsRefused truncating 8 3 (header 72 ++ 7 ∷ []) (header 72 ++ 8 ∷ []) 9 1000 2000
      (member ∷ []) (member ∷ []) (long_row ∷ []) refreshed_long.1 long_row 7
      (λ t u h e. ap (λ x. sum x == h) e) (λ user device i j. refl) refl (refl, tt) refl refl
