-- ===== src/Friend/Lookup.antt =====
-- src/friend/friend.service.ts, lookupByUid and lookupByFriendCode. The text is the trimmed
-- upper-case form of what the user has typed; the log entry is left out.
use our_companion_network.Base.{
  ℕ, ◌≡◌, Bool, true, false, ◌&&◌, ◌||◌, Option, some, List, [], ◌∷◌, arith, ◌==◌, leb, all,
  find_first, length, Code, not_found, Result, err, ◌>>=◌, ◌>>◌, guard, or_fail,
}
use our_companion_network.Social.{Social, User, is_available, is_blocked}
use our_companion_network.Friend.Relationship.{Relationship, with_relationship}
use Prim.Native.Char.{code}
use Prim.Native.String.{String}
use text.Mathlib.Text.{◌==◌ as ◌==ₛ◌}

abbrev pub letters : String → List ℕ
letters String.[] = []
letters (String.◌∷◌ c s) = code c ∷ letters s

-- `[A-Z0-9]`
abbrev pub is_code_letter : ℕ → Bool
is_code_letter c = (leb 65 c && leb c 90) || (leb 48 c && leb c 57)

-- `^[A-Z0-9]{8}$`
abbrev pub is_code : List ℕ → Bool
is_code cs = length cs == 8 && all is_code_letter cs

-- `^OC-[A-Z0-9]{8}$`
abbrev pub is_uid : List ℕ → Bool
is_uid (o ∷ c ∷ dash ∷ cs) = o == 79 && c == 67 && dash == 45 && is_code cs
is_uid _ = false

unfoldable pub lookup_by_uid : String → Option ℕ → Social → Result Relationship
lookup_by_uid uid requester s = do
  guard (is_uid (letters uid)) (not_found Code.social_uid_not_found)
  user ← or_fail (find_first (λ u. u.uid ==ₛ uid) s.users) (not_found Code.social_uid_not_found)
  guard (is_available user) (not_found Code.social_uid_not_found)
  with_relationship user.id requester Code.social_uid_not_found s

unfoldable pub lookup_by_friend_code : String → Option ℕ → Social → Result Relationship
lookup_by_friend_code text requester s = do
  guard (is_code (letters text)) (not_found Code.invalid_friend_code)
  user ←
      or_fail (find_first (λ u. u.friend_code ==ₛ text) s.users)
        (not_found Code.invalid_friend_code)
  guard (is_available user) (not_found Code.invalid_friend_code)
  with_relationship user.id requester Code.invalid_friend_code s

hidden :
    (user requester : ℕ) (c : Code) (s : Social)
    → (requester == user) ≡ false
    → is_blocked requester user s ≡ true
    → with_relationship user (some requester) c s ≡ err (not_found c)
unfolding with_relationship
hidden user requester c s e b = ground arith

-- Between users of whom one has blocked the other, a lookup by uid or by friend code is answered as
-- if there were no such user.
pub blocked_lookup_finds_nothing :
    (uid text : String) (requester : ℕ) (s : Social) (u v : User)
    → find_first (λ w. w.uid ==ₛ uid) s.users ≡ some u
    → find_first (λ w. w.friend_code ==ₛ text) s.users ≡ some v
    → (requester == u.id) ≡ false
    → (requester == v.id) ≡ false
    → is_blocked requester u.id s ≡ true
    → is_blocked requester v.id s ≡ true
    → (lookup_by_uid uid (some requester) s ≡ err (not_found Code.social_uid_not_found))
      × (lookup_by_friend_code text (some requester) s ≡ err (not_found Code.invalid_friend_code))
unfolding lookup_by_uid lookup_by_friend_code
blocked_lookup_finds_nothing uid text requester s u v e f p q b c = (
  answer (is_uid (letters uid)) (is_available u) u Code.social_uid_not_found
      (find_first (λ w. w.uid ==ₛ uid) s.users) e
      (hidden u.id requester Code.social_uid_not_found s p b),
  answer (is_code (letters text)) (is_available v) v Code.invalid_friend_code
      (find_first (λ w. w.friend_code ==ₛ text) s.users) f
      (hidden v.id requester Code.invalid_friend_code s q c),
)
  where
    answer :
        (shape available : Bool) (w : User) (k : Code) (found : Option User)
        → found ≡ some w
        → with_relationship w.id (some requester) k s ≡ err (not_found k)
        → (guard shape (not_found k)
            >> (or_fail found (not_found k) >>= λ x.
                guard (is_available x) (not_found k)
                >> with_relationship x.id (some requester) k s))
          ≡ err (not_found k)
    answer shape available w k found g h = ground arith
