-- ===== src/VisitSocial/Text/Tidy.antt =====
-- src/visit-social/visit-social.policy.ts: what a cleaned text looks like.
use Prim.Native.Char.{Char, code}
use Prim.Native.String.{String}
use our_companion_network.Base.{
  ℕ, zero, suc, ◌≤◌, ◌≡◌, refl, Bool, true, false, not, ◌&&◌, ltb, ◌==◌, arith, inl, inr,
  Bool-cases, subst, sym,
}
use our_companion_network.VisitSocial.Text.{
  is_space, collapse, trim_start, keep_unless_blank, trim_end, trim, units, take_units,
  normalize_text,
}

abbrev pub tidy_next : Bool → Char → (Bool → Bool) → Bool → Bool
tidy_next true c rest after_space = not after_space && code c == 32 && rest true
tidy_next false c rest after_space = rest false

-- A text without white space but single spaces; none comes first where the flag is set.
abbrev pub is_tidy : String → Bool → Bool
is_tidy String.[] after_space = true
is_tidy (String.◌∷◌ c s) after_space = tidy_next (is_space c) c (is_tidy s) after_space

collapse-is_tidy : (s : String) (b : Bool) → is_tidy (collapse s b) b ≡ true
unfolding is_space
collapse-is_tidy String.[] b = refl
collapse-is_tidy (String.◌∷◌ c s) b = elim (Bool-cases (is_space c)) [
  | inl e ↦ ground (arith, collapse-is_tidy s true)
  | inr e ↦ ground (arith, collapse-is_tidy s false)
]

take_units-units : (s : String) (n : ℕ) → units (take_units s n) ≤ n
take_units-units String.[] n = omega arith
take_units-units (String.◌∷◌ c s) zero = omega arith
take_units-units (String.◌∷◌ c s) (suc zero) = elim (Bool-cases (ltb (code c) 65536)) [
  | inl e ↦ rw (e, e) (ground (arith, take_units-units s zero))
  | inr e ↦ rw e (ground arith)
]
take_units-units (String.◌∷◌ c s) (suc (suc n)) = elim (Bool-cases (ltb (code c) 65536)) [
  | inl e ↦ rw (e, e) (ground (arith, take_units-units s (suc n)))
  | inr e ↦ rw (e, e) (ground (arith, take_units-units s n))
]

trim_start-is_tidy :
    (s : String) (b : Bool) → is_tidy s b ≡ true → is_tidy (trim_start s) true ≡ true
unfolding trim_start
trim_start-is_tidy String.[] b h = refl
trim_start-is_tidy (String.◌∷◌ c s) b h = elim (Bool-cases (is_space c)) [
  | inl e ↦ ground (arith, trim_start-is_tidy s true)
  | inr e ↦ ground arith
]

keep_unless_blank-is_tidy :
    (c : Char) (s : String) (b : Bool)
    → is_tidy (String.◌∷◌ c s) b ≡ true
    → is_tidy (keep_unless_blank (is_space c) c s) b ≡ true
keep_unless_blank-is_tidy c String.[] b h = elim (Bool-cases (is_space c)) [
  | inl e ↦ rw e refl
  | inr e ↦ rw (e, e) refl
]
keep_unless_blank-is_tidy c (String.◌∷◌ d s) b h = elim (Bool-cases (is_space c)) [
  | inl e ↦ subst (λ k. is_tidy (keep_unless_blank k c (String.◌∷◌ d s)) b ≡ true) (sym e) h
  | inr e ↦ subst (λ k. is_tidy (keep_unless_blank k c (String.◌∷◌ d s)) b ≡ true) (sym e) h
]

tidy_cons :
    (c : Char) (s t : String) (b : Bool)
    → ((k : Bool) → is_tidy s k ≡ true → is_tidy t k ≡ true)
    → is_tidy (String.◌∷◌ c s) b ≡ true
    → is_tidy (String.◌∷◌ c t) b ≡ true
tidy_cons c s t b f h = ground (arith, f true, f false)

trim_end-is_tidy : (s : String) (b : Bool) → is_tidy s b ≡ true → is_tidy (trim_end s) b ≡ true
trim_end-is_tidy String.[] b h = refl
trim_end-is_tidy (String.◌∷◌ c s) b h =
    keep_unless_blank-is_tidy c (trim_end s) b
      (ground (arith, trim_end-is_tidy s true, trim_end-is_tidy s false))

take_units-is_tidy :
    (s : String) (n : ℕ) (b : Bool) → is_tidy s b ≡ true → is_tidy (take_units s n) b ≡ true
unfolding is_space
take_units-is_tidy String.[] n b h = refl
take_units-is_tidy (String.◌∷◌ c s) zero b h = refl
take_units-is_tidy (String.◌∷◌ c s) (suc zero) b h = elim (Bool-cases (ltb (code c) 65536)) [
  | inl e ↦ rw e (tidy_cons c s (take_units s zero) b (take_units-is_tidy s zero) h)
  | inr e ↦ rw e refl
]
take_units-is_tidy (String.◌∷◌ c s) (suc (suc n)) b h = elim (Bool-cases (ltb (code c) 65536)) [
  | inl e ↦ rw e (tidy_cons c s (take_units s (suc n)) b (take_units-is_tidy s (suc n)) h)
  | inr e ↦ rw e (tidy_cons c s (take_units s n) b (take_units-is_tidy s n) h)
]

-- A cleaned text has at most the number of UTF-16 units asked for, no white space but single spaces,
-- and none at its beginning.
pub normalize_text-is_tidy :
    (value : String) (maximum : ℕ)
    → (units (normalize_text value maximum) ≤ maximum)
      × (is_tidy (normalize_text value maximum) true ≡ true)
unfolding normalize_text
normalize_text-is_tidy value maximum = (
  take_units-units (trim (collapse value false)) maximum,
  take_units-is_tidy (trim (collapse value false)) maximum true (
      trim_end-is_tidy (trim_start (collapse value false)) true
        (trim_start-is_tidy (collapse value false) false (collapse-is_tidy value false))),
)
