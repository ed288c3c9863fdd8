-- ===== src/VisitSocial/Text.antt =====
-- src/visit-social/visit-social.policy.ts: how the texts of a share and of a turn are cleaned. A
-- JavaScript string counts UTF-16 units, of which a character takes one or two; a cut between the
-- two leaves half of a pair, which UTF-8 writes as U+FFFD.
pub mod Tidy
use Prim.Native.Char.{Char, char, code}
use Prim.Native.String.{String}
use our_companion_network.Base.{
  ℕ, zero, suc, ◌+◌, ◌≤◌, Bool, true, false, not, ◌||◌, ◌&&◌, Option, none, some, leb, ltb, ◌==◌,
  if◌then◌else◌, Code, Error, Result, ok, err, ◌>>=◌, ◌>>◌, guard,
}

-- `\s` of a regular expression, and what `trim` removes.
unfoldable pub is_space : Char → Bool
is_space c =
    (leb 9 (code c) && leb (code c) 13)
    || code c == 32
    || code c == 160
    || code c == 5760
    || (leb 8192 (code c) && leb (code c) 8202)
    || code c == 8232
    || code c == 8233
    || code c == 8239
    || code c == 8287
    || code c == 12288
    || code c == 65279

abbrev pub space : Char
space = char 32 tt

abbrev pub replacement : Char
replacement = char 65533 tt

abbrev pub join_space : Bool → Char → (Bool → String) → Bool → String
join_space true c rest true = rest true
join_space true c rest false = String.◌∷◌ space (rest true)
join_space false c rest in_run = String.◌∷◌ c (rest false)

-- `replace(/\s+/g, ' ')`; the flag says that the character before was a space.
abbrev pub collapse : String → Bool → String
collapse String.[] in_run = String.[]
collapse (String.◌∷◌ c s) in_run = join_space (is_space c) c (collapse s) in_run

unfoldable pub trim_start : String → String
unfolding is_space
trim_start String.[] = String.[]
trim_start (String.◌∷◌ c s) = let rest = trim_start s in if is_space c then rest else String.◌∷◌ c s

abbrev pub keep_unless_blank : Bool → Char → String → String
keep_unless_blank true c String.[] = String.[]
keep_unless_blank true c (String.◌∷◌ d s) = String.◌∷◌ c (String.◌∷◌ d s)
keep_unless_blank false c s = String.◌∷◌ c s

-- A space goes where nothing is left behind it.
abbrev pub trim_end : String → String
trim_end String.[] = String.[]
trim_end (String.◌∷◌ c s) = keep_unless_blank (is_space c) c (trim_end s)

abbrev pub trim : String → String
trim s = trim_end (trim_start s)

-- the number of UTF-16 units
abbrev pub char_units : Char → ℕ
char_units c = if ltb (code c) 65536 then 1 else 2

abbrev pub units : String → ℕ
units String.[] = 0
units (String.◌∷◌ c s) = char_units c + units s

abbrev pub cut : Bool → Char → (ℕ → String) → ℕ → String
cut is_narrow c rest zero = String.[]
cut true c rest (suc n) = String.◌∷◌ c (rest n)
cut false c rest (suc zero) = String.◌∷◌ replacement String.[]
cut false c rest (suc (suc n)) = String.◌∷◌ c (rest n)

-- `slice(0, n)`
abbrev pub take_units : String → ℕ → String
take_units String.[] n = String.[]
take_units (String.◌∷◌ c s) n = cut (ltb (code c) 65536) c (take_units s) n

unfoldable pub normalize_text : String → ℕ → String
normalize_text value maximum_length = take_units (trim (collapse value false)) maximum_length

abbrev pub is_empty : String → Bool
is_empty String.[] = true
is_empty (String.◌∷◌ _ _) = false

-- `text || null`
abbrev pub unless_empty : String → Option String
unless_empty String.[] = none
unless_empty (String.◌∷◌ c s) = some (String.◌∷◌ c s)

pub record ShareInput : Type 0 where
  pub title : String
  pub summary : String
  pub source_url : Option String

abbrev pub trimmed_url : Option String → Option String
trimmed_url none = none
trimmed_url (some url) = unless_empty (trim url)

abbrev pub is_short_url : Option String → Bool
is_short_url none = true
is_short_url (some url) = leb (units url) 2000

unfoldable pub sanitize_share : ShareInput → Result ShareInput
sanitize_share input = do
  let title = normalize_text input.title 120
  let summary = normalize_text input.summary 600
  guard (not (is_empty title) && not (is_empty summary)) (Error.internal Code.visit_share_invalid)
  let url = trimmed_url input.source_url
  guard (is_short_url url) (Error.internal Code.visit_share_invalid)
  ok (record { title = title; summary = summary; source_url = url })
