-- ===== src/Text.antt =====
-- What src/dns and src/config.rs use of Rust's `str` and `u8`: a text is the list of its bytes.
-- Each separator and case fold in use is ASCII, so working on bytes is working on characters.
pub mod Case
pub mod Space
pub mod Split
pub mod Join
pub mod Dots
pub mod Search
pub mod Numbers
pub mod Plain
pub mod Utf8
use rustyalias.Common.{
  ℕ, suc, ◌+◌, ◌-◌, ◌*◌, Bool, true, false, ◌&&◌, ◌||◌, List, [], ◌∷◌, ◌++◌, Option, none, some,
  Bytes, ltb, ◌==◌, between, if◌then◌else◌, is_empty, any,
}

-- `u8::to_ascii_lowercase`.
unfoldable pub to_lower : ℕ → ℕ
to_lower c = if between b'A' b'Z' c then c + 32 else c

-- `str::eq_ignore_ascii_case`.
unfoldable pub eq_ignore_case : Bytes → Bytes → Bool
eq_ignore_case [] [] = true
eq_ignore_case (x ∷ xs) (y ∷ ys) = to_lower x == to_lower y && eq_ignore_case xs ys
eq_ignore_case _ _ = false

-- One byte in front of a text whose trailing dots are gone.
abbrev pub cons_trimmed : ℕ → Bytes → Bytes
cons_trimmed c [] = if c == b'.' then [] else c ∷ []
cons_trimmed c (d ∷ s) = c ∷ d ∷ s

-- `s.trim_end_matches('.')`.
unfoldable pub trim_dots : Bytes → Bytes
trim_dots [] = []
trim_dots (c ∷ s) = cons_trimmed c (trim_dots s)

-- One byte in front of the first part.
abbrev pub cons_head : ℕ → List Bytes → List Bytes
cons_head c [] = (c ∷ []) ∷ []
cons_head c (p ∷ ps) = (c ∷ p) ∷ ps

-- `s.split(sep)`: never empty.
unfoldable pub split : ℕ → Bytes → List Bytes
split sep [] = [] ∷ []
split sep (c ∷ s) = let rest = split sep s in if c == sep then [] ∷ rest else cons_head c rest

-- `parts.join(".")` and the like.
unfoldable pub join : ℕ → List Bytes → Bytes
join sep [] = []
join sep (p ∷ []) = p
join sep (p ∷ q ∷ ps) = p ++ (sep ∷ join sep (q ∷ ps))

-- `s.contains(c)`.
abbrev pub contains : ℕ → Bytes → Bool
contains c s = any (λ d. d == c) s

-- `s.replace("--", "::")`: pairs are found from the left.
unfoldable pub replace_pairs : Bytes → Bytes
replace_pairs [] = []
replace_pairs (c ∷ []) = c ∷ []
replace_pairs (c ∷ d ∷ s) = elim (c == b'-' && d == b'-') [
  | true ↦ b':' ∷ b':' ∷ replace_pairs s
  | false ↦ c ∷ replace_pairs (d ∷ s)
]

-- `s.replace('-', ":")`.
unfoldable pub replace_hyphens : Bytes → Bytes
replace_hyphens [] = []
replace_hyphens (c ∷ s) = (if c == b'-' then b':' else c) ∷ replace_hyphens s

-- `char::is_ascii_hexdigit`.
abbrev pub is_hexdigit : ℕ → Bool
is_hexdigit c = between b'0' b'9' c || between b'A' b'F' c || between b'a' b'f' c

-- `char::to_digit(radix)`, for a radix of 10 or 16.
unfoldable pub to_digit : ℕ → ℕ → Option ℕ
to_digit radix c =
    let d : ℕ =
      if between b'0' b'9' c
      then c - b'0'
      else if between b'a' b'z' c
      then c - b'a' + 10
      else if between b'A' b'Z' c
      then c - b'A' + 10
      else 36 in
    if ltb d radix then some d else none

-- The digits of a u8 behind the value read so far: `checked_mul` and `checked_add` refuse 256.
unfoldable pub parse_digits : ℕ → ℕ → Bytes → Option ℕ
parse_digits radix n [] = some n
parse_digits radix n (c ∷ s) = elim (to_digit radix c) [
  | none ↦ none
  | some d ↦ if ltb (n * radix + d) 256 then parse_digits radix (n * radix + d) s else none
]

-- `u8::from_str_radix(s, radix)`: a `+` in front is accepted if a digit follows.
unfoldable pub parse_u8 : ℕ → Bytes → Option ℕ
unfolding parse_digits
parse_u8 radix [] = none
parse_u8 radix (c ∷ []) = parse_digits radix 0 (c ∷ [])
parse_u8 radix (c ∷ d ∷ s) =
    if c == b'+' then parse_digits radix 0 (d ∷ s) else parse_digits radix 0 (c ∷ d ∷ s)
