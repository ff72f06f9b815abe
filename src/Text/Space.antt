-- ===== src/Text/Space.antt =====
-- `str::trim`: white space as Unicode has it, in UTF-8.
use rustyalias.Common.{
  ℕ, zero, suc, Bool, ◌&&◌, ◌||◌, [], ◌∷◌, Option, none, some, Bytes, ◌==◌, between, if◌then◌else◌,
  length,
}
use mathlib.Core.List.{reverse}

-- The bytes behind a two-byte or a three-byte space whose first byte is given.
abbrev two_byte_space : ℕ → ℕ → Bool
two_byte_space a b = a == 0xc2 && (b == 0x85 || b == 0xa0)

abbrev three_byte_space : ℕ → ℕ → ℕ → Bool
three_byte_space a b c =
    (a == 0xe1 && (b == 0x9a && c == 0x80))
    || (a == 0xe2 && (b == 0x80 && (between 0x80 0x8a c || c == 0xa8 || c == 0xa9 || c == 0xaf)))
    || (a == 0xe2 && (b == 0x81 && c == 0x9f))
    || (a == 0xe3 && (b == 0x80 && c == 0x80))

abbrev one_byte_space : ℕ → Bool
one_byte_space c = between 9 13 c || c == b' '

-- The text behind a white-space character in front, if there is one.
unfoldable pub strip_space : Bytes → Option Bytes
strip_space [] = none
strip_space (a ∷ []) = if one_byte_space a then some [] else none
strip_space (a ∷ b ∷ []) =
    if one_byte_space a then some (b ∷ []) else if two_byte_space a b then some [] else none
strip_space (a ∷ b ∷ c ∷ s) =
    if one_byte_space a
    then some (b ∷ c ∷ s)
    else if two_byte_space a b
    then some (c ∷ s)
    else if three_byte_space a b c
    then some s
    else none

-- The same at the end: the text is given backwards.
unfoldable pub strip_space_back : Bytes → Option Bytes
strip_space_back [] = none
strip_space_back (a ∷ []) = if one_byte_space a then some [] else none
strip_space_back (a ∷ b ∷ []) =
    if one_byte_space a then some (b ∷ []) else if two_byte_space b a then some [] else none
strip_space_back (a ∷ b ∷ c ∷ s) =
    if one_byte_space a
    then some (b ∷ c ∷ s)
    else if two_byte_space b a
    then some (c ∷ s)
    else if three_byte_space c b a
    then some s
    else none

-- Each round takes a byte at least, so the length of the text is fuel enough.
unfoldable pub strip_all : (Bytes → Option Bytes) → ℕ → Bytes → Bytes
strip_all strip zero s = s
strip_all strip (suc fuel) s = elim (strip s) [ none ↦ s | some s' ↦ strip_all strip fuel s' ]

unfoldable pub trim : Bytes → Bytes
unfolding strip_all strip_space strip_space_back
trim s =
    let front = strip_all strip_space (length s) s in
    reverse (strip_all strip_space_back (length front) (reverse front))
