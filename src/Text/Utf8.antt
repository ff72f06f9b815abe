-- ===== src/Text/Utf8.antt =====
-- `std::str::from_utf8` as a test: the ranges of bytes that each leading byte allows.
use rustyalias.Common.{
  ℕ, zero, suc, Bool, true, false, [], ◌∷◌, Option, none, some, Bytes, ltb, ◌==◌, between,
  if◌then◌else◌, ◌||◌,
}

-- How many continuation bytes a leading byte wants, and the range of the first of them.
abbrev pub lead : ℕ → Option (ℕ × ℕ × ℕ)
lead b =
    if ltb b 0x80
    then some (0, 0x80, 0xbf)
    else if between 0xc2 0xdf b
    then some (1, 0x80, 0xbf)
    else if b == 0xe0
    then some (2, 0xa0, 0xbf)
    else if between 0xe1 0xec b || between 0xee 0xef b
    then some (2, 0x80, 0xbf)
    else if b == 0xed
    then some (2, 0x80, 0x9f)
    else if b == 0xf0
    then some (3, 0x90, 0xbf)
    else if between 0xf1 0xf3 b
    then some (3, 0x80, 0xbf)
    else if b == 0xf4
    then some (3, 0x80, 0x8f)
    else none

-- `need` continuation bytes are still due, the first of them from `lo` to `hi`.
unfoldable pub utf8_from : ℕ → ℕ → ℕ → Bytes → Bool
utf8_from zero lo hi [] = true
utf8_from (suc need) lo hi [] = false
utf8_from zero lo hi (b ∷ s) = elim (lead b) [ none ↦ false | some (n, l, h) ↦ utf8_from n l h s ]
utf8_from (suc need) lo hi (b ∷ s) = if between lo hi b then utf8_from need 0x80 0xbf s else false

unfoldable pub is_utf8 : Bytes → Bool
unfolding utf8_from
is_utf8 s = utf8_from 0 0x80 0xbf s
