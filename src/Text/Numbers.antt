-- ===== src/Text/Numbers.antt =====
-- Numbers as text: `str::parse` for unsigned integers, and their `Display`.
pub mod Bounds
pub mod Printed
use rustyalias.Common.{
  ℕ, zero, suc, ◌+◌, ◌-◌, ◌*◌, ◌/◌, ◌%◌, ◌^◌, [], ◌∷◌, Option, none, some, Bytes, ltb, ◌==◌,
  between, if◌then◌else◌,
}

-- The digits behind the value read so far; a value of `bound` or more is refused.
unfoldable pub parse_decimals : ℕ → ℕ → Bytes → Option ℕ
parse_decimals bound n [] = some n
parse_decimals bound n (c ∷ s) =
    let rest = parse_decimals bound (n * 10 + (c - b'0')) s in
    if between b'0' b'9' c then (if ltb (n * 10 + (c - b'0')) bound then rest else none) else none

-- `s.parse()` for an unsigned integer below `bound`: a `+` in front is accepted if a digit follows.
unfoldable pub parse_unsigned : ℕ → Bytes → Option ℕ
unfolding parse_decimals
parse_unsigned bound [] = none
parse_unsigned bound (c ∷ []) = parse_decimals bound 0 (c ∷ [])
parse_unsigned bound (c ∷ d ∷ s) =
    if c == b'+' then parse_decimals bound 0 (d ∷ s) else parse_decimals bound 0 (c ∷ d ∷ s)

abbrev pub parse_u32 : Bytes → Option ℕ
parse_u32 s = parse_unsigned (2 ^ 32) s

abbrev pub parse_u64 : Bytes → Option ℕ
parse_u64 s = parse_unsigned (2 ^ 64) s

-- The digits of `n` in front of a text; a number below ten to the fuel is printed whole.
unfoldable pub digits_before : ℕ → ℕ → Bytes → Bytes
digits_before zero n out = out
digits_before (suc fuel) n out =
    let rest = digits_before fuel (n / 10) ((b'0' + n % 10) ∷ out) in
    if ltb n 10 then (b'0' + n) ∷ out else rest

-- `{}` of an unsigned integer: 20 digits print every u64.
unfoldable pub decimal : ℕ → Bytes
unfolding digits_before
decimal n = digits_before 20 n []
