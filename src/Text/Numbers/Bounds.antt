-- ===== src/Text/Numbers/Bounds.antt =====
-- A number that is read is below its bound.
use rustyalias.Common.{ℕ, ◌+◌, ◌-◌, ◌*◌, ◌<◌, ◌≡◌, arith, [], ◌∷◌, some, Bytes}
use rustyalias.Text.Numbers.{parse_decimals, parse_unsigned}

parse_decimals-lt :
    (bound n : ℕ) (s : Bytes) (r : ℕ) → n < bound → parse_decimals bound n s ≡ some r → r < bound
unfolding parse_decimals
parse_decimals-lt bound n [] r h e = ground arith
parse_decimals-lt bound n (c ∷ s) r h e =
    ground (arith, parse_decimals-lt bound (n * 10 + (c - b'0')) s r)

pub parse_unsigned-lt :
    (bound : ℕ) (s : Bytes) (r : ℕ) → 0 < bound → parse_unsigned bound s ≡ some r → r < bound
unfolding parse_unsigned
parse_unsigned-lt bound [] r h e = cc
parse_unsigned-lt bound (c ∷ []) r h e = parse_decimals-lt bound 0 (c ∷ []) r h e
parse_unsigned-lt bound (c ∷ d ∷ s) r h e =
    ground (arith, parse_decimals-lt bound 0 (d ∷ s) r h, parse_decimals-lt bound 0 (c ∷ d ∷ s) r h)
