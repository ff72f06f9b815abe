-- ===== src/Common/Bits.antt =====
-- Machine words: ranges, big-endian bytes, and masks on a byte as arithmetic. A mask lemma is a
-- table over all bytes, checked by evaluation.
use Prim.Native.Nat.{ℕ, zero, suc, ◌+◌, ◌*◌, ◌/◌, ◌%◌, ◌^◌, ◌<◌, min}
use mathlib.Core.Path.{◌≡◌}
use mathlib.Core.Bool.{Bool, true, ◌&&◌}
use mathlib.Core.List.{[], ◌∷◌}
use native.Mathlib.Omega.{arith}
use rustyalias.Common.Bools.{◌==◌, ==_iff}
use rustyalias.Common.Lists.{Bytes}

abbrev pub IsByte : ℕ → Type 0
IsByte b = b < 256

abbrev pub IsU16 : ℕ → Type 0
IsU16 n = n < 2 ^ 16

-- `u16::from_be_bytes([hi, lo])`.
abbrev pub from_be : ℕ → ℕ → ℕ
from_be hi lo = hi * 256 + lo

-- `n.to_be_bytes()` of a u16 and of a u32.
abbrev pub be16 : ℕ → Bytes
be16 n = n / 256 % 256 ∷ n % 256 ∷ []

abbrev pub be32 : ℕ → Bytes
be32 n = n / 2 ^ 24 % 256 ∷ n / 2 ^ 16 % 256 ∷ n / 256 % 256 ∷ n % 256 ∷ []

pub from_be-be16 : (n : ℕ) → IsU16 n → from_be (n / 256 % 256) (n % 256) ≡ n
from_be-be16 n h = omega arith

-- `min` at 65535: `saturating_add` on a u16.
abbrev pub saturating_add16 : ℕ → ℕ → ℕ
saturating_add16 a b = min 65535 (a + b)

-- `f` and `g` give one result at each number below the bound, found by evaluation.
abbrev agree : (f g : ℕ → ℕ) → ℕ → Bool
agree f g zero = true
agree f g (suc bound) = f bound == g bound && agree f g bound

both_true : (a b : Bool) → a && b ≡ true → (a ≡ true) × (b ≡ true)
both_true a b h = ground arith

-- A table of masks: two functions that agree on every number below the bound.
pub agree_below :
    (bound : ℕ) (f g : ℕ → ℕ) → agree f g bound ≡ true → (v : ℕ) → v < bound → f v ≡ g v
agree_below zero f g table v h = absurd (omega arith)
agree_below (suc bound) f g table v h =
    let (here, below) = both_true (f bound == g bound) (agree f g bound) table in
    grind (arith, agree_below bound f g below v, (==_iff (f bound) (g bound)).0 here)
