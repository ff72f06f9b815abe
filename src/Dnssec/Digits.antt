-- ===== src/Dnssec/Digits.antt =====
-- The digits that `hex_encode` writes, and what reads them.
use rustyalias.Common.{
  ℕ, ◌+◌, ◌*◌, ◌/◌, ◌%◌, ◌<◌, ◌≡◌, refl, arith, Bool, true, false, [], ◌∷◌, Option, none, some,
  get_or, ◌==◌, ltb, ◌&&◌, lt→ltb, if◌then◌else◌, unwrap_or, IsByte, agree_below, ap,
}
use rustyalias.Text.{to_digit, parse_digits, parse_u8, is_hexdigit}
use rustyalias.Dnssec.Hex.{hex_digits}

abbrev pub digit : ℕ → ℕ
digit n = get_or hex_digits n 0

some_of_unwrap : (o : Option ℕ) (n : ℕ) → n < 16 → unwrap_or o 16 ≡ n → o ≡ some n
some_of_unwrap none n h e = absurd (omega arith)
some_of_unwrap (some k) n h e = ap some e

pub to_digit-digit : (n : ℕ) → n < 16 → to_digit 16 (digit n) ≡ some n
unfolding to_digit
to_digit-digit n h =
    some_of_unwrap (to_digit 16 (digit n)) n h
      (agree_below 16 (λ k. unwrap_or (to_digit 16 (digit k)) 16) (λ k. k) refl n h)

abbrev bit_of : Bool → ℕ
bit_of b = if b then 1 else 0

bit_of-true : (b : Bool) → bit_of b ≡ 1 → b ≡ true
bit_of-true true e = refl
bit_of-true false e = absurd (omega arith)

bit_of-false : (b : Bool) → bit_of b ≡ 0 → b ≡ false
bit_of-false false e = refl
bit_of-false true e = absurd (omega arith)

pub digit-is_hexdigit : (n : ℕ) → n < 16 → is_hexdigit (digit n) ≡ true
digit-is_hexdigit n h =
    bit_of-true _ (agree_below 16 (λ k. bit_of (is_hexdigit (digit k))) (λ k. 1) refl n h)

pub digit-ne_plus : (n : ℕ) → n < 16 → (digit n == b'+') ≡ false
digit-ne_plus n h =
    bit_of-false _ (agree_below 16 (λ k. bit_of (digit k == b'+')) (λ k. 0) refl n h)

pub digit-ne_dot : (n : ℕ) → n < 16 → (digit n == b'.') ≡ false
digit-ne_dot n h = bit_of-false _ (agree_below 16 (λ k. bit_of (digit k == b'.')) (λ k. 0) refl n h)

pub parse_u8-digits :
    (b : ℕ) → IsByte b → parse_u8 16 (digit (b / 16) ∷ digit (b % 16) ∷ []) ≡ some b
unfolding parse_u8
parse_u8-digits b h =
    rw
      (
        digit-ne_plus (b / 16) (omega arith),
        parse_digits,
        to_digit-digit (b / 16) (omega arith),
        lt→ltb (0 * 16 + b / 16) 256 (omega arith),
        to_digit-digit (b % 16) (omega arith),
        lt→ltb ((0 * 16 + b / 16) * 16 + b % 16) 256 (omega arith),
      )
      (ap some (omega arith))

in_ascii : (d : ℕ) → bit_of (ltb 0 d && ltb d 128) ≡ 1 → (0 < d) × (d < 128)
in_ascii d h = ground arith

pub digit-range : (n : ℕ) → n < 16 → (0 < digit n) × (digit n < 128)
digit-range n h =
    in_ascii (digit n)
      (agree_below 16 (λ k. bit_of (ltb 0 (digit k) && ltb (digit k) 128)) (λ k. 1) refl n h)
