-- ===== src/Text/Numbers/Printed.antt =====
-- A number that is printed in decimal is read back.
use rustyalias.Common.{
  ℕ, zero, suc, ◌+◌, ◌-◌, ◌*◌, ◌/◌, ◌%◌, ◌<◌, ◌≤◌, ◌≡◌, ◌∙◌, refl, arith, [], ◌∷◌, some, Bytes,
  length, ltb, ltb→lt, Bool-cases, inl, inr, All,
}
use rustyalias.Text.Numbers.{parse_decimals, parse_unsigned, digits_before, decimal}

-- One more than the largest number of so many digits.
abbrev tens : ℕ → ℕ
tens zero = 1
tens (suc k) = 10 * tens k

abbrev IsDigit : ℕ → Type 0
IsDigit c = (b'0' ≤ c) × (c ≤ b'9')

parse_decimals-digit :
    (bound n d : ℕ) (out : Bytes)
    → d < 10
    → n * 10 + d < bound
    → parse_decimals bound n ((b'0' + d) ∷ out) ≡ parse_decimals bound (n * 10 + d) out
unfolding parse_decimals
parse_decimals-digit bound n d out small fits =
    let e : n * 10 + (b'0' + d - b'0') ≡ n * 10 + d = omega arith in rw e (ground arith)

parse_decimals-digits_before :
    (bound fuel n : ℕ) (out : Bytes)
    → n < tens fuel
    → n < bound
    → parse_decimals bound 0 (digits_before fuel n out) ≡ parse_decimals bound n out
unfolding digits_before
parse_decimals-digits_before bound zero n out h fits = let e : n ≡ 0 = omega arith in rw e
parse_decimals-digits_before bound (suc fuel) n out h fits = elim (Bool-cases (ltb n 10)) [
  | inl small ↦
      let e : 0 * 10 + n ≡ n = omega arith in
      let below = ltb→lt n 10 small in
      rw small (rw e at (parse_decimals-digit bound 0 n out below (omega arith)))
  | inr big ↦
      let e : n / 10 * 10 + n % 10 ≡ n = omega arith in
      rw big (
        parse_decimals-digits_before bound fuel (n / 10) ((b'0' + n % 10) ∷ out) (omega arith)
          (omega arith)
        ∙ rw e at (parse_decimals-digit bound (n / 10) (n % 10) out (omega arith) (omega arith)))
]

digits_before-IsDigit :
    (fuel n : ℕ) (out : Bytes)
    → All IsDigit out
    → All IsDigit (digits_before fuel n out) × (length out ≤ length (digits_before fuel n out))
unfolding digits_before
digits_before-IsDigit zero n out h = (h, omega arith)
digits_before-IsDigit (suc fuel) n out h = elim (Bool-cases (ltb n 10)) [
  | inl small ↦ rw small ((ground arith, h), omega arith)
  | inr big ↦
      let (digits, long) =
        digits_before-IsDigit fuel (n / 10) ((b'0' + n % 10) ∷ out) (omega arith, h) in
      rw big (digits, omega arith)
]

digits_before_cons : (fuel n : ℕ) → 1 ≤ length (digits_before (suc fuel) n [])
unfolding digits_before
digits_before_cons fuel n = elim (Bool-cases (ltb n 10)) [
  | inl small ↦ rw small (omega arith)
  | inr big ↦
      let (digits, long) =
        digits_before-IsDigit fuel (n / 10) ((b'0' + n % 10) ∷ []) (omega arith, tt) in
      rw big (omega arith)
]

parse_unsigned-digits :
    (bound c : ℕ) (s : Bytes)
    → IsDigit c
    → parse_unsigned bound (c ∷ s) ≡ parse_decimals bound 0 (c ∷ s)
unfolding parse_unsigned
parse_unsigned-digits bound c [] h = refl
parse_unsigned-digits bound c (d ∷ s) h = ground arith

-- Below 10 ^ 20 and the bound, a number that is printed is read back.
pub parse_unsigned-decimal :
    (bound n : ℕ)
    → n < bound
    → n < 100_000_000_000_000_000_000
    → parse_unsigned bound (decimal n) ≡ some n
unfolding decimal parse_decimals
parse_unsigned-decimal bound n fits h =
    read_back (digits_before 20 n []) (digits_before-IsDigit 20 n [] tt).0 (digits_before_cons 19 n)
      (parse_decimals-digits_before bound 20 n [] h fits)
  where
    read_back :
        (s : Bytes)
        → All IsDigit s
        → 1 ≤ length s
        → parse_decimals bound 0 s ≡ parse_decimals bound n []
        → parse_unsigned bound s ≡ some n
    read_back [] d l e = absurd (omega arith)
    read_back (c ∷ s) (d, ds) l e = parse_unsigned-digits bound c s d ∙ e
