-- ===== src/IpParser/Decimal.antt =====
-- The decimal text of an octet, and what reads it: `read_number` of `std::net` and `u8::from_str`.
use mathlib.Core.Path.{subst}
use rustyalias.Common.{
  ℕ, ◌+◌, ◌*◌, ◌/◌, ◌%◌, ◌<◌, ◌≤◌, ◌≡◌, refl, ap, arith, false, [], ◌∷◌, ◌++◌, Option, none, some,
  Bytes, length, ltb, ltb→lt, ltb_ge, ◌==◌, if◌then◌else◌, unwrap_or, IsByte, agree_below,
  Bool-cases, inl, inr, All,
}
use rustyalias.Text.{to_digit, parse_digits, parse_u8}
use rustyalias.Text.Split.{Without}
use rustyalias.Net.{read_digits, read_number}

-- `{}` of a u8.
abbrev pub octet_text : ℕ → Bytes
octet_text b =
    if ltb b 10
    then (b'0' + b) ∷ []
    else if ltb b 100
    then (b'0' + b / 10) ∷ (b'0' + b % 10) ∷ []
    else (b'0' + b / 100) ∷ (b'0' + b / 10 % 10) ∷ (b'0' + b % 10) ∷ []

abbrev one : ℕ → Bytes
one a = (b'0' + a) ∷ []

abbrev two : ℕ → ℕ → Bytes
two a b = (b'0' + a) ∷ (b'0' + b) ∷ []

abbrev three : ℕ → ℕ → ℕ → Bytes
three a b c = (b'0' + a) ∷ (b'0' + b) ∷ (b'0' + c) ∷ []

-- The text of an octet has one, two or three digits, the first of several not a zero.
pub data Digits : ℕ → Bytes → Type 0 where
  has_one : (a : ℕ) → a < 10 → Digits a (one a)
  has_two : (a b : ℕ) → 0 < a → a < 10 → b < 10 → Digits (a * 10 + b) (two a b)
  has_three :
      (a b c : ℕ) → 0 < a → a < 10 → b < 10 → c < 10 → Digits ((a * 10 + b) * 10 + c) (three a b c)

octet_text-Digits : (b : ℕ) → IsByte b → Digits b (octet_text b)
octet_text-Digits b h = elim (Bool-cases (ltb b 10)) [
  | inl small ↦ rw small (has_one b (ltb→lt b 10 small))
  | inr big ↦ elim (Bool-cases (ltb b 100)) [
    | inl small ↦
        let ge = ltb_ge b 10 big in
        let lt = ltb→lt b 100 small in
        let e : b / 10 * 10 + b % 10 ≡ b = omega arith in
        let d = has_two (b / 10) (b % 10) (omega arith) (omega arith) (omega arith) in
        rw (big, small) (subst (λ n. Digits n (two (b / 10) (b % 10))) e d)
    | inr large ↦
        let ge = ltb_ge b 100 large in
        let e : (b / 100 * 10 + b / 10 % 10) * 10 + b % 10 ≡ b = omega arith in
        let d =
          has_three (b / 100) (b / 10 % 10) (b % 10) (omega arith) (omega arith) (omega arith)
            (omega arith) in
        rw (big, large) (subst (λ n. Digits n (three (b / 100) (b / 10 % 10) (b % 10))) e d)
  ]
]

some_of_unwrap : (o : Option ℕ) (n : ℕ) → n < 10 → unwrap_or o 10 ≡ n → o ≡ some n
some_of_unwrap none n h e = absurd (omega arith)
some_of_unwrap (some k) n h e = ap some e

to_digit-decimal : (n : ℕ) → n < 10 → to_digit 10 (b'0' + n) ≡ some n
unfolding to_digit
to_digit-decimal n h =
    some_of_unwrap (to_digit 10 (b'0' + n)) n h
      (agree_below 10 (λ k. unwrap_or (to_digit 10 (b'0' + k)) 10) (λ k. k) refl n h)

-- A text at which the reading of digits stops.
abbrev pub Stops : Bytes → Type 0
Stops [] = Unit
Stops (c ∷ s) = to_digit 10 c ≡ none

read_digits_stop :
    (most count n : ℕ) (rest : Bytes)
    → Stops rest
    → read_digits 10 most count n rest ≡ some (count, n, rest)
unfolding read_digits
read_digits_stop most count n [] h = refl
read_digits_stop most count n (c ∷ s) h = rw (read_digits, h)

read_number-Digits :
    (b : ℕ) (text rest : Bytes)
    → IsByte b
    → Digits b text
    → Stops rest
    → read_number 10 3 false 256 (text ++ rest) ≡ some (b, rest)
unfolding read_number
read_number-Digits _ _ rest h (has_one a ha) s =
    rw (read_digits, to_digit-decimal a ha, read_digits_stop 3 1 (0 * 10 + a) rest s) (ground arith)
read_number-Digits _ _ rest h (has_two a b pos ha hb) s =
    rw
      (
        read_digits,
        to_digit-decimal a ha,
        to_digit-decimal b hb,
        read_digits_stop 3 2 ((0 * 10 + a) * 10 + b) rest s,
      )
      (ground arith)
read_number-Digits _ _ rest h (has_three a b c pos ha hb hc) s =
    rw
      (
        read_digits,
        to_digit-decimal a ha,
        to_digit-decimal b hb,
        to_digit-decimal c hc,
        read_digits_stop 3 3 (((0 * 10 + a) * 10 + b) * 10 + c) rest s,
      )
      (ground arith)

-- The same by `u8::from_str`.
parse_u8-Digits : (b : ℕ) (text : Bytes) → IsByte b → Digits b text → parse_u8 10 text ≡ some b
unfolding parse_u8
parse_u8-Digits _ _ h (has_one a ha) = rw (parse_digits, to_digit-decimal a ha) (ground arith)
parse_u8-Digits _ _ h (has_two a b pos ha hb) =
    let plus : (b'0' + a == b'+') ≡ false = ground arith in
    rw (plus, parse_digits, to_digit-decimal a ha, to_digit-decimal b hb) (ground arith)
parse_u8-Digits _ _ h (has_three a b c pos ha hb hc) =
    let plus : (b'0' + a == b'+') ≡ false = ground arith in
    rw (plus, parse_digits, to_digit-decimal a ha, to_digit-decimal b hb, to_digit-decimal c hc)
      (ground arith)

-- No digit is a hyphen or a dot.
digit_apart : (a : ℕ) → ((b'0' + a == b'-') ≡ false) × ((b'0' + a == b'.') ≡ false)
digit_apart a = (ground arith, ground arith)

Digits-Without_hyphen : (b : ℕ) (text : Bytes) → Digits b text → Without b'-' text
Digits-Without_hyphen _ _ (has_one a ha) = ((digit_apart a).0, tt)
Digits-Without_hyphen _ _ (has_two a b pos ha hb) = ((digit_apart a).0, ((digit_apart b).0, tt))
Digits-Without_hyphen _ _ (has_three a b c pos ha hb hc) =
    ((digit_apart a).0, ((digit_apart b).0, ((digit_apart c).0, tt)))

Digits-Without_dot : (b : ℕ) (text : Bytes) → Digits b text → Without b'.' text
Digits-Without_dot _ _ (has_one a ha) = ((digit_apart a).1, tt)
Digits-Without_dot _ _ (has_two a b pos ha hb) = ((digit_apart a).1, ((digit_apart b).1, tt))
Digits-Without_dot _ _ (has_three a b c pos ha hb hc) =
    ((digit_apart a).1, ((digit_apart b).1, ((digit_apart c).1, tt)))

Digits-short : (b : ℕ) (text : Bytes) → Digits b text → length text ≤ 3
Digits-short _ _ (has_one a ha) = omega arith
Digits-short _ _ (has_two a b pos ha hb) = omega arith
Digits-short _ _ (has_three a b c pos ha hb hc) = omega arith

-- The range of the digits and the hyphen.
abbrev pub IsPlain : ℕ → Type 0
IsPlain c = (45 ≤ c) × (c < 58)

Digits-IsPlain : (b : ℕ) (text : Bytes) → Digits b text → All IsPlain text
Digits-IsPlain _ _ (has_one a ha) = omega arith
Digits-IsPlain _ _ (has_two a b pos ha hb) = omega arith
Digits-IsPlain _ _ (has_three a b c pos ha hb hc) = omega arith

module _ (b : ℕ) (h : IsByte b) where
  pub octet_text-IsPlain : All IsPlain (octet_text b)
  octet_text-IsPlain = Digits-IsPlain b _ (octet_text-Digits b h)

  pub read_number-octet_text :
      (rest : Bytes)
      → Stops rest
      → read_number 10 3 false 256 (octet_text b ++ rest) ≡ some (b, rest)
  read_number-octet_text rest s =
      read_number-Digits b (octet_text b) rest h (octet_text-Digits b h) s

  pub parse_u8-octet_text : parse_u8 10 (octet_text b) ≡ some b
  parse_u8-octet_text = parse_u8-Digits b (octet_text b) h (octet_text-Digits b h)

  pub octet_text-Without_hyphen : Without b'-' (octet_text b)
  octet_text-Without_hyphen = Digits-Without_hyphen b _ (octet_text-Digits b h)

  pub octet_text-Without_dot : Without b'.' (octet_text b)
  octet_text-Without_dot = Digits-Without_dot b _ (octet_text-Digits b h)

  pub length-octet_text : length (octet_text b) ≤ 3
  length-octet_text = Digits-short b _ (octet_text-Digits b h)
