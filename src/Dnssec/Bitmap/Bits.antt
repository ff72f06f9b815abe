-- ===== src/Dnssec/Bitmap/Bits.antt =====
-- One bit of a bitmap: what `bits[bit / 8] |= 1 << (7 - bit % 8)` does to every bit.
use rustyalias.Common.{
  ℕ, zero, suc, ◌+◌, ◌-◌, ◌*◌, ◌/◌, ◌%◌, ◌^◌, ◌≤◌, ◌<◌, ◌≡◌, ◌≢◌, refl, sym, ap, arith, Bool, true,
  false, ◌&&◌, ◌||◌, [], ◌∷◌, Bytes, length, get_or, set, take, replicate, bit_or, ◌==◌, ==_iff,
  if◌then◌else◌, IsByte, All, agree_below, Bool-cases, inl, inr, ltb, ltb→lt, ltb_ge, length-take,
}

-- The bit `i` of some bytes, the first bit the highest of the first byte.
unfoldable pub bit_at : Bytes → ℕ → Bool
bit_at bytes i = get_or bytes (i / 8) 0 / 2 ^ (7 - i % 8) % 2 == 1

-- The byte of the loop with the bit `i` set, and the bytes with it.
abbrev pub byte_with : Bytes → ℕ → ℕ
byte_with bits i = bit_or (get_or bits (i / 8) 0) (2 ^ (7 - i % 8))

abbrev pub with_bit : Bytes → ℕ → Bytes
with_bit bits i = set bits (i / 8) (byte_with bits i)

abbrev as_number : Bool → ℕ
as_number b = if b then 1 else 0

as_number_injective : (a b : Bool) → as_number a ≡ as_number b → a ≡ b
as_number_injective true true e = refl
as_number_injective false false e = refl
as_number_injective true false e = absurd (omega arith)
as_number_injective false true e = absurd (omega arith)

-- A byte, and two places in it, as one number.
abbrev or_bit : ℕ → Bool
or_bit n = bit_or (n / 64) (2 ^ (7 - n % 8)) / 2 ^ (7 - n / 8 % 8) % 2 == 1

abbrev or_same : ℕ → Bool
or_same n = n / 8 % 8 == n % 8 || n / 64 / 2 ^ (7 - n / 8 % 8) % 2 == 1

table : (n : ℕ) → n < 16384 → as_number (or_bit n) ≡ as_number (or_same n)
table = agree_below 16384 (λ n. as_number (or_bit n)) (λ n. as_number (or_same n)) refl

pub bit_or-bit :
    (b j k : ℕ)
    → IsByte b
    → j < 8
    → k < 8
    → (bit_or b (2 ^ (7 - k)) / 2 ^ (7 - j) % 2 == 1) ≡ (j == k || b / 2 ^ (7 - j) % 2 == 1)
bit_or-bit b j k hb hj hk =
    let n = b * 64 + j * 8 + k in
    let e1 : n / 64 ≡ b = omega arith in
    let e2 : n / 8 % 8 ≡ j = omega arith in
    let e3 : n % 8 ≡ k = omega arith in
    rw (e1, e2, e3) at (as_number_injective (or_bit n) (or_same n) (table n (omega arith)))

-- The range of the result: a byte that is not zero.
abbrev in_range : ℕ → ℕ
in_range n = let r = bit_or (n / 8) (2 ^ (7 - n % 8)) in as_number (ltb 0 r && ltb r 256)

range_table : (n : ℕ) → n < 2048 → in_range n ≡ 1
range_table = agree_below 2048 in_range (λ n. 1) refl

from_range : (r : ℕ) → as_number (ltb 0 r && ltb r 256) ≡ 1 → (0 < r) × (r < 256)
from_range r h = ground arith

pub bit_or-range :
    (b k : ℕ) → IsByte b → k < 8 → (0 < bit_or b (2 ^ (7 - k))) × (bit_or b (2 ^ (7 - k)) < 256)
bit_or-range b k hb hk =
    let n = b * 8 + k in
    let e1 : n / 8 ≡ b = omega arith in
    let e2 : n % 8 ≡ k = omega arith in
    from_range (bit_or b (2 ^ (7 - k))) (rw (e1, e2) at (range_table n (omega arith)))

pub get_or-set_self : (xs : Bytes) (i v : ℕ) → i < length xs → get_or (set xs i v) i 0 ≡ v
get_or-set_self [] i v h = elim h [ ]
get_or-set_self (x ∷ xs) zero v h = refl
get_or-set_self (x ∷ xs) (suc i) v h = get_or-set_self xs i v (omega arith)

pub get_or-set_other : (xs : Bytes) (i j v : ℕ) → i ≢ j → get_or (set xs i v) j 0 ≡ get_or xs j 0
get_or-set_other [] i j v h = refl
get_or-set_other (x ∷ xs) zero zero v h = absurd (h refl)
get_or-set_other (x ∷ xs) zero (suc j) v h = refl
get_or-set_other (x ∷ xs) (suc i) zero v h = refl
get_or-set_other (x ∷ xs) (suc i) (suc j) v h = get_or-set_other xs i j v (λ e. h (ap suc e))

pub get_or-IsByte : (xs : Bytes) (i : ℕ) → All IsByte xs → IsByte (get_or xs i 0)
get_or-IsByte [] i h = omega arith
get_or-IsByte (x ∷ xs) zero (p, h) = p
get_or-IsByte (x ∷ xs) (suc i) (p, h) = get_or-IsByte xs i h

pub set-IsByte : (xs : Bytes) (i v : ℕ) → All IsByte xs → IsByte v → All IsByte (set xs i v)
set-IsByte [] i v h k = tt
set-IsByte (x ∷ xs) zero v (p, h) k = (k, h)
set-IsByte (x ∷ xs) (suc i) v (p, h) k = (p, set-IsByte xs i v h k)

-- Two numbers with one quotient are equal when their remainders are.
same_rest : (i k : ℕ) → k / 8 ≡ i / 8 → (i % 8 == k % 8) ≡ (k == i)
same_rest i k e = ground arith

pub with_bit-bit :
    (bits : Bytes) (i k : ℕ)
    → length bits ≡ 32
    → All IsByte bits
    → k < 256
    → bit_at (with_bit bits k) i ≡ (k == i || bit_at bits i)
unfolding bit_at
with_bit-bit bits i k l h hk =
    let v = byte_with bits k in
    elim (Bool-cases (k / 8 == i / 8)) [
      | inl same ↦
          let e : k / 8 ≡ i / 8 = (==_iff (k / 8) (i / 8)).0 same in
          let b = get_or bits (k / 8) 0 in
          let at_k : get_or (set bits (k / 8) v) (k / 8) 0 ≡ v =
            get_or-set_self bits (k / 8) v (omega arith) in
          let table : (v / 2 ^ (7 - i % 8) % 2 == 1)
              ≡ (i % 8 == k % 8 || b / 2 ^ (7 - i % 8) % 2 == 1) =
            bit_or-bit b (i % 8) (k % 8) (get_or-IsByte bits (k / 8) h) (omega arith)
              (omega arith) in
          rw (sym e, at_k, table, same_rest i k e)
      | inr other ↦
          let ne : k / 8 ≢ i / 8 = λ e. cc ((==_iff (k / 8) (i / 8)).1 e) in
          let different : (k == i) ≡ false = ground arith in
          rw (get_or-set_other bits (k / 8) (i / 8) v ne, different)
    ]

abbrev zeros : ℕ → Bytes
zeros n = replicate n 0

pub get_or-zeros : (n i : ℕ) → get_or (zeros n) i 0 ≡ 0
get_or-zeros zero i = refl
get_or-zeros (suc n) zero = refl
get_or-zeros (suc n) (suc i) = get_or-zeros n i

pub zeros-IsByte : (n : ℕ) → All IsByte (zeros n)
zeros-IsByte zero = tt
zeros-IsByte (suc n) = (omega arith, zeros-IsByte n)

zero_div : (m : ℕ) → 0 / m % 2 ≡ 0
zero_div m = omega arith

pub bit_at-zero : (bytes : Bytes) (i : ℕ) → get_or bytes (i / 8) 0 ≡ 0 → bit_at bytes i ≡ false
unfolding bit_at
bit_at-zero bytes i h =
    let z : 0 / 2 ^ (7 - i % 8) % 2 ≡ 0 = zero_div (2 ^ (7 - i % 8)) in rw (h, z)

-- The bytes past the last one that is not zero say nothing.
get_or-take : (n i : ℕ) (xs : Bytes) → i < n → get_or (take n xs) i 0 ≡ get_or xs i 0
get_or-take zero i xs h = elim h [ ]
get_or-take (suc n) i [] h = refl
get_or-take (suc n) zero (x ∷ xs) h = refl
get_or-take (suc n) (suc i) (x ∷ xs) h = get_or-take n i xs (omega arith)

get_or-past : (i : ℕ) (xs : Bytes) → length xs ≤ i → get_or xs i 0 ≡ 0
get_or-past i [] h = refl
get_or-past zero (x ∷ xs) h = elim h [ ]
get_or-past (suc i) (x ∷ xs) h = get_or-past i xs (omega arith)

pub get_or-take_zeros :
    (n : ℕ) (xs : Bytes)
    → ((i : ℕ) → n ≤ i → get_or xs i 0 ≡ 0)
    → (i : ℕ) → get_or (take n xs) i 0 ≡ get_or xs i 0
get_or-take_zeros n xs zeros i = elim (Bool-cases (ltb i n)) [
  | inl below ↦ get_or-take n i xs (ltb→lt i n below)
  | inr above ↦
      let le = ltb_ge i n above in
      let short = length-take n xs in rw (zeros i le) (get_or-past i (take n xs) (omega arith))
]
