-- ===== src/Dnssec/Bitmap/Fill.antt =====
-- The loop of `type_bitmap` as it fills blocks: the blocks that are written, and the one that is
-- open.
use rustyalias.Common.{
  ℕ, ◌+◌, ◌-◌, ◌/◌, ◌%◌, ◌≤◌, ◌<◌, ◌≡◌, refl, ◌∙◌, arith, ◌⊎◌, inl, inr, false, List, [], ◌∷◌, ◌++◌,
  Bytes, length, length-set, length-take, get_or, take, max, Bool-cases, leb, leb→le, leb_gt,
  IsByte, All, ret, slice_in,
}
use rustyalias.Dnssec.Bitmap.{no_bits, flush}
use rustyalias.Dnssec.Bitmap.Bits.{
  bit_at, byte_with, with_bit, bit_or-range, get_or-set_self, get_or-set_other, get_or-IsByte,
  set-IsByte, get_or-zeros, zeros-IsByte, bit_at-zero, get_or-take_zeros,
}
use rustyalias.Dnssec.Bitmap.Blocks.{Block, blocks_bytes, IsBlock, blocks_bytes-append}

-- The 32 bytes of a window: none past `max_byte` is used.
pub record IsFill (bits : Bytes) (max_byte : ℕ) : Type 0 where
  pub bits_length : length bits ≡ 32
  pub are_bytes : All IsByte bits
  pub max_byte_lt : max_byte < 32
  pub unused : (i : ℕ) → max_byte < i → get_or bits i 0 ≡ 0

pub no_bits-IsFill : IsFill no_bits 0
no_bits-IsFill = record {
  bits_length = refl;
  are_bytes = zeros-IsByte 32;
  max_byte_lt = omega arith;
  unused = λ i h. get_or-zeros 32 i;
}

pub no_bits-bit : (i : ℕ) → bit_at no_bits i ≡ false
no_bits-bit i = bit_at-zero no_bits i (get_or-zeros 32 (i / 8))

-- Either the last byte is used or there is none before it.
abbrev pub Ends : Bytes → ℕ → Type 0
Ends bits max_byte = (1 ≤ get_or bits max_byte 0) ⊎ (max_byte ≡ 0)

pub with_bit-IsFill :
    (bits : Bytes) (m k : ℕ) → IsFill bits m → k < 256 → IsFill (with_bit bits k) (max m (k / 8))
with_bit-IsFill bits m k h hk =
    let v = byte_with bits k in
    let (low, high) =
      bit_or-range (get_or bits (k / 8) 0) (k % 8) (get_or-IsByte bits (k / 8) h.are_bytes)
        (omega arith) in
    let lt = h.max_byte_lt in
    record {
      bits_length = length-set bits (k / 8) v ∙ h.bits_length;
      are_bytes = set-IsByte bits (k / 8) v h.are_bytes high;
      max_byte_lt = omega arith;
      unused = λ i above.
          get_or-set_other bits (k / 8) i v (λ e. omega arith) ∙ h.unused i (omega arith);
    }

pub with_bit-last :
    (bits : Bytes) (m k : ℕ)
    → IsFill bits m
    → Ends bits m
    → k < 256
    → 1 ≤ get_or (with_bit bits k) (max m (k / 8)) 0
with_bit-last bits m k h ends hk =
    let v = byte_with bits k in
    let l = h.bits_length in
    let (low, high) =
      bit_or-range (get_or bits (k / 8) 0) (k % 8) (get_or-IsByte bits (k / 8) h.are_bytes)
        (omega arith) in
    elim (Bool-cases (leb m (k / 8))) [
      | inl last ↦
          let le = leb→le m (k / 8) last in
          let e : max m (k / 8) ≡ k / 8 = omega arith in
          let here = get_or-set_self bits (k / 8) v (omega arith) in rw (e, here) low
      | inr before ↦
          let lt = leb_gt m (k / 8) before in
          let e : max m (k / 8) ≡ m = omega arith in
          let other = get_or-set_other bits (k / 8) m v (λ e. omega arith) in
          rw (e, other) (elim ends [ inl used ↦ used | inr zero ↦ absurd (omega arith) ])
    ]

-- The block that ends a window, and the bytes that `flush` writes for it.
abbrev pub closed : ℕ → Bytes → ℕ → Block
closed w bits m = record { number = w; bytes = take (m + 1) bits }

pub closed-bit :
    (bits : Bytes) (w m i : ℕ) → IsFill bits m → bit_at (closed w bits m).bytes i ≡ bit_at bits i
unfolding bit_at
closed-bit bits w m i h =
    rw (get_or-take_zeros (m + 1) bits (λ j le. h.unused j (omega arith)) (i / 8)) refl

closed-length : (bits : Bytes) (m : ℕ) → IsFill bits m → length (take (m + 1) bits) ≡ m + 1
closed-length bits m h =
    let lt = h.max_byte_lt in omega (arith, length-take (m + 1) bits, h.bits_length)

pub closed-IsBlock :
    (bits : Bytes) (w m : ℕ) → IsFill bits m → 1 ≤ get_or bits m 0 → IsBlock (closed w bits m)
closed-IsBlock bits w m h used =
    let l = closed-length bits m h in
    let lt = h.max_byte_lt in
    let e : length (take (m + 1) bits) - 1 ≡ m = omega arith in
    record {
      not_empty = omega arith;
      at_most_32 = omega arith;
      last_used = rw (e, get_or-take_zeros (m + 1) bits (λ j le. h.unused j (omega arith)) m) used;
    }

pub flush-closed :
    (bs : List Block) (w : ℕ) (bits : Bytes) (m : ℕ)
    → IsFill bits m
    → flush (blocks_bytes bs) w bits m ≡ ret (blocks_bytes (bs ++ (closed w bits m ∷ [])))
unfolding flush
flush-closed bs w bits m h =
    let lt = h.max_byte_lt in
    let l = h.bits_length in
    let e : (m + 1) % 256 ≡ length (take (m + 1) bits) = omega (arith, closed-length bits m h) in
    let whole : m + 1 - 0 ≡ m + 1 = omega arith in
    rw (
      slice_in bits 0 (m + 1) (omega arith) (omega arith),
      whole,
      blocks_bytes-append bs (closed w bits m),
      e,
    )
