-- ===== src/Dnssec/Bitmap/Returns.antt =====
-- The bitmap is built with no panic: the 32 bytes of a window hold every bit.
use rustyalias.Common.{
  ℕ, ◌+◌, ◌-◌, ◌/◌, ◌%◌, ◌^◌, ◌<◌, ◌≡◌, refl, arith, Option, none, some, List, [], ◌∷◌, Bytes,
  length, length-set, get_or, bit_or, ◌==◌, Bool-cases, inl, inr, is_empty, ret, Returns, slice_in,
  index_in, store_in,
}
use rustyalias.Dnssec.Bitmap.{
  sort_types, dedup, Window, no_bits, flush, switch_from, switch_window, add_type, add_types, start,
  flush_last, type_bitmap, nsec_rdata,
}

pub record IsWindow (s : Window) : Type 0 where
  pub bits_length : length s.bits ≡ 32
  pub max_byte_lt : s.max_byte < 32

flush-Returns :
    (out : Bytes) (w : ℕ) (bits : Bytes) (max_byte : ℕ)
    → length bits ≡ 32
    → max_byte < 32
    → Returns (flush out w bits max_byte)
unfolding flush
flush-Returns out w bits max_byte h k =
    rw (slice_in bits 0 (max_byte + 1) (omega arith) (omega arith)) (_, refl)

switch_from-Returns :
    (s : Window) (w : ℕ) (o : Option ℕ)
    → IsWindow s
    → (s' : Window) × (switch_from s w o ≡ ret s') × IsWindow s'
switch_from-Returns s w none h = (s, refl, h)
switch_from-Returns s w (some cur) h = elim (Bool-cases (cur == w)) [
  | inl same ↦ rw same (s, refl, h)
  | inr new ↦
      let (out, f) = flush-Returns s.out cur s.bits s.max_byte h.bits_length h.max_byte_lt in
      rw (new, f)
        (
          record s { out = out; bits = no_bits; max_byte = 0 },
          refl,
          record { bits_length = refl; max_byte_lt = omega arith },
        )
]

add_type-Returns :
    (s : Window) (typ : ℕ) → IsWindow s → (s' : Window) × (add_type s typ ≡ ret s') × IsWindow s'
unfolding add_type switch_window
add_type-Returns s typ h =
    let (s1, e, h1) = switch_from-Returns s (typ / 256 % 256) s.window h in
    let l = h1.bits_length in
    let i = typ % 256 / 8 in
    let byte = bit_or (get_or s1.bits i 0) (2 ^ (7 - typ % 256 % 8)) in
    rw (e, index_in s1.bits i 0 (omega arith), store_in s1.bits i byte (omega arith))
      (
        _,
        refl,
        record {
          bits_length = omega (arith, length-set s1.bits i byte);
          max_byte_lt = omega (arith, h1.max_byte_lt);
        },
      )

add_types-Returns :
    (ts : List ℕ) (s : Window)
    → IsWindow s
    → (s' : Window) × (add_types s ts ≡ ret s') × IsWindow s'
unfolding add_types
add_types-Returns [] s h = (s, refl, h)
add_types-Returns (t ∷ ts) s h =
    let (s1, e, h1) = add_type-Returns s t h in
    let (s2, e2, h2) = add_types-Returns ts s1 h1 in (s2, rw e e2, h2)

flush_last-Returns : (s : Window) (o : Option ℕ) → IsWindow s → Returns (flush_last s o)
flush_last-Returns s none h = (s.out, refl)
flush_last-Returns s (some w) h =
    flush-Returns s.out w s.bits s.max_byte h.bits_length h.max_byte_lt

-- For every list of types `type_bitmap` returns: no index into the 32 bytes of a window is out of
-- range.
pub type_bitmap-Returns : (types : List ℕ) → Returns (type_bitmap types)
unfolding type_bitmap
type_bitmap-Returns types = elim (Bool-cases (is_empty (dedup (sort_types types)))) [
  | inl y ↦ rw y (_, refl)
  | inr n ↦
      let (s, e, h) =
        add_types-Returns (dedup (sort_types types)) start
          (record { bits_length = refl; max_byte_lt = omega arith }) in
      let (r, f) = flush_last-Returns s s.window h in rw (n, e, f) (r, refl)
]

pub nsec_rdata-Returns : (q : Bytes) (types : List ℕ) → Returns (nsec_rdata q types)
unfolding nsec_rdata
nsec_rdata-Returns q types = let (b, e) = type_bitmap-Returns types in rw e (_, refl)
