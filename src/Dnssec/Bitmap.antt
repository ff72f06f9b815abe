-- ===== src/Dnssec/Bitmap.antt =====
-- src/dns/dnssec.rs: the types that an NSEC record lists, and their bitmap. Types are u16, so a
-- window is below 256 and a bit of a window has its byte below 32.
pub mod Returns
pub mod Bits
pub mod Blocks
pub mod Fill
pub mod Sorting
pub mod Correct
pub mod Means
use rustyalias.Common.{
  ℕ, ◌+◌, ◌-◌, ◌/◌, ◌%◌, ◌^◌, List, [], ◌∷◌, ◌++◌, Option, none, some, Bytes, leb, ◌==◌,
  if◌then◌else◌, replicate, is_empty, max, bit_or, Outcome, ret, ◌>>=◌, slice, index, store,
}
use rustyalias.Wire.{type_nsec, type_rrsig}
use rustyalias.Dnssec.Names.{lowercase_wire_name}

-- `sort_unstable` on numbers: equal numbers cannot be told apart.
unfoldable pub insert_type : ℕ → List ℕ → List ℕ
insert_type t [] = t ∷ []
insert_type t (u ∷ us) = if leb t u then t ∷ u ∷ us else u ∷ insert_type t us

unfoldable pub sort_types : List ℕ → List ℕ
unfolding insert_type
sort_types [] = []
sort_types (t ∷ ts) = insert_type t (sort_types ts)

abbrev pub cons_dedup : ℕ → List ℕ → List ℕ
cons_dedup t [] = t ∷ []
cons_dedup t (u ∷ us) = if t == u then u ∷ us else t ∷ u ∷ us

-- `dedup`: of equal neighbours one stays.
unfoldable pub dedup : List ℕ → List ℕ
dedup [] = []
dedup (t ∷ ts) = cons_dedup t (dedup ts)

unfoldable pub nsec_types : List ℕ → List ℕ
nsec_types existing = dedup (sort_types (existing ++ (type_nsec ∷ type_rrsig ∷ [])))

-- The variables of the loop of `type_bitmap`.
pub record Window : Type 0 where
  pub out : Bytes
  pub window : Option ℕ
  pub bits : Bytes
  pub max_byte : ℕ

abbrev pub no_bits : Bytes
no_bits = replicate 32 0

-- The closure `flush`.
unfoldable pub flush : Bytes → ℕ → Bytes → ℕ → Outcome Bytes
flush out window bits max_byte = do
  used ← slice bits 0 (max_byte + 1)
  ret (out ++ (window ∷ (max_byte + 1) % 256 ∷ used))

-- A type of another window ends the window before it.
abbrev pub switch_from : Window → ℕ → Option ℕ → Outcome Window
switch_from s w none = ret s
switch_from s w (some cur) = if cur == w then ret s else (do
  out ← flush s.out cur s.bits s.max_byte
  ret (record s { out = out; bits = no_bits; max_byte = 0 }))

unfoldable pub switch_window : Window → ℕ → Outcome Window
unfolding flush
switch_window s w = switch_from s w s.window

unfoldable pub add_type : Window → ℕ → Outcome Window
unfolding switch_window
add_type s typ = do
  let w = typ / 256 % 256
  let bit = typ % 256
  s ← switch_window s w
  byte ← index s.bits (bit / 8)
  bits ← store s.bits (bit / 8) (bit_or byte (2 ^ (7 - bit % 8)))
  ret (record s { window = some w; bits = bits; max_byte = max s.max_byte (bit / 8) })

unfoldable pub add_types : Window → List ℕ → Outcome Window
unfolding add_type
add_types s [] = ret s
add_types s (t ∷ ts) = do s' ← add_type s t; add_types s' ts

abbrev pub start : Window
start = record { out = []; window = none; bits = no_bits; max_byte = 0 }

abbrev pub flush_last : Window → Option ℕ → Outcome Bytes
flush_last s none = ret s.out
flush_last s (some w) = flush s.out w s.bits s.max_byte

unfoldable pub type_bitmap : List ℕ → Outcome Bytes
unfolding add_types
type_bitmap types =
    let sorted = dedup (sort_types types) in
    if is_empty sorted
    then ret (0 ∷ 0 ∷ [])
    else (do s ← add_types start sorted; flush_last s s.window)

-- The next name is `\0` in front of the name itself.
unfoldable pub nsec_rdata : Bytes → List ℕ → Outcome Bytes
unfolding type_bitmap
nsec_rdata qname_wire existing_types = do
  bitmap ← type_bitmap existing_types
  ret (1 ∷ 0 ∷ (lowercase_wire_name qname_wire ++ bitmap))
