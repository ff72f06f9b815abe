-- ===== src/Net.antt =====
-- The parsers of `std::net` that src/dns/ip_parser.rs calls: `Ipv4Addr::from_str` and
-- `Ipv6Addr::from_str`. Each reader takes the unread text, and answers its value with what it
-- leaves; `none` is a failed read, after which the caller still has the text it gave.
pub mod Bounds
use rustyalias.Common.{
  ℕ, zero, suc, ◌+◌, ◌-◌, ◌*◌, Bool, true, false, not, ◌&&◌, ◌||◌, List, [], ◌∷◌, ◌++◌, Option,
  none, some, Bytes, ltb, ◌==◌, if◌then◌else◌, length, replicate, from_be, be16, is_empty,
}
use rustyalias.Common.Options.{◌>>=◌}
use rustyalias.Text.{to_digit}

pub record Ipv4Addr : Type 0 where
  pub a : ℕ
  pub b : ℕ
  pub c : ℕ
  pub d : ℕ

-- The eight groups of 16 bits.
pub record Ipv6Addr : Type 0 where
  pub segments : List ℕ

-- `Ipv4Addr::octets`.
abbrev pub octets : Ipv4Addr → Bytes
octets ip = ip.a ∷ ip.b ∷ ip.c ∷ ip.d ∷ []

abbrev pub segment_bytes : List ℕ → Bytes
segment_bytes [] = []
segment_bytes (g ∷ gs) = be16 g ++ segment_bytes gs

-- `Ipv6Addr::octets`.
abbrev pub octets6 : Ipv6Addr → Bytes
octets6 ip = segment_bytes ip.segments

-- `read_given_char`.
abbrev pub read_char : ℕ → Bytes → Option Bytes
read_char x [] = none
read_char x (c ∷ s) = if c == x then some s else none

-- The digits of a number with `count` digits read, of which at most `most` may come.
unfoldable pub read_digits : ℕ → ℕ → ℕ → ℕ → Bytes → Option (ℕ × ℕ × Bytes)
read_digits radix most count n [] = some (count, n, [])
read_digits radix most count n (c ∷ s) = elim (to_digit radix c) [
  | none ↦ some (count, n, c ∷ s)
  | some d ↦ if ltb count most then read_digits radix most (suc count) (n * radix + d) s else none
]

abbrev starts_zero : Bytes → Bool
starts_zero [] = false
starts_zero (c ∷ s) = c == b'0'

-- `read_number(radix, Some(most), zero_prefix)`, for values below `bound`.
unfoldable pub read_number : ℕ → ℕ → Bool → ℕ → Bytes → Option (ℕ × Bytes)
unfolding read_digits
read_number radix most zero_prefix bound s = do
  (count, n, rest) ← read_digits radix most 0 0 s
  (if count == 0 || not (ltb n bound) || (not zero_prefix && starts_zero s && ltb 1 count)
      then none
      else some (n, rest))

-- `read_separator(sep, index, …)` before the reader: no separator stands before the first item.
abbrev pub skip_separator : ℕ → ℕ → Bytes → Option Bytes
skip_separator sep zero s = some s
skip_separator sep (suc i) s = read_char sep s

abbrev pub read_octet : ℕ → Bytes → Option (ℕ × Bytes)
read_octet i s = do s' ← skip_separator b'.' i s; read_number 10 3 false 256 s'

unfoldable pub read_ipv4 : Bytes → Option (Ipv4Addr × Bytes)
unfolding read_number
read_ipv4 s = do
  (a, s) ← read_octet 0 s
  (b, s) ← read_octet 1 s
  (c, s) ← read_octet 2 s
  (d, s) ← read_octet 3 s
  some (record { a = a; b = b; c = c; d = d }, s)

-- `parse_with`: all of the text is read.
abbrev pub finished {ℓ} : {A : Type ℓ} → Option (A × Bytes) → Option A
finished r = do (a, rest) ← r; (if is_empty rest then some a else none)

-- `Ipv4Addr::from_str`.
unfoldable pub parse_ipv4 : Bytes → Option Ipv4Addr
unfolding read_ipv4
parse_ipv4 s = if ltb 15 (length s) then none else finished (read_ipv4 s)

-- `read_groups` with `slots` places left at index `i`: the groups, whether an IPv4 address ended
-- them, and what is left. The embedded address needs two places.
unfoldable pub read_groups : ℕ → ℕ → Bytes → List ℕ × Bool × Bytes
unfolding read_ipv4
read_groups zero i s = ([], false, s)
read_groups (suc slots) i s =
    let v4 : Option (Ipv4Addr × Bytes) =
      if ltb 0 slots then (do s' ← skip_separator b':' i s; read_ipv4 s') else none in
    let group : Option (ℕ × Bytes) = (do
      s' ← skip_separator b':' i s
      read_number 16 4 true 65536 s') in
    elim v4 [
      | some (ip, rest) ↦ (from_be ip.a ip.b ∷ from_be ip.c ip.d ∷ [], true, rest)
      | none ↦ elim group [
        | none ↦ ([], false, s)
        | some (g, rest) ↦
            let (gs, ended, left) = read_groups slots (suc i) rest in (g ∷ gs, ended, left)
      ]
    ]

-- The second half of `read_ipv6_addr`: `::` and the groups behind it.
abbrev read_compressed : List ℕ → Bytes → Option (Ipv6Addr × Bytes)
read_compressed head s = do
  s ← read_char b':' s
  s ← read_char b':' s
  let tail = read_groups (7 - length head) 0 s
  let zeros = replicate (8 - length head - length tail.0) 0
  some (record { segments = head ++ (zeros ++ tail.0) }, tail.2)

unfoldable pub read_ipv6 : Bytes → Option (Ipv6Addr × Bytes)
unfolding read_groups
read_ipv6 s =
    let front = read_groups 8 0 s in
    if length front.0 == 8
    then some (record { segments = front.0 }, front.2)
    else if front.1
    then none
    else read_compressed front.0 front.2

-- `Ipv6Addr::from_str`.
unfoldable pub parse_ipv6 : Bytes → Option Ipv6Addr
unfolding read_ipv6
parse_ipv6 s = finished (read_ipv6 s)
