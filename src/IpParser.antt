-- ===== src/IpParser.antt =====
-- src/dns/ip_parser.rs: addresses written in the labels of a name. A `Result<_, ()>` is an option.
pub mod Hex
pub mod Labels
pub mod Case
pub mod Bounds
pub mod Decimal
pub mod Hyphens
pub mod Tests
use rustyalias.Common.{
  ℕ, ◌*◌, Bool, not, ◌&&◌, List, [], ◌∷◌, Option, none, some, Bytes, ltb, ◌==◌, if◌then◌else◌,
  is_some, is_none, or_else, length, take, drop, all,
}
use rustyalias.Common.Options.{◌>>=◌}
use rustyalias.Text.{split, join, contains, replace_pairs, replace_hyphens, is_hexdigit, parse_u8}
use rustyalias.Net.{Ipv4Addr, Ipv6Addr, parse_ipv4, parse_ipv6}

abbrev pub Addresses : Type 0
Addresses = Option Ipv4Addr × Option Ipv6Addr

-- `&s[2 * i..2 * i + 2]`, read as a hexadecimal u8.
abbrev hex_octet : Bytes → ℕ → Option ℕ
hex_octet s i = parse_u8 16 (take 2 (drop (2 * i) s))

unfoldable pub parse_hexadecimal_ip : Bytes → Option Ipv4Addr
parse_hexadecimal_ip s =
    if not (length s == 8) then none else if not (all is_hexdigit s) then none else (do
      a ← hex_octet s 0
      b ← hex_octet s 1
      c ← hex_octet s 2
      d ← hex_octet s 3
      some (record { a = a; b = b; c = c; d = d }))

-- `p.parse::<u8>().is_ok()`.
abbrev pub is_u8 : Bytes → Bool
is_u8 p = is_some (parse_u8 10 p)

-- The loop over `parts[i..i + 4]`: the first answer, from the left.
unfoldable pub first_window : (List Bytes → Option Ipv4Addr) → List Bytes → Option Ipv4Addr
first_window f (p ∷ q ∷ r ∷ s ∷ rest) =
    or_else (f (p ∷ q ∷ r ∷ s ∷ [])) (first_window f (q ∷ r ∷ s ∷ rest))
first_window f _ = none

abbrev pub join_ipv4 : List Bytes → Option Ipv4Addr
join_ipv4 window = parse_ipv4 (join b'.' window)

abbrev pub window_ipv4 : List Bytes → Option Ipv4Addr
window_ipv4 window = if all is_u8 window then join_ipv4 window else none

-- The loop over the parts of eight bytes.
unfoldable pub first_hex : List Bytes → Option Ipv4Addr
first_hex [] = none
first_hex (p ∷ ps) = or_else (if length p == 8 then parse_hexadecimal_ip p else none) (first_hex ps)

unfoldable pub parse_hyphenated_ip : Bytes → Option Ipv4Addr
unfolding first_window first_hex
parse_hyphenated_ip s =
    let parts = split b'-' s in
    let decimal : Option Ipv4Addr =
      if length parts == 4 && all is_u8 parts
      then join_ipv4 parts
      else if ltb 4 (length parts)
      then first_window window_ipv4 parts
      else none in
    or_else decimal (first_hex parts)

unfoldable pub parse_hyphenated_ipv6 : Bytes → Option Ipv6Addr
parse_hyphenated_ipv6 s =
    if not (contains b'-' s) then none else parse_ipv6 (replace_hyphens (replace_pairs s))

-- A part list shorter than four has no window.
unfoldable pub parse_dotted_ipv4 : List Bytes → Option Ipv4Addr
unfolding first_window
parse_dotted_ipv4 parts = first_window join_ipv4 parts

unfoldable pub parse_label_ipv4 : Bytes → Option Ipv4Addr
parse_label_ipv4 label =
    if length label == 8
    then or_else (parse_hexadecimal_ip label) (parse_hyphenated_ip label)
    else parse_hyphenated_ip label

-- The loop over the labels: an address that is set stays, and the loop ends when both are.
unfoldable pub scan_labels : List Bytes → Addresses → Addresses
scan_labels [] found = found
scan_labels (p ∷ ps) (v4, v6) =
    let v4' = or_else v4 (parse_label_ipv4 p) in
    let v6' = or_else v6 (parse_hyphenated_ipv6 p) in
    if is_some v4' && is_some v6' then (v4', v6') else scan_labels ps (v4', v6')

-- The end of `interpret_ip`: dotted notation stands in only if no label gave an IPv4 address.
abbrev pub with_dotted : List Bytes → Addresses → Option Addresses
with_dotted parts (v4, v6) =
    let v4' = or_else v4 (parse_dotted_ipv4 parts) in
    if is_none v4' && is_none v6 then none else some (v4', v6)

unfoldable pub interpret_ip : Bytes → Option Addresses
unfolding scan_labels
interpret_ip domain =
    let parts = split b'.' domain in with_dotted parts (scan_labels parts (none, none))
