-- ===== src/IpParser/Labels.antt =====
-- `interpret_ip` on a name whose first label is an address in hexadecimal.
use rustyalias.Common.{
  ◌/◌, ◌%◌, ◌≡◌, refl, arith, List, [], ◌∷◌, ◌++◌, Option, none, some, Bytes, is_some, or_else,
  Bool-cases, inl, inr, IsByte, All,
}
use rustyalias.Text.{split}
use rustyalias.Text.Split.{Without, split-part}
use rustyalias.Net.{Ipv4Addr, Ipv6Addr, octets}
use rustyalias.Dnssec.Hex.{hex_encode}
use rustyalias.IpParser.{parse_label_ipv4, parse_hyphenated_ipv6, scan_labels, interpret_ip}
use rustyalias.Dnssec.Digits.{digit-ne_dot}
use rustyalias.IpParser.Hex.{parse_hexadecimal_ip-hex_encode}

pub hex_encode-Without : (bs : Bytes) → All IsByte bs → Without b'.' (hex_encode bs)
unfolding hex_encode
hex_encode-Without [] h = tt
hex_encode-Without (b ∷ bs) (h, hs) = (
  digit-ne_dot (b / 16) (omega arith),
  (digit-ne_dot (b % 16) (omega arith), hex_encode-Without bs hs),
)

parse_label_ipv4-hex_encode :
    (ip : Ipv4Addr) → All IsByte (octets ip) → parse_label_ipv4 (hex_encode (octets ip)) ≡ some ip
unfolding parse_label_ipv4 hex_encode
parse_label_ipv4-hex_encode ip h = rw (parse_hexadecimal_ip-hex_encode ip h)

-- An IPv4 address that is found stays.
scan_labels_keeps :
    (ps : List Bytes) (ip : Ipv4Addr) (v6 : Option Ipv6Addr)
    → (v6' : Option Ipv6Addr) × (scan_labels ps (some ip, v6) ≡ (some ip, v6'))
unfolding scan_labels
scan_labels_keeps [] ip v6 = (v6, refl)
scan_labels_keeps (p ∷ ps) ip v6 =
    let next = or_else v6 (parse_hyphenated_ipv6 p) in
    elim (Bool-cases (is_some next)) [
      | inl both ↦ rw both (next, refl)
      | inr one ↦ rw one (scan_labels_keeps ps ip next)
    ]

pub scan_labels_first :
    (p : Bytes) (ps : List Bytes) (ip : Ipv4Addr)
    → parse_label_ipv4 p ≡ some ip
    → (v6 : Option Ipv6Addr) × (scan_labels (p ∷ ps) (none, none) ≡ (some ip, v6))
unfolding scan_labels
scan_labels_first p ps ip e =
    let next = parse_hyphenated_ipv6 p in
    elim (Bool-cases (is_some next)) [
      | inl both ↦ rw (e, both) (next, refl)
      | inr one ↦ rw (e, one) (scan_labels_keeps ps ip next)
    ]

-- A name whose first label is an address in hexadecimal capitals stands for that IPv4 address,
-- whatever the labels behind it.
pub interpret_ip-hex_encode :
    (ip : Ipv4Addr) (rest : Bytes)
    → All IsByte (octets ip)
    → (v6 : Option Ipv6Addr) × (interpret_ip (hex_encode (octets ip) ++ (b'.' ∷ rest))
        ≡ some (some ip, v6))
unfolding interpret_ip
interpret_ip-hex_encode ip rest h =
    let label = hex_encode (octets ip) in
    let (v6, e) = scan_labels_first label (split b'.' rest) ip (parse_label_ipv4-hex_encode ip h) in
    (v6, rw (split-part b'.' label rest (hex_encode-Without (octets ip) h), e))
