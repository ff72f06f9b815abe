-- ===== src/IpParser/Tests.antt =====
-- The cases of the tests in src/dns/ip_parser.rs.
use rustyalias.Common.{arith, ◌++◌, ℕ, codes, none, some, Option, ◌≡◌, refl, [], ◌∷◌}
use rustyalias.Text.{split, join, replace_pairs, replace_hyphens, to_digit, parse_u8}
use rustyalias.Net.{Ipv4Addr, Ipv6Addr, octets, parse_ipv4, parse_ipv6}
use rustyalias.Dnssec.Hex.{hex_encode}
use rustyalias.IpParser.Hex.{parse_hexadecimal_ip-hex_encode}
use rustyalias.Common.Options.{Given}
use rustyalias.IpParser.Bounds.{AreFound, interpret_ip-AreFound}
use rustyalias.IpParser.Hyphens.{joined, interpret_ip-joined}
use rustyalias.IpParser.Labels.{interpret_ip-hex_encode}
use rustyalias.IpParser.{
  interpret_ip, parse_hyphenated_ip, parse_hyphenated_ipv6, parse_hexadecimal_ip, parse_label_ipv4,
  parse_dotted_ipv4,
}

abbrev v4 : ℕ → ℕ → ℕ → ℕ → Option Ipv4Addr
v4 a b c d = some (record { a = a; b = b; c = c; d = d })

abbrev v6 : Option Ipv6Addr
v6 = some (record { segments = 0x2a04 ∷ 0x4e42 ∷ 0x200 ∷ 0 ∷ 0 ∷ 0 ∷ 0 ∷ 0x201 ∷ [] })

dot_notation : interpret_ip (codes "customer1.app.10.0.0.1.example.com") ≡ some (v4 10 0 0 1, none)
unfolding interpret_ip split join parse_label_ipv4 parse_hyphenated_ip parse_hyphenated_ipv6
    parse_hexadecimal_ip parse_dotted_ipv4 parse_ipv4 parse_ipv6 replace_pairs replace_hyphens
    to_digit parse_u8
dot_notation = refl

dash_notation :
    interpret_ip (codes "customer2-app-127-0-0-1.example.com") ≡ some (v4 127 0 0 1, none)
unfolding interpret_ip split join parse_label_ipv4 parse_hyphenated_ip parse_hyphenated_ipv6
    parse_hexadecimal_ip parse_dotted_ipv4 parse_ipv4 parse_ipv6 replace_pairs replace_hyphens
    to_digit parse_u8
dash_notation = refl

hex_notation : interpret_ip (codes "customer3-app-7f000101.example.com") ≡ some (v4 127 0 1 1, none)
unfolding interpret_ip split join parse_label_ipv4 parse_hyphenated_ip parse_hyphenated_ipv6
    parse_hexadecimal_ip parse_dotted_ipv4 parse_ipv4 parse_ipv6 replace_pairs replace_hyphens
    to_digit parse_u8
hex_notation = refl

dual_stack :
    interpret_ip (codes "2a04-4e42-200--201.7f000001.example.com") ≡ some (v4 127 0 0 1, v6)
unfolding interpret_ip split join parse_label_ipv4 parse_hyphenated_ip parse_hyphenated_ipv6
    parse_hexadecimal_ip parse_dotted_ipv4 parse_ipv4 parse_ipv6 replace_pairs replace_hyphens
    to_digit parse_u8
dual_stack = refl

invalid : interpret_ip (codes "256.256.256.256.example.com") ≡ none
unfolding interpret_ip split join parse_label_ipv4 parse_hyphenated_ip parse_hyphenated_ipv6
    parse_hexadecimal_ip parse_dotted_ipv4 parse_ipv4 parse_ipv6 replace_pairs replace_hyphens
    to_digit parse_u8
invalid = refl

abbrev localhost : Ipv4Addr
localhost = record { a = 127; b = 0; c = 0; d = 1 }

localhost_read : parse_hexadecimal_ip (hex_encode (octets localhost)) ≡ some localhost
localhost_read = parse_hexadecimal_ip-hex_encode localhost (omega arith)

interpret_ip-hex_encode_example :
    (v6 : Option Ipv6Addr) × (interpret_ip
        (hex_encode (octets localhost) ++ (b'.' ∷ codes "--1.nip.nu"))
      ≡ some (some localhost, v6))
interpret_ip-hex_encode_example =
    interpret_ip-hex_encode localhost (codes "--1.nip.nu") (omega arith)

interpret_ip-AreFound_example :
    Given AreFound (interpret_ip (codes "2a04-4e42-200--201.7f000001.example.com"))
interpret_ip-AreFound_example =
    interpret_ip-AreFound (codes "2a04-4e42-200--201.7f000001.example.com")

interpret_ip-joined_example :
    (v6 : Option Ipv6Addr) × (interpret_ip (joined b'-' localhost ++ (b'.' ∷ codes "nip.nu"))
      ≡ some (some localhost, v6))
interpret_ip-joined_example = interpret_ip-joined localhost (omega arith) (codes "nip.nu")
