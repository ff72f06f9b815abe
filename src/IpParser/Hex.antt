-- ===== src/IpParser/Hex.antt =====
-- `parse_hexadecimal_ip` against `hex_encode`: eight digits give the four octets back.
use rustyalias.Common.{◌/◌, ◌%◌, ◌≡◌, arith, some, IsByte, All}
use rustyalias.Net.{Ipv4Addr, octets}
use rustyalias.Dnssec.Hex.{hex_encode}
use rustyalias.Dnssec.Digits.{digit-is_hexdigit, parse_u8-digits}
use rustyalias.IpParser.{parse_hexadecimal_ip}

-- The hexadecimal text of an address, in capitals, is read back as the address.
pub parse_hexadecimal_ip-hex_encode :
    (ip : Ipv4Addr)
    → All IsByte (octets ip)
    → parse_hexadecimal_ip (hex_encode (octets ip)) ≡ some ip
unfolding parse_hexadecimal_ip hex_encode
parse_hexadecimal_ip-hex_encode ip (ha, (hb, (hc, (hd, _)))) = rw (
  digit-is_hexdigit (ip.a / 16) (omega arith),
  digit-is_hexdigit (ip.a % 16) (omega arith),
  digit-is_hexdigit (ip.b / 16) (omega arith),
  digit-is_hexdigit (ip.b % 16) (omega arith),
  digit-is_hexdigit (ip.c / 16) (omega arith),
  digit-is_hexdigit (ip.c % 16) (omega arith),
  digit-is_hexdigit (ip.d / 16) (omega arith),
  digit-is_hexdigit (ip.d % 16) (omega arith),
  parse_u8-digits ip.a ha,
  parse_u8-digits ip.b hb,
  parse_u8-digits ip.c hc,
  parse_u8-digits ip.d hd,
)
