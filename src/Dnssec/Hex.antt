-- ===== src/Dnssec/Hex.antt =====
-- src/dns/dnssec.rs: hexadecimal text.
use rustyalias.Common.{◌/◌, ◌%◌, [], ◌∷◌, Bytes, codes, get_or}

abbrev pub hex_digits : Bytes
hex_digits = codes "0123456789ABCDEF"

unfoldable pub hex_encode : Bytes → Bytes
hex_encode [] = []
hex_encode (b ∷ bs) = get_or hex_digits (b / 16) 0 ∷ get_or hex_digits (b % 16) 0 ∷ hex_encode bs
