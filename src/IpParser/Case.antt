-- ===== src/IpParser/Case.antt =====
-- Hexadecimal addresses in capitals and in small letters are read alike.
use rustyalias.Common.{
  ℕ, zero, suc, ◌+◌, ◌*◌, ◌≡◌, refl, ◌∙◌, ap, arith, [], ◌∷◌, ◌++◌, Option, some, Bytes, take, all,
  ◌==◌, Option-cases, inl, inr, IsByte, All,
}
use rustyalias.Text.{to_lower, is_hexdigit, to_digit, parse_digits, parse_u8, split}
use rustyalias.Text.Case.{lower, length-lower, drop-lower}
use rustyalias.Text.Split.{Without, split-part}
use rustyalias.Net.{Ipv4Addr, Ipv6Addr, octets}
use rustyalias.Dnssec.Hex.{hex_encode}
use rustyalias.IpParser.{hex_octet, parse_hexadecimal_ip, parse_label_ipv4, interpret_ip}
use rustyalias.IpParser.Labels.{scan_labels_first, hex_encode-Without}
use rustyalias.Wire.Encode.{is_dot-to_lower}
use rustyalias.IpParser.Hex.{parse_hexadecimal_ip-hex_encode}

is_hexdigit-to_lower : (c : ℕ) → is_hexdigit (to_lower c) ≡ is_hexdigit c
unfolding to_lower
is_hexdigit-to_lower c = ground arith

to_digit-to_lower : (c : ℕ) → to_digit 16 (to_lower c) ≡ to_digit 16 c
unfolding to_digit to_lower
to_digit-to_lower c = ground arith

is_plus-to_lower : (c : ℕ) → (to_lower c == b'+') ≡ (c == b'+')
unfolding to_lower
is_plus-to_lower c = ground arith

take-lower : (n : ℕ) (s : Bytes) → take n (lower s) ≡ lower (take n s)
take-lower zero s = refl
take-lower (suc n) [] = refl
take-lower (suc n) (c ∷ s) = ap (◌∷◌ (to_lower c)) (take-lower n s)

all-lower : (s : Bytes) → all is_hexdigit (lower s) ≡ all is_hexdigit s
all-lower [] = refl
all-lower (c ∷ s) = rw (is_hexdigit-to_lower c, all-lower s)

parse_digits-lower : (n : ℕ) (s : Bytes) → parse_digits 16 n (lower s) ≡ parse_digits 16 n s
unfolding parse_digits
parse_digits-lower n [] = refl
parse_digits-lower n (c ∷ s) = elim (Option-cases (to_digit 16 c)) [
  | inl e ↦ rw (parse_digits, to_digit-to_lower c, e)
  | inr (d, e) ↦ rw (parse_digits, to_digit-to_lower c, e, parse_digits-lower (n * 16 + d) s)
]

parse_u8-lower : (s : Bytes) → parse_u8 16 (lower s) ≡ parse_u8 16 s
unfolding parse_u8
parse_u8-lower [] = refl
parse_u8-lower (c ∷ []) = parse_digits-lower 0 (c ∷ [])
parse_u8-lower (c ∷ d ∷ s) =
    rw (is_plus-to_lower c, parse_digits-lower 0 (d ∷ s), parse_digits-lower 0 (c ∷ d ∷ s))

hex_octet-lower : (s : Bytes) (i : ℕ) → hex_octet (lower s) i ≡ hex_octet s i
hex_octet-lower s i = rw (drop-lower, take-lower, parse_u8-lower)

pub parse_hexadecimal_ip-lower :
    (s : Bytes) → parse_hexadecimal_ip (lower s) ≡ parse_hexadecimal_ip s
unfolding parse_hexadecimal_ip
parse_hexadecimal_ip-lower s = rw (
  length-lower s,
  all-lower s,
  hex_octet-lower s 0,
  hex_octet-lower s 1,
  hex_octet-lower s 2,
  hex_octet-lower s 3,
)

hex_label-ip :
    (ip : Ipv4Addr)
    → All IsByte (octets ip)
    → parse_label_ipv4 (lower (hex_encode (octets ip))) ≡ some ip
unfolding parse_label_ipv4 hex_encode
hex_label-ip ip h =
    rw (parse_hexadecimal_ip-lower (hex_encode (octets ip)), parse_hexadecimal_ip-hex_encode ip h)

lower-Without : (s : Bytes) → Without b'.' s → Without b'.' (lower s)
lower-Without [] h = tt
lower-Without (c ∷ s) (h, hs) = (is_dot-to_lower c ∙ h, lower-Without s hs)

-- The same for a first label in small letters.
pub interpret_ip-lower-hex_encode :
    (ip : Ipv4Addr) (rest : Bytes)
    → All IsByte (octets ip)
    → (v6 : Option Ipv6Addr) × (interpret_ip (lower (hex_encode (octets ip)) ++ (b'.' ∷ rest))
        ≡ some (some ip, v6))
unfolding interpret_ip
interpret_ip-lower-hex_encode ip rest h =
    let label = lower (hex_encode (octets ip)) in
    let (v6, e) = scan_labels_first label (split b'.' rest) ip (hex_label-ip ip h) in
    (v6, rw (split-part b'.' label rest (lower-Without _ (hex_encode-Without (octets ip) h)), e))
