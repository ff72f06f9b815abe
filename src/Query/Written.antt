-- ===== src/Query/Written.antt =====
-- The two ways to write an IPv4 address as one label, and what the server reads in a name that starts
-- with such a label.
use rustyalias.Common.{
  ◌/◌, ◌%◌, ◌≡◌, ◌⊎◌, inl, inr, refl, arith, [], ◌∷◌, ◌++◌, Option, some, Bytes, length-append, All,
  All-append, IsByte,
}
use rustyalias.Text.{to_lower}
use rustyalias.Text.Case.{lower}
use rustyalias.Text.Split.{Without}
use rustyalias.Net.{Ipv4Addr, Ipv6Addr, octets}
use rustyalias.Dnssec.Hex.{hex_encode}
use rustyalias.Dnssec.Digits.{digit-range}
use rustyalias.IpParser.{interpret_ip}
use rustyalias.IpParser.Labels.{hex_encode-Without}
use rustyalias.IpParser.Case.{interpret_ip-lower-hex_encode}
use rustyalias.IpParser.Decimal.{octet_text, octet_text-IsPlain, IsPlain}
use rustyalias.IpParser.Hyphens.{joined, length-joined, joined-Without_dot, interpret_ip-joined}
use rustyalias.Query.RoundTrip.{IsAscii, IsLabel}

-- In hexadecimal, `7F000001`, or in decimal with hyphens, `127-0-0-1`.
abbrev pub Writes : Ipv4Addr → Bytes → Type 0
Writes ip label = (label ≡ hex_encode (octets ip)) ⊎ (label ≡ joined b'-' ip)

pub record Stands (ip : Ipv4Addr) (label : Bytes) : Type 0 where
  pub is_label : IsLabel label
  pub no_dot : Without b'.' label
  pub reads :
      (rest : Bytes)
      → (v6 : Option Ipv6Addr) × (interpret_ip (lower label ++ (b'.' ∷ rest)) ≡ some (some ip, v6))

hex_encode-IsAscii : (bs : Bytes) → All IsByte bs → All IsAscii (hex_encode bs)
unfolding hex_encode
hex_encode-IsAscii [] h = tt
hex_encode-IsAscii (b ∷ bs) (h, hs) = (
  digit-range (b / 16) (omega arith),
  (digit-range (b % 16) (omega arith), hex_encode-IsAscii bs hs),
)

hex_encode-IsLabel : (ip : Ipv4Addr) → All IsByte (octets ip) → IsLabel (hex_encode (octets ip))
unfolding hex_encode
hex_encode-IsLabel ip h = record {
  not_empty = omega arith;
  at_most_63 = omega arith;
  are_ascii = hex_encode-IsAscii (octets ip) h;
}

plain-IsAscii : (s : Bytes) → All IsPlain s → All IsAscii s
plain-IsAscii [] h = tt
plain-IsAscii (c ∷ s) ((lo, hi), hs) = ((omega arith, omega arith), plain-IsAscii s hs)

lower-plain : (s : Bytes) → All IsPlain s → lower s ≡ s
unfolding to_lower
lower-plain [] h = refl
lower-plain (c ∷ s) ((lo, hi), hs) =
    let same : to_lower c ≡ c = ground arith in rw (same, lower-plain s hs)

module _ (ip : Ipv4Addr) (h : All IsByte (octets ip)) where
  joined-IsPlain : All IsPlain (joined b'-' ip)
  joined-IsPlain =
      let (ha, (hb, (hc, (hd, _)))) = h in
      All-append IsPlain (octet_text ip.a) _ (octet_text-IsPlain ip.a ha) (
        (omega arith, omega arith),
        All-append IsPlain (octet_text ip.b) _ (octet_text-IsPlain ip.b hb) (
          (omega arith, omega arith),
          All-append IsPlain (octet_text ip.c) _ (octet_text-IsPlain ip.c hc)
              ((omega arith, omega arith), octet_text-IsPlain ip.d hd),
        ),
      )

  joined-IsLabel : IsLabel (joined b'-' ip)
  joined-IsLabel =
      let short = length-joined ip h b'-' in
      record {
        not_empty = omega (
          arith,
          length-append (octet_text ip.a)
              (b'-' ∷ (octet_text ip.b ++ (b'-' ∷ (octet_text ip.c ++ (b'-' ∷ octet_text ip.d))))),
        );
        at_most_63 = omega arith;
        are_ascii = plain-IsAscii (joined b'-' ip) joined-IsPlain;
      }

  pub Writes-Stands : (label : Bytes) → Writes ip label → Stands ip label
  Writes-Stands label (inl hex) = rw hex (record {
    is_label = hex_encode-IsLabel ip h;
    no_dot = hex_encode-Without (octets ip) h;
    reads = λ rest. interpret_ip-lower-hex_encode ip rest h;
  })
  Writes-Stands label (inr decimal) = rw decimal (record {
    is_label = joined-IsLabel;
    no_dot = joined-Without_dot ip h;
    reads =
        λ rest. rw (lower-plain (joined b'-' ip) joined-IsPlain) (interpret_ip-joined ip h rest);
  })
