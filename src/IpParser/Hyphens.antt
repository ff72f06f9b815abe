-- ===== src/IpParser/Hyphens.antt =====
-- Addresses with hyphens between the octets, as in `127-0-0-1.zone`.
use rustyalias.Common.{
  ℕ, ◌≤◌, ◌≡◌, refl, ap, ◌∙◌, arith, Bool, true, false, ◌&&◌, List, [], ◌∷◌, ◌++◌, Option, none,
  some, Bytes, length, length-append, ltb-false, ◌==◌, all, All, All-append, IsByte, Bool-cases,
  inl, inr,
}
use rustyalias.Text.{split, join, is_hexdigit, to_digit}
use rustyalias.Text.Split.{Without, split-part}
use rustyalias.Text.Join.{append_nil}
use rustyalias.Net.{Ipv4Addr, Ipv6Addr, octets, read_octet, read_ipv4, parse_ipv4}
use rustyalias.IpParser.{
  is_u8, parse_hexadecimal_ip, parse_hyphenated_ip, parse_label_ipv4, interpret_ip,
}
use rustyalias.IpParser.Labels.{scan_labels_first}
use rustyalias.IpParser.Decimal.{
  octet_text, Stops, read_number-octet_text, parse_u8-octet_text, octet_text-Without_hyphen,
  octet_text-Without_dot, length-octet_text,
}

-- The octets with a separator between them.
abbrev pub joined : ℕ → Ipv4Addr → Bytes
joined sep ip =
    octet_text ip.a
    ++ (sep ∷ (octet_text ip.b ++ (sep ∷ (octet_text ip.c ++ (sep ∷ octet_text ip.d)))))

abbrev parts_of : Ipv4Addr → List Bytes
parts_of ip = octet_text ip.a ∷ octet_text ip.b ∷ octet_text ip.c ∷ octet_text ip.d ∷ []

split-last : (sep : ℕ) (part : Bytes) → Without sep part → split sep part ≡ part ∷ []
unfolding split
split-last sep [] w = refl
split-last sep (c ∷ part) (h, w) = rw (h, split-last sep part w)

dot-Stops : (rest : Bytes) → Stops (b'.' ∷ rest)
unfolding to_digit
dot-Stops rest = refl

all-false :
    (xs ys : Bytes) (y : ℕ) → is_hexdigit y ≡ false → all is_hexdigit (xs ++ (y ∷ ys)) ≡ false
all-false [] ys y h = rw h
all-false (x ∷ xs) ys y h = rw (all-false xs ys y h) (and_false (is_hexdigit x))
  where
    and_false : (a : Bool) → (a && false) ≡ false
    and_false a = ground arith

module _ (ip : Ipv4Addr) (h : All IsByte (octets ip)) where
  split-joined : split b'-' (joined b'-' ip) ≡ parts_of ip
  split-joined =
      let (ha, (hb, (hc, (hd, _)))) = h in
      rw (
        split-part b'-' (octet_text ip.a) _ (octet_text-Without_hyphen ip.a ha),
        split-part b'-' (octet_text ip.b) _ (octet_text-Without_hyphen ip.b hb),
        split-part b'-' (octet_text ip.c) _ (octet_text-Without_hyphen ip.c hc),
        split-last b'-' (octet_text ip.d) (octet_text-Without_hyphen ip.d hd),
      )

  all_u8 : all is_u8 (parts_of ip) ≡ true
  all_u8 =
      let (ha, (hb, (hc, (hd, _)))) = h in
      rw (
        parse_u8-octet_text ip.a ha,
        parse_u8-octet_text ip.b hb,
        parse_u8-octet_text ip.c hc,
        parse_u8-octet_text ip.d hd,
      )

  pub length-joined : (sep : ℕ) → length (joined sep ip) ≤ 15
  length-joined sep =
      let (ha, (hb, (hc, (hd, _)))) = h in
      omega (
        arith,
        length-append (octet_text ip.a)
            (sep ∷ (octet_text ip.b ++ (sep ∷ (octet_text ip.c ++ (sep ∷ octet_text ip.d))))),
        length-append (octet_text ip.b) (sep ∷ (octet_text ip.c ++ (sep ∷ octet_text ip.d))),
        length-append (octet_text ip.c) (sep ∷ octet_text ip.d),
        length-octet_text ip.a ha,
        length-octet_text ip.b hb,
        length-octet_text ip.c hc,
        length-octet_text ip.d hd,
      )

  last_octet : read_octet 3 (b'.' ∷ octet_text ip.d) ≡ some (ip.d, [])
  last_octet =
      let (ha, (hb, (hc, (hd, _)))) = h in
      ap (λ s. read_octet 3 (b'.' ∷ s)) (append_nil (octet_text ip.d))
      ∙ read_number-octet_text ip.d hd [] tt

  abbrev behind_b : Bytes
  behind_b = octet_text ip.c ++ (b'.' ∷ octet_text ip.d)

  abbrev behind_a : Bytes
  behind_a = octet_text ip.b ++ (b'.' ∷ behind_b)

  pub parse_ipv4-joined : parse_ipv4 (joined b'.' ip) ≡ some ip
  unfolding parse_ipv4 read_ipv4
  parse_ipv4-joined =
      let (ha, (hb, (hc, (hd, _)))) = h in
      rw (
        ltb-false 15 (length (joined b'.' ip)) (length-joined b'.'),
        read_number-octet_text ip.a ha (b'.' ∷ behind_a) (dot-Stops behind_a),
        read_number-octet_text ip.b hb (b'.' ∷ behind_b) (dot-Stops behind_b),
        read_number-octet_text ip.c hc (b'.' ∷ octet_text ip.d) (dot-Stops (octet_text ip.d)),
        last_octet,
      )

  parse_hyphenated_ip-joined : parse_hyphenated_ip (joined b'-' ip) ≡ some ip
  unfolding parse_hyphenated_ip join
  parse_hyphenated_ip-joined = rw (split-joined, all_u8, parse_ipv4-joined)

  not_hexadecimal : parse_hexadecimal_ip (joined b'-' ip) ≡ none
  unfolding parse_hexadecimal_ip
  not_hexadecimal = elim (Bool-cases (length (joined b'-' ip) == 8)) [
    | inr other ↦ rw other
    | inl eight ↦ rw (
      eight,
      all-false (octet_text ip.a)
          (octet_text ip.b ++ (b'-' ∷ (octet_text ip.c ++ (b'-' ∷ octet_text ip.d)))) b'-' refl,
    )
  ]

  parse_label_ipv4-joined : parse_label_ipv4 (joined b'-' ip) ≡ some ip
  unfolding parse_label_ipv4
  parse_label_ipv4-joined = elim (Bool-cases (length (joined b'-' ip) == 8)) [
    | inr other ↦ rw (other, parse_hyphenated_ip-joined)
    | inl eight ↦ rw (eight, not_hexadecimal, parse_hyphenated_ip-joined)
  ]

  pub joined-Without_dot : Without b'.' (joined b'-' ip)
  joined-Without_dot =
      let (ha, (hb, (hc, (hd, _)))) = h in
      let none_dot : ℕ → Type 0 = λ c. (c == b'.') ≡ false in
      All-append none_dot (octet_text ip.a) _ (octet_text-Without_dot ip.a ha) (
        refl,
        All-append none_dot (octet_text ip.b) _ (octet_text-Without_dot ip.b hb) (
          refl,
          All-append none_dot (octet_text ip.c) _ (octet_text-Without_dot ip.c hc)
              (refl, octet_text-Without_dot ip.d hd),
        ),
      )

  -- A name whose first label is an address in decimal, with hyphens between the octets, stands for
  -- that IPv4 address, whatever the labels behind it.
  pub interpret_ip-joined :
      (rest : Bytes)
      → (v6 : Option Ipv6Addr) × (interpret_ip (joined b'-' ip ++ (b'.' ∷ rest))
          ≡ some (some ip, v6))
  unfolding interpret_ip
  interpret_ip-joined rest =
      let (v6, e) =
        scan_labels_first (joined b'-' ip) (split b'.' rest) ip parse_label_ipv4-joined in
      (v6, rw (split-part b'.' (joined b'-' ip) rest joined-Without_dot, e))
