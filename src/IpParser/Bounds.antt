-- ===== src/IpParser/Bounds.antt =====
-- Whatever the name, an address that is found in it is one.
use rustyalias.Common.{
  ℕ, ◌+◌, ◌*◌, ◌≡◌, arith, not, ◌&&◌, ◌||◌, true, refl, is_some, is_none, List, [], ◌∷◌, Option,
  none, some, or_else, Bytes, ltb, ltb→lt, ◌==◌, if◌then◌else◌, if-either, length, all, take, drop,
  IsByte, Bool-cases, Option-cases, inl, inr,
}
use rustyalias.Common.Options.{Given, Given-bind, Given-some, Given-or_else}
use rustyalias.Text.{split, join, to_digit, parse_digits, parse_u8, contains, is_hexdigit}
use rustyalias.Net.{Ipv4Addr, Ipv6Addr}
use rustyalias.Net.Bounds.{IsIpv4, IsIpv6, parse_ipv4-IsIpv4, parse_ipv6-IsIpv6}
use rustyalias.IpParser.{
  Addresses, hex_octet, parse_hexadecimal_ip, is_u8, first_window, join_ipv4, window_ipv4,
  first_hex, parse_hyphenated_ip, parse_hyphenated_ipv6, parse_dotted_ipv4, parse_label_ipv4,
  scan_labels, with_dotted, interpret_ip,
}

parse_digits-IsByte : (radix n : ℕ) (s : Bytes) → IsByte n → Given IsByte (parse_digits radix n s)
unfolding parse_digits
parse_digits-IsByte radix n [] h = h
parse_digits-IsByte radix n (c ∷ s) h = elim (Option-cases (to_digit radix c)) [
  | inl e ↦ rw (parse_digits, e) tt
  | inr (d, e) ↦ elim (Bool-cases (ltb (n * radix + d) 256)) [
    | inl below ↦
        rw (parse_digits, e, below)
          (parse_digits-IsByte radix (n * radix + d) s (ltb→lt (n * radix + d) 256 below))
    | inr above ↦ rw (parse_digits, e, above) tt
  ]
]

parse_u8-IsByte : (radix : ℕ) (s : Bytes) → Given IsByte (parse_u8 radix s)
unfolding parse_u8
parse_u8-IsByte radix [] = tt
parse_u8-IsByte radix (c ∷ []) = parse_digits-IsByte radix 0 (c ∷ []) (omega arith)
parse_u8-IsByte radix (c ∷ d ∷ s) =
    if-either (Given IsByte) (c == b'+') _ _ (parse_digits-IsByte radix 0 (d ∷ s) (omega arith))
      (parse_digits-IsByte radix 0 (c ∷ d ∷ s) (omega arith))

hex_octet-IsByte : (s : Bytes) (i : ℕ) → Given IsByte (hex_octet s i)
hex_octet-IsByte s i = parse_u8-IsByte 16 (take 2 (drop (2 * i) s))

parse_hexadecimal_ip-IsIpv4 : (s : Bytes) → Given IsIpv4 (parse_hexadecimal_ip s)
unfolding parse_hexadecimal_ip
parse_hexadecimal_ip-IsIpv4 s = if-either (Given IsIpv4) (not (length s == 8)) _ _ tt (
    if-either (Given IsIpv4) (not (all is_hexdigit s)) _ _ tt (
      Given-bind IsIpv4 (hex_octet s 0) _ (λ a ea. Given-bind IsIpv4 (hex_octet s 1) _ (λ b eb.
        Given-bind IsIpv4 (hex_octet s 2) _ (λ c ec. Given-bind IsIpv4 (hex_octet s 3) _ (λ d ed. (
          Given-some _ (hex_octet s 0) ea (hex_octet-IsByte s 0),
          (
            Given-some _ (hex_octet s 1) eb (hex_octet-IsByte s 1),
            (
              Given-some _ (hex_octet s 2) ec (hex_octet-IsByte s 2),
              (Given-some _ (hex_octet s 3) ed (hex_octet-IsByte s 3), tt),
            ),
          ),
        )))))))

first_window-IsIpv4 :
    (f : List Bytes → Option Ipv4Addr) (ps : List Bytes)
    → ((w : List Bytes) → Given IsIpv4 (f w))
    → Given IsIpv4 (first_window f ps)
unfolding first_window
first_window-IsIpv4 f [] h = tt
first_window-IsIpv4 f (p ∷ []) h = tt
first_window-IsIpv4 f (p ∷ q ∷ []) h = tt
first_window-IsIpv4 f (p ∷ q ∷ r ∷ []) h = tt
first_window-IsIpv4 f (p ∷ q ∷ r ∷ s ∷ rest) h =
    Given-or_else IsIpv4 (f (p ∷ q ∷ r ∷ s ∷ [])) (first_window f (q ∷ r ∷ s ∷ rest)) (h _)
      (first_window-IsIpv4 f (q ∷ r ∷ s ∷ rest) h)

join_ipv4-IsIpv4 : (w : List Bytes) → Given IsIpv4 (join_ipv4 w)
join_ipv4-IsIpv4 w = parse_ipv4-IsIpv4 (join b'.' w)

window_ipv4-IsIpv4 : (w : List Bytes) → Given IsIpv4 (window_ipv4 w)
window_ipv4-IsIpv4 w = if-either (Given IsIpv4) (all is_u8 w) _ _ (join_ipv4-IsIpv4 w) tt

first_hex-IsIpv4 : (ps : List Bytes) → Given IsIpv4 (first_hex ps)
unfolding first_hex
first_hex-IsIpv4 [] = tt
first_hex-IsIpv4 (p ∷ ps) =
    Given-or_else IsIpv4 (if length p == 8 then parse_hexadecimal_ip p else none) (first_hex ps)
      (if-either (Given IsIpv4) (length p == 8) _ _ (parse_hexadecimal_ip-IsIpv4 p) tt)
      (first_hex-IsIpv4 ps)

parse_hyphenated_ip-IsIpv4 : (s : Bytes) → Given IsIpv4 (parse_hyphenated_ip s)
unfolding parse_hyphenated_ip
parse_hyphenated_ip-IsIpv4 s =
    let parts = split b'-' s in
    Given-or_else IsIpv4 _ (first_hex parts)
      (if-either (Given IsIpv4) (length parts == 4 && all is_u8 parts) _ _ (join_ipv4-IsIpv4 parts)
        (if-either (Given IsIpv4) (ltb 4 (length parts)) _ _
          (first_window-IsIpv4 window_ipv4 parts window_ipv4-IsIpv4) tt))
      (first_hex-IsIpv4 parts)

parse_hyphenated_ipv6-IsIpv6 : (s : Bytes) → Given IsIpv6 (parse_hyphenated_ipv6 s)
unfolding parse_hyphenated_ipv6
parse_hyphenated_ipv6-IsIpv6 s =
    if-either (Given IsIpv6) (not (contains b'-' s)) _ _ tt (parse_ipv6-IsIpv6 _)

parse_label_ipv4-IsIpv4 : (s : Bytes) → Given IsIpv4 (parse_label_ipv4 s)
unfolding parse_label_ipv4
parse_label_ipv4-IsIpv4 s =
    if-either (Given IsIpv4) (length s == 8) _ _
      (Given-or_else IsIpv4 (parse_hexadecimal_ip s) (parse_hyphenated_ip s)
        (parse_hexadecimal_ip-IsIpv4 s) (parse_hyphenated_ip-IsIpv4 s))
      (parse_hyphenated_ip-IsIpv4 s)

-- What is found is an IPv4 address, an IPv6 address, or both.
abbrev pub AreAddresses : Addresses → Type 0
AreAddresses found = Given IsIpv4 found.0 × Given IsIpv6 found.1

scan_labels-AreAddresses :
    (ps : List Bytes) (found : Addresses) → AreAddresses found → AreAddresses (scan_labels ps found)
unfolding scan_labels
scan_labels-AreAddresses [] found h = h
scan_labels-AreAddresses (p ∷ ps) (v4, v6) (h4, h6) =
    let h4' = Given-or_else IsIpv4 v4 (parse_label_ipv4 p) h4 (parse_label_ipv4-IsIpv4 p) in
    let h6' =
      Given-or_else IsIpv6 v6 (parse_hyphenated_ipv6 p) h6 (parse_hyphenated_ipv6-IsIpv6 p) in
    if-either AreAddresses
      (is_some (or_else v4 (parse_label_ipv4 p)) && is_some (or_else v6 (parse_hyphenated_ipv6 p)))
      _ _ (h4', h6') (scan_labels-AreAddresses ps _ (h4', h6'))

abbrev pub AreFound : Addresses → Type 0
AreFound found = AreAddresses found × ((is_some found.0 || is_some found.1) ≡ true)

found_or_none :
    (v4 : Option Ipv4Addr) (v6 : Option Ipv6Addr)
    → AreAddresses (v4, v6)
    → Given AreFound (if is_none v4 && is_none v6 then none else some (v4, v6))
found_or_none none none h = tt
found_or_none none (some b) h = (h, refl)
found_or_none (some a) none h = (h, refl)
found_or_none (some a) (some b) h = (h, refl)

with_dotted-AreFound :
    (parts : List Bytes) (found : Addresses)
    → AreAddresses found
    → Given AreFound (with_dotted parts found)
unfolding parse_dotted_ipv4
with_dotted-AreFound parts (v4, v6) (h4, h6) =
    found_or_none (or_else v4 (parse_dotted_ipv4 parts)) v6 (
      Given-or_else IsIpv4 v4 (parse_dotted_ipv4 parts) h4
          (first_window-IsIpv4 join_ipv4 parts join_ipv4-IsIpv4),
      h6,
    )

-- For every name, `interpret_ip` answers none, or at least one address, and what it answers are
-- addresses: the octets of an IPv4 address are below 256, and an IPv6 address has eight groups below
-- 65536.
pub interpret_ip-AreFound : (domain : Bytes) → Given AreFound (interpret_ip domain)
unfolding interpret_ip
interpret_ip-AreFound domain =
    let parts = split b'.' domain in
    with_dotted-AreFound parts (scan_labels parts (none, none))
      (scan_labels-AreAddresses parts (none, none) (tt, tt))
