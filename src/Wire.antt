-- ===== src/Wire.antt =====
-- The parts of src/dns/response.rs on bytes and names: constants, the flags of a response, the
-- end of the question, and domain names.
pub mod Question
pub mod Encode
pub mod Tests
pub mod Zones
use rustyalias.Common.{
  ℕ, suc, ◌+◌, ◌-◌, ◌%◌, Bool, true, false, ◌&&◌, List, [], ◌∷◌, ◌++◌, Option, none, some, Bytes,
  ltb, leb, ◌==◌, if◌then◌else◌, map_option, length, get_or, drop, map, is_empty, bit_and, bit_or,
  from_be, Outcome, ret, ◌>>=◌, index, slice,
}
use rustyalias.Text.{to_lower, eq_ignore_case, trim_dots, split}

abbrev pub type_a : ℕ
type_a = 1

abbrev pub type_ns : ℕ
type_ns = 2

abbrev pub type_soa : ℕ
type_soa = 6

abbrev pub type_txt : ℕ
type_txt = 16

abbrev pub type_aaaa : ℕ
type_aaaa = 28

abbrev pub type_opt : ℕ
type_opt = 41

abbrev pub type_rrsig : ℕ
type_rrsig = 46

abbrev pub type_nsec : ℕ
type_nsec = 47

abbrev pub type_dnskey : ℕ
type_dnskey = 48

abbrev pub type_cds : ℕ
type_cds = 59

abbrev pub type_cdnskey : ℕ
type_cdnskey = 60

abbrev pub type_any : ℕ
type_any = 255

abbrev pub class_in : ℕ
class_in = 1

abbrev pub rcode_noerror : ℕ
rcode_noerror = 0

abbrev pub rcode_notimp : ℕ
rcode_notimp = 4

abbrev pub rcode_refused : ℕ
rcode_refused = 5

abbrev pub default_udp_size : ℕ
default_udp_size = 512

abbrev pub edns_udp_size : ℕ
edns_udp_size = 1232

abbrev pub ttl_soa : ℕ
ttl_soa = 3600

abbrev pub ttl_rr : ℕ
ttl_rr = 60

abbrev pub offset_ancount : ℕ
offset_ancount = 6

abbrev pub offset_nscount : ℕ
offset_nscount = 8

abbrev pub offset_arcount : ℕ
offset_arcount = 10

-- QR, the opcode and RD of the query, AA as asked; RA clear.
unfoldable pub response_flags : Bytes → Bool → ℕ → Bytes
response_flags query aa rcode =
    let q2 = get_or query 2 0 in
    let opcode = bit_and q2 0b0111_1000 in
    let rd = bit_and q2 0b0000_0001 in
    let aa_bit : ℕ = if aa then 0b0000_0100 else 0 in
    bit_or (bit_or (bit_or 0b1000_0000 opcode) aa_bit) rd ∷ bit_and rcode 0x0f ∷ []

-- `iter().position(|&x| x == 0)`.
unfoldable pub position_zero : Bytes → Option ℕ
position_zero [] = none
position_zero (c ∷ s) = if c == 0 then some 0 else map_option suc (position_zero s)

abbrev end_within : ℕ → ℕ → Option ℕ
end_within end len = if leb end len then some end else none

-- The first byte after the question: a zero byte ends the name, and four bytes follow.
unfoldable pub question_section_end : Bytes → Option ℕ
unfolding position_zero
question_section_end query =
    if ltb (length query) 12 then none else elim (position_zero (drop 12 query)) [
      | none ↦ none
      | some null_offset ↦ end_within (12 + null_offset + 5) (length query)
    ]

-- QTYPE and QCLASS: the last four bytes of the question.
unfoldable pub parse_qtype_qclass : Bytes → Outcome (Option (ℕ × ℕ))
parse_qtype_qclass query = elim (question_section_end query) [
  | none ↦ ret none
  | some end ↦ do
    t0 ← index query (end - 4)
    t1 ← index query (end - 3)
    c0 ← index query (end - 2)
    c1 ← index query (end - 1)
    ret (some (from_be t0 t1, from_be c0 c1))
]

unfoldable pub names_eq : Bytes → Bytes → Bool
names_eq a b = eq_ignore_case (trim_dots a) (trim_dots b)

-- `part.len() as u8`, and the part in lower case.
abbrev pub encode_label : Bytes → Bytes
encode_label part = length part % 256 ∷ map to_lower part

abbrev pub encode_labels : List Bytes → Bytes
encode_labels [] = []
encode_labels (p ∷ ps) = encode_label p ++ encode_labels ps

unfoldable pub encode_domain_name : Bytes → Bytes
encode_domain_name name =
    let name' = trim_dots name in
    (if is_empty name' then [] else encode_labels (split b'.' name')) ++ (0 ∷ [])

-- `name[name.len() - zone.len()..]` is compared behind a dot, both without their last dots.
unfoldable pub name_in_bailiwick : Bytes → Bytes → Outcome Bool
name_in_bailiwick name zone =
    let n = trim_dots name in
    let z = trim_dots zone in
    if eq_ignore_case n z
    then ret true
    else if ltb (length z + 1) (length n)
    then (do
      dot ← index n (length n - length z - 1)
      tail ← slice n (length n - length z) (length n)
      ret (dot == b'.' && eq_ignore_case tail z))
    else ret false
