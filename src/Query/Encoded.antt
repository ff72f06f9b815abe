-- ===== src/Query/Encoded.antt =====
-- The end, the type and the class of a question that `encode_domain_name` wrote.
use rustyalias.Common.{
  ℕ, zero, suc, ◌+◌, ◌-◌, ◌%◌, ◌<◌, ◌≡◌, refl, ap, ◌∙◌, arith, false, List, [], ◌∷◌, ◌++◌, some,
  Bytes, length, length-append, drop, drop-append_self, get_or, get_elem?, All, All-append,
  ltb-false, le→leb, ◌==◌, be16, from_be, from_be-be16, IsU16, ret,
}
use rustyalias.Text.Split.{Without}
use rustyalias.Query.Authority.{Asks}
use rustyalias.Wire.{class_in, position_zero, question_section_end, parse_qtype_qclass}
use rustyalias.Wire.Encode.{framed}
use rustyalias.Wire.Question.{question_at, parse_qtype_qclass_lem}
use rustyalias.Text.{split, trim_dots}
use rustyalias.Text.Case.{lower}
use rustyalias.Wire.{encode_domain_name}
use rustyalias.Query.{opcode, parse_query}
use rustyalias.Query.RoundTrip.{
  IsAscii, IsLabel, IsName, lower-IsName, encode_domain_name-framed, parse_query-encoded,
}

position_zero-part :
    (s rest : Bytes) → Without 0 s → position_zero (s ++ (0 ∷ rest)) ≡ some (length s)
unfolding position_zero
position_zero-part [] rest h = refl
position_zero-part (c ∷ s) rest (h, hs) = rw (h, position_zero-part s rest hs)

ascii-Without : (s : Bytes) → All IsAscii s → Without 0 s
ascii-Without [] h = tt
ascii-Without (c ∷ s) ((l, u), hs) = (ground arith, ascii-Without s hs)

framed-Without : (ps : List Bytes) → All IsLabel ps → Without 0 (framed ps)
framed-Without [] h = tt
framed-Without (p ∷ ps) (h, hs) =
    let some_bytes = h.not_empty in
    let short = h.at_most_63 in
    let not_zero : (length p % 256 == 0) ≡ false = ground arith in
    (
      not_zero,
      All-append (λ c. (c == 0) ≡ false) p (framed ps) (ascii-Without p h.are_ascii)
          (framed-Without ps hs),
    )

get_or-append_right :
    (xs ys : Bytes) (i j : ℕ) → j ≡ length xs + i → get_or (xs ++ ys) j 0 ≡ get_or ys i 0
get_or-append_right [] ys i j e = let same : j ≡ i = omega arith in rw same
get_or-append_right (x ∷ xs) ys i zero e = absurd (omega arith)
get_or-append_right (x ∷ xs) ys i (suc j) e = get_or-append_right xs ys i j (omega arith)

module _ (header name rest : Bytes) (qtype qclass : ℕ) where
  -- A header, the labels of a name, and what follows them.
  abbrev pub question_query : Bytes
  question_query = header ++ (name ++ (0 ∷ (be16 qtype ++ (be16 qclass ++ rest))))

  abbrev pub question_end : ℕ
  question_end = 12 + length name + 5

  pub question_section_end-question_query :
      length header ≡ 12 → Without 0 name → question_section_end question_query ≡ some question_end
  unfolding question_section_end
  question_section_end-question_query l w =
      let tail = be16 qtype ++ (be16 qclass ++ rest) in
      let body = name ++ (0 ∷ tail) in
      let long : length question_query ≡ question_end + length rest =
        omega (arith, length-append header body, length-append name (0 ∷ tail)) in
      let body_only : drop 12 (header ++ body) ≡ body = rw l at (drop-append_self header body) in
      rw (
        ltb-false (length question_query) 12 (omega arith),
        body_only,
        position_zero-part name tail w,
        le→leb question_end (length question_query) (omega arith),
      )

  byte_at :
      length header ≡ 12
      → (k i : ℕ) → question_end - k ≡ 13 + length name + i
      → get_or question_query (question_end - k) 0
        ≡ get_or (be16 qtype ++ (be16 qclass ++ rest)) i 0
  byte_at l k i e =
      let tail = be16 qtype ++ (be16 qclass ++ rest) in
      get_or-append_right header (name ++ (0 ∷ tail)) (length name + (1 + i)) (question_end - k)
        (omega arith)
      ∙ get_or-append_right name (0 ∷ tail) (suc i) (length name + (1 + i)) (omega arith)

  pub question_at-question_query :
      length header ≡ 12
      → IsU16 qtype
      → IsU16 qclass
      → question_at question_query question_end ≡ (qtype, qclass)
  question_at-question_query l ht hc = rw (
    byte_at l 4 0 (omega arith),
    byte_at l 3 1 (omega arith),
    byte_at l 2 2 (omega arith),
    byte_at l 1 3 (omega arith),
    from_be-be16 qtype ht,
    from_be-be16 qclass hc,
  )

get_elem?-append : (xs ys : Bytes) (i : ℕ) → i < length xs → get_elem? (xs ++ ys) i ≡ get_elem? xs i
get_elem?-append [] ys i h = elim h [ ]
get_elem?-append (x ∷ xs) ys zero h = refl
get_elem?-append (x ∷ xs) ys (suc i) h = get_elem?-append xs ys i (omega arith)

opcode-append : (header rest : Bytes) → length header ≡ 12 → opcode (header ++ rest) ≡ opcode header
unfolding opcode
opcode-append header rest l = rw (get_elem?-append header rest 2 (omega arith)) refl

-- The query that a client writes: a header, a name, a type and a class, and anything behind them.
abbrev pub client_query : Bytes → Bytes → ℕ → ℕ → Bytes → Bytes
client_query header name qtype qclass rest =
    header ++ (encode_domain_name name ++ (be16 qtype ++ (be16 qclass ++ rest)))

abbrev pub labels_of : Bytes → Bytes
labels_of name = framed (split b'.' (lower (trim_dots name)))

module _ (header name rest : Bytes) (qtype qclass : ℕ) (l : length header ≡ 12)
    (named : IsName (trim_dots name)) where
  client_query-wire :
      client_query header name qtype qclass rest
      ≡ question_query header (labels_of name) rest qtype qclass
  client_query-wire =
      ap (λ e. header ++ e)
        (encode_domain_name-framed name (be16 qtype ++ (be16 qclass ++ rest)) named)

  client_query-ends :
      question_section_end (client_query header name qtype qclass rest)
      ≡ some (question_end header (labels_of name) rest qtype qclass)
  client_query-ends =
      ap question_section_end client_query-wire
      ∙ question_section_end-question_query header (labels_of name) rest qtype qclass l (
          framed-Without (split b'.' (lower (trim_dots name)))
            (lower-IsName (trim_dots name) named))

  pub client_query-question_at :
      IsU16 qtype
      → IsU16 qclass
      → question_at
          (client_query header name qtype qclass rest)
          (question_end header (labels_of name) rest qtype qclass)
        ≡ (qtype, qclass)
  client_query-question_at ht hc =
      rw client_query-wire
        (question_at-question_query header (labels_of name) rest qtype qclass l ht hc)

  -- A query whose header counts one question, and goes on with a name as `encode_domain_name` writes
  -- it, a type and a class: `parse_query` returns the name in lower case, without the dots at its
  -- end, and `parse_qtype_qclass` the type and the class. Each label of the name has 1 to 63 bytes,
  -- all ASCII and none zero.
  pub parse_query-client_query :
      IsU16 qtype
      → IsU16 qclass
      → from_be (get_or header 4 0) (get_or header 5 0) ≡ 1
      → (parse_query (client_query header name qtype qclass rest)
          ≡ ret (some (lower (trim_dots name))))
        × (parse_qtype_qclass (client_query header name qtype qclass rest)
            ≡ ret (some (qtype, qclass)))
  parse_query-client_query ht hc one = (
    parse_query-encoded header name (be16 qtype ++ (be16 qclass ++ rest)) l one named,
    parse_qtype_qclass_lem (client_query header name qtype qclass rest)
        ∙ rw (client_query-ends, client_query-question_at ht hc),
  )

  pub client_query-Asks :
      IsU16 qtype
      → qclass ≡ class_in
      → opcode header ≡ 0
      → from_be (get_or header 4 0) (get_or header 5 0) ≡ 1
      → Asks
          (client_query header name qtype qclass rest)
          (lower (trim_dots name))
          (question_end header (labels_of name) rest qtype qclass)
  client_query-Asks ht hc standard one = record {
    standard =
        opcode-append header (encode_domain_name name ++ (be16 qtype ++ (be16 qclass ++ rest))) l
        ∙ standard;
    ends = client_query-ends;
    named = parse_query-encoded header name (be16 qtype ++ (be16 qclass ++ rest)) l one named;
    internet = ap (λ q. q.1) (client_query-question_at ht (omega arith)) ∙ hc;
  }
