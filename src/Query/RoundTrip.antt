-- ===== src/Query/RoundTrip.antt =====
-- `parse_query` reads back the names that `encode_domain_name` writes.
use rustyalias.Common.{
  ℕ, zero, suc, ◌%◌, ◌≤◌, ◌<◌, ◌≡◌, refl, ap, ◌∙◌, arith, true, false, List, [], ◌∷◌, ◌++◌,
  append_assoc, some, Bytes, length, length-append, take-append_self, drop, drop-append_self,
  get_or, All, ltb, ltb-false, lt→ltb, ◌==◌, from_be, index_in, slice_front, ret, ◌>>=◌, map,
  is_empty,
}
use rustyalias.Text.{split, join, trim_dots, to_lower}
use rustyalias.Text.Case.{lower, length-lower}
use rustyalias.Text.Join.{append_nil, tail_of, join-tail_of, join-split, split-cons}
use rustyalias.Text.Utf8.{is_utf8, utf8_from}
use rustyalias.Wire.{encode_domain_name}
use rustyalias.Wire.Encode.{framed, encode_domain_name_lem, split-lower}
use rustyalias.Query.{dotted, read_labels, nonempty, parse_query}

abbrev pub IsAscii : ℕ → Type 0
IsAscii c = (0 < c) × (c < 128)

-- A label of a name: ASCII without the zero byte, of 1 to 63 bytes.
pub record IsLabel (p : Bytes) : Type 0 where
  pub not_empty : 1 ≤ length p
  pub at_most_63 : length p < 64
  pub are_ascii : All IsAscii p

utf8_from-ascii : (lo hi : ℕ) (s : Bytes) → All IsAscii s → utf8_from 0 lo hi s ≡ true
unfolding utf8_from
utf8_from-ascii lo hi [] h = refl
utf8_from-ascii lo hi (c ∷ s) ((l, h), hs) =
    rw (utf8_from, lt→ltb c 128 h) (utf8_from-ascii 0x80 0xbf s hs)

is_utf8-ascii : (s : Bytes) → All IsAscii s → is_utf8 s ≡ true
unfolding is_utf8
is_utf8-ascii s h = utf8_from-ascii 0x80 0xbf s h

-- What the loop makes of the name so far and some labels.
abbrev after : Bytes → List Bytes → Bytes
after domain [] = domain
after domain (p ∷ ps) = after (dotted domain ++ p) ps

read_labels-framed :
    (fuel : ℕ) (ps : List Bytes) (rest domain : Bytes)
    → All IsLabel ps
    → length ps < fuel
    → read_labels fuel (framed ps ++ (0 ∷ rest)) domain ≡ ret (some (after domain ps))
unfolding read_labels
read_labels-framed zero ps rest domain h lt = absurd (omega arith)
read_labels-framed (suc fuel) [] rest domain h lt = refl
read_labels-framed (suc fuel) (p ∷ ps) rest domain (h, hs) lt =
    let more = framed ps ++ (0 ∷ rest) in
    let short = h.at_most_63 in
    let some_bytes = h.not_empty in
    let e : length p % 256 ≡ length p = omega arith in
    let not_zero : (length p == 0) ≡ false = ground arith in
    let fits : ltb (length (p ++ more)) (length p) ≡ false =
      ltb-false (length (p ++ more)) (length p) (omega (arith, length-append p more)) in
    rw
      (
        append_assoc p (framed ps) (0 ∷ rest),
        e,
        not_zero,
        fits,
        slice_front (p ++ more) (length p) (omega (arith, length-append p more)),
        take-append_self p more,
        is_utf8-ascii p h.are_ascii,
        drop-append_self p more,
      )
      (read_labels-framed fuel ps rest (dotted domain ++ p) hs (omega arith))

after-tail_of :
    (c : ℕ) (s : Bytes) (ps : List Bytes)
    → All IsLabel ps
    → after (c ∷ s) ps ≡ (c ∷ s) ++ tail_of b'.' ps
after-tail_of c s [] h = append_nil (c ∷ s)
after-tail_of c s (p ∷ ps) (h, hs) =
    after-tail_of c ((s ++ (b'.' ∷ [])) ++ p) ps hs
    ∙ rw (
      append_assoc (s ++ (b'.' ∷ [])) p (tail_of b'.' ps),
      append_assoc s (b'.' ∷ []) (p ++ tail_of b'.' ps),
    )

after-join :
    (p : Bytes) (ps : List Bytes)
    → IsLabel p
    → All IsLabel ps
    → nonempty (some (after p ps)) ≡ some (join b'.' (p ∷ ps))
after-join [] ps h hs = let n = h.not_empty in absurd (omega arith)
after-join (c ∷ s) ps h hs = rw (after-tail_of c s ps hs, join-tail_of b'.' (c ∷ s) ps)

to_lower-IsAscii : (c : ℕ) → IsAscii c → IsAscii (to_lower c)
unfolding to_lower
to_lower-IsAscii c (l, h) = (ground arith, ground arith)

lower-IsAscii : (s : Bytes) → All IsAscii s → All IsAscii (lower s)
lower-IsAscii [] h = tt
lower-IsAscii (c ∷ s) (h, hs) = (to_lower-IsAscii c h, lower-IsAscii s hs)

lower-IsLabel : (ps : List Bytes) → All IsLabel ps → All IsLabel (map lower ps)
lower-IsLabel [] h = tt
lower-IsLabel (p ∷ ps) (h, hs) = (
  record {
    not_empty = rw (length-lower p) h.not_empty;
    at_most_63 = rw (length-lower p) h.at_most_63;
    are_ascii = lower-IsAscii p h.are_ascii;
  },
  lower-IsLabel ps hs,
)

-- The labels of a text are those of a name.
abbrev pub IsName : Bytes → Type 0
IsName s = All IsLabel (split b'.' s)

pub lower-IsName : (s : Bytes) → IsName s → IsName (lower s)
lower-IsName s h = rw (split-lower s) (lower-IsLabel (split b'.' s) h)

is_empty-IsName : (s : Bytes) → IsName s → is_empty s ≡ false
unfolding split
is_empty-IsName [] (h, hs) = let n = h.not_empty in absurd (omega arith)
is_empty-IsName (c ∷ s) h = refl

length-framed : (ps : List Bytes) → length ps ≤ length (framed ps)
length-framed [] = omega arith
length-framed (p ∷ ps) = omega (arith, length-framed ps, length-append p (framed ps))

get_or-append : (xs ys : Bytes) (i : ℕ) → i < length xs → get_or (xs ++ ys) i 0 ≡ get_or xs i 0
get_or-append [] ys i h = elim h [ ]
get_or-append (x ∷ xs) ys zero h = refl
get_or-append (x ∷ xs) ys (suc i) h = get_or-append xs ys i (omega arith)

read_name :
    (fuel : ℕ) (s rest : Bytes)
    → IsName s
    → length (framed (split b'.' s)) < fuel
    → (read_labels fuel (framed (split b'.' s) ++ (0 ∷ rest)) [] >>= λ domain.
        ret (nonempty domain))
      ≡ ret (some s)
read_name fuel s rest h lt =
    let (p, ps, e) = split-cons b'.' s in
    let joined : join b'.' (p ∷ ps) ≡ s = rw e at (join-split b'.' s) in
    let (hp, hps) : All IsLabel (p ∷ ps) = rw e at h in
    let short = length-framed (split b'.' s) in
    rw (
      read_labels-framed fuel (split b'.' s) rest [] h (omega arith),
      e,
      after-join p ps hp hps,
      joined,
    )

-- What `encode_domain_name` writes for a name: its labels in lower case, and a zero byte.
pub encode_domain_name-framed :
    (name rest : Bytes)
    → IsName (trim_dots name)
    → encode_domain_name name ++ rest ≡ framed (split b'.' (lower (trim_dots name))) ++ (0 ∷ rest)
encode_domain_name-framed name rest h =
    let s = lower (trim_dots name) in
    ap (λ e. e ++ rest) (encode_domain_name_lem name)
    ∙ rw (is_empty-IsName s (lower-IsName (trim_dots name) h))
        (append_assoc (framed (split b'.' s)) (0 ∷ []) rest)

-- A query whose header counts one question, and goes on with what `encode_domain_name` writes for a
-- name: `parse_query` returns the name in lower case, without the dots at its end.
pub parse_query-encoded :
    (header name rest : Bytes)
    → length header ≡ 12
    → from_be (get_or header 4 0) (get_or header 5 0) ≡ 1
    → IsName (trim_dots name)
    → parse_query (header ++ (encode_domain_name name ++ rest))
      ≡ ret (some (lower (trim_dots name)))
unfolding parse_query
parse_query-encoded header name rest l one h =
    let s = lower (trim_dots name) in
    let named = lower-IsName (trim_dots name) h in
    let body = framed (split b'.' s) ++ (0 ∷ rest) in
    let wire = encode_domain_name-framed name rest h in
    let long : ltb (length (header ++ body)) 12 ≡ false =
      ltb-false (length (header ++ body)) 12 (omega (arith, length-append header body)) in
    let body_only : drop 12 (header ++ body) ≡ body = rw l at (drop-append_self header body) in
    rw
      (
        wire,
        long,
        index_in (header ++ body) 4 0 (omega (arith, length-append header body)),
        index_in (header ++ body) 5 0 (omega (arith, length-append header body)),
        get_or-append header body 4 (omega arith),
        get_or-append header body 5 (omega arith),
        one,
        body_only,
      )
      (read_name (length (header ++ body)) s rest named (
        omega (arith, length-append header body, length-append (framed (split b'.' s)) (0 ∷ rest))))
