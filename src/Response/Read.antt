-- ===== src/Response/Read.antt =====
-- How a client reads the records of a response (RFC 1035, section 4.1), and what it finds in the
-- bytes that `finish` returns.
pub mod Whole
pub mod Emitted
pub mod Truncated
pub mod Room
pub mod Finish
use rustyalias.Common.{
  ℕ, zero, suc, ◌+◌, ◌*◌, ◌%◌, ◌/◌, ◌^◌, ◌≤◌, ◌<◌, ◌≡◌, refl, sym, ap, ◌∙◌, arith, Bool, true,
  false, List, [], ◌∷◌, ◌++◌, append_assoc, map, Option, none, some, map_option, Bytes, length,
  length-append, take, drop, take-append_self, drop-append_self, get_or, All, from_be, be16, be32,
  ltb, leb, ltb-false, leb-false, lt→ltb, if◌then◌else◌, is_empty, IsU16, from_be-be16,
}
use rustyalias.Text.{split, trim_dots}
use rustyalias.Text.Case.{lower}
use rustyalias.Wire.{class_in, encode_domain_name}
use rustyalias.Wire.Encode.{framed, encode_domain_name_lem}
use rustyalias.Response.{Owner, question, name, Rr}
use rustyalias.Response.Emit.{owner_bytes, rr_bytes}
use rustyalias.Response.Packet.{bytes_of}

-- The owner of a record: a pointer to an earlier place of the message, or labels.
pub data Place : Type 0 where
  pointer : ℕ → Place
  labels : Bytes → Place

pub record Seen : Type 0 where
  pub owner : Place
  pub typ : ℕ
  pub class : ℕ
  pub ttl : ℕ
  pub rdata : Bytes

abbrev pub from_be32 : Bytes → ℕ
from_be32 b =
    from_be (from_be (from_be (get_or b 0 0) (get_or b 1 0)) (get_or b 2 0)) (get_or b 3 0)

-- The bytes of a name and those behind it; `left` bytes of a label are still to come.
unfoldable pub read_name : ℕ → Bytes → Option (Bytes × Bytes)
read_name left [] = none
read_name zero (zero ∷ cs) = some (0 ∷ [], cs)
read_name zero (suc n ∷ cs) =
    if ltb (suc n) 64 then map_option (λ r. (suc n ∷ r.0, r.1)) (read_name (suc n) cs) else none
read_name (suc left) (c ∷ cs) = map_option (λ r. (c ∷ r.0, r.1)) (read_name left cs)

abbrev pub read_pointer : ℕ → Bytes → Option (Place × Bytes)
read_pointer c [] = none
read_pointer c (d ∷ cs) = some (pointer (from_be (c % 64) d), cs)

unfoldable pub read_owner : Bytes → Option (Place × Bytes)
read_owner [] = none
read_owner (c ∷ cs) =
    if leb 192 c
    then read_pointer c cs
    else map_option (λ r. (labels r.0, r.1)) (read_name 0 (c ∷ cs))

-- Type, class, TTL and RDATA behind the owner.
unfoldable pub read_fields : Place → Bytes → Option (Seen × Bytes)
read_fields owner b =
    let size = from_be (get_or b 8 0) (get_or b 9 0) in
    if ltb (length b) (10 + size)
    then none
    else some (
      record {
        owner = owner;
        typ = from_be (get_or b 0 0) (get_or b 1 0);
        class = from_be (get_or b 2 0) (get_or b 3 0);
        ttl = from_be32 (drop 4 b);
        rdata = take size (drop 10 b);
      },
      drop size (drop 10 b),
    )

abbrev pub and_fields : Option (Place × Bytes) → Option (Seen × Bytes)
and_fields none = none
and_fields (some (owner, rest)) = read_fields owner rest

unfoldable pub read_record : Bytes → Option (Seen × Bytes)
read_record b = and_fields (read_owner b)

-- A record in front of those that `others` reads.
abbrev pub more_records :
    Option (Seen × Bytes) → (Bytes → Option (List Seen × Bytes)) → Option (List Seen × Bytes)
more_records none others = none
more_records (some (r, rest)) others = map_option (λ rs. (r ∷ rs.0, rs.1)) (others rest)

-- `count` records, and the bytes behind them.
unfoldable pub read_records : ℕ → Bytes → Option (List Seen × Bytes)
read_records zero b = some ([], b)
read_records (suc count) b = more_records (read_record b) (λ rest. read_records count rest)

abbrev pub seen_owner : Owner → Place
seen_owner question = pointer 12
seen_owner (name n) = labels (encode_domain_name n)

-- A record as a client should see it.
abbrev pub seen : Rr → Seen
seen r = record {
  owner = seen_owner r.owner;
  typ = r.typ;
  class = class_in;
  ttl = r.ttl;
  rdata = r.rdata;
}

-- The labels of a name, folded, without its last dots.
abbrev pub labels_of : Bytes → List Bytes
labels_of n = if is_empty (lower (trim_dots n)) then [] else split b'.' (lower (trim_dots n))

abbrev pub ShortLabel : Bytes → Type 0
ShortLabel p = (1 ≤ length p) × (length p < 64)

-- A record's owner has a wire form.
abbrev pub OwnerFits : Owner → Type 0
OwnerFits question = Unit
OwnerFits (name n) = All ShortLabel (labels_of n)

-- A record's fields have room in their bytes.
pub record Fits (r : Rr) : Type 0 where
  pub owner_fits : OwnerFits r.owner
  pub typ_fits : IsU16 r.typ
  pub ttl_fits : r.ttl < 2 ^ 32
  pub rdata_fits : IsU16 (length r.rdata)

read_name-label :
    (p q more rest : Bytes)
    → read_name 0 more ≡ some (q, rest)
    → read_name (length p) (p ++ more) ≡ some (p ++ q, rest)
unfolding read_name
read_name-label [] q more rest e = e
read_name-label (c ∷ p) q more rest e = rw (read_name-label p q more rest e) refl

read_name-framed :
    (ps : List Bytes) (rest : Bytes)
    → All ShortLabel ps
    → read_name 0 (framed ps ++ (0 ∷ rest)) ≡ some (framed ps ++ (0 ∷ []), rest)
unfolding read_name
read_name-framed [] rest h = refl
read_name-framed ([] ∷ ps) rest ((lo, hi), hs) = absurd (omega arith)
read_name-framed ((c ∷ p) ∷ ps) rest ((lo, hi), hs) =
    let behind = framed ps ++ (0 ∷ rest) in
    let whole : length (c ∷ p) % 256 ≡ length (c ∷ p) = omega arith in
    rw
      (
        append_assoc (c ∷ p) (framed ps) (0 ∷ rest),
        append_assoc (c ∷ p) (framed ps) (0 ∷ []),
        whole,
        lt→ltb (length (c ∷ p)) 64 hi,
        read_name-label (c ∷ p) (framed ps ++ (0 ∷ [])) behind rest (read_name-framed ps rest hs),
      )
      refl

encode_domain_name-framed : (n : Bytes) → encode_domain_name n ≡ framed (labels_of n) ++ (0 ∷ [])
encode_domain_name-framed n =
    encode_domain_name_lem n ∙ ap (λ b. b ++ (0 ∷ [])) (choose (is_empty (lower (trim_dots n))) _)
  where
    choose :
        (b : Bool) (ps : List Bytes) → (if b then [] else framed ps) ≡ framed (if b then [] else ps)
    choose true ps = refl
    choose false ps = refl

read_owner-framed :
    (ps : List Bytes) (rest : Bytes)
    → All ShortLabel ps
    → read_owner ((framed ps ++ (0 ∷ [])) ++ rest) ≡ some (labels (framed ps ++ (0 ∷ [])), rest)
unfolding read_owner read_name
read_owner-framed [] rest h = refl
read_owner-framed (p ∷ ps) rest ((lo, hi), hs) =
    rw
      (
        append_assoc (framed (p ∷ ps)) (0 ∷ []) rest,
        leb-false 192 (length p % 256) (omega arith),
        read_name-framed (p ∷ ps) rest ((lo, hi), hs),
      )
      refl

read_owner-seen :
    (o : Owner) (rest : Bytes)
    → OwnerFits o
    → read_owner (owner_bytes o ++ rest) ≡ some (seen_owner o, rest)
unfolding read_owner
read_owner-seen question rest h = refl
read_owner-seen (name n) rest h =
    rw (encode_domain_name-framed n) (read_owner-framed (labels_of n) rest h)

from_be32-be32 : (n : ℕ) (rest : Bytes) → n < 2 ^ 32 → from_be32 (be32 n ++ rest) ≡ n
from_be32-be32 n rest h = omega arith

pub read_fields-seen :
    (owner : Place) (typ class ttl : ℕ) (rdata rest : Bytes)
    → IsU16 typ
    → IsU16 class
    → ttl < 2 ^ 32
    → IsU16 (length rdata)
    → read_fields owner
        ((be16 typ ++ (be16 class ++ (be32 ttl ++ (be16 (length rdata) ++ rdata)))) ++ rest)
      ≡ some (record { owner = owner; typ = typ; class = class; ttl = ttl; rdata = rdata }, rest)
unfolding read_fields
read_fields-seen owner typ class ttl rdata rest ht hc hl hd =
    let b = (be16 typ ++ (be16 class ++ (be32 ttl ++ (be16 (length rdata) ++ rdata)))) ++ rest in
    rw
      (
        from_be-be16 typ ht,
        from_be-be16 class hc,
        from_be-be16 (length rdata) hd,
        from_be32-be32 ttl (be16 (length rdata) ++ (rdata ++ rest)) hl,
        ltb-false (length b) (10 + length rdata) (omega (arith, length-append rdata rest)),
        take-append_self rdata rest,
        drop-append_self rdata rest,
      )
      refl

-- What `write_rr` writes is read back.
read_record-seen :
    (r : Rr) (rest : Bytes) → Fits r → read_record (bytes_of r ++ rest) ≡ some (seen r, rest)
unfolding rr_bytes read_record
read_record-seen r rest h =
    rw (append_assoc (owner_bytes r.owner) _ rest, read_owner-seen r.owner _ h.owner_fits)
      (read_fields-seen (seen_owner r.owner) r.typ class_in r.ttl r.rdata rest h.typ_fits
        (omega arith) h.ttl_fits h.rdata_fits)

abbrev pub records_bytes : List Rr → Bytes
records_bytes [] = []
records_bytes (r ∷ rs) = bytes_of r ++ records_bytes rs

-- The bytes are read as the records, whatever is behind them.
abbrev pub Reads : Bytes → List Seen → Type 0
Reads b rs = (rest : Bytes) → read_records (length rs) (b ++ rest) ≡ some (rs, rest)

pub records_bytes-Reads :
    (rs : List Rr) (b : Bytes) (others : List Seen)
    → All Fits rs
    → Reads b others
    → Reads (records_bytes rs ++ b) (map seen rs ++ others)
unfolding read_records
records_bytes-Reads [] b others h after = after
records_bytes-Reads (r ∷ rs) b others (fits, h) after = λ rest.
    rw
      (
        append_assoc (bytes_of r) (records_bytes rs) b,
        append_assoc (bytes_of r) (records_bytes rs ++ b) rest,
        read_record-seen r ((records_bytes rs ++ b) ++ rest) fits,
        records_bytes-Reads rs b others h after rest,
      )
      refl
