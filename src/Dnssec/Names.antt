-- ===== src/Dnssec/Names.antt =====
-- src/dns/dnssec.rs: walks over names in wire form. `rest` is the part of the name from the
-- position `i` of the source on. Each round takes a byte at least, so the length is fuel enough.
use rustyalias.Common.{
  ℕ, zero, suc, ◌+◌, ◌-◌, Bool, [], ◌∷◌, ◌++◌, Option, Bytes, ◌==◌, map, if◌then◌else◌, length,
  take, drop, min, Outcome, ret, ◌>>=◌, slice, expect,
}
use rustyalias.Text.{to_lower}
use rustyalias.Wire.{question_section_end, encode_domain_name}

abbrev pub saturating_add8 : ℕ → ℕ → ℕ
saturating_add8 a b = min 255 (a + b)

-- The loop of `label_count`.
unfoldable pub count_labels : ℕ → Bytes → ℕ → ℕ
count_labels fuel [] n = n
count_labels zero (len ∷ rest) n = n
count_labels (suc fuel) (len ∷ rest) n =
    let more = count_labels fuel (drop len rest) (saturating_add8 n 1) in
    if len == 0 then n else more

unfoldable pub label_count : Bytes → ℕ
unfolding count_labels
label_count wire_name = count_labels (length wire_name) wire_name 0

-- The loop of `lowercase_wire_name`: a label that runs over the end is folded up to the end.
unfoldable pub lowercase_from : ℕ → Bytes → Bytes
lowercase_from fuel [] = []
lowercase_from zero (len ∷ rest) = len ∷ rest
lowercase_from (suc fuel) (len ∷ rest) =
    let more = len ∷ (map to_lower (take len rest) ++ lowercase_from fuel (drop len rest)) in
    if len == 0 then len ∷ rest else more

unfoldable pub lowercase_wire_name : Bytes → Bytes
unfolding lowercase_from
lowercase_wire_name name = lowercase_from (length name) name

-- The owner name of a signed record set: the question's, or a name from the configuration.
unfoldable pub owner_canonical_wire : Bytes → Bool → Option Bytes → Outcome Bytes
owner_canonical_wire query owner_is_question name =
    if owner_is_question
    then (do
      end ← expect (question_section_end query)
      qname ← slice query 12 (end - 4)
      ret (lowercase_wire_name qname))
    else (do name ← expect name; ret (encode_domain_name name))
