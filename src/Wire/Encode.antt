-- ===== src/Wire/Encode.antt =====
-- `encode_domain_name` and `names_eq`: names that are equal to the server have one wire form.
use rustyalias.Common.{
  ℕ, ◌%◌, ◌≡◌, refl, arith, true, List, [], ◌∷◌, ◌++◌, Bytes, length, map, ◌==◌, if◌then◌else◌,
  is_empty, Bool-cases, inl, inr,
}
use rustyalias.Text.{to_lower, split, cons_head, trim_dots}
use rustyalias.Text.Case.{lower, length-lower, eq_ignore_case_sound}
use rustyalias.Wire.{names_eq, encode_labels, encode_domain_name}

pub is_dot-to_lower : (c : ℕ) → (to_lower c == b'.') ≡ (c == b'.')
unfolding to_lower
is_dot-to_lower c = ground arith

cons_head-lower :
    (c : ℕ) (ps : List Bytes) → cons_head (to_lower c) (map lower ps) ≡ map lower (cons_head c ps)
cons_head-lower c [] = refl
cons_head-lower c (p ∷ ps) = refl

pub split-lower : (s : Bytes) → split b'.' (lower s) ≡ map lower (split b'.' s)
unfolding split
split-lower [] = refl
split-lower (c ∷ s) = elim (Bool-cases (c == b'.')) [
  | inl dot ↦ rw (is_dot-to_lower c, dot, split-lower s)
  | inr other ↦ rw (is_dot-to_lower c, other, split-lower s) (cons_head-lower c (split b'.' s))
]

-- The labels as they stand, each behind its length.
abbrev pub framed : List Bytes → Bytes
framed [] = []
framed (p ∷ ps) = (length p % 256 ∷ p) ++ framed ps

encode_labels-framed : (ps : List Bytes) → encode_labels ps ≡ framed (map lower ps)
encode_labels-framed [] = refl
encode_labels-framed (p ∷ ps) = rw (encode_labels-framed ps, length-lower p)

pub is_empty-lower : (s : Bytes) → is_empty (lower s) ≡ is_empty s
is_empty-lower [] = refl
is_empty-lower (c ∷ s) = refl

-- The wire form depends on the folded name only: the labels of the folded name without its last
-- dots, each behind its length, and a zero byte.
pub encode_domain_name_lem :
    (name : Bytes)
    → encode_domain_name name
      ≡ (if is_empty (lower (trim_dots name))
          then []
          else framed (split b'.' (lower (trim_dots name))))
        ++ (0 ∷ [])
unfolding encode_domain_name
encode_domain_name_lem name = rw (
  is_empty-lower (trim_dots name),
  split-lower (trim_dots name),
  encode_labels-framed (split b'.' (trim_dots name)),
)

-- Names that `names_eq` finds equal are encoded to the same bytes.
pub encode_domain_name-names_eq :
    (a b : Bytes) → names_eq a b ≡ true → encode_domain_name a ≡ encode_domain_name b
unfolding names_eq
encode_domain_name-names_eq a b h =
    rw (encode_domain_name_lem a, encode_domain_name_lem b, eq_ignore_case_sound _ _ h)
