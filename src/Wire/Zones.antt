-- ===== src/Wire/Zones.antt =====
-- The tests for a name in a zone do not index out of range.
use rustyalias.Common.{
  ◌+◌, ◌-◌, ◌≡◌, arith, Bool, true, false, ◌&&◌, Bytes, length, get_or, take, drop, ltb, ◌==◌,
  if◌then◌else◌, Bool-cases, inl, inr, ret, index_in, slice_in, ltb→lt,
}
use rustyalias.Text.{eq_ignore_case, trim_dots}
use rustyalias.Wire.{name_in_bailiwick}

-- `name` is `zone`, or ends in a dot and `zone`; both without their last dots.
abbrev pub ends_in_zone : Bytes → Bytes → Bool
ends_in_zone n z =
    get_or n (length n - length z - 1) 0 == b'.'
    && eq_ignore_case (take (length n - (length n - length z)) (drop (length n - length z) n)) z

pub name_in_bailiwick_lem :
    (name zone : Bytes)
    → name_in_bailiwick name zone
      ≡ ret (
          if eq_ignore_case (trim_dots name) (trim_dots zone)
          then true
          else if ltb (length (trim_dots zone) + 1) (length (trim_dots name))
          then ends_in_zone (trim_dots name) (trim_dots zone)
          else false)
unfolding name_in_bailiwick
name_in_bailiwick_lem name zone =
    let n = trim_dots name in
    let z = trim_dots zone in
    elim (Bool-cases (eq_ignore_case n z)) [
      | inl same ↦ rw same
      | inr other ↦ elim (Bool-cases (ltb (length z + 1) (length n))) [
        | inl long ↦
            let h = ltb→lt (length z + 1) (length n) long in
            rw (
              other,
              long,
              index_in n (length n - length z - 1) 0 (omega arith),
              slice_in n (length n - length z) (length n) (omega arith) (omega arith),
            )
        | inr short ↦ rw (other, short)
      ]
    ]
