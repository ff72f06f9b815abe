-- ===== src/Query/Zone.antt =====
-- `is_in_zone` answers, and what it answers.
pub mod Suffix
use rustyalias.Common.{
  ℕ, suc, ◌+◌, ◌-◌, ◌≤◌, ◌<◌, ◌≡◌, refl, arith, Bool, true, false, not, Bytes, length, get_or, take,
  drop, leb, ltb, ◌==◌, if◌then◌else◌, is_empty, Bool-cases, inl, inr, ret, index_in, slice_in,
  leb→le, ltb→lt, if-either, Returns, leb_gt,
}
use rustyalias.Text.{eq_ignore_case, trim_dots}
use rustyalias.Query.{is_in_zone}

-- `zone` and a dot before it at the end of `domain`, without their last dots.
abbrev pub ends_in : Bytes → Bytes → Bool
ends_in d z =
    if not (get_or d (length d - length z - 1) 0 == b'.')
    then false
    else eq_ignore_case (take (length d - (length d - length z)) (drop (length d - length z) d)) z

abbrev pub in_zone : Bytes → Bytes → Bool
in_zone d z =
    if is_empty z
    then false
    else if eq_ignore_case d z
    then true
    else if leb (length d) (length z + 1)
    then false
    else ends_in d z

-- No index is out of range, whatever the two names are.
pub is_in_zone_lem :
    (domain zone : Bytes)
    → is_in_zone domain zone ≡ ret (in_zone (trim_dots domain) (trim_dots zone))
unfolding is_in_zone
is_in_zone_lem domain zone =
    let d = trim_dots domain in
    let z = trim_dots zone in
    elim (Bool-cases (is_empty z)) [
      | inl y ↦ rw y
      | inr n ↦ elim (Bool-cases (eq_ignore_case d z)) [
        | inl same ↦ rw (n, same)
        | inr other ↦ elim (Bool-cases (leb (length d) (length z + 1))) [
          | inl short ↦ rw (n, other, short)
          | inr long ↦
              let h = leb_gt (length d) (length z + 1) long in
              rw
                (
                  n,
                  other,
                  long,
                  index_in d (length d - length z - 1) 0 (omega arith),
                  slice_in d (length d - length z) (length d) (omega arith) (omega arith),
                )
                (dot_test (get_or d (length d - length z - 1) 0 == b'.') _)
        ]
      ]
    ]
  where
    dot_test :
        (dot same : Bool)
        → (if not dot then ret false else ret same) ≡ ret (if not dot then false else same)
    dot_test true same = refl
    dot_test false same = refl
