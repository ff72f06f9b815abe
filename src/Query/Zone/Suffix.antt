-- ===== src/Query/Zone/Suffix.antt =====
-- `is_in_zone` against the suffix of labels that it stands for.
use rustyalias.Common.{
  ℕ, suc, ◌+◌, ◌-◌, ◌<◌, ◌≡◌, ◌≢◌, ◌⊎◌, ◌↔◌, refl, sym, ap, ◌∙◌, arith, Bool, true, false, not, inl,
  inr, [], ◌∷◌, ◌++◌, Bytes, length, length-append, length-take, length-drop, get_or, take, drop,
  leb, leb_gt, leb-false, ◌==◌, ==_iff, if◌then◌else◌, Bool-cases, ret, cut_at, take_all,
  get_or-append_here, drop-append_past, Outcome,
}
use rustyalias.Text.{to_lower, eq_ignore_case, trim_dots}
use rustyalias.Text.Case.{
  lower, eq_ignore_case_iff, length-lower, lower-append, drop-lower, get_or-lower, to_lower_dot,
}
use rustyalias.Query.{is_in_zone}
use rustyalias.Query.Zone.{ends_in, in_zone, is_in_zone_lem}

-- `d` is `z`, or some labels, a dot and `z`, up to the case of letters; `z` is not the root.
pub record InZone (d z : Bytes) : Type 0 where
  pub not_root : z ≢ []
  pub suffix :
      (lower d ≡ lower z) ⊎ ((front : Bytes) × (front ≢ []) × (lower d ≡ front ++ (b'.' ∷ lower z)))

rest_after : (d z : Bytes) → length z < length d → length (drop (length d - length z) d) ≡ length z
rest_after d z h = omega (arith, length-drop (length d - length z) d)

slice_rest :
    (d z : Bytes)
    → length z < length d
    → take (length d - (length d - length z)) (drop (length d - length z) d)
      ≡ drop (length d - length z) d
slice_rest d z h = take_all _ (drop (length d - length z) d) (omega (arith, rest_after d z h))

test_parts : (b s : Bool) → (if not b then false else s) ≡ true → (b ≡ true) × (s ≡ true)
test_parts b s h = ground arith

lower_cut :
    (d : Bytes) (k : ℕ)
    → k < length d
    → get_or d k 0 ≡ b'.'
    → lower d ≡ lower (take k d) ++ (b'.' ∷ lower (drop (suc k) d))
unfolding to_lower
lower_cut d k h dot =
    ap lower (cut_at d k 0 h) ∙ lower-append (take k d) (get_or d k 0 ∷ drop (suc k) d) ∙ rw dot

ends_in_sound :
    (d z : Bytes)
    → length z + 1 < length d
    → ends_in d z ≡ true
    → (front : Bytes) × (front ≢ []) × (lower d ≡ front ++ (b'.' ∷ lower z))
ends_in_sound d z h e =
    let k = length d - length z - 1 in
    let (dot, tail) = test_parts (get_or d k 0 == b'.') _ e in
    let next : suc k ≡ length d - length z = omega arith in
    let rest = rw (slice_rest d z (omega arith)) at ((eq_ignore_case_iff _ z).0 tail) in
    (
      lower (take k d),
      λ q. absurd (omega (arith, ap length q, length-lower (take k d), length-take k d)),
      lower_cut d k (omega arith) ((==_iff _ _).0 dot)
          ∙ ap (λ t. lower (take k d) ++ (b'.' ∷ t)) (ap (λ n. lower (drop n d)) next ∙ rest),
    )

length-ne_nil : (s : Bytes) → s ≢ [] → 0 < length s
length-ne_nil [] ne = absurd (ne refl)
length-ne_nil (c ∷ s) ne = omega arith

ends_in_complete :
    (d z front : Bytes)
    → front ≢ []
    → lower d ≡ front ++ (b'.' ∷ lower z)
    → (length z + 1 < length d) × (ends_in d z ≡ true)
ends_in_complete d z front ne e =
    let k = length front in
    let pos = length-ne_nil front ne in
    let total : length d ≡ k + suc (length z) =
      omega (
        arith,
        ap length e,
        length-append front (b'.' ∷ lower z),
        length-lower d,
        length-lower z,
      ) in
    let at_dot : length d - length z - 1 ≡ k = omega arith in
    let past : length d - length z ≡ suc k = omega arith in
    let dot : get_or d (length d - length z - 1) 0 ≡ b'.' =
      ap (λ n. get_or d n 0) at_dot
      ∙ to_lower_dot (get_or d k 0) (
          sym (get_or-lower d k (omega arith))
          ∙ ap (λ t. get_or t k 0) e
          ∙ get_or-append_here front (lower z) b'.' 0) in
    let tail : lower (drop (length d - length z) d) ≡ lower z =
      ap (λ n. lower (drop n d)) past
      ∙ sym (drop-lower (suc k) d)
      ∙ ap (drop (suc k)) e
      ∙ drop-append_past front (lower z) b'.' in
    (omega arith, rw (dot, slice_rest d z (omega arith), (eq_ignore_case_iff _ z).1 tail))

pub in_zone_sound : (d z : Bytes) → in_zone d z ≡ true → InZone d z
in_zone_sound d [] e = cc
in_zone_sound d (c ∷ z) e = elim (Bool-cases (eq_ignore_case d (c ∷ z))) [
  | inl same ↦ record { not_root = λ q. cc q; suffix = inl ((eq_ignore_case_iff d (c ∷ z)).0 same) }
  | inr other ↦ elim (Bool-cases (leb (length d) (length (c ∷ z) + 1))) [
    | inl short ↦ cc (rw (other, short) at e)
    | inr long ↦ record {
      not_root = λ q. cc q;
      suffix = inr (ends_in_sound d (c ∷ z) (leb_gt _ _ long) (rw (other, long) at e));
    }
  ]
]

pub in_zone_complete : (d z : Bytes) → InZone d z → in_zone d z ≡ true
in_zone_complete d [] w = absurd (w.not_root refl)
in_zone_complete d (c ∷ z) w = by_suffix w.suffix
  where
    by_suffix :
        (lower d ≡ lower (c ∷ z))
          ⊎ ((front : Bytes) × (front ≢ []) × (lower d ≡ front ++ (b'.' ∷ lower (c ∷ z))))
        → in_zone d (c ∷ z) ≡ true
    by_suffix (inl same) = rw ((eq_ignore_case_iff d (c ∷ z)).1 same)
    by_suffix (inr (front, ne, e)) =
        let (h, ends) = ends_in_complete d (c ∷ z) front ne e in
        elim (Bool-cases (eq_ignore_case d (c ∷ z))) [
          | inl same ↦ rw same
          | inr other ↦ rw (other, leb-false (length d) (length (c ∷ z) + 1) h, ends)
        ]

-- `is_in_zone` answers true just when the domain is the zone or some labels in front of it, up to
-- the case of letters and the dots at the end of both; and the zone is not the root.
pub is_in_zone_iff :
    (domain zone : Bytes)
    → (is_in_zone domain zone ≡ ret true) ↔ InZone (trim_dots domain) (trim_dots zone)
is_in_zone_iff domain zone = (
  λ e. in_zone_sound _ _ (ret_injective (rw (is_in_zone_lem domain zone) at e)),
  λ w. rw (is_in_zone_lem domain zone, in_zone_complete _ _ w),
)
  where
    ret_injective : {b : Bool} → ◌≡◌ {A = Outcome Bool} (ret b) (ret true) → b ≡ true
    ret_injective e = cc
