-- ===== src/Response/Order.antt =====
-- The record sets of `emit_section`: no record is lost, and each set is in the order that its
-- signature needs.
use mathlib.Core.List.{Perm}
use mathlib.Core.List.Perm
use rustyalias.Common.{
  ◌≡◌, refl, ap, ◌∙◌, arith, Bool, true, false, ◌&&◌, List, [], ◌∷◌, ◌++◌, append_assoc, Bytes,
  ◌==◌, ==_iff, Bool-cases, inl, inr, All, ◌<◌, ◌⊎◌, ◌↔◌,
}
use rustyalias.Text.{trim_dots}
use rustyalias.Text.Case.{lower, eq_ignore_case_iff}
use rustyalias.Wire.{names_eq}
use rustyalias.Response.{Owner, question, name, Rr}
use rustyalias.Response.Emit.{Group, joins, group_from, group_rrs, bytes_le, owner_eq}

-- The order of RFC 4034, section 6.3: the first byte in which two texts differ decides, and a text
-- stands before those that it begins.
abbrev pub Before : Bytes → Bytes → Type 0
Before [] ys = Unit
Before (x ∷ xs) [] = ⊥
Before (x ∷ xs) (y ∷ ys) = (x < y) ⊎ ((x ≡ y) × Before xs ys)

-- Each text stands at or before the next.
abbrev pub IsSorted : List Bytes → Type 0
IsSorted [] = Unit
IsSorted (r ∷ []) = Unit
IsSorted (r ∷ s ∷ ss) = Before r s × IsSorted (s ∷ ss)

pub bytes_le_total : (r s : Bytes) → bytes_le r s ≡ false → bytes_le s r ≡ true
unfolding bytes_le
bytes_le_total [] s h = cc
bytes_le_total (x ∷ r) [] h = refl
bytes_le_total (x ∷ r) (y ∷ s) h = ground (arith, bytes_le_total r s)

abbrev pub members : List Group → List Rr
members [] = []
members (g ∷ gs) = (g.first ∷ g.others) ++ members gs

-- Owners are the same: both the name of the question, or names that are equal up to the case of
-- letters and the dots at the end.
abbrev pub SameOwner : Owner → Owner → Type 0
SameOwner question question = Unit
SameOwner (name x) (name y) = lower (trim_dots x) ≡ lower (trim_dots y)
SameOwner _ _ = ⊥

-- Two records are of one set.
abbrev pub SameSet : Rr → Rr → Type 0
SameSet r s = SameOwner r.owner s.owner × (r.typ ≡ s.typ)

owner_eq-SameOwner : (a b : Owner) → (owner_eq a b ≡ true) ↔ SameOwner a b
unfolding owner_eq names_eq
owner_eq-SameOwner question question = (λ h. tt, λ h. refl)
owner_eq-SameOwner question (name y) = (λ h. cc, λ h. elim h [ ])
owner_eq-SameOwner (name x) question = (λ h. cc, λ h. elim h [ ])
owner_eq-SameOwner (name x) (name y) = eq_ignore_case_iff (trim_dots x) (trim_dots y)

both_hold : (a b : Bool) → a && b ≡ true → (a ≡ true) × (b ≡ true)
both_hold a b h = ground arith

joins-SameSet : (g : Group) (r : Rr) → joins g r ≡ true → SameSet g.first r
joins-SameSet g r h =
    let (o, t) = both_hold (owner_eq g.first.owner r.owner) (g.first.typ == r.typ) h in
    ((owner_eq-SameOwner g.first.owner r.owner).0 o, (==_iff _ _).0 t)

joins-not_SameSet : (g : Group) (r : Rr) → joins g r ≡ false → ¬ SameSet g.first r
joins-not_SameSet g r h (o, t) =
    let a : owner_eq g.first.owner r.owner ≡ true = (owner_eq-SameOwner _ _).1 o in
    let b : (g.first.typ == r.typ) ≡ true = (==_iff _ _).1 t in cc

-- The records of a group are of one set with its first.
abbrev pub IsUniform : Group → Type 0
IsUniform g = All (SameSet g.first) g.others

-- No group could have been one with the next.
abbrev pub AreParted : List Group → Type 0
AreParted [] = Unit
AreParted (g ∷ []) = Unit
AreParted (g ∷ h ∷ gs) = (¬ SameSet g.first h.first) × AreParted (h ∷ gs)

All-append_one {ℓ κ} :
    {A : Type ℓ} (P : A → Type κ) (xs : List A) (x : A) → All P xs → P x → All P (xs ++ (x ∷ []))
All-append_one P [] x h k = (k, tt)
All-append_one P (y ∷ xs) x (h, hs) k = (h, All-append_one P xs x hs k)

group_from-members :
    (g : Group) (rrs : List Rr)
    → IsUniform g
    → (members (group_from g rrs) ≡ g.first ∷ (g.others ++ rrs)) × All IsUniform (group_from g rrs)
unfolding group_from
group_from-members g [] u = (refl, (u, tt))
group_from-members g (rr ∷ rrs) u = elim (Bool-cases (joins g rr)) [
  | inl same ↦
      let grown : Group = record g { others = g.others ++ (rr ∷ []) } in
      let (m, us) =
        group_from-members grown rrs
          (All-append_one (SameSet g.first) g.others rr u (joins-SameSet g rr same)) in
      rw (group_from, same) (m ∙ ap (λ rs. g.first ∷ rs) (append_assoc g.others (rr ∷ []) rrs), us)
  | inr new ↦
      let (m, us) = group_from-members (record { first = rr; others = [] }) rrs tt in
      rw (group_from, new) (ap (λ rs. g.first ∷ (g.others ++ rs)) m, (u, us))
]

group_from-first :
    (g : Group) (rrs : List Rr)
    → (others : List Rr) × (gs : List Group) × (group_from g rrs
        ≡ record { first = g.first; others = others } ∷ gs)
unfolding group_from
group_from-first g [] = (g.others, [], refl)
group_from-first g (rr ∷ rrs) = elim (Bool-cases (joins g rr)) [
  | inl same ↦
      let (others, gs, e) = group_from-first (record g { others = g.others ++ (rr ∷ []) }) rrs in
      (others, gs, rw (group_from, same) e)
  | inr new ↦ (g.others, group_from (record { first = rr; others = [] }) rrs, rw (group_from, new))
]

AreParted-cons :
    (g h : Group) (rrs : List Rr)
    → ¬ SameSet g.first h.first
    → AreParted (group_from h rrs)
    → AreParted (g ∷ group_from h rrs)
AreParted-cons g h rrs apart parted =
    let (others, gs, e) = group_from-first h rrs in rw e (apart, rw e at parted)

group_from-AreParted : (g : Group) (rrs : List Rr) → AreParted (group_from g rrs)
unfolding group_from
group_from-AreParted g [] = tt
group_from-AreParted g (rr ∷ rrs) = elim (Bool-cases (joins g rr)) [
  | inl same ↦
      rw (group_from, same) (group_from-AreParted (record g { others = g.others ++ (rr ∷ []) }) rrs)
  | inr new ↦
      let h : Group = record { first = rr; others = [] } in
      rw (group_from, new)
        (AreParted-cons g h rrs (joins-not_SameSet g rr new) (group_from-AreParted h rrs))
]

-- Grouping the records of a section keeps every record, in its order; the records of a group have
-- one owner, up to the case of letters and the dots at the end, and one type; and no two groups that
-- follow one another have the same owner and type.
pub group_rrs-members :
    (rrs : List Rr)
    → (members (group_rrs rrs) ≡ rrs) × All IsUniform (group_rrs rrs) × AreParted (group_rrs rrs)
unfolding group_rrs
group_rrs-members [] = (refl, tt, tt)
group_rrs-members (rr ∷ rrs) =
    let g : Group = record { first = rr; others = [] } in
    let (same, uniform) = group_from-members g rrs tt in (same, uniform, group_from-AreParted g rrs)
