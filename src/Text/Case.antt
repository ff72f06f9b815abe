-- ===== src/Text/Case.antt =====
-- Case folding: `eq_ignore_ascii_case` is equality of the folded texts.
use rustyalias.Common.{
  ℕ, zero, suc, ◌<◌, ◌≡◌, ◌↔◌, refl, ap, arith, true, [], ◌∷◌, ◌++◌, Bytes, length, drop, get_or,
  map,
}
use rustyalias.Text.{to_lower, eq_ignore_case}

pub to_lower_idem : (c : ℕ) → to_lower (to_lower c) ≡ to_lower c
unfolding to_lower
to_lower_idem c = ground arith

-- No letter folds to a dot.
pub to_lower_dot : (c : ℕ) → to_lower c ≡ b'.' → c ≡ b'.'
unfolding to_lower
to_lower_dot c h = ground arith

abbrev pub lower : Bytes → Bytes
lower s = map to_lower s

pub eq_ignore_case_sound : (a b : Bytes) → eq_ignore_case a b ≡ true → lower a ≡ lower b
unfolding eq_ignore_case
eq_ignore_case_sound [] [] h = refl
eq_ignore_case_sound [] (y ∷ ys) h = cc
eq_ignore_case_sound (x ∷ xs) [] h = cc
eq_ignore_case_sound (x ∷ xs) (y ∷ ys) h = ground (arith, eq_ignore_case_sound xs ys)

pub eq_ignore_case_complete : (a b : Bytes) → lower a ≡ lower b → eq_ignore_case a b ≡ true
unfolding eq_ignore_case
eq_ignore_case_complete [] [] h = refl
eq_ignore_case_complete [] (y ∷ ys) h = cc
eq_ignore_case_complete (x ∷ xs) [] h = cc
eq_ignore_case_complete (x ∷ xs) (y ∷ ys) h = ground (arith, eq_ignore_case_complete xs ys)

pub eq_ignore_case_iff : (a b : Bytes) → (eq_ignore_case a b ≡ true) ↔ (lower a ≡ lower b)
eq_ignore_case_iff a b = (eq_ignore_case_sound a b, eq_ignore_case_complete a b)

pub length-lower : (s : Bytes) → length (lower s) ≡ length s
length-lower [] = refl
length-lower (c ∷ s) = ap suc (length-lower s)

pub lower-append : (a b : Bytes) → lower (a ++ b) ≡ lower a ++ lower b
lower-append [] b = refl
lower-append (x ∷ a) b = ap (◌∷◌ (to_lower x)) (lower-append a b)

pub drop-lower : (n : ℕ) (s : Bytes) → drop n (lower s) ≡ lower (drop n s)
drop-lower zero s = refl
drop-lower (suc n) [] = refl
drop-lower (suc n) (c ∷ s) = drop-lower n s

pub get_or-lower :
    (s : Bytes) (i : ℕ) → i < length s → get_or (lower s) i 0 ≡ to_lower (get_or s i 0)
get_or-lower [] i h = elim h [ ]
get_or-lower (c ∷ s) zero h = refl
get_or-lower (c ∷ s) (suc i) h = get_or-lower s i (omega arith)
