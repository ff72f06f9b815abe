-- ===== src/Text/Dots.antt =====
-- `trim_end_matches('.')`: what it leaves has no dot at its end, and it does not look at case.
use rustyalias.Common.{ℕ, ◌≡◌, ◌≢◌, refl, [], ◌∷◌, ◌++◌, Bytes, ◌==◌, Bool-cases, inl, inr}
use rustyalias.Text.{trim_dots, cons_trimmed, to_lower}
use rustyalias.Text.Case.{lower}
use rustyalias.Wire.Encode.{is_dot-to_lower}

cons_trimmed-nonempty : (c : ℕ) (s : Bytes) → s ≢ [] → cons_trimmed c s ≡ c ∷ s
cons_trimmed-nonempty c [] ne = absurd (ne refl)
cons_trimmed-nonempty c (d ∷ s) ne = refl

-- A text that is not trimmed away stays behind anything.
pub trim_dots-append : (s t : Bytes) → trim_dots t ≢ [] → trim_dots (s ++ t) ≡ s ++ trim_dots t
unfolding trim_dots
trim_dots-append [] t ne = refl
trim_dots-append (c ∷ s) t ne =
    rw (trim_dots-append s t ne)
      (cons_trimmed-nonempty c (s ++ trim_dots t) (λ e. ne (append_empty s (trim_dots t) e)))
  where
    append_empty : (a b : Bytes) → a ++ b ≡ [] → b ≡ []
    append_empty [] b e = e
    append_empty (x ∷ a) b e = cc

cons_trimmed-trim_dots :
    (c : ℕ) (s : Bytes) → trim_dots s ≡ s → trim_dots (cons_trimmed c s) ≡ cons_trimmed c s
unfolding trim_dots
cons_trimmed-trim_dots c [] e = elim (Bool-cases (c == b'.')) [
  | inl dot ↦ rw dot
  | inr other ↦ rw (other, trim_dots, other)
]
cons_trimmed-trim_dots c (d ∷ s) e = rw (trim_dots, e)

pub trim_dots_idem : (s : Bytes) → trim_dots (trim_dots s) ≡ trim_dots s
unfolding trim_dots
trim_dots_idem [] = refl
trim_dots_idem (c ∷ s) = cons_trimmed-trim_dots c (trim_dots s) (trim_dots_idem s)

cons_trimmed-lower :
    (c : ℕ) (s : Bytes) → cons_trimmed (to_lower c) (lower s) ≡ lower (cons_trimmed c s)
cons_trimmed-lower c [] = elim (Bool-cases (c == b'.')) [
  | inl dot ↦ rw (is_dot-to_lower c, dot)
  | inr other ↦ rw (is_dot-to_lower c, other)
]
cons_trimmed-lower c (d ∷ s) = refl

pub trim_dots-lower : (s : Bytes) → trim_dots (lower s) ≡ lower (trim_dots s)
unfolding trim_dots
trim_dots-lower [] = refl
trim_dots-lower (c ∷ s) = rw (trim_dots-lower s) (cons_trimmed-lower c (trim_dots s))
