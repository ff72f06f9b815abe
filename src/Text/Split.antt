-- ===== src/Text/Split.antt =====
-- What `split` makes of a text that starts with a part and a separator.
use rustyalias.Common.{ℕ, ◌≡◌, false, [], ◌∷◌, ◌++◌, Bytes, ◌==◌, All, ==_refl}
use rustyalias.Text.{split}

-- No byte of the part is the separator.
abbrev pub Without : ℕ → Bytes → Type 0
Without sep part = All (λ c. (c == sep) ≡ false) part

pub split-part :
    (sep : ℕ) (part rest : Bytes)
    → Without sep part
    → split sep (part ++ (sep ∷ rest)) ≡ part ∷ split sep rest
unfolding split
split-part sep [] rest w = rw (==_refl sep)
split-part sep (c ∷ part) rest (h, w) = rw (h, split-part sep part rest w)
