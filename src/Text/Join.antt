-- ===== src/Text/Join.antt =====
-- `join` undoes `split`.
use rustyalias.Common.{
  ℕ, ◌≡◌, refl, ap, sym, List, [], ◌∷◌, ◌++◌, Bytes, ◌==◌, ==_iff, Bool-cases, inl, inr, ◌∙◌,
}
use rustyalias.Text.{split, join}

-- The parts behind the first, each behind its separator.
abbrev pub tail_of : ℕ → List Bytes → Bytes
tail_of sep [] = []
tail_of sep (p ∷ ps) = sep ∷ (p ++ tail_of sep ps)

pub append_nil : (s : Bytes) → s ≡ s ++ []
append_nil [] = refl
append_nil (c ∷ s) = ap (◌∷◌ c) (append_nil s)

pub join-tail_of : (sep : ℕ) (p : Bytes) (ps : List Bytes) → join sep (p ∷ ps) ≡ p ++ tail_of sep ps
unfolding join
join-tail_of sep p [] = append_nil p
join-tail_of sep p (q ∷ ps) = rw (join-tail_of sep q ps)

pub split-cons : (sep : ℕ) (s : Bytes) → (p : Bytes) × (ps : List Bytes) × (split sep s ≡ p ∷ ps)
unfolding split
split-cons sep [] = ([], [], refl)
split-cons sep (c ∷ s) = elim (Bool-cases (c == sep)) [
  | inl here ↦ ([], split sep s, rw here)
  | inr other ↦ let (p, ps, e) = split-cons sep s in (c ∷ p, ps, rw (other, e))
]

pub join-split : (sep : ℕ) (s : Bytes) → join sep (split sep s) ≡ s
unfolding split
join-split sep [] = join-tail_of sep [] []
join-split sep (c ∷ s) =
    let (p, ps, e) = split-cons sep s in
    let ih : p ++ tail_of sep ps ≡ s = sym (join-tail_of sep p ps) ∙ (rw e at (join-split sep s)) in
    elim (Bool-cases (c == sep)) [
      | inl here ↦ rw (here, e, join-tail_of sep [] (p ∷ ps), ih, (==_iff c sep).0 here)
      | inr other ↦ rw (other, e, join-tail_of sep (c ∷ p) ps, ih)
    ]
