-- ===== src/Text/Plain.antt =====
-- Text without white space, backslashes or markers: nothing that reads a key's text changes it.
use mathlib.Core.List.{reverse, reverse-cons, reverse-reverse}
use rustyalias.Common.{
  ℕ, zero, suc, ◌≤◌, ◌≡◌, ◌≢◌, refl, ap, arith, [], ◌∷◌, Option, none, Bytes, All, All-append,
  length,
}
use rustyalias.Text.Space.{trim, strip_space, strip_space_back, strip_all}
use rustyalias.Text.Search.{replace_escapes, without_spaces, drop_spaces}

-- A visible ASCII byte that is no backslash.
abbrev pub IsPlain : ℕ → Type 0
IsPlain c = (33 ≤ c) × (c ≤ 126) × (c ≢ 92)

strip_space-plain : (s : Bytes) → All IsPlain s → strip_space s ≡ none
unfolding strip_space
strip_space-plain [] h = refl
strip_space-plain (a ∷ []) h = ground arith
strip_space-plain (a ∷ b ∷ []) h = ground arith
strip_space-plain (a ∷ b ∷ c ∷ s) h = ground arith

strip_space_back-plain : (s : Bytes) → All IsPlain s → strip_space_back s ≡ none
unfolding strip_space_back
strip_space_back-plain [] h = refl
strip_space_back-plain (a ∷ []) h = ground arith
strip_space_back-plain (a ∷ b ∷ []) h = ground arith
strip_space_back-plain (a ∷ b ∷ c ∷ s) h = ground arith

strip_all-none :
    (strip : Bytes → Option Bytes) (fuel : ℕ) (s : Bytes)
    → strip s ≡ none
    → strip_all strip fuel s ≡ s
unfolding strip_all
strip_all-none strip zero s e = refl
strip_all-none strip (suc fuel) s e = rw (strip_all, e)

All-reverse : (s : Bytes) → All IsPlain s → All IsPlain (reverse s)
All-reverse [] h = tt
All-reverse (c ∷ s) (h, hs) =
    rw (reverse-cons c s) (All-append IsPlain (reverse s) (c ∷ []) (All-reverse s hs) (h, tt))

pub trim-plain : (s : Bytes) → All IsPlain s → trim s ≡ s
unfolding trim
trim-plain s h =
    rw
      (
        strip_all-none strip_space (length s) s (strip_space-plain s h),
        strip_all-none strip_space_back (length s) (reverse s)
            (strip_space_back-plain (reverse s) (All-reverse s h)),
      )
      (reverse-reverse s)

pub replace_escapes-plain : (s : Bytes) → All IsPlain s → replace_escapes s ≡ s
unfolding replace_escapes
replace_escapes-plain [] h = refl
replace_escapes-plain (c ∷ []) h = refl
replace_escapes-plain (c ∷ d ∷ s) (h, hs) =
    let ih = replace_escapes-plain (d ∷ s) hs in ground arith

drop_spaces-plain : (s : Bytes) → All IsPlain s → drop_spaces (length s) s ≡ s
unfolding drop_spaces
drop_spaces-plain [] h = refl
drop_spaces-plain (c ∷ s) (h, hs) =
    rw (drop_spaces, strip_space-plain (c ∷ s) (h, hs)) (ap (◌∷◌ c) (drop_spaces-plain s hs))

pub without_spaces-plain : (s : Bytes) → All IsPlain s → without_spaces s ≡ s
unfolding without_spaces
without_spaces-plain s h = drop_spaces-plain s h
