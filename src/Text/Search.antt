-- ===== src/Text/Search.antt =====
-- What src/dns/dnssec.rs does with the text of a key: searching, replacing, dropping white space.
use rustyalias.Common.{
  ℕ, zero, suc, Bool, true, false, ◌&&◌, ◌||◌, [], ◌∷◌, none, some, Bytes, ◌==◌, length,
}
use rustyalias.Text.Space.{strip_space}

-- `s.starts_with(pattern)`.
unfoldable pub starts_with : Bytes → Bytes → Bool
starts_with [] s = true
starts_with (p ∷ ps) [] = false
starts_with (p ∷ ps) (c ∷ s) = p == c && starts_with ps s

-- `s.contains(pattern)`.
unfoldable pub contains_text : Bytes → Bytes → Bool
unfolding starts_with
contains_text pattern [] = starts_with pattern []
contains_text pattern (c ∷ s) = starts_with pattern (c ∷ s) || contains_text pattern s

-- `s.replace("\\n", "\n")`: a backslash and an `n` become a line feed.
unfoldable pub replace_escapes : Bytes → Bytes
replace_escapes [] = []
replace_escapes (c ∷ []) = c ∷ []
replace_escapes (c ∷ d ∷ s) = elim (c == 92 && d == b'n') [
  | true ↦ 10 ∷ replace_escapes s
  | false ↦ c ∷ replace_escapes (d ∷ s)
]

-- `s.chars().filter(|c| !c.is_whitespace())`. No byte inside a character starts white space, so
-- every byte that starts none is kept. Each round takes a byte at least.
unfoldable pub drop_spaces : ℕ → Bytes → Bytes
drop_spaces zero s = s
drop_spaces (suc fuel) [] = []
drop_spaces (suc fuel) (c ∷ s) = elim (strip_space (c ∷ s)) [
  | some s' ↦ drop_spaces fuel s'
  | none ↦ c ∷ drop_spaces fuel s
]

unfoldable pub without_spaces : Bytes → Bytes
unfolding drop_spaces strip_space
without_spaces s = drop_spaces (length s) s
