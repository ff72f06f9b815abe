-- ===== src/Query/Labels.antt =====
-- `parse_query` on any bytes: it ends, and does not panic.
use rustyalias.Common.{
  ℕ, zero, suc, ◌≤◌, refl, arith, [], ◌∷◌, ◌++◌, Bytes, length, length-drop, take, drop, get_or,
  ltb, ◌==◌, not, from_be, if-either, Bool-cases, inl, inr, ltb_ge, index_in, slice_front, ret,
  ◌>>=◌, Returns,
}
use rustyalias.Text.Utf8.{is_utf8}
use rustyalias.Query.{dotted, read_labels, nonempty, parse_query}

pub read_labels-Returns :
    (fuel : ℕ) (rest domain : Bytes) → length rest ≤ fuel → Returns (read_labels fuel rest domain)
unfolding read_labels
read_labels-Returns fuel [] domain h = (_, refl)
read_labels-Returns zero (len ∷ rest) domain h = absurd (omega arith)
read_labels-Returns (suc fuel) (len ∷ rest) domain h =
    let next =
      read_labels-Returns fuel (drop len rest) (dotted domain ++ take len rest)
        (omega (arith, length-drop len rest)) in
    if-either Returns (len == 0) _ _ (_, refl)
      (elim (Bool-cases (ltb (length rest) len)) [
        | inl over ↦ rw over (_, refl)
        | inr inside ↦
            rw (inside, slice_front rest len (ltb_ge (length rest) len inside))
              (if-either Returns (is_utf8 (take len rest)) _ _ next (_, refl))
      ])

read_name :
    (query : Bytes)
    → Returns (do domain ← read_labels (length query) (drop 12 query) []; ret (nonempty domain))
read_name query =
    let (d, e) =
      read_labels-Returns (length query) (drop 12 query) [] (omega (arith, length-drop 12 query)) in
    rw e (_, refl)

-- For every query `parse_query` returns: its loop ends before the fuel does, and no index and no
-- slice of the query is out of range.
pub parse_query-Returns : (query : Bytes) → Returns (parse_query query)
unfolding parse_query
parse_query-Returns query = elim (Bool-cases (ltb (length query) 12)) [
  | inl short ↦ rw short (_, refl)
  | inr long ↦
      let h = ltb_ge (length query) 12 long in
      rw (long, index_in query 4 0 (omega arith), index_in query 5 0 (omega arith))
        (if-either Returns (not (from_be (get_or query 4 0) (get_or query 5 0) == 1)) _ _ (_, refl)
          (read_name query))
]
