-- ===== src/Wire/Question.antt =====
-- Where the question of a query ends: the fact that keeps every slice of a query in range.
use rustyalias.Common.{
  ℕ, ◌-◌, ◌≤◌, ◌≡◌, arith, some, Bytes, length, Option-cases, inl, inr, map_option, get_or, from_be,
  ret, index_in,
}
use rustyalias.Wire.{question_section_end, parse_qtype_qclass}

-- The end lies behind twelve bytes of header, a zero byte and four bytes more, and in the query.
pub question_section_end_bounds :
    (query : Bytes) {end : ℕ}
    → question_section_end query ≡ some end
    → (17 ≤ end) × (end ≤ length query)
unfolding question_section_end
question_section_end_bounds query e = ground arith

pub question_section_end-le :
    (query : Bytes) {end : ℕ} → question_section_end query ≡ some end → 12 ≤ length query
question_section_end-le query e = omega (arith, question_section_end_bounds query e)

-- The type and the class of the question that ends at `end`.
abbrev pub question_at : Bytes → ℕ → ℕ × ℕ
question_at query end = (
  from_be (get_or query (end - 4) 0) (get_or query (end - 3) 0),
  from_be (get_or query (end - 2) 0) (get_or query (end - 1) 0),
)

pub parse_qtype_qclass_lem :
    (query : Bytes)
    → parse_qtype_qclass query ≡ ret (map_option (question_at query) (question_section_end query))
parse_qtype_qclass_lem query = elim (Option-cases (question_section_end query)) [
  | inl e ↦ rw e (unfold parse_qtype_qclass in rw (e, parse_qtype_qclass))
  | inr (end, e) ↦
      let (lo, hi) = question_section_end_bounds query e in
      rw e (
        unfold parse_qtype_qclass in
        rw (
          e,
          parse_qtype_qclass,
          index_in query (end - 4) 0 (omega arith),
          index_in query (end - 3) 0 (omega arith),
          index_in query (end - 2) 0 (omega arith),
          index_in query (end - 1) 0 (omega arith),
        ))
]
