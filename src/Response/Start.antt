-- ===== src/Response/Start.antt =====
-- The header and the question that every response starts with.
use rustyalias.Common.{
  ltb-false, ℕ, ◌-◌, ◌≤◌, ◌≡◌, arith, Bool, false, Option, none, some, [], ◌∷◌, ◌++◌, Bytes, length,
  take, drop, get_or, ret, >>=-eq, slice, slice_in, Option-cases, inl, inr,
}
use rustyalias.Wire.{question_section_end, response_flags}
use rustyalias.Edns.{maybe_append_opt}
use rustyalias.Wire.Question.{question_section_end_bounds}
use rustyalias.Response.{Msg, with_question}
use rustyalias.Response.Build.{error_response, question_or_empty}
use rustyalias.Response.Packet.{Packet, wire, HasCounts}
use rustyalias.Response.Layout.{with_opt, maybe_append_opt-wire}

-- ID, flags and QDCOUNT for a query, with no records yet.
abbrev pub opening : Bytes → Bool → ℕ → Bytes → Packet
opening query aa rcode body = record {
  id0 = get_or query 0 0;
  id1 = get_or query 1 0;
  flags0 = get_or (response_flags query aa rcode) 0 0;
  flags1 = get_or (response_flags query aa rcode) 1 0;
  qd0 = get_or query 4 0;
  qd1 = get_or query 5 0;
  ancount = 0;
  nscount = 0;
  arcount = 0;
  body = body;
}

-- The bytes of the question that ends at `end`.
abbrev pub asked : Bytes → ℕ → Bytes
asked query end = take (end - 12) (drop 12 query)

pub opening-HasCounts :
    (query : Bytes) (aa : Bool) (rcode : ℕ) (b : Bytes) → HasCounts (opening query aa rcode b)
opening-HasCounts query aa rcode b = omega arith

pub slice_id :
    (query : Bytes)
    → 12 ≤ length query
    → slice query 0 2 ≡ ret (get_or query 0 0 ∷ get_or query 1 0 ∷ [])
slice_id (a ∷ b ∷ q) h = slice_in (a ∷ b ∷ q) 0 2 (omega arith) (omega arith)
slice_id _ h = absurd (omega arith)

pub slice_qdcount :
    (query : Bytes)
    → 12 ≤ length query
    → slice query 4 6 ≡ ret (get_or query 4 0 ∷ get_or query 5 0 ∷ [])
slice_qdcount (a ∷ b ∷ c ∷ d ∷ e ∷ f ∷ q) h =
    slice_in (a ∷ b ∷ c ∷ d ∷ e ∷ f ∷ q) 4 6 (omega arith) (omega arith)
slice_qdcount _ h = absurd (omega arith)

abbrev pub opened : Packet → Msg
opened p = record { buf = wire p; answers = []; authority = []; additional = [] }

pub with_question-opening :
    (query : Bytes) (aa : Bool) (rcode : ℕ) {end : ℕ}
    → question_section_end query ≡ some end
    → with_question query aa rcode ≡ ret (some (opened (opening query aa rcode (asked query end))))
unfolding with_question response_flags
with_question-opening query aa rcode {end} e =
    let (lo, hi) = question_section_end_bounds query e in
    rw (
      e,
      with_question,
      slice_id query (omega arith),
      slice_qdcount query (omega arith),
      slice_in query 12 end (omega arith) hi,
    )

pub with_question-none :
    (query : Bytes) (aa : Bool) (rcode : ℕ)
    → question_section_end query ≡ none
    → with_question query aa rcode ≡ ret none
unfolding with_question
with_question-none query aa rcode e = rw (e, with_question)

-- The question of an error response, where there is one.
abbrev pub asked_or_empty : Bytes → Option ℕ → Bytes
asked_or_empty query none = []
asked_or_empty query (some end) = asked query end

question_or_empty_lem :
    (query : Bytes)
    → question_or_empty query ≡ ret (asked_or_empty query (question_section_end query))
unfolding question_or_empty
question_or_empty_lem query = elim (Option-cases (question_section_end query)) [
  | inl e ↦ rw (e, question_or_empty)
  | inr (end, e) ↦
      let (lo, hi) = question_section_end_bounds query e in
      rw (e, question_or_empty, slice_in query 12 end (omega arith) hi)
]

error_packet :
    (query : Bytes) (rcode : ℕ) (b : Bytes)
    → maybe_append_opt
        ((get_or query 0 0 ∷ get_or query 1 0 ∷ [])
          ++ (response_flags query false rcode
              ++ ((get_or query 4 0 ∷ get_or query 5 0 ∷ [])
                  ++ ((0 ∷ 0 ∷ 0 ∷ 0 ∷ 0 ∷ 0 ∷ []) ++ b))))
        query
        false
      ≡ ret (wire (with_opt query false (opening query false rcode b)))
unfolding response_flags
error_packet query rcode b =
    maybe_append_opt-wire query false (opening query false rcode b)
      (opening-HasCounts query false rcode b)

-- For a query of twelve bytes or more, `error_response` returns a header with the code and without
-- records, the question if the query has one, and the OPT record, counted, if the query has one.
pub error_response-wire :
    (query : Bytes) (rcode : ℕ)
    → 12 ≤ length query
    → error_response query rcode
      ≡ ret (
          wire (
            with_opt query false
              (opening query false rcode (asked_or_empty query (question_section_end query)))))
unfolding error_response
error_response-wire query rcode h = rw (ltb-false (length query) 12 h) (
    >>=-eq _ (slice_id query h) (
      >>=-eq _ (slice_qdcount query h)
        (>>=-eq _ (question_or_empty_lem query) (error_packet query rcode _))))
