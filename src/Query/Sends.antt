-- ===== src/Query/Sends.antt =====
-- `handle_query`: the datagram that goes back, and its size.
use rustyalias.Common.{
  ℕ, ◌≤◌, ◌≡◌, refl, arith, max, inl, inr, [], ◌∷◌, Option, none, some, Bytes, length, Option-cases,
  ret,
}
use rustyalias.Wire.{question_section_end}
use rustyalias.Wire.Question.{question_section_end_bounds}
use rustyalias.Edns.{udp_response_limit, maybe_truncate_udp}
use rustyalias.Dnssec.Key.{Platform}
use rustyalias.Response.Truncate.{
  maybe_truncate_udp-length, maybe_truncate_udp_fits, udp_response_limit_bounds,
}
use rustyalias.Config.{Config}
use rustyalias.Query.{handle_query, send_response}
use rustyalias.Query.Handles.{
  Handled, dropped, errored, replied, error_bytes, handle_query_internal-Handled,
}

-- A datagram is within the limit of the query, or no longer than the query itself.
abbrev pub IsBounded : Bytes → Option Bytes → Type 0
IsBounded query none = Unit
IsBounded query (some r) = length r ≤ max (udp_response_limit query) (length query)

module _ (P : Platform) (query : Bytes) (config : Config P) where
  abbrev Sends : Bytes → Type 0
  Sends r =
      (s : Bytes) × (maybe_truncate_udp r query ≡ ret s)
      × (length s ≤ max (udp_response_limit query) (length query))

  with_question : (r : Bytes) {end : ℕ} → question_section_end query ≡ some end → Sends r
  with_question r e =
      let (s, f, h) = maybe_truncate_udp-length r query e in
      let (lo, hi) = question_section_end_bounds query e in (s, f, omega arith)

  bare_error :
      (rcode : ℕ) → question_section_end query ≡ none → length (error_bytes query rcode) ≤ 23
  bare_error rcode e = rw e (ground arith)

  errors : (rcode : ℕ) → Sends (error_bytes query rcode)
  errors rcode = elim (Option-cases (question_section_end query)) [
    | inl e ↦
        let (lo, hi) = udp_response_limit_bounds query in
        let h = bare_error rcode e in
        (_, maybe_truncate_udp_fits (error_bytes query rcode) query (omega arith), omega arith)
    | inr (end, e) ↦ with_question (error_bytes query rcode) e
  ]

  handled-Sends : (r : Bytes) → Handled P query config r → Sends r
  handled-Sends r (dropped e) =
      (r, maybe_truncate_udp_fits r query (rw e (omega arith)), rw e (omega arith))
  handled-Sends r (errored rcode known h e) = rw e (errors rcode)
  handled-Sends r (replied e w) = with_question r e

  send_response-IsBounded :
      (r : Bytes)
      → Sends r
      → (o : Option Bytes) × (send_response query r ≡ ret o) × IsBounded query o
  unfolding send_response
  send_response-IsBounded [] s = (none, refl, tt)
  send_response-IsBounded (c ∷ r) (s, f, h) = rw f (some s, refl, h)

  -- For every query and configuration `handle_query` returns. It sends nothing, or one datagram
  -- that is no longer than the limit for the query, or no longer than the query itself.
  pub handle_query-IsBounded :
      (o : Option Bytes) × (handle_query P query config ≡ ret o) × IsBounded query o
  unfolding handle_query
  handle_query-IsBounded =
      let (r, f, w) = handle_query_internal-Handled P query config in
      rw f (send_response-IsBounded r (handled-Sends r w))
