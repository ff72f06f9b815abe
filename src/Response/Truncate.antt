-- ===== src/Response/Truncate.antt =====
-- `maybe_truncate_udp`: what is left of a response that is too long.
use rustyalias.Common.{
  ℕ, suc, ◌+◌, ◌-◌, ◌≤◌, ◌<◌, ◌≡◌, refl, arith, max, Bool, false, some, ◌++◌, Bytes, length,
  length-slice, take, take_all, take-append_self, get_or, leb, ltb, if◌then◌else◌, bit_or,
  Bool-cases, inl, inr, ret, >>=-eq, store, slice_in, leb→le, le→leb, leb_gt, leb-false, ltb_ge,
  Option-cases,
}
use rustyalias.Wire.{question_section_end}
use rustyalias.Wire.Question.{question_section_end_bounds}
use rustyalias.Edns.{
  parse_query_opt, opt_udp_payload_size, udp_response_limit, query_has_opt, opt_record,
  truncated_header, drop_opt, fit_opt, maybe_truncate_udp,
}
use rustyalias.Response.Packet.{Packet, wire, HasCounts, additional, bump, push_bytes}
use rustyalias.Response.Layout.{with_opt, maybe_append_opt-wire}
use rustyalias.Response.Start.{asked, slice_id, slice_qdcount}

parse_query_opt-size :
    (query : Bytes) {size : ℕ} {do_bit : Bool}
    → parse_query_opt query ≡ some (size, do_bit)
    → 512 ≤ size
unfolding parse_query_opt
parse_query_opt-size query e = ground arith

-- The limit for a UDP response lies from 512 to 1232 bytes, whatever the query says.
pub udp_response_limit_bounds :
    (query : Bytes) → (512 ≤ udp_response_limit query) × (udp_response_limit query ≤ 1232)
unfolding udp_response_limit opt_udp_payload_size
udp_response_limit_bounds query = elim (Option-cases (parse_query_opt query)) [
  | inl e ↦ rw e (omega arith)
  | inr ((size, do_bit), e) ↦ rw e (omega (arith, parse_query_opt-size query e))
]

-- The header of the response with TC set, no counts but QDCOUNT, and the question.
abbrev pub cut_packet : Bytes → Bytes → ℕ → Packet
cut_packet response query end = record {
  id0 = get_or response 0 0;
  id1 = get_or response 1 0;
  flags0 = bit_or (get_or response 2 0) 0b0000_0010;
  flags1 = get_or response 3 0;
  qd0 = get_or query 4 0;
  qd1 = get_or query 5 0;
  ancount = 0;
  nscount = 0;
  arcount = 0;
  body = asked query end;
}

cut-HasCounts : (response query : Bytes) (end : ℕ) → HasCounts (cut_packet response query end)
cut-HasCounts response query end = omega arith

truncated_header-wire :
    (response query : Bytes) {end : ℕ}
    → 12 ≤ length response
    → question_section_end query ≡ some end
    → truncated_header response query end ≡ ret (wire (cut_packet response query end))
unfolding truncated_header
truncated_header-wire response query {end} h e =
    let (lo, hi) = question_section_end_bounds query e in
    >>=-eq _ (slice_id response h) (
      >>=-eq _ (slice_qdcount query (omega arith))
        (>>=-eq _ (slice_in query 12 end (omega arith) hi) refl))

twelve_add :
    (k : ℕ) → 12 + k ≡ suc (suc (suc (suc (suc (suc (suc (suc (suc (suc (suc (suc k)))))))))))
twelve_add k = omega arith

take-append_of_length : (k : ℕ) (xs ys : Bytes) → length xs ≡ k → take k (xs ++ ys) ≡ xs
take-append_of_length k xs ys h = rw (← h) (take-append_self xs ys)

-- The bytes with the record cut off again, whose ARCOUNT is still raised.
abbrev raised : Bytes → Bytes → ℕ → Packet
raised response query end = bump additional (cut_packet response query end)

length-asked :
    (query : Bytes) {end : ℕ}
    → question_section_end query ≡ some end
    → length (asked query end) ≡ end - 12
length-asked query {end} e =
    let (lo, hi) = question_section_end_bounds query e in length-slice query 12 end (omega arith) hi

take_header :
    (p : Packet) (k : ℕ) (tail : Bytes)
    → length p.body ≡ k
    → take (12 + k) (wire (push_bytes tail p)) ≡ wire p
take_header p k tail h = rw (twelve_add k, take-append_of_length k p.body tail h)

module _ (response query : Bytes) {end : ℕ} (e : question_section_end query ≡ some end) where
  drop_opt-wire :
      drop_opt (wire (with_opt query false (cut_packet response query end))) end
      ≡ ret (wire (cut_packet response query end))
  unfolding drop_opt store
  drop_opt-wire = elim (Bool-cases (query_has_opt query)) [
    | inl y ↦
        rw
          (
            y,
            take_header (raised response query end) (end - 12) (opt_record false)
                (length-asked query e),
          )
          (ground arith)
    | inr n ↦
        rw
          (
            n,
            twelve_add,
            take_all (end - 12) (asked query end) (omega (arith, length-asked query e)),
          )
          (ground arith)
  ]

  -- What is sent in place of a response over the limit: the OPT record stays if it fits.
  abbrev pub truncated : Bytes
  truncated =
      if ltb (udp_response_limit query)
        (length (wire (with_opt query false (cut_packet response query end))))
      then wire (cut_packet response query end)
      else wire (with_opt query false (cut_packet response query end))

  -- A response over the limit, to a query that has a question, is cut to its ID and flags with TC
  -- set, the QDCOUNT and the question of the query, no record counted, and the OPT record if the
  -- query has one and the limit leaves room for it.
  pub maybe_truncate_udp-cut :
      udp_response_limit query < length response → maybe_truncate_udp response query ≡ ret truncated
  unfolding maybe_truncate_udp
  maybe_truncate_udp-cut long =
      let (lo, hi) = udp_response_limit_bounds query in
      rw (leb-false (length response) (udp_response_limit query) long, e)
        (>>=-eq _ (truncated_header-wire response query (omega arith) e) (
          >>=-eq _
            (maybe_append_opt-wire query false (cut_packet response query end)
              (cut-HasCounts response query end))
            fits))
    where
      fits :
          fit_opt
            (udp_response_limit query)
            end
            (wire (with_opt query false (cut_packet response query end)))
          ≡ ret truncated
      fits =
          elim (Bool-cases (
            ltb (udp_response_limit query)
              (length (wire (with_opt query false (cut_packet response query end)))))) [
                | inl over ↦ rw (over, drop_opt-wire)
                | inr under ↦ rw under
              ]

  -- A truncated response is never longer than the limit, or than the query up to the end of its
  -- question where that is the longer.
  pub length-truncated : length truncated ≤ max (udp_response_limit query) end
  length-truncated =
      let (lo, hi) = question_section_end_bounds query e in
      let cut : length (wire (cut_packet response query end)) ≡ end =
        omega (arith, length-asked query e) in
      let whole = length (wire (with_opt query false (cut_packet response query end))) in
      elim (Bool-cases (ltb (udp_response_limit query) whole)) [
        | inl over ↦ rw over (omega arith)
        | inr under ↦ rw under (omega (arith, ltb_ge (udp_response_limit query) whole under))
      ]

-- A response that fits is sent as it is.
pub maybe_truncate_udp_fits :
    (response query : Bytes)
    → length response ≤ udp_response_limit query
    → maybe_truncate_udp response query ≡ ret response
unfolding maybe_truncate_udp
maybe_truncate_udp_fits response query h =
    rw (le→leb (length response) (udp_response_limit query) h)

-- For a query whose question ends at `end`, `maybe_truncate_udp` returns, and what it returns is no
-- longer than the limit, or than `end` where that is the longer.
pub maybe_truncate_udp-length :
    (response query : Bytes) {end : ℕ}
    → question_section_end query ≡ some end
    → (r : Bytes) × (maybe_truncate_udp response query ≡ ret r)
      × (length r ≤ max (udp_response_limit query) end)
maybe_truncate_udp-length response query e =
    elim (Bool-cases (leb (length response) (udp_response_limit query))) [
      | inl fits ↦
          let h = leb→le (length response) (udp_response_limit query) fits in
          (response, maybe_truncate_udp_fits response query h, omega arith)
      | inr long ↦
          let h = leb_gt (length response) (udp_response_limit query) long in
          (_, maybe_truncate_udp-cut response query e h, length-truncated response query e)
    ]
