-- ===== src/Edns.antt =====
-- The OPT record and the UDP limit of src/dns/response.rs. A read at a place below a length that
-- the same condition has just tested is `get_or`, whose default is then never taken.
use rustyalias.Common.{
  ℕ, ◌+◌, ◌-◌, Bool, false, not, ◌&&◌, ◌||◌, ◌∷◌, ◌++◌, Option, none, some, Bytes, ltb, leb, ◌==◌,
  if◌then◌else◌, is_some, map_option, unwrap_or, length, get_or, take, drop, min, max, bit_and,
  bit_or, from_be, be16, saturating_add16, Outcome, ret, ◌>>=◌, index, slice, store,
}
use rustyalias.Wire.{
  type_opt, default_udp_size, edns_udp_size, offset_arcount, question_section_end,
}

abbrev opt_of_rest : Bytes → Option (ℕ × Bool)
opt_of_rest rest =
    if leb 11 (length rest)
      && (get_or rest 0 0 == 0 && (get_or rest 1 0 == 0 && get_or rest 2 0 == 0x29))
    then some (
      max (from_be (get_or rest 3 0) (get_or rest 4 0)) 512,
      not (bit_and (from_be (get_or rest 7 0) (get_or rest 8 0)) 0x8000 == 0),
    )
    else none

-- The UDP size and the DO bit of the OPT record, if that is the first additional record.
unfoldable pub parse_query_opt : Bytes → Option (ℕ × Bool)
parse_query_opt query =
    if ltb (length query) 12
    then none
    else if from_be (get_or query 10 0) (get_or query 11 0) == 0
    then none
    else elim (question_section_end query) [ none ↦ none | some end ↦ opt_of_rest (drop end query) ]

unfoldable pub opt_udp_payload_size : Bytes → Option ℕ
opt_udp_payload_size query = map_option (λ p. p.0) (parse_query_opt query)

unfoldable pub query_has_opt : Bytes → Bool
query_has_opt query = is_some (opt_udp_payload_size query)

unfoldable pub query_dnssec_ok : Bytes → Bool
query_dnssec_ok query = elim (parse_query_opt query) [ none ↦ false | some (size, do_bit) ↦ do_bit ]

unfoldable pub udp_response_limit : Bytes → ℕ
udp_response_limit query =
    min (unwrap_or (opt_udp_payload_size query) default_udp_size) edns_udp_size

-- A 16-bit count of the header, raised by one, and stuck at 65535.
unfoldable pub bump_count : Bytes → ℕ → Outcome Bytes
bump_count buf offset = do
  hi ← index buf offset
  lo ← index buf (offset + 1)
  let n = saturating_add16 (from_be hi lo) 1
  buf ← store buf offset (get_or (be16 n) 0 0)
  store buf (offset + 1) (get_or (be16 n) 1 0)

abbrev pub opt_record : Bool → Bytes
opt_record dnssec_ok =
    0
    ∷ (be16 type_opt
        ++ (be16 edns_udp_size ++ (0 ∷ 0 ∷ (be16 (if dnssec_ok then 0x8000 else 0) ++ be16 0))))

unfoldable pub maybe_append_opt : Bytes → Bytes → Bool → Outcome Bytes
maybe_append_opt response query dnssec_ok =
    if not (query_has_opt query) || ltb (length response) 12
    then ret response
    else (do response ← bump_count response offset_arcount; ret (response ++ opt_record dnssec_ok))

-- The truncated message before the OPT record: the header with TC set and no counts but QDCOUNT,
-- and the question.
unfoldable pub truncated_header : Bytes → Bytes → ℕ → Outcome Bytes
truncated_header response query qend = do
  id ← slice response 0 2
  let flags0 = bit_or (get_or response 2 0) 0b0000_0010
  let flags1 = get_or response 3 0
  qdcount ← slice query 4 6
  question ← slice query 12 qend
  ret (id ++ (flags0 ∷ flags1 ∷ (qdcount ++ (0 ∷ 0 ∷ 0 ∷ 0 ∷ 0 ∷ 0 ∷ question))))

-- `truncated.truncate(12 + (qend - 12))` and the cleared ARCOUNT.
unfoldable pub drop_opt : Bytes → ℕ → Outcome Bytes
drop_opt truncated qend = do
  truncated ← store (take (12 + (qend - 12)) truncated) offset_arcount 0
  store truncated (offset_arcount + 1) 0

abbrev pub fit_opt : ℕ → ℕ → Bytes → Outcome Bytes
fit_opt limit qend truncated =
    if ltb limit (length truncated) then drop_opt truncated qend else ret truncated

abbrev pub truncate_to : ℕ → Bytes → Bytes → Option ℕ → Outcome Bytes
truncate_to limit response query none = ret response
truncate_to limit response query (some qend) = do
  truncated ← truncated_header response query qend
  truncated ← maybe_append_opt truncated query false
  fit_opt limit qend truncated

-- A response over the limit keeps its header and question, and the OPT record if that fits.
unfoldable pub maybe_truncate_udp : Bytes → Bytes → Outcome Bytes
maybe_truncate_udp response query =
    let limit = udp_response_limit query in
    if leb (length response) limit
    then ret response
    else truncate_to limit response query (question_section_end query)
