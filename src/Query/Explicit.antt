-- ===== src/Query/Explicit.antt =====
-- The responses of `handle_query_internal` byte by byte, with numbers in place of the code's constants.
use rustyalias.Common.{
  ℕ, ◌+◌, ◌≤◌, ◌≡◌, ◌⊎◌, refl, ap, ◌∙◌, arith, Bool, true, false, inl, inr, List, [], ◌∷◌, ◌++◌,
  append-nil, if◌then◌else◌, some, get_or, Bytes, length, be16, min, Bool-cases, bit_and, IsByte,
  All, ret,
}
use rustyalias.Wire.{response_flags, question_section_end, rcode_noerror}
use rustyalias.Edns.{query_has_opt, opt_record, query_dnssec_ok}
use rustyalias.Dnssec.Key.{Platform}
use rustyalias.Response.{Rr, sign}
use rustyalias.Response.Build.{error_response}
use rustyalias.Response.Packet.{wire}
use rustyalias.Response.Start.{opening, asked, asked_or_empty, error_response-wire}
use rustyalias.Response.Reply.{records_bytes, reply_packet}
use rustyalias.Config.{Config}
use rustyalias.Query.{zone_params}
use rustyalias.Query.Header.{header, aa_table, plain_table, get_or-IsByte}
use rustyalias.Query.Handles.{Handled, dropped, errored, replied, error_bytes}

-- One for the OPT record of a response, if the query has one.
abbrev pub opt_count : Bytes → ℕ
opt_count query = if query_has_opt query then 1 else 0

-- The OPT record of a response: the root, type 41, 1232 bytes of payload, and the DO bit.
abbrev pub opt_bytes : Bytes → Bool → Bytes
opt_bytes query do_bit =
    if query_has_opt query
    then 0 ∷ 0 ∷ 41 ∷ 4 ∷ 208 ∷ 0 ∷ 0 ∷ (if do_bit then 128 else 0) ∷ 0 ∷ 0 ∷ 0 ∷ []
    else []

-- An error: the header with the code, no record but the OPT record, and the question if there is one.
abbrev pub error_text : Bytes → ℕ → Bytes
error_text query rcode =
    header query 0 rcode
    ++ (0
        ∷ 0
        ∷ 0
        ∷ 0
        ∷ 0
        ∷ opt_count query
        ∷ (asked_or_empty query (question_section_end query) ++ opt_bytes query false))

-- An authoritative response: the header with the counts of the records, which stop at 65535, and the
-- question, the records of the three sections and the OPT record.
abbrev pub reply_text : Bytes → ℕ → Bool → List Rr → List Rr → List Rr → Bytes
reply_text query end do_bit an ns ar =
    header query 1 0
    ++ (be16 (min 65535 (length an))
        ++ (be16 (min 65535 (length ns))
            ++ (be16 (min 65535 (length ar + opt_count query))
                ++ ((((asked query end ++ records_bytes an) ++ records_bytes ns)
                      ++ records_bytes ar)
                    ++ opt_bytes query do_bit))))

opt_record-bytes :
    (do_bit : Bool)
    → opt_record do_bit
      ≡ 0 ∷ 0 ∷ 41 ∷ 4 ∷ 208 ∷ 0 ∷ 0 ∷ (if do_bit then 128 else 0) ∷ 0 ∷ 0 ∷ 0 ∷ []
opt_record-bytes true = refl
opt_record-bytes false = refl

-- The two codes of the errors.
abbrev pub IsErrorCode : ℕ → Type 0
IsErrorCode rcode = (rcode ≡ 4) ⊎ (rcode ≡ 5)

-- What may become of a query.
pub data Answered (P : Platform) (query : Bytes) (config : Config P) (r : Bytes) : Type 0 where
  unanswered : r ≡ [] → Answered P query config r
  refusing :
      (rcode : ℕ)
      → IsErrorCode rcode
      → 12 ≤ length query
      → r ≡ error_text query rcode
      → Answered P query config r
  replying :
      {end : ℕ}
      → question_section_end query ≡ some end
      → (an : List Rr) (ns : List Rr) (ar : List Rr)
      → r ≡ reply_text query end (sign P (zone_params P config (query_dnssec_ok query))) an ns ar
      → Answered P query config r

module _ (query : Bytes) (bytes : All IsByte query) where
  error_bytes-code :
      (rcode : ℕ) → bit_and rcode 0b1111 ≡ rcode → error_bytes query rcode ≡ error_text query rcode
  unfolding response_flags
  error_bytes-code rcode low = elim (Bool-cases (query_has_opt query)) [
    | inl y ↦ rw (y, low, plain_table (get_or query 2 0) (get_or-IsByte 2 query bytes))
    | inr n ↦ rw (n, low, plain_table (get_or query 2 0) (get_or-IsByte 2 query bytes), append-nil)
  ]

  pub error_bytes-text :
      (rcode : ℕ) → IsErrorCode rcode → error_bytes query rcode ≡ error_text query rcode
  error_bytes-text rcode (inl e) = error_bytes-code rcode (rw e refl)
  error_bytes-text rcode (inr e) = error_bytes-code rcode (rw e refl)

  pub reply-text :
      (do_bit : Bool) (end : ℕ) (an ns ar : List Rr)
      → wire
          (reply_packet query do_bit (opening query true rcode_noerror (asked query end)) an ns ar)
        ≡ reply_text query end do_bit an ns ar
  unfolding response_flags
  reply-text do_bit end an ns ar =
      let a : 0 + length an ≡ length an = omega arith in
      let b : 0 + length ns ≡ length ns = omega arith in
      elim (Bool-cases (query_has_opt query)) [
        | inl y ↦
            let c : min 65535 (min 65535 (0 + length ar) + 1) ≡ min 65535 (length ar + 1) =
              omega arith in
            rw (
              y,
              opt_record-bytes do_bit,
              a,
              b,
              c,
              aa_table (get_or query 2 0) (get_or-IsByte 2 query bytes),
            )
        | inr n ↦
            let c : 0 + length ar ≡ length ar + 0 = omega arith in
            rw (n, a, b, c, aa_table (get_or query 2 0) (get_or-IsByte 2 query bytes), append-nil)
      ]

  pub Handled-Answered :
      (P : Platform) (config : Config P) (r : Bytes)
      → Handled P query config r
      → Answered P query config r
  Handled-Answered P config r (dropped e) = unanswered e
  Handled-Answered P config r (errored rcode known h e) =
      refusing rcode known h (e ∙ error_bytes-text rcode known)
  Handled-Answered P config r (replied {end} e (an, ns, ar, w)) =
      replying e an ns ar
        (w ∙ reply-text (sign P (zone_params P config (query_dnssec_ok query))) end an ns ar)

  -- For a query of bytes, twelve or more, and the codes 4 (NOTIMP) and 5 (REFUSED), `error_response`
  -- returns the header with QR and the code, the ID, opcode, RD and QDCOUNT of the query and no other
  -- flag, and no record; the question, if it can be found; and, if the query has an OPT record, one
  -- with 1232 bytes of payload, counted.
  pub error_response-text :
      (rcode : ℕ)
      → IsErrorCode rcode
      → 12 ≤ length query
      → error_response query rcode ≡ ret (error_text query rcode)
  error_response-text rcode known h =
      error_response-wire query rcode h ∙ ap ret (error_bytes-text rcode known)
