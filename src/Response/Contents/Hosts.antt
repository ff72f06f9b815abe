-- ===== src/Response/Contents/Hosts.antt =====
-- The responses for names that are not the apex: addresses and texts.
use rustyalias.Common.{
  keep_if, ap, is_none, is_empty, is_some, ◌&&◌, ℕ, ◌≡◌, refl, ◌∙◌, true, false, ◌||◌, List, [],
  ◌∷◌, Option, none, some, Bytes, ◌==◌, if◌then◌else◌, Outcome, ret,
}
use rustyalias.Net.{Ipv4Addr, Ipv6Addr}
use rustyalias.IpParser.{Addresses}
use rustyalias.Wire.{
  question_section_end, rcode_noerror, type_a, type_aaaa, type_txt, type_any, type_nsec,
}
use rustyalias.Dnssec.Bitmap.{dedup}
use rustyalias.Dnssec.Key.{Platform}
use rustyalias.Response.{ZoneParams, Rr, Msg, add_rr, add_a, add_aaaa, add_txt}
use rustyalias.Response.Emit.{finish}
use rustyalias.Response.Build.{
  with_msg, nodata, build_nodata_response, address_types, add_answer_aaaa, add_answer_a,
  build_address_response, build_txt_response,
}
use rustyalias.Response.Start.{opened, opening, asked, with_question-opening}
use rustyalias.Response.Contents.{
  a_records, aaaa_records, denial, Sections, Node, matching, host_records, text_record, types_of,
  lookup, response, message_of,
}
use rustyalias.Response.Contents.Matching.{matching-host_records}
use rustyalias.Response.Contents.Adds.{nodata-denial, finish-response}

abbrev pub host : Addresses → Node
host ip = record { records = host_records ip; apex = false }

abbrev pub text : Bytes → Node
text txt = record { records = text_record txt ∷ []; apex = false }

address_types-types_of :
    (v4 : Option Ipv4Addr) (v6 : Option Ipv6Addr)
    → address_types (v4, v6) ≡ types_of (host_records (v4, v6))
unfolding address_types dedup
address_types-types_of none none = refl
address_types-types_of none (some b) = refl
address_types-types_of (some a) none = refl
address_types-types_of (some a) (some b) = refl

module _ (P : Platform) (params : ZoneParams P) (query : Bytes) {end : ℕ}
    (e : question_section_end query ≡ some end) where
  -- The response is what the lookup at the node gives.
  abbrev pub Looks : Node → ℕ → Outcome Bytes → Type 0
  Looks node qtype o = o ≡ ret (response P params query end (lookup P params query end node qtype))

  abbrev answered : List Rr → Sections
  answered rs = record { answers = rs; authority = []; additional = [] }

  -- A message with some answers and nothing else is finished as the response.
  finished :
      (f : Msg → Msg) (rs : List Rr)
      → f (opened (opening query true rcode_noerror (asked query end)))
        ≡ message_of P params query end (answered rs)
      → with_msg query (λ m. finish P (f m) query params)
        ≡ ret (response P params query end (answered rs))
  finished f rs same =
      rw (with_question-opening query true rcode_noerror e, same)
        (finish-response P params query e (answered rs))

  no_address :
      (v4 : Option Ipv4Addr) (v6 : Option Ipv6Addr)
      → nodata P query params (address_types (v4, v6))
        ≡ ret (
            response P params query end (record {
              answers = [];
              authority = denial P params query end (host_records (v4, v6));
              additional = [];
            }))
  no_address v4 v6 =
      nodata-denial P params query e (address_types (v4, v6)) (host_records (v4, v6))
        (address_types-types_of v4 v6)

  -- With the addresses that the question asks for, the sections are those of a lookup.
  abbrev sections_of : Addresses → List Rr → Sections
  sections_of ip [] = record {
    answers = [];
    authority = denial P params query end (host_records ip);
    additional = [];
  }
  sections_of ip (r ∷ rs) = answered (r ∷ rs)

  kept_addresses :
      (v4 k4 : Option Ipv4Addr) (v6 k6 : Option Ipv6Addr)
      → (if is_none k4 && is_none k6
          then nodata P query params (address_types (v4, v6))
          else with_msg query (λ m. finish P (add_answer_aaaa (add_answer_a m k4) k6) query params))
        ≡ ret (response P params query end (sections_of (v4, v6) (host_records (k4, k6))))
  unfolding add_a add_aaaa add_rr
  kept_addresses v4 none v6 none = no_address v4 v6
  kept_addresses v4 none v6 (some b) =
      finished (λ m. add_answer_aaaa (add_answer_a m none) (some b)) (aaaa_records (some b)) refl
  kept_addresses v4 (some a) v6 none =
      finished (λ m. add_answer_aaaa (add_answer_a m (some a)) none) (a_records (some a)) refl
  kept_addresses v4 (some a) v6 (some b) =
      finished (λ m. add_answer_aaaa (add_answer_a m (some a)) (some b))
        (host_records (some a, some b)) refl

  -- For any type, the response for a name with some addresses is what the lookup gives.
  pub build_address_response-Looks :
      (qtype : ℕ) (v4 : Option Ipv4Addr) (v6 : Option Ipv6Addr)
      → Looks (host (v4, v6)) qtype (build_address_response P query qtype (v4, v6) params)
  unfolding build_address_response
  build_address_response-Looks qtype v4 v6 =
      kept_addresses v4 (keep_if (qtype == type_a || qtype == type_any) v4) v6
        (keep_if (qtype == type_aaaa || qtype == type_any) v6)
      ∙ ap (λ s. ret (response P params query end s))
          (sections_of-lookup (matching qtype (host_records (v4, v6)))
            (host_records (
              keep_if (qtype == type_a || qtype == type_any) v4,
              keep_if (qtype == type_aaaa || qtype == type_any) v6,
            ))
            (matching-host_records qtype v4 v6))
    where
      sections_of-lookup :
          (found kept : List Rr)
          → found ≡ kept
          → sections_of (v4, v6) kept ≡ (
              if is_empty found
              then record {
                answers = [];
                authority = denial P params query end (host_records (v4, v6));
                additional = [];
              }
              else answered found)
      sections_of-lookup found [] same = rw same refl
      sections_of-lookup found (r ∷ rs) same = rw same refl

  -- The response for a name with one text is what the lookup gives, for the types it is made for.
  pub build_txt_response-Looks :
      (qtype : ℕ) (txt : Bytes)
      → qtype == type_txt || qtype == type_any ≡ true
      → Looks (text txt) qtype (build_txt_response P query txt params)
  unfolding build_txt_response matching add_txt add_rr
  build_txt_response-Looks qtype txt h =
      rw h (finished (λ m. add_txt m txt) (text_record txt ∷ []) refl)

  pub nodata-Looks :
      (qtype : ℕ) (types : List ℕ) (node : Node)
      → types ≡ types_of node.records
      → node.apex && (qtype == type_nsec && is_some params.dnssec) ≡ false
      → matching qtype node.records ≡ []
      → Looks node qtype (nodata P query params types)
  nodata-Looks qtype types node same other none_match =
      rw (other, none_match) (nodata-denial P params query e types node.records same)

  -- Where the type is another one, the response for a name with one text is one of no data.
  pub build_nodata-text :
      (qtype : ℕ) (txt : Bytes)
      → qtype == type_txt || qtype == type_any ≡ false
      → Looks (text txt) qtype (build_nodata_response P query params (type_txt ∷ []))
  unfolding matching dedup
  build_nodata-text qtype txt h =
      nodata-Looks qtype (type_txt ∷ []) (text txt) refl refl (rw h refl)

  -- A name without an address has no data of any type.
  pub build_nodata-nameless :
      (qtype : ℕ) → Looks (host (none, none)) qtype (build_nodata_response P query params [])
  unfolding matching dedup
  build_nodata-nameless qtype = nodata-Looks qtype [] (host (none, none)) refl refl refl
