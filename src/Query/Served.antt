-- ===== src/Query/Served.antt =====
-- The purpose of the server, from the bytes of a query to the bytes of its answer: a name that
-- starts with an address in hexadecimal, or in decimal with hyphens, is answered with the address.
use rustyalias.Common.{
  ◌≤◌, ◌+◌, ℕ, ◌≡◌, ◌≢◌, refl, sym, ap, ◌∙◌, arith, true, false, inr, [], ◌∷◌, ◌++◌, Bytes, length,
  get_or, All, IsByte, from_be, ret,
}
use rustyalias.Text.{split, trim_dots, to_lower}
use rustyalias.Text.Case.{lower, lower-append, to_lower_idem}
use rustyalias.Text.Split.{split-part}
use rustyalias.Text.Dots.{trim_dots-append, trim_dots_idem, trim_dots-lower}
use rustyalias.Net.{Ipv4Addr, octets}
use rustyalias.Dnssec.Key.{Platform}
use rustyalias.Wire.Encode.{framed}
use rustyalias.Wire.{rcode_noerror, type_a, class_in}
use rustyalias.Edns.{query_dnssec_ok}
use rustyalias.Response.{sign}
use rustyalias.Response.Packet.{wire, answers, push}
use rustyalias.Response.Layout.{with_opt}
use rustyalias.Response.Start.{opening, asked}
use rustyalias.Response.Address.{address_record}
use rustyalias.Config.{Config}
use rustyalias.Query.{opcode, zone_params, handle_query_internal}
use rustyalias.Query.Written.{Writes, Stands, Writes-Stands}
use rustyalias.Query.RoundTrip.{IsName}
use rustyalias.Query.Encoded.{client_query, client_query-Asks, client_query-question_at}
use rustyalias.Query.Zone.Suffix.{InZone}
use rustyalias.Query.Address.{IsPlain, handle_query_internal-address}

lower_idem : (s : Bytes) → lower (lower s) ≡ lower s
lower_idem [] = refl
lower_idem (c ∷ s) = rw (to_lower_idem c, lower_idem s)

-- A label in a zone, the zone without the dots at its end.
abbrev pub label_name : Bytes → Bytes → Bytes
label_name label zone = label ++ (b'.' ∷ trim_dots zone)

trim_dots-label_name :
    (label zone : Bytes)
    → trim_dots zone ≢ []
    → trim_dots (label_name label zone) ≡ label_name label zone
trim_dots-label_name label zone ne =
    let z = trim_dots zone in
    let kept : trim_dots (b'.' ∷ z) ≡ b'.' ∷ z =
      trim_dots-append (b'.' ∷ []) z (λ e. ne (sym (trim_dots_idem zone) ∙ e))
      ∙ ap (λ t. b'.' ∷ t) (trim_dots_idem zone) in
    trim_dots-append label (b'.' ∷ z) (λ e. cc (sym kept ∙ e)) ∙ ap (λ t. label ++ t) kept

label_name-IsName :
    (ip : Ipv4Addr) (label zone : Bytes)
    → Stands ip label
    → IsName (trim_dots zone)
    → IsName (label_name label zone)
label_name-IsName ip label zone h named =
    rw (split-part b'.' label (trim_dots zone) h.no_dot) (h.is_label, named)

lower-label_name :
    (label zone : Bytes)
    → lower (label_name label zone) ≡ lower label ++ (b'.' ∷ lower (trim_dots zone))
unfolding to_lower
lower-label_name label zone = lower-append label (b'.' ∷ trim_dots zone)

lower-nonempty : (label : Bytes) → 1 ≤ length label → lower label ≢ []
lower-nonempty [] h = absurd (omega arith)
lower-nonempty (c ∷ s) h = λ e. cc e

label_name-InZone :
    (label zone : Bytes)
    → 1 ≤ length label
    → trim_dots zone ≢ []
    → InZone (trim_dots (lower (label_name label zone))) (trim_dots zone)
label_name-InZone label zone some_bytes ne = record {
  not_root = ne;
  suffix = inr (
    lower label,
    lower-nonempty label some_bytes,
    ap lower (trim_dots-lower (label_name label zone))
        ∙ ap (λ t. lower (lower t)) (trim_dots-label_name label zone ne)
        ∙ lower_idem (label_name label zone)
        ∙ lower-label_name label zone,
  );
}

-- The labels of the name in the query.
abbrev pub name_labels : Bytes → Bytes → Bytes
name_labels label zone = framed (split b'.' (lower (label_name label zone)))

IsName-nonempty : (s : Bytes) → IsName s → s ≢ []
unfolding split
IsName-nonempty [] (h, hs) = let n = h.not_empty in absurd (omega arith)
IsName-nonempty (c ∷ s) h = λ e. cc e

-- The query for the address of the name, with a header in front and anything behind, and where its
-- question ends.
abbrev pub label_query : Bytes → Bytes → Bytes → Bytes → Bytes
label_query header label zone rest =
    client_query header (label_name label zone) type_a class_in rest

abbrev pub label_query_end : Bytes → Bytes → ℕ
label_query_end label zone = 12 + length (name_labels label zone) + 5

module _ (P : Platform) (config : Config P) (header rest : Bytes) (ip : Ipv4Addr) (label : Bytes)
    (l : length header ≡ 12) (h : All IsByte (octets ip)) (w : Writes ip label)
    (named : IsName (trim_dots config.glue_name)) where
  -- A standard query with one question, as a client writes it: the type A, the class IN, and a name
  -- that is an address, in hexadecimal or in decimal with hyphens, in front of the zone. A server
  -- that does not sign, and for which the name has no meaning of its own, answers with just the A
  -- record of the address, counted as the one answer, and the OPT record if the query had one. Each
  -- label of the zone has 1 to 63 bytes, all ASCII and none zero.
  pub handle_query_internal-label_name :
      opcode header ≡ 0
      → from_be (get_or header 4 0) (get_or header 5 0) ≡ 1
      → IsPlain P config (lower (label_name label config.glue_name))
      → sign P
          (zone_params P config (query_dnssec_ok (label_query header label config.glue_name rest)))
        ≡ false
      → handle_query_internal P (label_query header label config.glue_name rest) config
        ≡ ret (
            wire (
              with_opt (label_query header label config.glue_name rest) false (
                push answers
                  (opening (label_query header label config.glue_name rest) true rcode_noerror (
                    asked
                      (label_query header label config.glue_name rest)
                      (label_query_end label config.glue_name)))
                  (address_record ip))))
  handle_query_internal-label_name standard one plain unsigned =
      let zone = config.glue_name in
      let stands = Writes-Stands ip h label w in
      let ne = IsName-nonempty (trim_dots zone) named in
      let trimmed = trim_dots-label_name label zone ne in
      let is_name : IsName (trim_dots (label_name label zone)) =
        rw trimmed (label_name-IsName ip label zone stands named) in
      let asks =
        client_query-Asks header (label_name label zone) rest type_a class_in l is_name
          (omega arith) refl standard one in
      let question =
        client_query-question_at header (label_name label zone) rest type_a class_in l is_name
          (omega arith) (omega arith) in
      let (v6, found) = stands.reads (lower (trim_dots zone)) in
      handle_query_internal-address P (label_query header label zone rest) config
        (lower (label_name label zone)) (rw trimmed at asks) plain ip v6
        (label_name-InZone label zone stands.is_label.not_empty ne)
        (ap (λ q. q.0) (rw trimmed at question)) unsigned (rw (lower-label_name label zone) found)
