-- ===== src/Response/Replies.antt =====
-- Each builder of a response returns, and its response is well formed: the header counts the
-- records that it holds.
use rustyalias.Common.{
  ℕ, ◌≡◌, refl, ◌∙◌, true, Option, none, some, List, Bytes, ◌==◌, is_none, keep_if, ◌&&◌, ◌||◌,
  Bool-cases, inl, inr, Outcome, ret,
}
use rustyalias.Net.{Ipv4Addr, Ipv6Addr}
use rustyalias.IpParser.{Addresses}
use rustyalias.Wire.{
  question_section_end, rcode_noerror, offset_nscount, type_soa, type_a, type_aaaa, type_any,
  ttl_soa,
}
use rustyalias.Dnssec.Key.{Platform}
use rustyalias.Response.{ZoneParams, Msg, add_a, add_aaaa, add_txt, sign, add_soa, name, soa_rdata}
use rustyalias.Response.Emit.{finish}
use rustyalias.Response.Build.{
  with_msg, nodata, nodata_message, build_txt_response, build_address_response, address_types,
  add_answer_a, add_answer_aaaa,
}
use rustyalias.Response.Packet.{wire}
use rustyalias.Response.Layout.{finish-wire}
use rustyalias.Response.Start.{opening, asked, opened, opening-HasCounts, with_question-opening}
use rustyalias.Response.Reply.{IsReply, laid_out-IsReply}
use rustyalias.Response.Builders.{add_rr-buf, add_nsec-Keeps}

-- The computation returns a well-formed authoritative response to the query.
abbrev pub Replies : (P : Platform) → Bytes → ℕ → ZoneParams P → Outcome Bytes → Type 0
Replies P query end params o =
    (r : Bytes) × (o ≡ ret r)
    × IsReply query (sign P params) (opening query true rcode_noerror (asked query end)) r

-- The message holds nothing but its header and question yet.
abbrev pub IsOpening : Bytes → ℕ → Msg → Type 0
IsOpening query end m = m.buf ≡ wire (opening query true rcode_noerror (asked query end))

module _ (P : Platform) (query : Bytes) {end : ℕ} (e : question_section_end query ≡ some end)
    (params : ZoneParams P) where
  pub Replies-by :
      {o o' : Outcome Bytes} → o ≡ o' → Replies P query end params o' → Replies P query end params o
  Replies-by eq (r, f, w) = (r, eq ∙ f, w)

  pub finish-Replies :
      (m : Msg) → IsOpening query end m → Replies P query end params (finish P m query params)
  finish-Replies m b =
      let h = opening-HasCounts query true rcode_noerror (asked query end) in
      (_, finish-wire P query e params m _ b h, laid_out-IsReply P query end params m _ h)

  pub with_msg-Replies :
      (f : Msg → Outcome Bytes)
      → ((m : Msg) → IsOpening query end m → Replies P query end params (f m))
      → Replies P query end params (with_msg query f)
  with_msg-Replies f k =
      rw (with_question-opening query true rcode_noerror e)
        (k (opened (opening query true rcode_noerror (asked query end))) refl)

  nodata_message-Replies :
      (types : List ℕ) (m : Msg)
      → IsOpening query end m
      → Replies P query end params (nodata_message P query params types m)
  unfolding nodata_message add_soa
  nodata_message-Replies types m b =
      let soa = add_soa P m offset_nscount (name params.zone) params in
      let b1 =
        add_rr-buf m offset_nscount (name params.zone) type_soa ttl_soa (soa_rdata P params) ∙ b in
      elim (Bool-cases (sign P params)) [
        | inl signed ↦
            let (m', f, b2) = add_nsec-Keeps P params soa offset_nscount query types e in
            Replies-by (rw (signed, e, f)) (finish-Replies m' (b2 ∙ b1))
        | inr plain ↦ Replies-by (rw plain) (finish-Replies soa b1)
      ]

  pub nodata-Replies : (types : List ℕ) → Replies P query end params (nodata P query params types)
  unfolding nodata
  nodata-Replies types =
      with_msg-Replies (nodata_message P query params types) (nodata_message-Replies types)

  pub build_txt_response-Replies :
      (txt : Bytes) → Replies P query end params (build_txt_response P query txt params)
  unfolding build_txt_response add_txt
  build_txt_response-Replies txt =
      with_msg-Replies _ (λ m b. finish-Replies (add_txt m txt) (add_rr-buf m _ _ _ _ _ ∙ b))

  address_message :
      (v4 : Option Ipv4Addr) (v6 : Option Ipv6Addr) (m : Msg)
      → IsOpening query end m
      → IsOpening query end (add_answer_aaaa (add_answer_a m v4) v6)
  unfolding add_a add_aaaa
  address_message none none m b = b
  address_message none (some ip6) m b = add_rr-buf m _ _ _ _ _ ∙ b
  address_message (some ip) none m b = add_rr-buf m _ _ _ _ _ ∙ b
  address_message (some ip) (some ip6) m b =
      add_rr-buf (add_answer_a m (some ip)) _ _ _ _ _ ∙ add_rr-buf m _ _ _ _ _ ∙ b

  -- For a query that has a question, `build_address_response` returns an authoritative response with
  -- that question, whose counts are those of the records in it, whichever addresses there are.
  pub build_address_response-Replies :
      (qtype : ℕ) (ip : Addresses)
      → Replies P query end params (build_address_response P query qtype ip params)
  unfolding build_address_response
  build_address_response-Replies qtype ip =
      let v4 = keep_if (qtype == type_a || qtype == type_any) ip.0 in
      let v6 = keep_if (qtype == type_aaaa || qtype == type_any) ip.1 in
      elim (Bool-cases (is_none v4 && is_none v6)) [
        | inl nothing ↦ Replies-by (rw nothing) (nodata-Replies (address_types ip))
        | inr found ↦ Replies-by (rw found) (
            with_msg-Replies (λ m. finish P (add_answer_aaaa (add_answer_a m v4) v6) query params)
              (λ m b. finish-Replies _ (address_message v4 v6 m b)))
      ]
