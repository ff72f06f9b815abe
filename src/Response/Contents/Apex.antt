-- ===== src/Response/Contents/Apex.antt =====
-- The responses for the apex of the zone, one for each arm of the `match` on the type.
use rustyalias.Common.{
  ==_iff, ℕ, ◌≡◌, ◌≢◌, refl, sym, ap, ◌∙◌, true, List, [], ◌∷◌, ◌++◌, Option, none, some, Bytes,
  ◌==◌, if◌then◌else◌, is_some, Bool-cases, inl, inr,
}
use rustyalias.Net.{Ipv6Addr, octets}
use rustyalias.Wire.{
  ttl_rr, type_a, type_aaaa, type_txt, type_ns, type_soa, type_dnskey, type_cds, type_cdnskey,
}
use rustyalias.Dnssec.Bitmap.{dedup, cons_dedup}
use rustyalias.Dnssec.Key.{Platform, DnssecKey}
use rustyalias.Response.{ZoneParams, Rr, question, apex_types}
use rustyalias.Response.Contents.{
  soa, own, a_records, aaaa_records, text_records, ns_records, key_records, dnskey_records,
  cds_records, cdnskey_records, apex_records, Node, matching, types_of,
}
use rustyalias.Response.Contents.Matching.{
  wanted, matching-append, matching-wanted, HasType, a_records-HasType, aaaa_records-HasType,
  text_records-HasType, ns_records-HasType,
}

cons_dedup-head : (t : ℕ) (ts : List ℕ) → (us : List ℕ) × (cons_dedup t ts ≡ t ∷ us)
cons_dedup-head t [] = ([], refl)
cons_dedup-head t (u ∷ us) = elim (Bool-cases (t == u)) [
  | inl same ↦ (us, rw same (ap (λ v. v ∷ us) (sym ((==_iff t u).0 same))))
  | inr other ↦ (u ∷ us, rw other refl)
]

-- The types of the NS records are one type.
dedup_servers :
    (n : Bytes) (ns : List Bytes) (rdata : Bytes) (rs : List Rr)
    → types_of (ns_records (n ∷ ns) ++ (own type_a ttl_rr rdata ∷ rs))
      ≡ 2 ∷ types_of (own type_a ttl_rr rdata ∷ rs)
unfolding dedup
dedup_servers n [] rdata rs = let (us, e) = cons_dedup-head 1 (types_of rs) in rw e refl
dedup_servers n (n1 ∷ ns) rdata rs = ap (λ ts. cons_dedup 2 ts) (dedup_servers n1 ns rdata rs)

module _ (P : Platform) (params : ZoneParams P) where
  abbrev pub apex : Node
  apex = record { records = apex_records P params; apex = true }

  -- The types behind those of the SOA and NS records.
  address_and_later :
      (ip6 : Option Ipv6Addr) (spf : Option Bytes) (key : Option (DnssecKey P))
      → type_a
          ∷ ((if is_some ip6 then type_aaaa ∷ [] else [])
              ++ ((if is_some spf then type_txt ∷ [] else [])
                  ++ (if is_some key then type_dnskey ∷ type_cds ∷ type_cdnskey ∷ [] else [])))
        ≡ types_of (
            a_records (some params.glue_ip)
            ++ (aaaa_records ip6 ++ (text_records spf ++ key_records P params key)))
  unfolding dedup
  address_and_later none none none = refl
  address_and_later none none (some k) = refl
  address_and_later none (some t) none = refl
  address_and_later none (some t) (some k) = refl
  address_and_later (some b) none none = refl
  address_and_later (some b) none (some k) = refl
  address_and_later (some b) (some t) none = refl
  address_and_later (some b) (some t) (some k) = refl

  with_servers :
      (ns : List Bytes) (rdata : Bytes) (rs : List Rr)
      → ns ≢ []
      → types_of ((soa P params question ∷ []) ++ (ns_records ns ++ (own type_a ttl_rr rdata ∷ rs)))
        ≡ type_soa ∷ type_ns ∷ types_of (own type_a ttl_rr rdata ∷ rs)
  unfolding dedup
  with_servers [] rdata rs served = absurd (served refl)
  with_servers (n ∷ ns) rdata rs served = ap (λ ts. cons_dedup 6 ts) (dedup_servers n ns rdata rs)

  pub apex_types-types_of :
      params.ns_names ≢ [] → apex_types P params ≡ types_of (apex_records P params)
  unfolding apex_types
  apex_types-types_of served =
      ap (λ ts. type_soa ∷ type_ns ∷ ts)
        (address_and_later params.glue_ip6 params.spf params.dnssec)
      ∙ sym (with_servers params.ns_names (octets params.glue_ip) _ served)

  pub dnskey_records-HasType :
      (key : Option (DnssecKey P)) → HasType type_dnskey (dnskey_records P params key)
  dnskey_records-HasType none = tt
  dnskey_records-HasType (some key) = (refl, tt)

  pub cds_records-HasType :
      (key : Option (DnssecKey P)) → HasType type_cds (cds_records P params key)
  cds_records-HasType none = tt
  cds_records-HasType (some key) = (refl, tt)

  pub cdnskey_records-HasType :
      (key : Option (DnssecKey P)) → HasType type_cdnskey (cdnskey_records P params key)
  cdnskey_records-HasType none = tt
  cdnskey_records-HasType (some key) = (refl, tt)

  matching-key_records :
      (qtype : ℕ) (key : Option (DnssecKey P))
      → matching qtype (key_records P params key)
        ≡ wanted qtype type_dnskey (dnskey_records P params key)
          ++ (wanted qtype type_cds (cds_records P params key)
              ++ wanted qtype type_cdnskey (cdnskey_records P params key))
  matching-key_records qtype key =
      let dnskey = dnskey_records P params key in
      let cds = cds_records P params key in
      let cdnskey = cdnskey_records P params key in
      rw (
        matching-append qtype dnskey (cds ++ cdnskey),
        matching-append qtype cds cdnskey,
        matching-wanted qtype type_dnskey dnskey (dnskey_records-HasType key),
        matching-wanted qtype type_cds cds (cds_records-HasType key),
        matching-wanted qtype type_cdnskey cdnskey (cdnskey_records-HasType key),
      )

  -- The records of the apex that a question asks for, one type at a time.
  pub matching-apex_records :
      (qtype : ℕ)
      → matching qtype (apex_records P params)
        ≡ wanted qtype type_soa (soa P params question ∷ [])
          ++ (wanted qtype type_ns (ns_records params.ns_names)
              ++ (wanted qtype type_a (a_records (some params.glue_ip))
                  ++ (wanted qtype type_aaaa (aaaa_records params.glue_ip6)
                      ++ (wanted qtype type_txt (text_records params.spf)
                          ++ (wanted qtype type_dnskey (dnskey_records P params params.dnssec)
                              ++ (wanted qtype type_cds (cds_records P params params.dnssec)
                                  ++ wanted qtype type_cdnskey
                                      (cdnskey_records P params params.dnssec)))))))
  matching-apex_records qtype =
      let ns = ns_records params.ns_names in
      let a = a_records (some params.glue_ip) in
      let aaaa = aaaa_records params.glue_ip6 in
      let txt = text_records params.spf in
      let keys = key_records P params params.dnssec in
      rw (
        matching-append qtype (soa P params question ∷ []) (ns ++ (a ++ (aaaa ++ (txt ++ keys)))),
        matching-append qtype ns (a ++ (aaaa ++ (txt ++ keys))),
        matching-append qtype a (aaaa ++ (txt ++ keys)),
        matching-append qtype aaaa (txt ++ keys),
        matching-append qtype txt keys,
        matching-wanted qtype type_soa (soa P params question ∷ []) (refl, tt),
        matching-wanted qtype type_ns ns (ns_records-HasType params.ns_names),
        matching-wanted qtype type_a a (a_records-HasType (some params.glue_ip)),
        matching-wanted qtype type_aaaa aaaa (aaaa_records-HasType params.glue_ip6),
        matching-wanted qtype type_txt txt (text_records-HasType params.spf),
        matching-key_records qtype params.dnssec,
      )
