-- ===== src/Query/Denies.antt =====
-- What a signed response without answers denies.
use rustyalias.Common.{
  ◌++◌, arith, ℕ, ◌-◌, ◌≡◌, ◌≢◌, refl, ap, ◌∙◌, Bool, true, false, not, ◌&&◌, ◌||◌, [], ◌∷◌, Option,
  none, some, Bytes, ◌==◌, is_empty, is_some, if-either, take, drop, List, ret,
}
use rustyalias.Text.{trim_dots}
use rustyalias.IpParser.{Addresses, interpret_ip}
use rustyalias.Wire.{names_eq, type_nsec, type_rrsig, type_any}
use rustyalias.Wire.Question.{question_at}
use rustyalias.Edns.{query_dnssec_ok}
use rustyalias.Dnssec.Names.{lowercase_wire_name}
use rustyalias.Dnssec.Bitmap.Blocks.{Block, blocks_bytes, in_blocks, AreBlocks}
use rustyalias.Dnssec.Bitmap.Sorting.{IsType}
use rustyalias.Dnssec.Key.{Platform}
use rustyalias.Response.{ZoneParams, Rr, name, sign}
use rustyalias.Response.Contents.{soa, own, Node, Sections, matching, lookup, response, nsec_record}
use rustyalias.Response.Contents.Hosts.{host}
use rustyalias.Response.Contents.Denial.{
  AreTypes, TellsTypes, nsec_record-TellsTypes, matching-any, host-AreTypes, apex-AreTypes,
}
use rustyalias.Config.{Config}
use rustyalias.Query.{
  is_version_query, dmarc_owner, is_configured_ns, zone_params, handle_query_internal,
}
use rustyalias.Query.Authority.{Asks}
use rustyalias.Query.Node.{node, addresses}
use rustyalias.Query.Refines.{handle_query_internal-lookup}
use rustyalias.Query.Zone.Suffix.{InZone}

-- The bytes are the bitmap of a name with some records: it says a type, other than ANY, exactly when
-- a question of that type has an answer, or the type is that of NSEC or RRSIG.
pub record IsBitmap (rs : List Rr) (out : Bytes) : Type 0 where
  pub blocks : List Block
  pub written : out ≡ blocks_bytes blocks
  pub ascending : AreBlocks 0 256 blocks
  pub says :
      (t : ℕ)
      → IsType t
      → t == type_any ≡ false
      → in_blocks t blocks ≡ (not (is_empty (matching t rs)) || (t == type_nsec || t == type_rrsig))

TellsTypes-IsBitmap : (rs : List Rr) (out : Bytes) → TellsTypes rs out → IsBitmap rs out
TellsTypes-IsBitmap rs out (bs, written, ascending, says) = record {
  blocks = bs;
  written = written;
  ascending = ascending;
  says = λ t lt other.
      says t lt ∙ ap (λ b. b || (t == type_nsec || t == type_rrsig)) (matching-any t rs other);
}

module _ (P : Platform) (config : Config P) (params : ZoneParams P) where
  found-AreTypes : (ip : Option Addresses) → AreTypes (host (addresses ip)).records
  found-AreTypes none = tt
  found-AreTypes (some (v4, v6)) = host-AreTypes v4 v6

  node-AreTypes : (domain : Bytes) → AreTypes (node P config params domain).records
  unfolding node
  node-AreTypes domain =
      let Q = λ (n : Node). AreTypes n.records in
      if-either Q (is_version_query domain) _ _ (omega arith, tt)
        (if-either Q (not (is_empty config.dmarc) && names_eq domain (dmarc_owner config.glue_name))
          _ _ (omega arith, tt)
          (if-either Q (names_eq domain config.glue_name) _ _ (apex-AreTypes P params) (
            if-either Q (is_configured_ns P domain config) _ _
              (host-AreTypes (some config.glue_ip) config.glue_ip6)
              (found-AreTypes (interpret_ip domain)))))

-- Without an answer, the sections of a signed response are the SOA record and an NSEC record.
abbrev pub denied : (P : Platform) → ZoneParams P → Bytes → ℕ → Bytes → Sections
denied P params query end out = record {
  answers = [];
  authority =
      soa P params (name params.zone)
      ∷ own type_nsec params.minimum
          (1 ∷ 0 ∷ (lowercase_wire_name (take (end - 4 - 12) (drop 12 query)) ++ out))
      ∷ [];
  additional = [];
}

module _ (P : Platform) (query : Bytes) (config : Config P) (domain : Bytes) {end : ℕ}
    (q : Asks query domain end) where
  abbrev params : ZoneParams P
  params = zone_params P config (query_dnssec_ok query)

  abbrev at : Node
  at = node P config params domain

  and_more : (a b c : Bool) → a && b ≡ false → a && (b && c) ≡ false
  and_more a b c h = ground arith

  lookup-denied :
      (qtype : ℕ) (out : Bytes)
      → sign P params ≡ true
      → at.apex && qtype == type_nsec ≡ false
      → matching qtype at.records ≡ []
      → (nsec_record P params query end at.records).rdata
        ≡ 1 ∷ 0 ∷ (lowercase_wire_name (take (end - 4 - 12) (drop 12 query)) ++ out)
      → lookup P params query end at qtype ≡ denied P params query end out
  lookup-denied qtype out signed other none_match same =
      rw
        (
          and_more at.apex (qtype == type_nsec) (is_some params.dnssec) other,
          none_match,
          signed,
          same,
        )
        refl

  -- A standard query of class IN for a name in the zone, where the zone has a name server, the
  -- response is signed, the name has no record of the type, and the question is not one of type NSEC
  -- at the apex: the response holds no answer, and the SOA record and an NSEC record as authority.
  -- The bitmap of the NSEC record says a type other than ANY exactly when a question of that type has
  -- an answer, or the type is that of NSEC or RRSIG.
  pub handle_query_internal-denies :
      InZone (trim_dots domain) (trim_dots config.glue_name)
      → config.ns_names ≢ []
      → sign P (zone_params P config (query_dnssec_ok query)) ≡ true
      → (node P config (zone_params P config (query_dnssec_ok query)) domain).apex
          && (question_at query end).0 == type_nsec
        ≡ false
      → matching
          (question_at query end).0
          (node P config (zone_params P config (query_dnssec_ok query)) domain).records
        ≡ []
      → (out : Bytes) × (handle_query_internal P query config
          ≡ ret (
              response P
                (zone_params P config (query_dnssec_ok query))
                query
                end
                (denied P (zone_params P config (query_dnssec_ok query)) query end out)))
        × IsBitmap (node P config (zone_params P config (query_dnssec_ok query)) domain).records out
  handle_query_internal-denies w served signed other none_match =
      let (out, same, tells) =
        nsec_record-TellsTypes P params query end at.records
          (node-AreTypes P config params domain) in
      (
        out,
        handle_query_internal-lookup P query config domain q w served
            ∙ ap (λ s. ret (response P params query end s))
                (lookup-denied (question_at query end).0 out signed other none_match same),
        TellsTypes-IsBitmap at.records out tells,
      )
