-- ===== src/Query/Header.antt =====
-- The first six bytes of a response: the ID and QDCOUNT of the query, and the flags.
use rustyalias.Common.{
  ℕ, zero, suc, ◌+◌, ◌*◌, ◌/◌, ◌%◌, ◌≡◌, ◌⊎◌, refl, ap, ◌∙◌, arith, Bool, true, false, inl, inr, [],
  ◌∷◌, Bytes, take, get_or, bit_and, bit_or, Bool-cases, IsByte, All, agree_below, ret,
}
use rustyalias.Wire.{
  question_section_end, rcode_noerror, rcode_notimp, rcode_refused, response_flags,
}
use rustyalias.Edns.{query_has_opt, query_dnssec_ok}
use rustyalias.Dnssec.Key.{Platform}
use rustyalias.Response.{sign}
use rustyalias.Response.Packet.{Packet, wire, answers, authority, additional}
use rustyalias.Response.Layout.{with_opt}
use rustyalias.Response.Start.{opening, asked, asked_or_empty}
use rustyalias.Response.Reply.{added}
use rustyalias.Config.{Config}
use rustyalias.Query.{handle_query_internal, zone_params}
use rustyalias.Query.Handles.{Handled, dropped, errored, replied, handle_query_internal-Handled}

pub aa_table :
    (x : ℕ)
    → IsByte x
    → bit_or (bit_or (bit_or 128 (bit_and x 120)) 4) (bit_and x 1)
      ≡ 128 + x / 8 % 16 * 8 + 4 + x % 2
aa_table = agree_below 256 _ _ refl

pub plain_table :
    (x : ℕ)
    → IsByte x
    → bit_or (bit_or (bit_or 128 (bit_and x 120)) 0) (bit_and x 1)
      ≡ 128 + x / 8 % 16 * 8 + 0 + x % 2
plain_table = agree_below 256 _ _ refl

-- ID, QR, opcode and RD of the query; AA as given; TC, RA and the rest clear; the code; QDCOUNT.
abbrev pub header : Bytes → ℕ → ℕ → Bytes
header query aa rcode =
    get_or query 0 0
    ∷ get_or query 1 0
    ∷ (128 + get_or query 2 0 / 8 % 16 * 8 + aa * 4 + get_or query 2 0 % 2)
    ∷ rcode
    ∷ get_or query 4 0
    ∷ get_or query 5 0
    ∷ []

pub get_or-IsByte : (i : ℕ) (xs : Bytes) → All IsByte xs → IsByte (get_or xs i 0)
get_or-IsByte i [] h = omega arith
get_or-IsByte zero (x ∷ xs) h = h.0
get_or-IsByte (suc i) (x ∷ xs) h = get_or-IsByte i xs h.1

pub take-with_opt :
    (query : Bytes) (do_bit : Bool) (p : Packet)
    → take 6 (wire (with_opt query do_bit p)) ≡ take 6 (wire p)
take-with_opt query do_bit p = elim (Bool-cases (query_has_opt query)) [
  | inl y ↦ rw y
  | inr n ↦ rw n
]

-- The response is empty, or its header is that of an authoritative answer without error, or that
-- of a refusal.
abbrev pub HasHeader : Bytes → Bytes → Type 0
HasHeader query r =
    (r ≡ [])
    ⊎ (take 6 r ≡ header query 1 rcode_noerror)
    ⊎ (take 6 r ≡ header query 0 rcode_notimp)
    ⊎ (take 6 r ≡ header query 0 rcode_refused)

module _ (query : Bytes) (bytes : All IsByte query) where
  pub opening_authoritative :
      (b : Bytes) → take 6 (wire (opening query true rcode_noerror b)) ≡ header query 1 0
  unfolding response_flags
  opening_authoritative b = rw (aa_table (get_or query 2 0) (get_or-IsByte 2 query bytes))

  pub opening_error :
      (rcode : ℕ) (b : Bytes)
      → (rcode ≡ rcode_notimp) ⊎ (rcode ≡ rcode_refused)
      → take 6 (wire (opening query false rcode b)) ≡ header query 0 rcode
  unfolding response_flags
  opening_error rcode b (inl e) =
      rw (e, plain_table (get_or query 2 0) (get_or-IsByte 2 query bytes))
  opening_error rcode b (inr e) =
      rw (e, plain_table (get_or query 2 0) (get_or-IsByte 2 query bytes))

  Handled-HasHeader :
      (P : Platform) (config : Config P) (r : Bytes) → Handled P query config r → HasHeader query r
  Handled-HasHeader P config r (dropped e) = inl e
  Handled-HasHeader P config r (errored rcode known h e) =
      let b = asked_or_empty query (question_section_end query) in
      error_case known (
        ap (take 6) e
        ∙ take-with_opt query false (opening query false rcode b)
        ∙ opening_error rcode b known)
    where
      error_case :
          (rcode ≡ rcode_notimp) ⊎ (rcode ≡ rcode_refused)
          → take 6 r ≡ header query 0 rcode
          → HasHeader query r
      error_case (inl k) t = inr (inr (inl (t ∙ ap (header query 0) k)))
      error_case (inr k) t = inr (inr (inr (t ∙ ap (header query 0) k)))
  Handled-HasHeader P config r (replied {end} e (an, ns, ar, w)) =
      let p = opening query true rcode_noerror (asked query end) in
      let q = added additional ar (added authority ns (added answers an p)) in
      let do_bit = sign P (zone_params P config (query_dnssec_ok query)) in
      inr (
        inl
          (ap (take 6) w ∙ take-with_opt query do_bit q ∙ opening_authoritative (asked query end)))

  -- Every response to a query of bytes is empty or repeats the ID, the opcode, RD and QDCOUNT of
  -- the query, with QR set and TC, RA and the reserved bits clear. AA is set just when the code is
  -- NOERROR, and any other code is NOTIMP or REFUSED.
  pub handle_query_internal-HasHeader :
      (P : Platform) (config : Config P)
      → (r : Bytes) × (handle_query_internal P query config ≡ ret r) × HasHeader query r
  handle_query_internal-HasHeader P config =
      let (r, f, w) = handle_query_internal-Handled P query config in
      (r, f, Handled-HasHeader P config r w)
