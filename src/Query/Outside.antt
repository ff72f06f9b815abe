-- ===== src/Query/Outside.antt =====
-- What a question for a name outside the zone is answered.
use rustyalias.Common.{◌⊎◌, ◌↔◌, Bool, false, true, refl, ap, ◌∙◌, take, All, IsByte}
use rustyalias.Text.Case.{lower, eq_ignore_case_iff}
use rustyalias.Wire.{rcode_noerror}
use rustyalias.Response.{sign}
use rustyalias.Response.Start.{opening, opening-HasCounts, asked}
use rustyalias.Response.Reply.{laid_out-IsReply}
use rustyalias.Response.Contents.{Sections, message_of}
use rustyalias.Query.Header.{header}
use rustyalias.Query.Explicit.{error_text, error_bytes-text, reply-text}
use rustyalias.Common.{ℕ, ◌≡◌, arith, ◌||◌, ◌++◌, Bytes, codes, ◌==◌, Bool-cases, inl, inr, ret}
use rustyalias.Text.{trim_dots, to_lower, eq_ignore_case}
use rustyalias.Wire.{rcode_refused, type_txt, type_any}
use rustyalias.Wire.Question.{question_at, question_section_end_bounds}
use rustyalias.Edns.{query_dnssec_ok}
use rustyalias.Dnssec.Key.{Platform}
use rustyalias.Response.{ZoneParams}
use rustyalias.Response.Build.{build_refused_response}
use rustyalias.Response.Start.{error_response-wire}
use rustyalias.Response.Contents.{lookup, response}
use rustyalias.Response.Contents.Hosts.{text, build_txt_response-Looks}
use rustyalias.Config.{Config}
use rustyalias.Query.{
  is_version_query, zone_params, answer, answer_version, answer_question, handle_query_internal,
}
use rustyalias.Query.Handles.{error_bytes}
use rustyalias.Query.Authority.{
  Asks, outside, handle_query_internal-question, handle_query_internal-refused,
}
use rustyalias.Query.Zone.{is_in_zone_lem}
use rustyalias.Query.Zone.Suffix.{InZone}

-- The name is one of `version`, `ver` and `v`, up to the case of letters.
abbrev pub IsVersionName : Bytes → Type 0
IsVersionName domain =
    (lower domain ≡ codes "version") ⊎ (lower domain ≡ codes "ver") ⊎ (lower domain ≡ codes "v")

any_of_three : (a b c : Bool) → (a || b || c) ≡ true → (a ≡ true) ⊎ (b ≡ true) ⊎ (c ≡ true)
any_of_three a b c h = ground arith

three_of_any : (a b c : Bool) → (a ≡ true) ⊎ (b ≡ true) ⊎ (c ≡ true) → (a || b || c) ≡ true
three_of_any a b c h = ground arith

is_version_query_iff : (domain : Bytes) → (is_version_query domain ≡ true) ↔ IsVersionName domain
unfolding is_version_query to_lower
is_version_query_iff domain =
    let all_three =
      three_of_any (eq_ignore_case domain (codes "version")) (eq_ignore_case domain (codes "ver"))
        (eq_ignore_case domain (codes "v")) in
    let (s1, c1) = eq_ignore_case_iff domain (codes "version") in
    let (s2, c2) = eq_ignore_case_iff domain (codes "ver") in
    let (s3, c3) = eq_ignore_case_iff domain (codes "v") in
    (
      λ h. elim (any_of_three _ _ _ h) [
        | inl a ↦ inl (s1 a)
        | inr (inl b) ↦ inr (inl (s2 b))
        | inr (inr c) ↦ inr (inr (s3 c))
      ],
      λ v. elim v [
        | inl a ↦ all_three (inl (c1 a))
        | inr (inl b) ↦ all_three (inr (inl (c2 b)))
        | inr (inr c) ↦ all_three (inr (inr (c3 c)))
      ],
    )

different : {a : Bool} → a ≡ false → ¬ (a ≡ true)
different e h = cc

txt_or_any :
    (qtype : ℕ) → ((qtype == type_txt || qtype == type_any) ≡ true) ↔ ((qtype ≡ 16) ⊎ (qtype ≡ 255))
txt_or_any qtype = (λ h. ground arith, λ h. ground arith)

module _ (P : Platform) (query : Bytes) (config : Config P) (domain : Bytes) {end : ℕ}
    (q : Asks query domain end) where
  abbrev params : ZoneParams P
  params = zone_params P config (query_dnssec_ok query)

  -- The text that names the program and its version.
  abbrev pub version_text : Bytes
  version_text = codes "RustyAlias v" ++ config.version

  abbrev qtype : ℕ
  qtype = (question_at query end).0

  -- A question of type TXT or ANY for one of the names `version`, `ver` and `v`.
  abbrev pub AsksVersion : Type 0
  AsksVersion = IsVersionName domain × ((qtype ≡ 16) ⊎ (qtype ≡ 255))

  -- The text of the version, in an authoritative response without error.
  abbrev pub SaysVersion : Bytes → Type 0
  SaysVersion r =
      (r
        ≡ response P (zone_params P config (query_dnssec_ok query)) query end (
            lookup P (zone_params P config (query_dnssec_ok query)) query end
              (text (codes "RustyAlias v" ++ config.version)) (question_at query end).0))
      × (take 6 r ≡ header query 1 0)

  abbrev pub OutsideAnswer : Bytes → Type 0
  OutsideAnswer r = (AsksVersion × SaysVersion r) ⊎ ((¬ AsksVersion) × (r ≡ error_text query 5))

  response-header :
      (bytes : All IsByte query) (s : Sections)
      → take 6 (response P params query end s) ≡ header query 1 0
  unfolding response
  response-header bytes s =
      let p = opening query true rcode_noerror (asked query end) in
      let (an, ns, ar, e) =
        laid_out-IsReply P query end params (message_of P params query end s) p
          (opening-HasCounts query true rcode_noerror (asked query end)) in
      ap (take 6) (e ∙ reply-text query bytes (sign P params) end an ns ar)

  -- A standard query of bytes, of class IN, for a name that is not in the zone: if the name is, up to
  -- the case of letters, one of `version`, `ver` and `v`, and the question is of type 16 (TXT) or 255
  -- (ANY), it gets the text of the version, in an authoritative response without error; else it is
  -- refused, with the code 5 and no record but the OPT record.
  pub handle_query_internal-outside :
      All IsByte query
      → ¬ InZone (trim_dots domain) (trim_dots config.glue_name)
      → (r : Bytes) × (handle_query_internal P query config ≡ ret r) × OutsideAnswer r
  unfolding answer_question answer answer_version build_refused_response
  handle_query_internal-outside bytes n = elim (Bool-cases (is_version_query domain)) [
    | inr other ↦ (
      error_bytes query rcode_refused,
      handle_query_internal-refused P query config domain q n other,
      inr (
        λ (v, t). different other ((is_version_query_iff domain).1 v),
        error_bytes-text query bytes 5 (inr refl),
      ),
    )
    | inl version ↦ elim (Bool-cases (qtype == type_txt || qtype == type_any)) [
      | inl wanted ↦ (
        _,
        rw
            (
              handle_query_internal-question P query config domain q,
              is_in_zone_lem domain config.glue_name,
              outside P query config domain q n,
              version,
              wanted,
            )
            (build_txt_response-Looks P params query q.ends qtype version_text wanted),
        inl (
          ((is_version_query_iff domain).0 version, (txt_or_any qtype).0 wanted),
          (refl, response-header bytes _),
        ),
      )
      | inr unwanted ↦
          let (lo, hi) = question_section_end_bounds query q.ends in
          (
            error_bytes query rcode_refused,
            rw
                (
                  handle_query_internal-question P query config domain q,
                  is_in_zone_lem domain config.glue_name,
                  outside P query config domain q n,
                  version,
                  unwanted,
                )
                (error_response-wire query rcode_refused (omega arith)),
            inr (
              λ (v, t). different unwanted ((txt_or_any qtype).1 t),
              error_bytes-text query bytes 5 (inr refl),
            ),
          )
    ]
  ]
