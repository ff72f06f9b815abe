-- ===== src/Response/Read/Whole.antt =====
-- The bytes that `finish` returns, read as a client reads them.
use rustyalias.Common.{
  ℕ, suc, ◌+◌, ◌<◌, ◌≡◌, refl, sym, ap, ◌∙◌, arith, List, [], ◌∷◌, ◌++◌, append_assoc, append-nil,
  Option, none, some, Bytes, length, drop, drop-append_self, get_or, from_be, if◌then◌else◌,
  is_empty, from_be-be16, saturating_add16,
}
use rustyalias.Response.{Rr}
use rustyalias.Response.Packet.{
  answers, authority, additional, Section, Packet, wire, HasCounts, push, push_all, push_bytes,
  bytes_of,
}
use rustyalias.Response.Read.{Seen, read_records, records_bytes, Reads}

-- What a client finds in a response.
pub record Reading : Type 0 where
  pub answers : List Seen
  pub authority : List Seen
  pub additional : List Seen

abbrev pub then_read :
    Option (List Seen × Bytes) → (List Seen → Bytes → Option Reading) → Option Reading
then_read none f = none
then_read (some (rs, rest)) f = f rs rest

-- As many records in each section as the header counts, behind the header and the question, which
-- has `size` bytes, and nothing behind them.
unfoldable pub read_message : ℕ → Bytes → Option Reading
read_message size b =
    then_read (read_records (from_be (get_or b 6 0) (get_or b 7 0)) (drop size (drop 12 b)))
      (λ an r1. then_read (read_records (from_be (get_or b 8 0) (get_or b 9 0)) r1) (λ ns r2.
        then_read (read_records (from_be (get_or b 10 0) (get_or b 11 0)) r2) (λ ar r3.
          if is_empty r3
          then some (record { answers = an; authority = ns; additional = ar })
          else none)))

pub read_message-wire :
    (p : Packet) (size : ℕ) (q ba bn br : Bytes) (an ns ar : List Seen)
    → HasCounts p
    → length q ≡ size
    → p.body ≡ q ++ (ba ++ (bn ++ br))
    → p.ancount ≡ length an
    → p.nscount ≡ length ns
    → p.arcount ≡ length ar
    → Reads ba an
    → Reads bn ns
    → Reads br ar
    → read_message size (wire p) ≡ some (record { answers = an; authority = ns; additional = ar })
unfolding read_message
read_message-wire p size q ba bn br an ns ar h is_size body is_an is_ns is_ar ra rn rr =
    let last = rw (append-nil br) at (rr []) in
    rw
      (
        from_be-be16 p.ancount h.an,
        from_be-be16 p.nscount h.ns,
        from_be-be16 p.arcount h.ar,
        is_an,
        is_ns,
        is_ar,
        sym is_size,
        body,
        drop-append_self q (ba ++ (bn ++ br)),
        ra (bn ++ br),
        rn br,
        last,
      )
      refl

abbrev pub raise : Section → ℕ → Packet → Packet
raise answers n p = record p { ancount = p.ancount + n }
raise authority n p = record p { nscount = p.nscount + n }
raise additional n p = record p { arcount = p.arcount + n }

abbrev pub count : Section → Packet → ℕ
count answers p = p.ancount
count authority p = p.nscount
count additional p = p.arcount

one_more : (n m : ℕ) → n + suc m < 65536 → saturating_add16 n 1 + m ≡ n + suc m
one_more n m h = ground arith

none_more : (n : ℕ) → n ≡ n + 0
none_more n = omega arith

pub push_all-raise :
    (s : Section) (rs : List Rr) (p : Packet)
    → count s p + length rs < 65536
    → push_all s p rs ≡ raise s (length rs) (push_bytes (records_bytes rs) p)
push_all-raise answers [] p h =
    ap (λ b. record p { body = b }) (sym (append-nil p.body))
    ∙ ap (λ n. record p { ancount = n; body = p.body ++ [] }) (none_more p.ancount)
push_all-raise authority [] p h =
    ap (λ b. record p { body = b }) (sym (append-nil p.body))
    ∙ ap (λ n. record p { nscount = n; body = p.body ++ [] }) (none_more p.nscount)
push_all-raise additional [] p h =
    ap (λ b. record p { body = b }) (sym (append-nil p.body))
    ∙ ap (λ n. record p { arcount = n; body = p.body ++ [] }) (none_more p.arcount)
push_all-raise answers (r ∷ rs) p h =
    push_all-raise answers rs (push answers p r) (omega arith)
    ∙ ap (λ n. record p { ancount = n; body = (p.body ++ bytes_of r) ++ records_bytes rs })
        (one_more p.ancount (length rs) h)
    ∙ ap (λ b. record p { ancount = p.ancount + suc (length rs); body = b })
        (append_assoc p.body (bytes_of r) (records_bytes rs))
push_all-raise authority (r ∷ rs) p h =
    push_all-raise authority rs (push authority p r) (omega arith)
    ∙ ap (λ n. record p { nscount = n; body = (p.body ++ bytes_of r) ++ records_bytes rs })
        (one_more p.nscount (length rs) h)
    ∙ ap (λ b. record p { nscount = p.nscount + suc (length rs); body = b })
        (append_assoc p.body (bytes_of r) (records_bytes rs))
push_all-raise additional (r ∷ rs) p h =
    push_all-raise additional rs (push additional p r) (omega arith)
    ∙ ap (λ n. record p { arcount = n; body = (p.body ++ bytes_of r) ++ records_bytes rs })
        (one_more p.arcount (length rs) h)
    ∙ ap (λ b. record p { arcount = p.arcount + suc (length rs); body = b })
        (append_assoc p.body (bytes_of r) (records_bytes rs))
