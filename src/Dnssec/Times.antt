-- ===== src/Dnssec/Times.antt =====
-- The arithmetic of src/dns/dnssec.rs on u32: the key tag and the times of a signature.
use rustyalias.Common.{
  ℕ, ◌+◌, ◌*◌, ◌/◌, ◌%◌, ◌^◌, ◌≤◌, ◌<◌, ◌≡◌, ◌⊎◌, ◌∙◌, arith, Bool, true, false, not, [], ◌∷◌,
  Option, none, some, Bytes, length, if◌then◌else◌, All, IsByte,
}
use rustyalias.Dnssec.Key.{sum_words, key_tag, signature_times}

-- The sum of RFC 4034, Appendix B, over numbers without a bound: bytes at even places count 256
-- times.
abbrev pub word_sum : Bool → Bytes → ℕ
word_sum even [] = 0
word_sum even (b ∷ bs) = (if even then b * 256 else b) + word_sum (not even) bs

word_sum_le : (even : Bool) (bs : Bytes) → All IsByte bs → word_sum even bs ≤ 65280 * length bs
word_sum_le even [] h = omega arith
word_sum_le true (b ∷ bs) (h, hs) = omega (arith, word_sum_le false bs hs)
word_sum_le false (b ∷ bs) (h, hs) = omega (arith, word_sum_le true bs hs)

sum_words-word_sum :
    (even : Bool) (bs : Bytes) (ac : ℕ)
    → ac + word_sum even bs < 2 ^ 32
    → sum_words even bs ac ≡ ac + word_sum even bs
unfolding sum_words
sum_words-word_sum even [] ac h = omega arith
sum_words-word_sum true (b ∷ bs) ac h =
    let step : (ac + b * 256) % 2 ^ 32 ≡ ac + b * 256 = omega arith in
    rw step (sum_words-word_sum false bs (ac + b * 256) (omega arith) ∙ omega arith)
sum_words-word_sum false (b ∷ bs) ac h =
    let step : (ac + b) % 2 ^ 32 ≡ ac + b = omega arith in
    rw step (sum_words-word_sum true bs (ac + b) (omega arith) ∙ omega arith)

-- For an RDATA of at most 65535 bytes the sums of `key_tag` stay in a u32, and the tag is the one
-- of RFC 4034, Appendix B.
pub key_tag-word_sum :
    (rdata : Bytes)
    → All IsByte rdata
    → length rdata ≤ 65535
    → (word_sum true rdata + word_sum true rdata / 2 ^ 16 < 2 ^ 32)
      × (key_tag rdata ≡ (word_sum true rdata + word_sum true rdata / 2 ^ 16) % 2 ^ 16)
unfolding key_tag
key_tag-word_sum rdata h l =
    let le = word_sum_le true rdata h in
    (omega arith, rw (sum_words-word_sum true rdata 0 (omega arith)) (omega arith))

-- The times between which a signature is valid hold the reading of the clock, if that is a u32.
abbrev pub Covers : Option ℕ → ℕ → ℕ → Type 0
Covers none inception expiration = Unit
Covers (some secs) inception expiration =
    (2 ^ 32 ≤ secs) ⊎ ((inception ≤ secs) × (secs ≤ expiration))

pub signature_times-Covers :
    (reading : Option ℕ) → Covers reading (signature_times reading).0 (signature_times reading).1
unfolding signature_times
signature_times-Covers none = tt
signature_times-Covers (some secs) = ground arith

-- Whatever the clock reads, a signature does not end before it begins, lasts no longer than 608400
-- seconds, which are a week and an hour, and its times are u32. A reading that is a u32 lies between
-- them.
pub signature_times_bounds :
    (reading : Option ℕ)
    → ((signature_times reading).0 ≤ (signature_times reading).1)
      × ((signature_times reading).1 ≤ (signature_times reading).0 + 608_400)
      × ((signature_times reading).1 < 2 ^ 32)
      × Covers reading (signature_times reading).0 (signature_times reading).1
unfolding signature_times
signature_times_bounds none = omega arith
signature_times_bounds (some secs) =
    (omega arith, omega arith, omega arith, signature_times-Covers (some secs))
