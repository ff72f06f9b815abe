-- ===== src/Dnssec/Load/RoundTrip.antt =====
-- A key that is printed in hexadecimal is read back.
use rustyalias.Common.{
  ℕ, ◌*◌, ◌/◌, ◌%◌, ◌<◌, ◌≡◌, refl, arith, true, false, [], ◌∷◌, Bytes, codes, length, all, All,
  IsByte, is_empty,
}
use rustyalias.Common.Results.{ok, err}
use rustyalias.Text.{is_hexdigit}
use rustyalias.Text.Search.{starts_with, contains_text}
use rustyalias.Text.Plain.{IsPlain, trim-plain, replace_escapes-plain, without_spaces-plain}
use rustyalias.Dnssec.Hex.{hex_encode}
use rustyalias.Dnssec.Digits.{digit-is_hexdigit, parse_u8-digits}
use rustyalias.Dnssec.Key.{Platform, DnssecKey}
use rustyalias.Dnssec.Load.{
  KeyCodec, IsKeyCodec, hex_octets, parse_hex_scalar, read_secret, key_of_secret,
  from_private_key_str, key_from_env,
}
use rustyalias.Text.Space.{trim}
use rustyalias.Text.Search.{replace_escapes}
use rustyalias.Common.{if◌then◌else◌, Bool-cases, inl, inr, some, ret}

abbrev IsHex : ℕ → Type 0
IsHex c = is_hexdigit c ≡ true

hex_encode-IsHex : (bs : Bytes) → All IsByte bs → All IsHex (hex_encode bs)
unfolding hex_encode
hex_encode-IsHex [] h = tt
hex_encode-IsHex (b ∷ bs) (h, hs) = (
  digit-is_hexdigit (b / 16) (omega arith),
  (digit-is_hexdigit (b % 16) (omega arith), hex_encode-IsHex bs hs),
)

all-IsHex : (s : Bytes) → All IsHex s → all is_hexdigit s ≡ true
all-IsHex [] h = refl
all-IsHex (c ∷ s) (h, hs) = rw (h, all-IsHex s hs)

IsPlain-digit : (c : ℕ) → IsHex c → IsPlain c
IsPlain-digit c h = (ground arith, ground arith, λ e. ground arith)

IsHex-IsPlain : (s : Bytes) → All IsHex s → All IsPlain s
IsHex-IsPlain [] h = tt
IsHex-IsPlain (c ∷ s) (h, hs) = (IsPlain-digit c h, IsHex-IsPlain s hs)

-- The third letter of the marker is no digit.
no_marker : (s : Bytes) → All IsHex s → starts_with (codes "BEGIN") s ≡ false
unfolding starts_with
no_marker [] h = refl
no_marker (a ∷ []) h = ground arith
no_marker (a ∷ b ∷ []) h = ground arith
no_marker (a ∷ b ∷ c ∷ s) h = ground arith

unmarked : (s : Bytes) → All IsHex s → contains_text (codes "BEGIN") s ≡ false
unfolding contains_text
unmarked [] h = no_marker [] h
unmarked (c ∷ s) (h, hs) = rw (no_marker (c ∷ s) (h, hs), unmarked s hs)

pub length-hex_encode : (bs : Bytes) → length (hex_encode bs) ≡ 2 * length bs
unfolding hex_encode
length-hex_encode [] = omega arith
length-hex_encode (b ∷ bs) = omega (arith, length-hex_encode bs)

hex_octets-hex_encode : (bs : Bytes) → All IsByte bs → hex_octets (hex_encode bs) ≡ ok bs
unfolding hex_encode hex_octets
hex_octets-hex_encode [] h = refl
hex_octets-hex_encode (b ∷ bs) (h, hs) = rw (parse_u8-digits b h, hex_octets-hex_encode bs hs)

-- Sixty-four hexadecimal digits are read as the 32 bytes that they encode.
pub parse_hex_scalar-hex_encode :
    (bs : Bytes) → All IsByte bs → length bs ≡ 32 → parse_hex_scalar (hex_encode bs) ≡ ok bs
unfolding parse_hex_scalar
parse_hex_scalar-hex_encode bs h l =
    let digits = hex_encode-IsHex bs h in
    let size : length (hex_encode bs) ≡ 64 = omega (arith, length-hex_encode bs) in
    rw (without_spaces-plain (hex_encode bs) (IsHex-IsPlain _ digits), size, all-IsHex _ digits)
      (hex_octets-hex_encode bs h)

is_empty-false : (s : Bytes) → 0 < length s → is_empty s ≡ false
is_empty-false [] h = absurd (omega arith)
is_empty-false (c ∷ s) h = refl

module _ (P : Platform) (K : KeyCodec P) (documented : IsKeyCodec P K) where
  read_secret-hex_encode :
      (secret : K.SecretKey) → read_secret P K (hex_encode (K.to_bytes secret)) ≡ ok secret
  unfolding read_secret
  read_secret-hex_encode secret =
      let bytes = documented.to_bytes-IsByte secret in
      rw (
        unmarked _ (hex_encode-IsHex _ bytes),
        parse_hex_scalar-hex_encode _ bytes (documented.to_bytes_length secret),
        documented.from_slice-to_bytes secret,
      )

  -- With the documented codec, the hexadecimal text of a secret key is read as the key itself.
  pub from_private_key_str-hex_encode :
      (secret : K.SecretKey)
      → from_private_key_str P K (hex_encode (K.to_bytes secret)) ≡ key_of_secret P K (ok secret)
  unfolding from_private_key_str
  from_private_key_str-hex_encode secret =
      let hex = hex_encode (K.to_bytes secret) in
      let plain = IsHex-IsPlain hex (hex_encode-IsHex _ (documented.to_bytes-IsByte secret)) in
      rw (
        trim-plain hex plain,
        replace_escapes-plain hex plain,
        is_empty-false hex (
            omega
              (arith, length-hex_encode (K.to_bytes secret), documented.to_bytes_length secret)),
        read_secret-hex_encode secret,
      )

module _ (P : Platform) (K : KeyCodec P) where
  -- What is read as a key is not blank, so `DnssecKey::from_env` reads it.
  pub key_from_env-from_private_key_str :
      (raw : Bytes) (key : DnssecKey P)
      → from_private_key_str P K raw ≡ ret (ok key)
      → key_from_env P K (some raw) ≡ ret (some key)
  unfolding key_from_env from_private_key_str replace_escapes
  key_from_env-from_private_key_str raw key e = elim (Bool-cases (is_empty (trim raw))) [
    | inl blank ↦ absurd (not_blank (trim raw) blank e)
    | inr given ↦ rw (given, e)
  ]
    where
      not_blank :
          (s : Bytes)
          → is_empty s ≡ true
          → (if is_empty (replace_escapes s)
              then ret (err (codes "empty DNSSEC_PRIVATE_KEY"))
              else key_of_secret P K (read_secret P K (replace_escapes s)))
            ≡ ret (ok key)
          → ⊥
      not_blank [] h k = cc
      not_blank (c ∷ s) h k = cc
