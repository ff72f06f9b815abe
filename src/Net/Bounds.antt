-- ===== src/Net/Bounds.antt =====
-- The addresses that `std::net` reads are addresses: octets below 256, and eight groups of 16 bits.
use rustyalias.Common.{
  ℕ, zero, suc, ◌-◌, ◌≤◌, ◌<◌, ◌≡◌, refl, ap, arith, Bool, true, false, not, ◌&&◌, ◌||◌, inl, inr,
  List, ◌++◌, Option, none, some, Bytes, ltb, ltb→lt, ◌==◌, ==_iff, if◌then◌else◌, if-either,
  length, length-append, replicate, is_empty, All, All-append, IsByte, IsU16, Bool-cases,
  Option-cases,
}
use rustyalias.Common.Options.{◌>>=◌, Given, Given-bind, Given-some, Given-map}
use rustyalias.Net.{
  Ipv4Addr, Ipv6Addr, octets, read_digits, read_number, starts_zero, skip_separator, read_octet,
  read_ipv4, finished, parse_ipv4, read_char, read_groups, read_compressed, read_ipv6, parse_ipv6,
}

abbrev pub IsIpv4 : Ipv4Addr → Type 0
IsIpv4 ip = All IsByte (octets ip)

abbrev pub IsIpv6 : Ipv6Addr → Type 0
IsIpv6 ip = (length ip.segments ≡ 8) × All IsU16 ip.segments

guarded :
    (c : Bool) (n bound : ℕ) (rest : Bytes)
    → (c ≡ false → n < bound)
    → Given {A = ℕ × Bytes} (λ r. r.0 < bound) (if c then none else some (n, rest))
guarded true n bound rest h = tt
guarded false n bound rest h = h refl

middle : (a b c : Bool) → (a || not b || c) ≡ false → b ≡ true
middle a b c h = ground arith

read_number-lt :
    (radix most : ℕ) (zero_prefix : Bool) (bound : ℕ) (s : Bytes)
    → Given (λ r. r.0 < bound) (read_number radix most zero_prefix bound s)
unfolding read_number
read_number-lt radix most zero_prefix bound s =
    Given-bind _ (read_digits radix most 0 0 s) _ (λ (count, n, rest) e.
      guarded (count == 0 || not (ltb n bound) || (not zero_prefix && starts_zero s && ltb 1 count))
        n bound rest (λ c. ltb→lt n bound (middle (count == 0) (ltb n bound) _ c)))

read_octet-IsByte : (i : ℕ) (s : Bytes) → Given (λ r. IsByte r.0) (read_octet i s)
read_octet-IsByte i s =
    Given-bind _ (skip_separator b'.' i s) _ (λ t e. read_number-lt 10 3 false 256 t)

read_ipv4-IsIpv4 : (s : Bytes) → Given (λ r. IsIpv4 r.0) (read_ipv4 s)
unfolding read_ipv4
read_ipv4-IsIpv4 s = Given-bind _ (read_octet 0 s) _ (λ (a, s1) ea.
    Given-bind _ (read_octet 1 s1) _ (λ (b, s2) eb. Given-bind _ (read_octet 2 s2) _ (λ (c, s3) ec.
      Given-bind _ (read_octet 3 s3) _ (λ (d, s4) ed. (
        Given-some _ (read_octet 0 s) ea (read_octet-IsByte 0 s),
        (
          Given-some _ (read_octet 1 s1) eb (read_octet-IsByte 1 s1),
          (
            Given-some _ (read_octet 2 s2) ec (read_octet-IsByte 2 s2),
            (Given-some _ (read_octet 3 s3) ed (read_octet-IsByte 3 s3), tt),
          ),
        ),
      )))))

finished-Given {ℓ κ} :
    {A : Type ℓ} (Q : A → Type κ) (r : Option (A × Bytes))
    → Given (λ p. Q p.0) r
    → Given Q (finished r)
finished-Given Q none h = tt
finished-Given Q (some (a, rest)) h = if-either (Given Q) (is_empty rest) _ _ h tt

pub parse_ipv4-IsIpv4 : (s : Bytes) → Given IsIpv4 (parse_ipv4 s)
unfolding parse_ipv4
parse_ipv4-IsIpv4 s =
    if-either (Given IsIpv4) (ltb 15 (length s)) _ _ tt
      (finished-Given IsIpv4 (read_ipv4 s) (read_ipv4-IsIpv4 s))

-- `read_groups` reads at most as many groups as there are places, each of 16 bits.
abbrev Groups : ℕ → List ℕ × Bool × Bytes → Type 0
Groups slots r = (length r.0 ≤ slots) × All IsU16 r.0

abbrev embedded : ℕ → ℕ → Bytes → Option (Ipv4Addr × Bytes)
embedded slots i s = if ltb 0 slots then (do s' ← skip_separator b':' i s; read_ipv4 s') else none

embedded-IsIpv4 :
    (slots i : ℕ) (s : Bytes) → Given (λ r. (0 < slots) × IsIpv4 r.0) (embedded slots i s)
embedded-IsIpv4 slots i s = elim (Bool-cases (ltb 0 slots)) [
  | inr full ↦ rw full tt
  | inl room ↦
      let lt = ltb→lt 0 slots room in
      rw room (Given-bind _ (skip_separator b':' i s) _ (λ t e. with_room lt t))
]
  where
    with_room : 0 < slots → (t : Bytes) → Given (λ r. (0 < slots) × IsIpv4 r.0) (read_ipv4 t)
    with_room lt t =
        Given-map (λ r. IsIpv4 r.0) (λ r. (0 < slots) × IsIpv4 r.0) (read_ipv4 t) (λ r h. (lt, h))
          (read_ipv4-IsIpv4 t)

abbrev group_at : ℕ → Bytes → Option (ℕ × Bytes)
group_at i s = do s' ← skip_separator b':' i s; read_number 16 4 true 65536 s'

group_at-lt : (i : ℕ) (s : Bytes) → Given (λ r. IsU16 r.0) (group_at i s)
group_at-lt i s = Given-bind _ (skip_separator b':' i s) _ (λ t e. read_number-lt 16 4 true 65536 t)

read_groups-Groups : (slots i : ℕ) (s : Bytes) → Groups slots (read_groups slots i s)
unfolding read_groups
read_groups-Groups zero i s = (omega arith, tt)
read_groups-Groups (suc slots) i s = elim (Option-cases (embedded slots i s)) [
  | inr ((ip, rest), e) ↦
      let (room, (ha, (hb, (hc, (hd, _))))) =
        Given-some _ (embedded slots i s) e (embedded-IsIpv4 slots i s) in
      rw (read_groups, e) (omega arith, (omega arith, (omega arith, tt)))
  | inl none4 ↦ elim (Option-cases (group_at i s)) [
    | inl ended ↦ rw (read_groups, none4, ended) (omega arith, tt)
    | inr ((g, rest), e) ↦
        let lt = Given-some _ (group_at i s) e (group_at-lt i s) in
        let (le, gs) = read_groups-Groups slots (suc i) rest in
        rw (read_groups, none4, e) (omega arith, (lt, gs))
  ]
]

abbrev zeros : ℕ → List ℕ
zeros n = replicate n 0

length-zeros : (n : ℕ) → length (zeros n) ≡ n
length-zeros zero = refl
length-zeros (suc n) = ap suc (length-zeros n)

zeros-IsU16 : (n : ℕ) → All IsU16 (zeros n)
zeros-IsU16 zero = tt
zeros-IsU16 (suc n) = (omega arith, zeros-IsU16 n)

compressed_lem :
    (head tail : List ℕ)
    → length head < 8
    → All IsU16 head
    → length tail ≤ 7 - length head
    → All IsU16 tail
    → IsIpv6 (record { segments = head ++ (replicate (8 - length head - length tail) 0 ++ tail) })
compressed_lem head tail lt hh le ht = (
  omega (
    arith,
    length-append head (replicate (8 - length head - length tail) 0 ++ tail),
    length-append (zeros (8 - length head - length tail)) tail,
    length-zeros (8 - length head - length tail),
  ),
  All-append IsU16 head _ hh
      (All-append IsU16 (zeros (8 - length head - length tail)) tail (zeros-IsU16 _) ht),
)

read_compressed-IsIpv6 :
    (head : List ℕ) (s : Bytes)
    → length head < 8
    → All IsU16 head
    → Given (λ r. IsIpv6 r.0) (read_compressed head s)
read_compressed-IsIpv6 head s lt h = Given-bind _ (read_char b':' s) _ (λ s1 e1.
    Given-bind _ (read_char b':' s1) _ (λ s2 e2.
      let (le, tail) = read_groups-Groups (7 - length head) 0 s2 in
      compressed_lem head (read_groups (7 - length head) 0 s2).0 lt h le tail))

below_eight : (n : ℕ) → n ≤ 8 → (n == 8) ≡ false → n < 8
below_eight n le ne = ground arith

read_ipv6-IsIpv6 : (s : Bytes) → Given (λ r. IsIpv6 r.0) (read_ipv6 s)
unfolding read_ipv6
read_ipv6-IsIpv6 s =
    let (le, groups) = read_groups-Groups 8 0 s in
    let front = read_groups 8 0 s in
    elim (Bool-cases (length front.0 == 8)) [
      | inl full ↦ rw full ((==_iff (length front.0) 8).0 full, groups)
      | inr short ↦
          let lt = below_eight (length front.0) le short in
          rw short (
            if-either (Given (λ r. IsIpv6 r.0)) front.1 _ _ tt
              (read_compressed-IsIpv6 front.0 front.2 lt groups))
    ]

pub parse_ipv6-IsIpv6 : (s : Bytes) → Given IsIpv6 (parse_ipv6 s)
unfolding parse_ipv6
parse_ipv6-IsIpv6 s = finished-Given IsIpv6 (read_ipv6 s) (read_ipv6-IsIpv6 s)
