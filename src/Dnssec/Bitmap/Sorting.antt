-- ===== src/Dnssec/Bitmap/Sorting.antt =====
-- `sort_unstable` and `dedup` on types: the order they leave, and the types they keep.
use rustyalias.Common.{
  ℕ, ◌≤◌, ◌<◌, ◌≡◌, refl, arith, Bool, true, false, ◌||◌, List, [], ◌∷◌, any, is_empty, All, leb,
  leb→le, leb_gt, ◌==◌, ==_iff, ==_refl, Bool-cases, inl, inr,
}
use rustyalias.Dnssec.Bitmap.{insert_type, sort_types, cons_dedup, dedup}

-- The types ascend from `lo`, and each is a u16.
abbrev pub Sorted : ℕ → List ℕ → Type 0
Sorted lo [] = Unit
Sorted lo (t ∷ ts) = (lo ≤ t) × (t < 65536) × Sorted t ts

abbrev pub IsType : ℕ → Type 0
IsType t = t < 65536

Sorted-weaken : (lo lo' : ℕ) (ts : List ℕ) → lo' ≤ lo → Sorted lo ts → Sorted lo' ts
Sorted-weaken lo lo' [] le h = tt
Sorted-weaken lo lo' (t ∷ ts) le (a, b, h) = (omega arith, b, h)

insert_type-Sorted :
    (lo t : ℕ) (us : List ℕ) → lo ≤ t → IsType t → Sorted lo us → Sorted lo (insert_type t us)
unfolding insert_type
insert_type-Sorted lo t [] le lt h = (le, lt, tt)
insert_type-Sorted lo t (u ∷ us) le lt (a, b, h) = elim (Bool-cases (leb t u)) [
  | inl before ↦ rw before (le, lt, (leb→le t u before, b, h))
  | inr after ↦
      let gt = leb_gt t u after in rw after (a, b, insert_type-Sorted u t us (omega arith) lt h)
]

sort_types-Sorted : (ts : List ℕ) → All IsType ts → Sorted 0 (sort_types ts)
unfolding sort_types
sort_types-Sorted [] h = tt
sort_types-Sorted (t ∷ ts) (a, h) =
    insert_type-Sorted 0 t (sort_types ts) (omega arith) a (sort_types-Sorted ts h)

cons_dedup-Sorted :
    (lo t : ℕ) (us : List ℕ) → lo ≤ t → IsType t → Sorted t us → Sorted lo (cons_dedup t us)
cons_dedup-Sorted lo t [] le lt h = (le, lt, tt)
cons_dedup-Sorted lo t (u ∷ us) le lt (a, b, h) = elim (Bool-cases (t == u)) [
  | inl same ↦ rw same (omega arith, b, h)
  | inr other ↦ rw other (le, lt, (a, b, h))
]

dedup-Sorted : (lo : ℕ) (ts : List ℕ) → Sorted lo ts → Sorted lo (dedup ts)
unfolding dedup
dedup-Sorted lo [] h = tt
dedup-Sorted lo (t ∷ ts) (a, b, h) = cons_dedup-Sorted lo t (dedup ts) a b (dedup-Sorted t ts h)

or_swap : (a b c : Bool) → (a || (b || c)) ≡ (b || (a || c))
or_swap a b c = ground arith

any-insert_type :
    (p : ℕ → Bool) (t : ℕ) (us : List ℕ) → any p (insert_type t us) ≡ (p t || any p us)
unfolding insert_type
any-insert_type p t [] = refl
any-insert_type p t (u ∷ us) = elim (Bool-cases (leb t u)) [
  | inl before ↦ rw before
  | inr after ↦ rw (after, any-insert_type p t us) (or_swap (p u) (p t) (any p us))
]

any-sort_types : (p : ℕ → Bool) (ts : List ℕ) → any p (sort_types ts) ≡ any p ts
unfolding sort_types
any-sort_types p [] = refl
any-sort_types p (t ∷ ts) = rw (any-insert_type p t (sort_types ts), any-sort_types p ts)

or_again : (a b : Bool) → (a || b) ≡ (a || (a || b))
or_again a b = ground arith

any-cons_dedup : (p : ℕ → Bool) (t : ℕ) (us : List ℕ) → any p (cons_dedup t us) ≡ (p t || any p us)
any-cons_dedup p t [] = refl
any-cons_dedup p t (u ∷ us) = elim (Bool-cases (t == u)) [
  | inl same ↦ rw (same, (==_iff t u).0 same) (or_again (p u) (any p us))
  | inr other ↦ rw other
]

pub any-dedup : (p : ℕ → Bool) (ts : List ℕ) → any p (dedup ts) ≡ any p ts
unfolding dedup
any-dedup p [] = refl
any-dedup p (t ∷ ts) = rw (any-cons_dedup p t (dedup ts), any-dedup p ts)

pub dedup-sort_types-Sorted : (ts : List ℕ) → All IsType ts → Sorted 0 (dedup (sort_types ts))
dedup-sort_types-Sorted ts h = dedup-Sorted 0 (sort_types ts) (sort_types-Sorted ts h)

pub any-dedup-sort_types : (p : ℕ → Bool) (ts : List ℕ) → any p (dedup (sort_types ts)) ≡ any p ts
any-dedup-sort_types p ts = rw (any-dedup p (sort_types ts), any-sort_types p ts)

empty_any : (p : ℕ → Bool) (ts : List ℕ) → is_empty ts ≡ true → any p ts ≡ false
empty_any p [] h = refl
empty_any p (t ∷ ts) h = cc

-- A list with a type in it stays one.
pub is_empty-dedup-sort_types :
    (t : ℕ) (ts : List ℕ) → is_empty (dedup (sort_types (t ∷ ts))) ≡ false
is_empty-dedup-sort_types t ts =
    let p : ℕ → Bool = λ u. u == t in
    let here : any p (t ∷ ts) ≡ true = rw (==_refl t) in
    let kept = any-dedup-sort_types p (t ∷ ts) in
    elim (Bool-cases (is_empty (dedup (sort_types (t ∷ ts))))) [
      | inl y ↦ let no = empty_any p (dedup (sort_types (t ∷ ts))) y in cc
      | inr n ↦ n
    ]
