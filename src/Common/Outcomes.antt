-- ===== src/Common/Outcomes.antt =====
-- Code that can panic. Rust panics on an index or a slice out of range and on `expect` of `None`;
-- here such an operation answers `panic`, and a chain of operations is a `do` block.
use Prim.Native.Nat.{ℕ, ◌-◌, ◌≤◌, ◌<◌, suc, zero}
use mathlib.Core.Path.{◌≡◌, refl, ap, ◌∙◌}
use mathlib.Core.List.{List, [], ◌∷◌}
use mathlib.Core.Bool.{◌&&◌}
use mathlib.Core.Option.{Option, none, some}
use native.Mathlib.Omega.{arith}
use rustyalias.Common.Bools.{leb, ltb, if◌then◌else◌, le→leb, lt→ltb}
use rustyalias.Common.Lists.{length, get_elem?, get_or, set, take, drop, length-take, length-drop}

pub data Outcome {ℓ} (A : Type ℓ) : Type ℓ where
  ret : A → Outcome A
  panic : Outcome A

infixl 5 ◌>>=◌
abbrev pub ◌>>=◌ {ℓ κ} : {A : Type ℓ} {B : Type κ} → Outcome A → (A → Outcome B) → Outcome B
ret a >>= f = f a
panic >>= f = panic

-- The computation returns a value: it does not panic.
abbrev pub Returns {ℓ} : {A : Type ℓ} → Outcome A → Type ℓ
Returns {A} m = (a : A) × (m ≡ ret a)

pub >>=-Returns {ℓ κ} :
    {A : Type ℓ} {B : Type κ} (m : Outcome A) (f : A → Outcome B)
    → Returns m
    → ((a : A) → m ≡ ret a → Returns (f a))
    → Returns (m >>= f)
>>=-Returns (ret a) f h k = k a refl
>>=-Returns panic f (a, e) k = cc

pub >>=-eq-ret {ℓ κ} :
    {A : Type ℓ} {B : Type κ} (m : Outcome A) (f : A → Outcome B) {b : B}
    → (m >>= f) ≡ ret b
    → (a : A) × (m ≡ ret a) × (f a ≡ ret b)
>>=-eq-ret (ret a) f h = (a, refl, h)
>>=-eq-ret panic f h = cc

-- A chain whose first step is known to return.
pub >>=-eq {ℓ κ} :
    {A : Type ℓ} {B : Type κ} {m : Outcome A} {a : A} (f : A → Outcome B) {r : Outcome B}
    → m ≡ ret a
    → f a ≡ r
    → (m >>= f) ≡ r
>>=-eq f e k = rw e k

-- What holds of the value, if there is one.
abbrev pub Ensures {ℓ κ} : {A : Type ℓ} → (A → Type κ) → Outcome A → Type κ
Ensures Q (ret a) = Q a
Ensures Q panic = Unit {κ}

pub Ensures-bind {ℓ κ ι} :
    {A : Type ℓ} {B : Type κ} (Q : B → Type ι) (m : Outcome A) (f : A → Outcome B)
    → ((a : A) → m ≡ ret a → Ensures Q (f a))
    → Ensures Q (m >>= f)
Ensures-bind Q (ret a) f k = k a refl
Ensures-bind Q panic f k = tt

pub Ensures-ret {ℓ κ} :
    {A : Type ℓ} (Q : A → Type κ) (m : Outcome A) {a : A} → m ≡ ret a → Ensures Q m → Q a
Ensures-ret Q m e k = rw e at k

-- `o.expect(…)`.
abbrev pub expect {ℓ} : {A : Type ℓ} → Option A → Outcome A
expect none = panic
expect (some a) = ret a

-- `xs[i]`.
unfoldable pub index {ℓ} : {A : Type ℓ} → List A → ℕ → Outcome A
index xs i = expect (get_elem? xs i)

-- `&xs[a..b]`.
unfoldable pub slice {ℓ} : {A : Type ℓ} → List A → ℕ → ℕ → Outcome (List A)
slice xs a b = if leb a b && leb b (length xs) then ret (take (b - a) (drop a xs)) else panic

-- `xs[i] = v`.
unfoldable pub store {ℓ} : {A : Type ℓ} → List A → ℕ → A → Outcome (List A)
store xs i v = if ltb i (length xs) then ret (set xs i v) else panic

module _ {ℓ} {A : Type ℓ} where
  get_elem?-get_or :
      (xs : List A) (i : ℕ) (d : A) → i < length xs → expect (get_elem? xs i) ≡ ret (get_or xs i d)
  get_elem?-get_or [] i d h = elim h [ ]
  get_elem?-get_or (x ∷ xs) zero d h = refl
  get_elem?-get_or (x ∷ xs) (suc i) d h = get_elem?-get_or xs i d (omega arith)

  pub index_in : (xs : List A) (i : ℕ) (d : A) → i < length xs → index xs i ≡ ret (get_or xs i d)
  unfolding index
  index_in xs i d h = get_elem?-get_or xs i d h

  pub slice_in :
      (xs : List A) (a b : ℕ)
      → a ≤ b
      → b ≤ length xs
      → slice xs a b ≡ ret (take (b - a) (drop a xs))
  unfolding slice
  slice_in xs a b h k = rw (le→leb a b h, le→leb b (length xs) k)

  pub slice_front : (xs : List A) (n : ℕ) → n ≤ length xs → slice xs 0 n ≡ ret (take n xs)
  slice_front xs n h = slice_in xs 0 n (omega arith) h ∙ ap (λ k. ret (take k xs)) (omega arith)

  pub store_in : (xs : List A) (i : ℕ) (v : A) → i < length xs → store xs i v ≡ ret (set xs i v)
  unfolding store
  store_in xs i v h = rw (lt→ltb i (length xs) h)

  pub length-slice :
      (xs : List A) (a b : ℕ) → a ≤ b → b ≤ length xs → length (take (b - a) (drop a xs)) ≡ b - a
  length-slice xs a b h k = omega (arith, length-take (b - a) (drop a xs), length-drop a xs)
