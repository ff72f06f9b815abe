-- ===== src/Common/Options.antt =====
-- Chains of fallible steps: the `?` of Rust on an `Option`, or on a `Result` whose error says
-- nothing.
use mathlib.Core.Option.{Option, none, some}
use mathlib.Core.Path.{◌≡◌, refl}
use rustyalias.Common.Bools.{or_else}

infixl 5 ◌>>=◌
abbrev pub ◌>>=◌ {ℓ κ} : {A : Type ℓ} {B : Type κ} → Option A → (A → Option B) → Option B
none >>= f = none
some a >>= f = f a

pub >>=-eq-some {ℓ κ} :
    {A : Type ℓ} {B : Type κ} (m : Option A) (f : A → Option B) {b : B}
    → (m >>= f) ≡ some b
    → (a : A) × (m ≡ some a) × (f a ≡ some b)
>>=-eq-some (some a) f h = (a, refl, h)
>>=-eq-some none f h = cc

-- What holds of the value, if there is one.
abbrev pub Given {ℓ κ} : {A : Type ℓ} → (A → Type κ) → Option A → Type κ
Given Q (some a) = Q a
Given Q none = Unit {κ}

pub Given-bind {ℓ κ ι} :
    {A : Type ℓ} {B : Type κ} (Q : B → Type ι) (m : Option A) (f : A → Option B)
    → ((a : A) → m ≡ some a → Given Q (f a))
    → Given Q (m >>= f)
Given-bind Q (some a) f k = k a refl
Given-bind Q none f k = tt

pub Given-some {ℓ κ} :
    {A : Type ℓ} (Q : A → Type κ) (m : Option A) {a : A} → m ≡ some a → Given Q m → Q a
Given-some Q m e k = rw e at k

pub Given-or_else {ℓ κ} :
    {A : Type ℓ} (Q : A → Type κ) (m n : Option A) → Given Q m → Given Q n → Given Q (or_else m n)
Given-or_else Q none n h k = k
Given-or_else Q (some a) n h k = h

pub Given-map {ℓ κ ι} :
    {A : Type ℓ} (Q : A → Type κ) (R : A → Type ι) (m : Option A)
    → ((a : A) → Q a → R a)
    → Given Q m
    → Given R m
Given-map Q R none f h = tt
Given-map Q R (some a) f h = f a h
