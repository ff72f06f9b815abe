-- ===== src/Common/Results.antt =====
-- `Result<A, String>`: a value, or the text of an error.
use mathlib.Core.Option.{Option, none, some}
use rustyalias.Common.Lists.{Bytes}
use rustyalias.Common.Outcomes.{Outcome, ret, panic}

pub data Result {ℓ} (A : Type ℓ) : Type ℓ where
  ok : A → Result A
  err : Bytes → Result A

infixl 5 ◌>>=◌
abbrev pub ◌>>=◌ {ℓ κ} : {A : Type ℓ} {B : Type κ} → Result A → (A → Result B) → Result B
ok a >>= f = f a
err e >>= f = err e

-- `r.expect(…)`: the panic of an error.
abbrev pub expect_ok {ℓ} : {A : Type ℓ} → Result A → Outcome A
expect_ok (ok a) = ret a
expect_ok (err e) = panic

-- `o.ok_or(text)`, and `map_err` of an error that is not looked at.
abbrev pub ok_or {ℓ} : {A : Type ℓ} → Option A → Bytes → Result A
ok_or (some a) text = ok a
ok_or none text = err text
