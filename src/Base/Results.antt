-- ===== src/Base/Results.antt =====
-- Rust's `Result`, and the `?` operator: a failure ends the function.
use mathlib.Core.Option.{Option, none, some}
use mathlib.Core.Bool.{Bool, true, false}

pub data Result {ℓ} (E A : Type ℓ) : Type ℓ where
  err : E → Result E A
  ok : A → Result E A

infixl 5 ◌>>=◌
abbrev pub ◌>>=◌ {ℓ} : {E A B : Type ℓ} → Result E A → (A → Result E B) → Result E B
err failure >>= next = err failure
ok value >>= next = next value

-- `Result::ok` and `is_ok`.
abbrev pub ok_value {ℓ} : {E A : Type ℓ} → Result E A → Option A
ok_value (ok value) = some value
ok_value (err failure) = none

abbrev pub is_ok {ℓ} : {E A : Type ℓ} → Result E A → Bool
is_ok (ok value) = true
is_ok (err failure) = false
