-- ===== src/Common/Decimal.antt =====
-- `String(n)` of a natural number: its decimal digits.
use Prim.Native.Nat.{ℕ, zero, suc, ◌+◌, ◌-◌, ◌*◌, ◌/◌, ◌%◌, ◌<◌}
use mathlib.Core.Path.{◌≡◌, refl}
use mathlib.Core.Bool.{true}
use mathlib.Core.Logic.{◌≢◌}
use mathlib.Core.List.{[], ◌∷◌}
use native.Mathlib.Omega.{arith}
use x402_base_evidence.Common.Lists.{all}
use x402_base_evidence.Common.Tests.{ltb, if◌then◌else◌}
use x402_base_evidence.Common.Strings.{Text, is_digit}

decimal_digits : ℕ → ℕ → Text → Text
decimal_digits zero n out = out
decimal_digits (suc f) n out =
    let rest = decimal_digits f (n / 10) ((b'0' + n % 10) ∷ out) in
    if ltb n 10 then (b'0' + n) ∷ out else rest

-- `n` is below 10 to the power of its own fuel, so the digits end before the fuel.
unfoldable pub to_decimal : ℕ → Text
unfolding decimal_digits
to_decimal n = decimal_digits (suc n) n []

-- The number that a text of decimal digits names, `Number(text)`.
unfoldable pub value_from : ℕ → Text → ℕ
value_from acc [] = acc
value_from acc (c ∷ cs) = value_from (acc * 10 + (c - b'0')) cs

abbrev pub decimal_value : Text → ℕ
decimal_value = value_from 0

value_from-decimal_digits :
    (f n : ℕ) (out : Text) → n < f → value_from 0 (decimal_digits f n out) ≡ value_from n out
unfolding decimal_digits value_from
value_from-decimal_digits zero n out h = elim h [ ]
value_from-decimal_digits (suc f) n out h =
    ground (arith, value_from-decimal_digits f (n / 10) ((b'0' + n % 10) ∷ out))

-- Printing a number and reading it back gives the number.
pub decimal_value-to_decimal : (n : ℕ) → decimal_value (to_decimal n) ≡ n
unfolding to_decimal value_from
decimal_value-to_decimal n = value_from-decimal_digits (suc n) n [] (omega arith)

decimal_digits-digits :
    (f n : ℕ) (out : Text) → all is_digit out ≡ true → all is_digit (decimal_digits f n out) ≡ true
unfolding decimal_digits is_digit
decimal_digits-digits zero n out h = h
decimal_digits-digits (suc f) n out h =
    ground (arith, decimal_digits-digits f (n / 10) ((b'0' + n % 10) ∷ out))

decimal_digits-ne-nil : (f n : ℕ) (out : Text) → n < f → decimal_digits f n out ≢ []
unfolding decimal_digits
decimal_digits-ne-nil zero n out h = elim h [ ]
decimal_digits-ne-nil (suc f) n out h =
    ground (arith, decimal_digits-ne-nil f (n / 10) ((b'0' + n % 10) ∷ out))

-- The decimal form has digits only, and one at least.
pub to_decimal-digits : (n : ℕ) → (all is_digit (to_decimal n) ≡ true) × (to_decimal n ≢ [])
unfolding to_decimal
to_decimal-digits n =
    (decimal_digits-digits (suc n) n [] refl, decimal_digits-ne-nil (suc n) n [] (omega arith))
