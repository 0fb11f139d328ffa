-- ===== src/Common/Hex.antt =====
-- Hexadecimal text: the value of digits, the shortest digits of a number, and the round trips.
use Prim.Native.Nat.{ℕ, zero, suc, ◌+◌, ◌-◌, ◌*◌, ◌/◌, ◌%◌, ◌<◌}
use mathlib.Core.Path.{◌≡◌, refl}
use mathlib.Core.Logic.{inl, inr}
use mathlib.Core.Bool.{Bool, true, false, not, ◌&&◌}
use mathlib.Core.List.{[], ◌∷◌}
use native.Mathlib.Omega.{arith}
use x402_base_evidence.Common.Lists.{all}
use x402_base_evidence.Common.Strings.{Text, is_digit, is_hex, within}
use x402_base_evidence.Common.Tests.{ltb, ◌==◌, if◌then◌else◌, Bool-cases}

-- The value of one hex digit.
unfoldable pub hex_value : ℕ → ℕ
unfolding is_digit
hex_value c =
    if is_digit c then c - b'0' else if within b'a' b'f' c then c - b'a' + 10 else c - b'A' + 10

unfoldable pub hex_from : ℕ → Text → ℕ
hex_from acc [] = acc
hex_from acc (c ∷ cs) = hex_from (acc * 16 + hex_value c) cs

-- `BigInt('0x…')` of the digits.
abbrev pub hex_number : Text → ℕ
hex_number = hex_from 0

-- The digit below 16, in lower case.
unfoldable hex_digit : ℕ → ℕ
hex_digit v = if ltb v 10 then b'0' + v else b'a' + (v - 10)

hex_digits : ℕ → ℕ → Text → Text
unfolding hex_digit
hex_digits zero n out = out
hex_digits (suc f) n out =
    let rest = hex_digits f (n / 16) (hex_digit (n % 16) ∷ out) in
    if ltb n 16 then hex_digit n ∷ out else rest

-- `n.toString(16)`
unfoldable pub to_hex : ℕ → Text
unfolding hex_digits
to_hex n = hex_digits (suc n) n []

hex_value-hex_digit : (v : ℕ) → v < 16 → hex_value (hex_digit v) ≡ v
unfolding hex_value hex_digit
hex_value-hex_digit v h = ground arith

is_hex-hex_digit : (v : ℕ) → v < 16 → is_hex (hex_digit v) ≡ true
unfolding is_hex hex_digit
is_hex-hex_digit v h = ground arith

hex_from-hex_digits :
    (f n : ℕ) (out : Text) → n < f → hex_from 0 (hex_digits f n out) ≡ hex_from n out
unfolding hex_digits hex_from
hex_from-hex_digits zero n out h = elim h [ ]
hex_from-hex_digits (suc f) n out h = ground (
  arith,
  hex_value-hex_digit n,
  hex_value-hex_digit (n % 16),
  hex_from-hex_digits f (n / 16) (hex_digit (n % 16) ∷ out),
)

pub hex_number-to_hex : (n : ℕ) → hex_number (to_hex n) ≡ n
unfolding to_hex hex_from
hex_number-to_hex n = hex_from-hex_digits (suc n) n [] (omega arith)

-- `0|[1-9a-fA-F][0-9a-fA-F]*`
unfoldable pub is_shortest_hex : Text → Bool
is_shortest_hex [] = false
is_shortest_hex (c ∷ []) = is_hex c
is_shortest_hex (c ∷ d ∷ cs) = is_hex c && not (c == b'0') && all is_hex (d ∷ cs)

hex_digit-ne-zero : (v : ℕ) → v < 16 → 0 < v → (hex_digit v == b'0') ≡ false
unfolding hex_digit
hex_digit-ne-zero v h k = ground arith

shortest_cons :
    (c : ℕ) (cs : Text)
    → is_hex c ≡ true
    → (c == b'0') ≡ false
    → all is_hex cs ≡ true
    → is_shortest_hex (c ∷ cs) ≡ true
unfolding is_shortest_hex
shortest_cons c [] h k a = h
shortest_cons c (d ∷ cs) h k a = ground arith

zero_digits : is_shortest_hex (to_hex 0) ≡ true
unfolding to_hex is_shortest_hex is_hex
zero_digits = refl

is_shortest_hex-hex_digits :
    (f n : ℕ) (out : Text)
    → n < f
    → 0 < n
    → all is_hex out ≡ true
    → is_shortest_hex (hex_digits f n out) ≡ true
unfolding hex_digits
is_shortest_hex-hex_digits zero n out h k a = elim h [ ]
is_shortest_hex-hex_digits (suc f) n out h k a = elim (Bool-cases (ltb n 16)) [
  | inl small ↦ rw small (
      shortest_cons (hex_digit n) out (is_hex-hex_digit n (ground arith))
        (hex_digit-ne-zero n (ground arith) k) a)
  | inr large ↦ rw large (
      is_shortest_hex-hex_digits f (n / 16) (hex_digit (n % 16) ∷ out) (ground arith) (ground arith)
        (ground (arith, is_hex-hex_digit (n % 16))))
]

-- The digits of a number are of the shortest form.
pub is_shortest_hex-to_hex : (n : ℕ) → is_shortest_hex (to_hex n) ≡ true
unfolding to_hex
is_shortest_hex-to_hex zero = zero_digits
is_shortest_hex-to_hex (suc n) =
    is_shortest_hex-hex_digits (suc (suc n)) (suc n) [] (omega arith) (omega arith) refl
