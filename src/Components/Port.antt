-- ===== src/Components/Port.antt =====
-- The port of an authority (src/components.ts): a normalized port is normalized.
use x402_base_evidence.Common.{
  ℕ, ◌≡◌, refl, inl, inr, true, false, not, ◌||◌, [], ◌∷◌, ◌==◌, ltb, if◌then◌else◌, all, Text,
  is_digit, arith, Bool-cases, ◌≢◌,
}
use x402_base_evidence.Common.Decimal.{
  decimal_value, to_decimal, decimal_value-to_decimal, to_decimal-digits,
}
use x402_base_evidence.Common.Except.{ok, throw_if, ◌>>◌, throw_if->>-eq-ok}
use x402_base_evidence.Components.Authority.{
  invalid_port, port_out_of_range, Scheme, Checked, default_port, normalize_port,
}

normalize_port-again :
    (s : Scheme) (n : ℕ) (t : Text)
    → t ≢ []
    → all is_digit t ≡ true
    → decimal_value t ≡ n
    → ltb n 1 ≡ false
    → ltb 65535 n ≡ false
    → (n == default_port s) ≡ false
    → normalize_port s t ≡ ok (to_decimal n)
unfolding normalize_port
normalize_port-again s n [] ne d v lo hi df = absurd (ne refl)
normalize_port-again s n (c ∷ cs) ne d v lo hi df = rw d (rw v (rw lo (rw hi (rw df refl))))

-- A port that was decided is decided again as it is, and has digits only.
pub normalize_port-twice :
    (s : Scheme) (p q : Text)
    → normalize_port s p ≡ ok q
    → (normalize_port s q ≡ ok q) × (all is_digit q ≡ true)
unfolding normalize_port
normalize_port-twice s [] q h = let e : [] ≡ q = ground arith in rw (← e) (refl, refl)
normalize_port-twice s (c ∷ cs) q h =
    let n : ℕ = decimal_value (c ∷ cs) in
    let final : Checked Text = ok (if n == default_port s then [] else to_decimal n) in
    let ranged : Checked Text = throw_if (ltb n 1 || ltb 65535 n) port_out_of_range >> final in
    let (digits, h1) = throw_if->>-eq-ok (not (all is_digit (c ∷ cs))) invalid_port ranged h in
    let (range, h2) = throw_if->>-eq-ok (ltb n 1 || ltb 65535 n) port_out_of_range final h1 in
    elim (Bool-cases (n == default_port s)) [
      | inl df ↦ let e : [] ≡ q = ground arith in rw (← e) (refl, refl)
      | inr df ↦
          let e : to_decimal n ≡ q = ground arith in
          rw (← e) (
            normalize_port-again s n (to_decimal n) (to_decimal-digits n).1 (to_decimal-digits n).0
                (decimal_value-to_decimal n) (ground arith) (ground arith) df,
            (to_decimal-digits n).0,
          )
    ]
