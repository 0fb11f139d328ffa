-- ===== src/Components/Lowercase.antt =====
-- Lower-casing keeps the tests that src/components.ts makes on an authority.
use x402_base_evidence.Common.{
  ℕ, ◌<◌, ◌≡◌, refl, ◌⊎◌, Bool, true, false, [], ◌∷◌, ◌==◌, all, Text, is_digit, is_hex, lower,
  to_lower, arith,
}
use x402_base_evidence.Common.Scanning.{has_code, starts_with, is_empty, is_alphanumeric, pct_ok}
use x402_base_evidence.Components.Authority.{
  is_reg_name_code, hex_run_dot, is_ipvfuture, is_ipv4_code,
}

-- Lower-casing keeps every test that the checks make.
pub any-lower :
    (c : ℕ) (t : Text)
    → lower c ≡ c
    → (c < b'a') ⊎ (b'z' < c)
    → has_code c (to_lower t) ≡ has_code c t
unfolding lower
any-lower c [] e h = refl
any-lower c (x ∷ t) e h = ground (arith, any-lower c t)

pub all-lower :
    (p : ℕ → Bool) (t : Text)
    → ((c : ℕ) → p c ≡ true → p (lower c) ≡ true)
    → all p t ≡ true
    → all p (to_lower t) ≡ true
all-lower p [] k h = refl
all-lower p (c ∷ t) k h = ground (arith, k c, all-lower p t k)

pub reg_name-lower : (c : ℕ) → is_reg_name_code c ≡ true → is_reg_name_code (lower c) ≡ true
unfolding is_reg_name_code is_alphanumeric lower
reg_name-lower c h = ground arith

pub to_lower_twice : (t : Text) → to_lower (to_lower t) ≡ to_lower t
unfolding lower
to_lower_twice [] = refl
to_lower_twice (c ∷ t) = ground (arith, to_lower_twice t)

is_hex-lower : (c : ℕ) → is_hex (lower c) ≡ is_hex c
unfolding is_hex lower
is_hex-lower c = ground arith

pub pct_ok-lower : (t : Text) → pct_ok (to_lower t) ≡ pct_ok t
unfolding pct_ok lower
pct_ok-lower [] = refl
pct_ok-lower (c ∷ []) = ground arith
pct_ok-lower (c ∷ d ∷ []) = ground arith
pct_ok-lower (c ∷ d ∷ e ∷ cs) =
    ground (arith, pct_ok-lower (d ∷ e ∷ cs), pct_ok-lower cs, is_hex-lower d, is_hex-lower e)

dot-lower : (c : ℕ) → (lower c == b'.') ≡ (c == b'.')
unfolding lower
dot-lower c = ground arith

hex_run_dot-lower : (t : Text) → hex_run_dot (to_lower t) ≡ hex_run_dot t
unfolding hex_run_dot
hex_run_dot-lower [] = refl
hex_run_dot-lower (c ∷ t) = ground (arith, is_hex-lower c, hex_run_dot-lower t, dot-lower c)

pub ipvfuture-lower : (t : Text) → is_ipvfuture (to_lower t) ≡ is_ipvfuture t
unfolding is_ipvfuture lower
ipvfuture-lower [] = refl
ipvfuture-lower (c ∷ []) = refl
ipvfuture-lower (v ∷ d ∷ cs) = rw (hex_run_dot-lower cs) (rw (is_hex-lower d) (ground arith))

pub is_empty-lower : (t : Text) → is_empty (to_lower t) ≡ is_empty t
is_empty-lower [] = refl
is_empty-lower (c ∷ t) = refl

pub starts_with-lower : (t : Text) → starts_with b'[' (to_lower t) ≡ starts_with b'[' t
unfolding lower
starts_with-lower [] = refl
starts_with-lower (c ∷ t) = ground arith

pub reg_name-starts : (t : Text) → all is_reg_name_code t ≡ true → starts_with b'[' t ≡ false
unfolding is_reg_name_code is_alphanumeric
reg_name-starts [] h = refl
reg_name-starts (c ∷ t) h = ground arith

pub ipv4-lower : (t : Text) → all is_ipv4_code (to_lower t) ≡ true → to_lower t ≡ t
unfolding is_ipv4_code is_digit lower
ipv4-lower [] h = refl
ipv4-lower (c ∷ t) h = ground (arith, ipv4-lower t)
