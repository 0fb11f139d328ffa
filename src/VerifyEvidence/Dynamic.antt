-- ===== src/VerifyEvidence/Dynamic.antt =====
-- The operators of JavaScript on values of unknown type, as src/flow/verify-evidence.ts meets them in
-- documents that it did not write. `none` of a result is a `TypeError`.
use x402_base_evidence.Common.{
  ◌≡◌, refl, arith, Bool, true, false, ◌==◌, Option, none, some, Text, eq_text, to_lower,
}
use x402_base_evidence.Json.{
  ℤ, pos, negsuc, Json, null, boolean, integer, fraction, string, object, member,
}

infixl 5 ◌>>=◌
abbrev pub ◌>>=◌ : {A B : Type 0} → Option A → (A → Option B) → Option B
none >>= f = none
some a >>= f = f a

pub >>=-eq-some :
    {A B : Type 0} (o : Option A) (f : A → Option B) {b : B}
    → (o >>= f) ≡ some b
    → (a : A) × (o ≡ some a) × (f a ≡ some b)
>>=-eq-some none f h = absurd (ground arith)
>>=-eq-some (some a) f h = (a, refl, h)

-- `a && b`, where `b` is not evaluated if `a` is false.
unfoldable pub and_then : Option Bool → Option Bool → Option Bool
and_then none b = none
and_then (some false) b = some false
and_then (some true) b = b

-- `value.key`
unfoldable pub get : Text → Option Json → Option (Option Json)
get key (some (object fs)) = some (member key fs)
get key none = none
get key (some null) = none
get key (some _) = some none

-- `value.toLowerCase()`
unfoldable pub lower_of : Option Json → Option Text
lower_of (some (string s)) = some (to_lower s)
lower_of _ = none

-- `sameAddress(a, b)`
unfoldable pub same_address_of : Option Json → Option Json → Option Bool
unfolding lower_of
same_address_of a b = lower_of a >>= λ x. lower_of b >>= λ y. some (eq_text x y)

unfoldable same_integer : ℤ → ℤ → Bool
same_integer (pos m) (pos n) = m == n
same_integer (negsuc m) (negsuc n) = m == n
same_integer _ _ = false

unfoldable pub same_boolean : Bool → Bool → Bool
same_boolean true b = b
same_boolean false true = false
same_boolean false false = true

-- `a === b`. Objects and arrays at two places of parsed documents are never the same one.
unfoldable pub strict_equal : Option Json → Option Json → Bool
unfolding same_integer same_boolean
strict_equal none none = true
strict_equal (some null) (some null) = true
strict_equal (some (boolean a)) (some (boolean b)) = same_boolean a b
strict_equal (some (integer m)) (some (integer n)) = same_integer m n
strict_equal (some (fraction m)) (some (fraction n)) = m == n
strict_equal (some (string s)) (some (string t)) = eq_text s t
strict_equal _ _ = false

-- `typeof value === 'string'`
unfoldable pub is_string : Option Json → Bool
is_string (some (string s)) = true
is_string _ = false

-- `value === undefined`
unfoldable pub is_undefined : Option Json → Bool
is_undefined none = true
is_undefined (some v) = false
