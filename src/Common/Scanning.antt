-- ===== src/Common/Scanning.antt =====
-- Splitting a text at a code unit, the tests of regular expressions on it, and its UTF-8 length.
use Prim.Native.Nat.{ℕ, suc, ◌+◌}
use mathlib.Core.Path.{◌≡◌, refl, ap}
use mathlib.Core.Logic.{inl, inr}
use mathlib.Core.Bool.{Bool, true, false, not, ◌&&◌, ◌||◌}
use mathlib.Core.List.{[], ◌∷◌, ◌++◌}
use native.Mathlib.Omega.{arith}
use x402_base_evidence.Common.Lists.{length, all, any, drop}
use x402_base_evidence.Common.Strings.{Text, within, is_hex}
use x402_base_evidence.Common.Tests.{ltb, ◌==◌, if◌then◌else◌, Bool-cases}

-- `text.includes(c)` of one code unit.
abbrev pub has_code : ℕ → Text → Bool
has_code c t = any (λ x. x == c) t

-- The text before the first code unit that passes the test; all of it if none does.
unfoldable pub until : (ℕ → Bool) → Text → Text
until p [] = []
until p (c ∷ cs) = if p c then [] else c ∷ until p cs

-- The text from the first code unit on that passes the test; empty if none does.
unfoldable pub from : (ℕ → Bool) → Text → Text
from p [] = []
from p (c ∷ cs) = if p c then c ∷ cs else from p cs

abbrev pub starts_with : ℕ → Text → Bool
starts_with c [] = false
starts_with c (x ∷ xs) = x == c

abbrev pub is_empty : Text → Bool
is_empty [] = true
is_empty (c ∷ cs) = false

unfoldable pub occurrences : ℕ → Text → ℕ
occurrences c [] = 0
occurrences c (x ∷ xs) = if x == c then suc (occurrences c xs) else occurrences c xs

unfoldable pub is_alphanumeric : ℕ → Bool
is_alphanumeric c = within b'0' b'9' c || within b'a' b'z' c || within b'A' b'Z' c

-- `/^(?:[^%]|%[0-9A-Fa-f]{2})*$/`
unfoldable pub pct_ok : Text → Bool
pct_ok [] = true
pct_ok (c ∷ []) = not (c == b'%')
pct_ok (c ∷ d ∷ []) = not (c == b'%') && not (d == b'%')
pct_ok (c ∷ d ∷ e ∷ cs) =
    let plain = pct_ok (d ∷ e ∷ cs) in
    let escaped = pct_ok cs in if c == b'%' then is_hex d && is_hex e && escaped else plain

-- `Buffer.byteLength(text, 'utf8')`: a pair of surrogates takes four bytes, a lone one three.
unfoldable pub utf8_length : Text → ℕ
utf8_length [] = 0
utf8_length (c ∷ []) = if ltb c 0x80 then 1 else (if ltb c 0x800 then 2 else 3)
utf8_length (c ∷ d ∷ cs) =
    let next = utf8_length (d ∷ cs) in
    let after_pair = utf8_length cs in
    if ltb c 0x80
    then 1 + next
    else (if ltb c 0x800
        then 2 + next
        else (if within 0xd800 0xdbff c && within 0xdc00 0xdfff d
            then 4 + after_pair
            else 3 + next))

abbrev pub is_ascii : ℕ → Bool
is_ascii c = ltb c 0x80

pub utf8_length-of-ascii : (t : Text) → all is_ascii t ≡ true → utf8_length t ≡ length t
unfolding utf8_length
utf8_length-of-ascii [] h = refl
utf8_length-of-ascii (c ∷ []) h = ground arith
utf8_length-of-ascii (c ∷ d ∷ cs) h = ground (arith, utf8_length-of-ascii (d ∷ cs))

module _ (p : ℕ → Bool) where
  pub until-append-from : (t : Text) → until p t ++ from p t ≡ t
  unfolding until from
  until-append-from [] = refl
  until-append-from (c ∷ cs) = elim (Bool-cases (p c)) [
    | inl e ↦ rw e
    | inr e ↦ rw e (ap (λ (r : Text). c ∷ r) (until-append-from cs))
  ]

  pub any-until : (t : Text) → any p (until p t) ≡ false
  unfolding until
  any-until [] = refl
  any-until (c ∷ cs) = ground (arith, any-until cs)

  pub until-of-none : (t : Text) → any p t ≡ false → until p t ≡ t
  unfolding until
  until-of-none [] h = refl
  until-of-none (c ∷ cs) h = ground (arith, until-of-none cs)

  pub from-of-none : (t : Text) → any p t ≡ false → from p t ≡ []
  unfolding from
  from-of-none [] h = refl
  from-of-none (c ∷ cs) h = ground (arith, from-of-none cs)

  pub until-append :
      (t : Text) (c : ℕ) (r : Text) → any p t ≡ false → p c ≡ true → until p (t ++ c ∷ r) ≡ t
  unfolding until
  until-append [] c r h k = ground arith
  until-append (x ∷ t) c r h k = ground (arith, until-append t c r)

  pub from-append :
      (t : Text) (c : ℕ) (r : Text) → any p t ≡ false → p c ≡ true → from p (t ++ c ∷ r) ≡ c ∷ r
  unfolding from
  from-append [] c r h k = ground arith
  from-append (x ∷ t) c r h k = ground (arith, from-append t c r)

  pub any-append : (s t : Text) → any p (s ++ t) ≡ (any p s || any p t)
  any-append [] t = refl
  any-append (c ∷ s) t = ground (arith, any-append s t)

  all-append : (s t : Text) → all p (s ++ t) ≡ (all p s && all p t)
  all-append [] t = refl
  all-append (c ∷ s) t = ground (arith, all-append s t)

  pub any-of-none :
      (q : ℕ → Bool) (t : Text)
      → ((c : ℕ) → q c ≡ true → p c ≡ false)
      → all q t ≡ true
      → any p t ≡ false
  any-of-none q [] apart h = refl
  any-of-none q (c ∷ t) apart h = ground (arith, apart c, any-of-none q t apart)

pub any-until_of-none : (p q : ℕ → Bool) (t : Text) → any q t ≡ false → any q (until p t) ≡ false
unfolding until
any-until_of-none p q [] h = refl
any-until_of-none p q (c ∷ t) h = ground (arith, any-until_of-none p q t)

pub any-drop_1 : (q : ℕ → Bool) (t : Text) → any q t ≡ false → any q (drop 1 t) ≡ false
any-drop_1 q [] h = refl
any-drop_1 q (c ∷ t) h = ground arith

pub occurrences-append :
    (c : ℕ) (s t : Text) → occurrences c (s ++ t) ≡ occurrences c s + occurrences c t
unfolding occurrences
occurrences-append c [] t = ground arith
occurrences-append c (x ∷ s) t = ground (arith, occurrences-append c s t)

pub occurrences-of-none : (c : ℕ) (t : Text) → has_code c t ≡ false → occurrences c t ≡ 0
unfolding occurrences
occurrences-of-none c [] h = refl
occurrences-of-none c (x ∷ t) h = ground (arith, occurrences-of-none c t)
