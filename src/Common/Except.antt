-- ===== src/Common/Except.antt =====
-- A result or a thrown error, the errors being a type of the caller's.
use mathlib.Core.Path.{◌≡◌, refl}
use mathlib.Core.Logic.{◌⊎◌, inl, inr}
use mathlib.Core.Bool.{Bool, true, false}
use mathlib.Core.Option.{Option, none, some}
use mathlib.Core.List.{List, [], ◌∷◌}
use native.Mathlib.Omega.{arith}

pub data Except (E X : Type 0) : Type 0 where
  ok : X → Except E X
  err : E → Except E X

abbrev pub some_or : {E X : Type 0} → Option X → E → Except E X
some_or (some x) thrown = ok x
some_or none thrown = err thrown

-- `if (test) throw error`
abbrev pub throw_if : {E : Type 0} → Bool → E → Except E (Unit {0})
throw_if false thrown = ok tt
throw_if true thrown = err thrown

infixl 5 ◌>>=◌ ◌>>◌
-- What follows a call, if the call returns.
abbrev pub ◌>>=◌ : {E X Y : Type 0} → Except E X → (X → Except E Y) → Except E Y
err thrown >>= next = err thrown
ok x >>= next = next x

-- A call that returns is the first of two that return.
pub >>=-eq-ok :
    {E X Y : Type 0} {y : Y} (call : Except E X) (next : X → Except E Y)
    → (call >>= next) ≡ ok y
    → (x : X) × (call ≡ ok x) × (next x ≡ ok y)
>>=-eq-ok (err thrown) next returns = absurd (ground arith)
>>=-eq-ok (ok x) next returns = (x, refl, returns)

-- Two statements in a row.
abbrev pub ◌>>◌ : {E Y : Type 0} → Except E (Unit {0}) → Except E Y → Except E Y
first >> second = first >>= λ _. second

throw_if-eq-ok : {E : Type 0} (b : Bool) (e : E) → throw_if b e ≡ ok tt → b ≡ false
throw_if-eq-ok true e h = absurd (ground arith)
throw_if-eq-ok false e h = refl

pub throw_if->>-eq-ok :
    {E B : Type 0} (t : Bool) (e : E) (k : Except E B) {b : B}
    → (throw_if t e >> k) ≡ ok b
    → (t ≡ false) × (k ≡ ok b)
throw_if->>-eq-ok true e k h = absurd (ground arith)
throw_if->>-eq-ok false e k h = (refl, h)

pub some_or->>=-eq-ok :
    {E A B : Type 0} (o : Option A) (e : E) (f : A → Except E B) {b : B}
    → (some_or o e >>= f) ≡ ok b
    → (a : A) × (o ≡ some a) × (f a ≡ ok b)
some_or->>=-eq-ok none e f h = absurd (ground arith)
some_or->>=-eq-ok (some a) e f h = (a, refl, h)

pub Except-cases :
    {E A : Type 0} (m : Except E A) → ((a : A) × (m ≡ ok a)) ⊎ ((e : E) × (m ≡ err e))
Except-cases (ok a) = inl (a, refl)
Except-cases (err e) = inr (e, refl)

-- Throws in a row: the error of the first test that holds.
abbrev pub throw_first : {E : Type 0} → List (Bool × E) → Except E (Unit {0})
throw_first [] = ok tt
throw_first ((b, e) ∷ cs) = throw_if b e >> throw_first cs

abbrev pub Passes : {E : Type 0} → List (Bool × E) → Type 0
Passes [] = Unit
Passes ((b, e) ∷ cs) = (b ≡ false) × Passes cs

pub throw_first-Passes :
    {E A : Type 0} (cs : List (Bool × E)) (k : Except E A) {a : A}
    → (throw_first cs >> k) ≡ ok a
    → Passes cs × (k ≡ ok a)
throw_first-Passes [] k h = (tt, h)
throw_first-Passes ((true, e) ∷ cs) k h = absurd (ground arith)
throw_first-Passes ((false, e) ∷ cs) k h = let (p, r) = throw_first-Passes cs k h in ((refl, p), r)

throw_first-of-Passes : {E : Type 0} (cs : List (Bool × E)) → Passes cs → throw_first cs ≡ ok tt
throw_first-of-Passes [] p = refl
throw_first-of-Passes ((b, e) ∷ cs) (r, p) = rw r (throw_first-of-Passes cs p)

pub ok-injective : {E A : Type 0} {a b : A} → ◌≡◌ {A = Except E A} (ok a) (ok b) → a ≡ b
ok-injective h = ground arith

pub err-injective : {E A : Type 0} {a b : E} → ◌≡◌ {A = Except E A} (err a) (err b) → a ≡ b
err-injective h = ground arith
