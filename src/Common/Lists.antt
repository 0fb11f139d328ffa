-- ===== src/Common/Lists.antt =====
-- Lists measured by native numbers, Boolean quantifiers over lists, and predicates on lists.
use Prim.Native.Nat.{ℕ, zero, suc, ◌+◌}
use mathlib.Core.Path.{◌≡◌, refl, sym, ap, ◌∙◌}
use mathlib.Core.Logic.{◌↔◌, ◌⊎◌, inl, inr}
use mathlib.Core.Bool.{Bool, true, false, ◌&&◌, ◌||◌}
use mathlib.Core.Option.{Option, none, some}
use mathlib.Core.List.{List, [], ◌∷◌, ◌++◌}
use native.Mathlib.Omega.{arith}

module _ {ℓ} {A : Type ℓ} where
  abbrev pub length : List A → ℕ
  length [] = 0
  length (x ∷ xs) = suc (length xs)

  abbrev pub take : ℕ → List A → List A
  take zero xs = []
  take (suc n) [] = []
  take (suc n) (x ∷ xs) = x ∷ take n xs

  abbrev pub drop : ℕ → List A → List A
  drop zero xs = xs
  drop (suc n) [] = []
  drop (suc n) (x ∷ xs) = drop n xs

  List-cases : (l : List A) → (l ≡ []) ⊎ ((a : A) × (as' : List A) × (l ≡ a ∷ as'))
  List-cases [] = inl refl
  List-cases (a ∷ as') = inr (a, as', refl)

  abbrev pub all : (A → Bool) → List A → Bool
  all p [] = true
  all p (x ∷ xs) = p x && all p xs

  abbrev pub any : (A → Bool) → List A → Bool
  any p [] = false
  any p (x ∷ xs) = p x || any p xs

  pub length-append : (xs ys : List A) → length (xs ++ ys) ≡ length xs + length ys
  length-append [] ys = omega arith
  length-append (x ∷ xs) ys = omega (arith, length-append xs ys)

module _ {ℓ κ} {A : Type ℓ} (P : A → Type κ) where
  abbrev pub All : List A → Type κ
  All [] = Unit
  All (x ∷ xs) = P x × All xs

module _ {A : Type 0} where
  -- `a` stands in the list; the place is kept.
  abbrev pub In : A → List A → Type 0
  In a [] = ⊥
  In a (x ∷ xs) = (a ≡ x) ⊎ In a xs

  pub All-In : (P : A → Type 0) (xs : List A) {a : A} → All P xs → In a xs → P a
  All-In P (x ∷ xs) h (inl e) = rw e h.0
  All-In P (x ∷ xs) h (inr m) = All-In P xs h.1 m
  All-In P [] h m = absurd m

  pub In-All : (P : A → Type 0) (xs : List A) → ((a : A) → In a xs → P a) → All P xs
  In-All P [] h = tt
  In-All P (x ∷ xs) h = (h x (inl refl), In-All P xs (λ a m. h a (inr m)))

  pub append-eq-nil_iff : (xs ys : List A) → (xs ++ ys ≡ []) ↔ ((xs ≡ []) × (ys ≡ []))
  append-eq-nil_iff [] ys = ground arith
  append-eq-nil_iff (x ∷ xs) ys = ground arith

  pub In-append : (a : A) (xs ys : List A) → In a (xs ++ ys) ↔ (In a xs ⊎ In a ys)
  In-append a [] ys = ground arith
  In-append a (x ∷ xs) ys = ground (arith, In-append a xs ys)

cons_some {ℓ} : {B : Type ℓ} → Option B → List B → List B
cons_some none rest = rest
cons_some (some b) rest = b ∷ rest

-- The values of a partial function, where it has one.
unfoldable pub filter_map {ℓ κ} : {A : Type ℓ} {B : Type κ} → (A → Option B) → List A → List B
unfolding cons_some
filter_map f [] = []
filter_map f (a ∷ as') = cons_some (f a) (filter_map f as')

In-cons_some :
    {B : Type 0} (o : Option B) (rest : List B) (b : B)
    → In b (cons_some o rest) ↔ ((o ≡ some b) ⊎ In b rest)
unfolding cons_some
In-cons_some none rest b = ground arith
In-cons_some (some c) rest b = ground arith

pub In-filter_map :
    {A B : Type 0} (f : A → Option B) (as' : List A) (b : B)
    → In b (filter_map f as') ↔ ((a : A) × In a as' × (f a ≡ some b))
unfolding filter_map
In-filter_map f [] b = ground arith
In-filter_map f (a ∷ as') b = (
  λ m. elim ((In-cons_some (f a) (filter_map f as') b).0 m) [
    | inl here ↦ (a, inl refl, here)
    | inr later ↦ let (a', m', e) = (In-filter_map f as' b).0 later in (a', inr m', e)
  ],
  λ (a', m, e). (In-cons_some (f a) (filter_map f as') b).1 (elim m [
    | inl here ↦ inl (ap f (sym here) ∙ e)
    | inr later ↦ inr ((In-filter_map f as' b).1 (a', later, e))
  ]),
)
