-- ===== src/StrictJson/Fuel.antt =====
-- The scanner ends: every call returns with the fuel that `scanForDuplicateMembers` is given here,
-- and what it leaves of the text is shorter.
use x402_base_evidence.Common.{
  ℕ, zero, suc, ◌+◌, ◌*◌, ◌≤◌, ◌<◌, ◌≡◌, ◌≢◌, refl, List, [], ◌∷◌, ◌++◌, arith, length, Text, Bool,
  true, false, leb, includes,
}
use x402_base_evidence.StrictJson.Scanner.{
  Scan, done, failed, no_fuel, ◌>>=◌, skip_whitespace, expect, skip_bare, unicode_escape, escape,
  Piece, closed, unit, after_backslash, piece, scan_chars, scan_string, scan_bare, opens,
  scan_value, scan_object, members, scan_array, elements, element_name, run, fuel_for, max_depth,
}

-- The call returns, and a value that it returns satisfies `P`.
abbrev Ensures {ℓ} : {A : Type ℓ} → (A → Type 0) → Scan A → Type 0
Ensures P (done a) = P a
Ensures P (failed _ _) = Unit
Ensures P no_fuel = ⊥

module _ {ℓ κ} {A : Type ℓ} {B : Type κ} where
  bind-Ensures :
      (P : A → Type 0) (Q : B → Type 0) (m : Scan A) (k : A → Scan B)
      → Ensures P m
      → ((a : A) → P a → Ensures Q (k a))
      → Ensures Q (m >>= k)
  bind-Ensures P Q (done a) k h next = next a h
  bind-Ensures P Q (failed c p) k h next = tt
  bind-Ensures P Q no_fuel k h next = h

test-Ensures {ℓ} :
    {A : Type ℓ} (Q : A → Type 0) (b : Bool) (x y : Scan A)
    → (b ≡ true → Ensures Q x)
    → (b ≡ false → Ensures Q y)
    → Ensures Q (elim b [ true ↦ x | false ↦ y ])
test-Ensures Q true x y h k = h refl
test-Ensures Q false x y h k = k refl

Ensures-weaken {ℓ} :
    {A : Type ℓ} {P Q : A → Type 0} (m : Scan A) → ((a : A) → P a → Q a) → Ensures P m → Ensures Q m
Ensures-weaken (done a) h p = h a p
Ensures-weaken (failed _ _) h p = tt
Ensures-weaken no_fuel h p = p

abbrev Below : ℕ → Text → Type 0
Below n rest = length rest < n

length-skip_whitespace : (s : Text) → length (skip_whitespace s) ≤ length s
unfolding skip_whitespace
length-skip_whitespace [] = omega arith
length-skip_whitespace (c ∷ cs) = ground (arith, length-skip_whitespace cs)

module _ (n : ℕ) where
  expect-Below :
      (ch : ℕ) (path : List Text) (s : Text) → length s ≤ n → Ensures (Below n) (expect ch path s)
  unfolding expect
  expect-Below ch path [] h = tt
  expect-Below ch path (c ∷ cs) h = ground arith

abbrev PieceBelow : ℕ → Piece → Type 0
PieceBelow n (closed rest) = length rest < n
PieceBelow n (unit c rest) = length rest < n

unicode_escape-Below :
    (path : List Text) (s : Text)
    → Ensures (λ u. length u.1 < suc (length s)) (unicode_escape path s)
unfolding unicode_escape
unicode_escape-Below path [] = tt
unicode_escape-Below path (a ∷ []) = tt
unicode_escape-Below path (a ∷ b ∷ []) = tt
unicode_escape-Below path (a ∷ b ∷ c ∷ []) = tt
unicode_escape-Below path (a ∷ b ∷ c ∷ d ∷ rest) = ground arith

piece-Below : (path : List Text) (s : Text) → Ensures (PieceBelow (length s)) (piece path s)
unfolding piece after_backslash escape
piece-Below path [] = tt
piece-Below path (c ∷ []) = ground arith
piece-Below path (c ∷ e ∷ rest) = ground (arith, unicode_escape-Below path rest)

scan_chars-Below :
    (f : ℕ) (path : List Text) (out s : Text)
    → length s < f
    → Ensures (λ r. length r.1 < length s) (scan_chars f path out s)
unfolding scan_chars
scan_chars-Below zero path out s h = absurd (omega arith)
scan_chars-Below (suc f) path out s h =
    bind-Ensures (PieceBelow (length s)) _ (piece path s) _ (piece-Below path s) elim [
      | closed rest ↦ λ b. b
      | unit c rest ↦ λ b.
          Ensures-weaken (scan_chars f path (out ++ c ∷ []) rest) (λ r m. omega arith)
            (scan_chars-Below f path (out ++ c ∷ []) rest (omega arith))
    ]

scan_string-Below :
    (n : ℕ) (path : List Text) (s : Text)
    → length s ≤ n
    → Ensures (λ r. length r.1 < n) (scan_string path s)
unfolding scan_string
scan_string-Below n path s h =
    bind-Ensures (Below n) _ (expect b'"' path s) _ (expect-Below n b'"' path s h) (λ s' b.
      Ensures-weaken (scan_chars (suc (length s')) path [] s') (λ r m. omega arith)
        (scan_chars-Below (suc (length s')) path [] s' (omega arith)))

length-skip_bare : (n : ℕ) (s : Text) → length (skip_bare n s).1 + (skip_bare n s).0 ≡ length s + n
unfolding skip_bare
length-skip_bare n [] = omega arith
length-skip_bare n (c ∷ cs) = ground (arith, length-skip_bare (n + 1) cs)

scan_bare-Below :
    (n : ℕ) (path : List Text) (s : Text) → length s ≤ n → Ensures (Below n) (scan_bare path s)
unfolding scan_bare
scan_bare-Below n path s h = ground (arith, length-skip_bare 0 s)

-- Behind a member or an element: a comma and the next round, or the closing bracket.
close-Below :
    (n close : ℕ) (path : List Text) (s : Text) (next : Text → Scan Text)
    → length s ≤ n
    → ((s' : Text) → length s' < length s → Ensures (Below n) (next s'))
    → Ensures (Below n) (elim (opens b',' (skip_whitespace s)) [
      | true ↦ expect b',' path (skip_whitespace s) >>= next
      | false ↦ expect close path (skip_whitespace s)
    ])
close-Below n close path s next h k =
    let skipped = length-skip_whitespace s in
    test-Ensures _ (opens b',' (skip_whitespace s)) _ _
      (λ e.
        bind-Ensures (Below (length s)) _ _ next
          (expect-Below (length s) b',' path (skip_whitespace s) skipped) k)
      (λ e. expect-Below n close path (skip_whitespace s) (omega arith))

mutual
  unfolding scan_value

  scan_value-Below :
      (f n depth : ℕ) (path : List Text) (s : Text)
      → 3 * length s + 2 ≤ f
      → length s ≤ n
      → Ensures (Below n) (scan_value f depth path s)
  scan_value-Below zero n depth path s h k = absurd (omega arith)
  scan_value-Below (suc f) n depth path [] h k = tt
  scan_value-Below (suc f) n depth path (c ∷ cs) h k = ground (
    arith,
    scan_object-Below f n depth path (c ∷ cs),
    scan_array-Below f n depth path (c ∷ cs),
    scan_string-Below n path (c ∷ cs),
    scan_bare-Below n path (c ∷ cs),
  )

  scan_object-Below :
      (f n depth : ℕ) (path : List Text) (s : Text)
      → 3 * length s + 1 ≤ f
      → length s ≤ n
      → Ensures (Below n) (scan_object f depth path s)
  scan_object-Below zero n depth path s h k = absurd (omega arith)
  scan_object-Below (suc f) n depth path s h k =
      test-Ensures _ (leb max_depth depth) _ _ (λ e. tt)
        (λ e.
          bind-Ensures (Below (length s)) _ (expect b'{' path s) _
            (expect-Below (length s) b'{' path s (omega arith))
            (λ s1 b. ground (
              arith,
              length-skip_whitespace s1,
              expect-Below n b'}' path (skip_whitespace s1),
              members-Below f n depth path [] (skip_whitespace s1),
            )))

  members-Below :
      (f n depth : ℕ) (path seen : List Text) (s : Text)
      → 3 * length s + 3 ≤ f
      → length s ≤ n
      → Ensures (Below n) (members f depth path seen s)
  members-Below zero n depth path seen s h k = absurd (omega arith)
  members-Below (suc f) n depth path seen s h k =
      let skipped = length-skip_whitespace s in
      bind-Ensures (λ r. length r.1 < length s) _ (scan_string path (skip_whitespace s)) _
        (scan_string-Below (length s) path (skip_whitespace s) skipped)
        (λ r b.
          test-Ensures _ (includes seen r.0) _ _ (λ e. tt)
            (λ e.
              bind-Ensures (Below (length r.1)) _ _ _
                (expect-Below (length r.1) b':' (path ++ r.0 ∷ []) (skip_whitespace r.1)
                  (length-skip_whitespace r.1))
                (λ s1 b1.
                  bind-Ensures (Below (length r.1)) _ _ _
                    (scan_value-Below f (length r.1) (depth + 1) (path ++ r.0 ∷ [])
                      (skip_whitespace s1) (omega (arith, length-skip_whitespace s1))
                      (omega (arith, length-skip_whitespace s1)))
                    (λ s2 b2. close-Below n b'}' path s2 _ (omega arith) (λ s3 b3.
                      members-Below f n depth path (r.0 ∷ seen) s3 (omega arith) (omega arith))))))

  scan_array-Below :
      (f n depth : ℕ) (path : List Text) (s : Text)
      → 3 * length s + 1 ≤ f
      → length s ≤ n
      → Ensures (Below n) (scan_array f depth path s)
  scan_array-Below zero n depth path s h k = absurd (omega arith)
  scan_array-Below (suc f) n depth path s h k =
      test-Ensures _ (leb max_depth depth) _ _ (λ e. tt)
        (λ e.
          bind-Ensures (Below (length s)) _ (expect b'[' path s) _
            (expect-Below (length s) b'[' path s (omega arith))
            (λ s1 b. ground (
              arith,
              length-skip_whitespace s1,
              expect-Below n b']' path (skip_whitespace s1),
              elements-Below f n depth path 0 (skip_whitespace s1),
            )))

  elements-Below :
      (f n depth : ℕ) (path : List Text) (element : ℕ) (s : Text)
      → 3 * length s + 3 ≤ f
      → length s ≤ n
      → Ensures (Below n) (elements f depth path element s)
  elements-Below zero n depth path element s h k = absurd (omega arith)
  elements-Below (suc f) n depth path element s h k =
      let skipped = length-skip_whitespace s in
      bind-Ensures (Below (length s)) _ _ _
        (scan_value-Below f (length s) (depth + 1) (path ++ element_name element ∷ [])
          (skip_whitespace s) (omega arith) skipped)
        (λ s1 b.
          close-Below n b']' path s1 _ (omega arith)
            (λ s2 b2. elements-Below f n depth path (element + 1) s2 (omega arith) (omega arith)))

run-Ensures : (text : Text) → Ensures (λ _. Unit) (run (fuel_for (length text)) text)
unfolding run
run-Ensures text =
    bind-Ensures (λ _. Unit) _ _ _
      (Ensures-weaken (scan_value (fuel_for (length text)) 0 [] (skip_whitespace text)) (λ _ _. tt)
        (scan_value-Below (fuel_for (length text)) (length text) 0 [] (skip_whitespace text)
          (omega (arith, length-skip_whitespace text)) (length-skip_whitespace text)))
      (λ rest _. ground arith)

-- The scanner ends on every text: the fuel given does not run out.
pub run_total : (text : Text) → run (fuel_for (length text)) text ≢ no_fuel
run_total text e = rw e at (run-Ensures text)
