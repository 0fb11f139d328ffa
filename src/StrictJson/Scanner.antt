-- ===== src/StrictJson/Scanner.antt =====
-- src/strict-json.ts: the class `Scanner` and `scanForDuplicateMembers`.
--
-- The scanner's `index` only moves forward, so the text that is left stands for it; `path` is
-- pushed before a member or element is scanned and popped after it, so it is an argument. A throw
-- of `ScanFailure` is the value `failed`. Each call takes one unit of fuel; `no_fuel` is told apart
-- from every outcome of the source.
use x402_base_evidence.Common.{
  ℕ, zero, suc, ◌+◌, ◌-◌, ◌*◌, Bool, true, false, not, ◌&&◌, ◌||◌, List, [], ◌∷◌, ◌++◌,
  if◌then◌else◌, ltb, leb, ◌==◌, length, Text, includes, within, is_hex, is_digit,
}
use x402_base_evidence.Common.Decimal.{to_decimal}

pub data Code : Type 0 where
  duplicate_member depth_limit_exceeded scan_incomplete : Code

pub data Scan {ℓ} (A : Type ℓ) : Type ℓ where
  done : A → Scan A
  failed : Code → List Text → Scan A
  no_fuel : Scan A

infixl 5 ◌>>=◌
abbrev pub ◌>>=◌ {ℓ κ} : {A : Type ℓ} {B : Type κ} → Scan A → (A → Scan B) → Scan B
done a >>= k = k a
failed c p >>= k = failed c p
no_fuel >>= k = no_fuel

-- `DUPLICATE_SCAN_LIMITS.maxDepth`
abbrev pub max_depth : ℕ
max_depth = 32

unfoldable pub is_whitespace : ℕ → Bool
is_whitespace c = c == b' ' || c == b'\t' || c == b'\n' || c == b'\r'

-- `BARE_VALUE`
unfoldable pub is_bare : ℕ → Bool
unfolding is_digit
is_bare c =
    is_digit c
    || c == b'e'
    || c == b'E'
    || c == b'+'
    || c == b'-'
    || c == b'.'
    || within b'a' b'z' c

unfoldable pub skip_whitespace : Text → Text
skip_whitespace [] = []
skip_whitespace (c ∷ cs) = if is_whitespace c then skip_whitespace cs else c ∷ cs

-- `this.expect(ch)`
unfoldable pub expect : ℕ → List Text → Text → Scan Text
expect ch path [] = failed scan_incomplete path
expect ch path (c ∷ cs) = if c == ch then done cs else failed scan_incomplete path

-- The run of bare characters, and how many there were.
unfoldable pub skip_bare : ℕ → Text → ℕ × Text
skip_bare consumed [] = (consumed, [])
skip_bare consumed (c ∷ cs) =
    let more = skip_bare (consumed + 1) cs in if is_bare c then more else (consumed, c ∷ cs)

-- `parseInt(hex, 16)` of one hex digit.
unfoldable pub hex_value : ℕ → ℕ
unfolding is_digit
hex_value c =
    if is_digit c then c - b'0' else if within b'a' b'f' c then c - b'a' + 10 else c - b'A' + 10

-- `parseInt(hex, 16)` of four hex digits.
abbrev hex_unit : ℕ → ℕ → ℕ → ℕ → ℕ
hex_unit a b c d = hex_value a * 4096 + hex_value b * 256 + hex_value c * 16 + hex_value d

-- The `\u` case: `text.slice(index, index + 4)` held to four hex digits.
unfoldable pub unicode_escape : List Text → Text → Scan (ℕ × Text)
unicode_escape path (a ∷ b ∷ c ∷ d ∷ rest) =
    if is_hex a && is_hex b && is_hex c && is_hex d
    then done (hex_unit a b c d, rest)
    else failed scan_incomplete path
unicode_escape path _ = failed scan_incomplete path

-- The `switch (esc)`: the code unit that the escape stands for, and the text behind it.
unfoldable pub escape : List Text → ℕ → Text → Scan (ℕ × Text)
unfolding unicode_escape
escape path e rest =
    if e == b'"' || e == b'\\' || e == b'/'
    then done (e, rest)
    else if e == b'b'
    then done (8, rest)
    else if e == b'f'
    then done (12, rest)
    else if e == b'n'
    then done (10, rest)
    else if e == b'r'
    then done (13, rest)
    else if e == b't'
    then done (9, rest)
    else if e == b'u'
    then unicode_escape path rest
    else failed scan_incomplete path

-- One round of the loop of `scanString`: it ends at the quote, or reads one code unit.
pub data Piece : Type 0 where
  closed : Text → Piece
  unit : ℕ → Text → Piece

unfoldable pub after_backslash : List Text → Text → Scan Piece
unfolding escape
after_backslash path [] = failed scan_incomplete path
after_backslash path (e ∷ rest) = escape path e rest >>= λ u. done (unit u.0 u.1)

unfoldable pub piece : List Text → Text → Scan Piece
unfolding after_backslash
piece path [] = failed scan_incomplete path
piece path (c ∷ cs) =
    if c == b'"'
    then done (closed cs)
    else if not (c == b'\\')
    then (if ltb c b' ' then failed scan_incomplete path else done (unit c cs))
    else after_backslash path cs

-- The loop of `scanString`: the decoded value, and the text behind the closing quote.
unfoldable pub scan_chars : ℕ → List Text → Text → Text → Scan (Text × Text)
unfolding piece
scan_chars zero path out s = no_fuel
scan_chars (suc f) path out s = piece path s >>= λ p. elim p [
  | closed rest ↦ done (out, rest)
  | unit c rest ↦ scan_chars f path (out ++ c ∷ []) rest
]

-- Every round reads a code unit at least, so the length of the text is fuel enough.
unfoldable pub scan_string : List Text → Text → Scan (Text × Text)
unfolding scan_chars
scan_string path s = expect b'"' path s >>= λ s'. scan_chars (suc (length s')) path [] s'

-- `JSON.stringify`-free rendering of an array index, `String(element)`.
abbrev pub element_name : ℕ → Text
element_name = to_decimal

-- What `scanValue` does on text that opens no object, array or string.
unfoldable pub scan_bare : List Text → Text → Scan Text
scan_bare path s =
    let r = skip_bare 0 s in if r.0 == 0 then failed scan_incomplete path else done r.1

unfoldable pub opens : ℕ → Text → Bool
opens ch [] = false
opens ch (c ∷ cs) = c == ch

unfoldable mutual
  unfolding skip_whitespace expect scan_string scan_bare opens

  pub scan_value : ℕ → ℕ → List Text → Text → Scan Text
  scan_value zero depth path s = no_fuel
  scan_value (suc f) depth path [] =
      failed (if ltb max_depth depth then depth_limit_exceeded else scan_incomplete) path
  scan_value (suc f) depth path (c ∷ cs) = elim (ltb max_depth depth) [
    | true ↦ failed depth_limit_exceeded path
    | false ↦ elim (c == b'{') [
      | true ↦ scan_object f depth path (c ∷ cs)
      | false ↦ elim (c == b'[') [
        | true ↦ scan_array f depth path (c ∷ cs)
        | false ↦ elim (c == b'"') [
          | true ↦ scan_string path (c ∷ cs) >>= λ r. done r.1
          | false ↦ scan_bare path (c ∷ cs)
        ]
      ]
    ]
  ]

  pub scan_object : ℕ → ℕ → List Text → Text → Scan Text
  scan_object zero depth path s = no_fuel
  scan_object (suc f) depth path s = elim (leb max_depth depth) [
    | true ↦ failed depth_limit_exceeded path
    | false ↦ expect b'{' path s >>= λ s1. elim (opens b'}' (skip_whitespace s1)) [
      | true ↦ expect b'}' path (skip_whitespace s1)
      | false ↦ members f depth path [] (skip_whitespace s1)
    ]
  ]

  -- The `for (;;)` of `scanObject`.
  pub members : ℕ → ℕ → List Text → List Text → Text → Scan Text
  members zero depth path seen s = no_fuel
  members (suc f) depth path seen s = scan_string path (skip_whitespace s) >>= λ r.
      elim (includes seen r.0) [
        | true ↦ failed duplicate_member (path ++ r.0 ∷ [])
        | false ↦ expect b':' (path ++ r.0 ∷ []) (skip_whitespace r.1) >>= λ s1.
            scan_value f (depth + 1) (path ++ r.0 ∷ []) (skip_whitespace s1) >>= λ s2.
            elim (opens b',' (skip_whitespace s2)) [
              | true ↦ expect b',' path (skip_whitespace s2) >>= λ s3.
                  members f depth path (r.0 ∷ seen) s3
              | false ↦ expect b'}' path (skip_whitespace s2)
            ]
      ]

  pub scan_array : ℕ → ℕ → List Text → Text → Scan Text
  scan_array zero depth path s = no_fuel
  scan_array (suc f) depth path s = elim (leb max_depth depth) [
    | true ↦ failed depth_limit_exceeded path
    | false ↦ expect b'[' path s >>= λ s1. elim (opens b']' (skip_whitespace s1)) [
      | true ↦ expect b']' path (skip_whitespace s1)
      | false ↦ elements f depth path 0 (skip_whitespace s1)
    ]
  ]

  -- The `for` of `scanArray`.
  pub elements : ℕ → ℕ → List Text → ℕ → Text → Scan Text
  elements zero depth path element s = no_fuel
  elements (suc f) depth path element s =
      scan_value f (depth + 1) (path ++ element_name element ∷ []) (skip_whitespace s) >>= λ s1.
      elim (opens b',' (skip_whitespace s1)) [
        | true ↦
            expect b',' path (skip_whitespace s1) >>= λ s2. elements f depth path (element + 1) s2
        | false ↦ expect b']' path (skip_whitespace s1)
      ]

-- `run`, from the start of the text: it ends at the end of the text.
unfoldable pub run : ℕ → Text → Scan (Unit {0})
unfolding scan_value
run f s = scan_value f 0 [] (skip_whitespace s) >>= λ rest. elim (skip_whitespace rest) [
  | [] ↦ done tt
  | _ ∷ _ ↦ failed scan_incomplete []
]

-- Fuel for one value of `n` code units at most.
abbrev pub fuel_for : ℕ → ℕ
fuel_for n = 3 * n + 2

pub data ScanResult : Type 0 where
  accepted : ScanResult
  rejected : Code → List Text → ScanResult

-- The `catch` of the source turns an exception that is no `ScanFailure` into `scan_incomplete` with
-- no path; a run out of fuel would be one.
unfoldable pub outcome : Scan (Unit {0}) → ScanResult
outcome (done _) = accepted
outcome (failed code path) = rejected code path
outcome no_fuel = rejected scan_incomplete []

unfoldable pub scan_for_duplicate_members : Text → ScanResult
unfolding run outcome
scan_for_duplicate_members text = outcome (run (fuel_for (length text)) text)
