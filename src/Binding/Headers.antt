-- ===== src/Binding/Headers.antt =====
-- src/binding.ts: the selected headers, their checks, and their order by name.
use x402_base_evidence.Common.{
  ℕ, Bool, true, false, not, ◌&&◌, ◌||◌, some, List, [], ◌∷◌, ◌+◌, ltb, if◌then◌else◌, all, Text,
  codes, eq_text, includes, within,
}
use x402_base_evidence.Common.Except.{Except, ok, ◌>>=◌, throw_if, ◌>>◌, some_or}
use x402_base_evidence.Common.Scanning.{has_code, is_empty}
use x402_base_evidence.Components.Authority.{ComponentProblem}
use x402_base_evidence.Digest.{is_sha256_digest}
use x402_base_evidence.Json.{Json, member, as_string, object_like}

-- The `BindingError`s, one for each message.
pub data BindingProblem : Type 0 where
  body_no_bytes : BindingProblem
  body_too_long : BindingProblem
  components_refused : ComponentProblem → BindingProblem
  invalid_content_type : BindingProblem
  invalid_content_encoding : BindingProblem
  headers_no_array : BindingProblem
  invalid_header_name : BindingProblem
  invalid_header_digest : BindingProblem
  too_many_headers : BindingProblem
  duplicate_sensitive : Text → BindingProblem
  duplicate_field : Text → BindingProblem
  status_out_of_range : BindingProblem

abbrev pub Bound : Type 0 → Type 0
Bound = Except BindingProblem

pub record SelectedHeader : Type 0 where
  pub name : Text
  pub observed_value_digest : Text

-- `LIMITS.maxSelectedHeaders`
abbrev pub max_selected_headers : ℕ
max_selected_headers = 32

-- `FIELD_NAME`
unfoldable is_field_name : Text → Bool
is_field_name t =
    not (is_empty t)
    && all (λ c. within b'a' b'z' c || within b'0' b'9' c || has_code c (codes "!#$%&'*+.^_`|~-")) t

-- `NEVER_COMBINE`
abbrev never_combine : List Text
never_combine =
    codes "payment-required"
    ∷ codes "payment-signature"
    ∷ codes "payment-response"
    ∷ codes "payment-identifier"
    ∷ []

-- The checks on one selected header.
unfoldable pub admit_header : Json → Bound SelectedHeader
unfolding is_field_name is_sha256_digest
admit_header v = do
  h ← some_or (object_like (some v)) invalid_header_name
  name ← some_or (as_string (member (codes "name") h)) invalid_header_name
  throw_if (not (is_field_name name)) invalid_header_name
  digest ← some_or (as_string (member (codes "observedValueDigest") h)) invalid_header_digest
  throw_if (not (is_sha256_digest digest)) invalid_header_digest
  ok (record { name = name; observed_value_digest = digest })

unfoldable pub admit_headers : List Json → Bound (List SelectedHeader)
unfolding admit_header
admit_headers [] = ok []
admit_headers (v ∷ vs) = do h ← admit_header v; hs ← admit_headers vs; ok (h ∷ hs)

-- An entry of the map from names to their number.
pub record NameCount : Type 0 where
  pub name : Text
  pub count : ℕ

-- `counts.set(name, (counts.get(name) ?? 0) + 1)`: a new name comes last.
unfoldable pub bump : Text → List NameCount → List NameCount
bump name [] = record { name = name; count = 1 } ∷ []
bump name (c ∷ cs) =
    let rest = bump name cs in
    if eq_text c.name name then (record c { count = c.count + 1 }) ∷ cs else c ∷ rest

unfoldable pub count_names : List SelectedHeader → List NameCount → List NameCount
unfolding bump
count_names [] counts = counts
count_names (h ∷ hs) counts = count_names hs (bump h.name counts)

unfoldable pub duplicate_of : Text → BindingProblem
duplicate_of name =
    if includes never_combine name then duplicate_sensitive name else duplicate_field name

unfoldable pub refuse_repeated : List NameCount → Bound (Unit {0})
unfolding duplicate_of
refuse_repeated [] = ok tt
refuse_repeated (c ∷ cs) = throw_if (ltb 1 c.count) (duplicate_of c.name) >> refuse_repeated cs

unfoldable pub check_duplicates : List SelectedHeader → Bound (Unit {0})
unfolding count_names refuse_repeated
check_duplicates hs = refuse_repeated (count_names hs [])

-- `a < b` of two strings, by code units.
unfoldable pub text_lt : Text → Text → Bool
text_lt [] [] = false
text_lt [] (y ∷ ys) = true
text_lt (x ∷ xs) [] = false
text_lt (x ∷ xs) (y ∷ ys) =
    let rest = text_lt xs ys in if ltb x y then true else (if ltb y x then false else rest)

-- A header goes before the first whose name is not less.
unfoldable pub insert : SelectedHeader → List SelectedHeader → List SelectedHeader
unfolding text_lt
insert h [] = h ∷ []
insert h (k ∷ ks) = let rest = insert h ks in if text_lt k.name h.name then k ∷ rest else h ∷ k ∷ ks

-- The stable sort by name.
unfoldable pub sort_by_name : List SelectedHeader → List SelectedHeader
unfolding insert
sort_by_name [] = []
sort_by_name (h ∷ hs) = insert h (sort_by_name hs)
