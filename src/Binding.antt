-- ===== src/Binding.antt =====
-- src/binding.ts: the binding documents of a request and of an origin's result. The hash function, the
-- platform's `isIP` and the digest of canonical JSON are parameters.
pub mod Headers
pub mod Order
pub mod Sorted
pub mod Document
use x402_base_evidence.Binding.Headers.{
  BindingProblem, body_no_bytes, body_too_long, components_refused, invalid_content_type,
  invalid_content_encoding, headers_no_array, too_many_headers, status_out_of_range, Bound,
  SelectedHeader, admit_headers, max_selected_headers, check_duplicates, sort_by_name,
}
use x402_base_evidence.Common.{
  ℕ, Bool, true, false, not, ◌&&◌, ◌||◌, Option, none, some, List, [], ◌∷◌, ◌==◌, ◌*◌, ltb,
  if◌then◌else◌, any, length, Text, codes,
}
use x402_base_evidence.Common.Except.{Except, ok, err, ◌>>=◌, throw_if, ◌>>◌, some_or}
use x402_base_evidence.Components.{assert_canonical_components}
use x402_base_evidence.Digest.{digest_bytes, coerce_digest}
use x402_base_evidence.Json.{Json, string, integer, ℤ, pos, object, Fields, as_array}

-- `LIMITS.maxBodyBytes`
abbrev max_body_bytes : ℕ
max_body_bytes = 8 * 1024 * 1024

-- What reaches `body`.
pub data Body : Type 0 where
  bytes : List ℕ → Body
  other : Body

-- `checkBody`
unfoldable pub check_body : Body → Bound (List ℕ)
check_body (bytes b) = throw_if (ltb max_body_bytes (length b)) body_too_long >> ok b
check_body other = err body_no_bytes

unfoldable is_injection : ℕ → Bool
is_injection c = c == 0x0d || c == 0x0a || c == 0

-- One turn of `assertContentMeta`.
unfoldable pub assert_content_meta : Option Json → BindingProblem → Bound (Unit {0})
unfolding is_injection
assert_content_meta none e = ok tt
assert_content_meta (some (string s)) e = throw_if (any is_injection s || ltb 256 (length s)) e
assert_content_meta (some _) e = err e

-- The member that is left out if it is empty.
unfoldable pub content_meta : Option Json → Option Text
content_meta (some (string (c ∷ cs))) = some (c ∷ cs)
content_meta _ = none

pub record RequestBinding : Type 0 where
  pub components : Json
  pub content_type : Option Text
  pub content_encoding : Option Text
  pub body_digest : Text
  pub selected_headers : List SelectedHeader

pub record RequestInput : Type 0 where
  pub components : Json
  pub content_type : Option Json
  pub content_encoding : Option Json
  pub body : Body
  pub selected_headers : Option Json

pub record OriginResultBinding : Type 0 where
  pub status : ℕ
  pub content_type : Option Text
  pub content_encoding : Option Text
  pub body_digest : Text

pub record ResultInput : Type 0 where
  pub status : Option Json
  pub content_type : Option Json
  pub content_encoding : Option Json
  pub body : Body

-- `Number.isInteger(status)` and the range of it.
unfoldable pub admit_status : Option Json → Bound ℕ
admit_status (some (integer (pos n))) =
    throw_if (ltb n 100 || ltb 599 n) status_out_of_range >> ok n
admit_status _ = err status_out_of_range

-- `assertComponents`
unfoldable pub assert_components : (Text → ℕ) → Json → Bound (Unit {0})
unfolding assert_canonical_components
assert_components is_ip c = elim (assert_canonical_components is_ip (some c)) [
  | ok u ↦ ok u
  | err e ↦ err (components_refused e)
]

module _ (is_ip : Text → ℕ) (sha256_hex : List ℕ → Text) where
  -- `buildRequestBinding`
  unfoldable pub build_request_binding : RequestInput → Bound RequestBinding
  unfolding assert_components assert_content_meta admit_headers check_duplicates check_body
      content_meta digest_bytes sort_by_name
  build_request_binding i = do
    assert_components is_ip i.components
    assert_content_meta i.content_type invalid_content_type
    assert_content_meta i.content_encoding invalid_content_encoding
    raw ← some_or (as_array i.selected_headers) headers_no_array
    headers ← admit_headers raw
    throw_if (ltb max_selected_headers (length raw)) too_many_headers
    check_duplicates headers
    b ← check_body i.body
    ok (record {
      components = i.components;
      content_type = content_meta i.content_type;
      content_encoding = content_meta i.content_encoding;
      body_digest = digest_bytes sha256_hex b;
      selected_headers = sort_by_name headers;
    })

-- `buildOriginResultBinding`
module _ (sha256_hex : List ℕ → Text) where
  unfoldable build_origin_result_binding : ResultInput → Bound OriginResultBinding
  unfolding assert_content_meta admit_status check_body content_meta digest_bytes
  build_origin_result_binding i = do
    assert_content_meta i.content_type invalid_content_type
    assert_content_meta i.content_encoding invalid_content_encoding
    status ← admit_status i.status
    b ← check_body i.body
    ok (record {
      status = status;
      content_type = content_meta i.content_type;
      content_encoding = content_meta i.content_encoding;
      body_digest = digest_bytes sha256_hex b;
    })
