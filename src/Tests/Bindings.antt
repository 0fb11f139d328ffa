-- ===== src/Tests/Bindings.antt =====
-- The bindings of requests, and the arguments of the verifier.
use mathlib.Core.List.{Permᴰ}
use x402_base_evidence.Binding.Document.{
  Steps, IsSensitive, build_request_binding-order_free, build_request_binding-IsAscending,
  build_request_binding-duplicate,
}
use x402_base_evidence.Binding.Headers.{
  SelectedHeader, admit_headers, duplicate_sensitive, duplicate_field,
}
use x402_base_evidence.Binding.Order.{named}
use x402_base_evidence.Binding.Sorted.{IsAscending}
use x402_base_evidence.Binding.{
  RequestInput, RequestBinding, bytes, build_request_binding, assert_components,
  assert_content_meta,
}
use x402_base_evidence.Common.{
  ℕ, ◌≡◌, refl, ◌↔◌, ◌≤◌, ◌⊎◌, arith, none, some, List, [], ◌∷◌, ◌++◌, length, Text, codes, eq_text,
  lower, is_digit,
}
use x402_base_evidence.Common.Except.{ok, err}
use x402_base_evidence.Components.Authority.{https}
use x402_base_evidence.Components.{components_object, scheme_named, optional_field}
use x402_base_evidence.Digest.{digest_bytes}
use x402_base_evidence.Json.{
  Json, string, array, object, cons, nil, field, end, member, as_string, as_array,
}
use x402_base_evidence.VerifyEvidence.Arguments.Accepted.{
  IsGiven, Accepted, parse_verify_arguments-eq-ok_iff,
}
use x402_base_evidence.VerifyEvidence.Arguments.{evidence_directory, parse_verify_arguments}

abbrev no_ip : Text → ℕ
no_ip t = 0

abbrev zeros : Text
zeros = codes "0000000000000000000000000000000000000000000000000000000000000000"

abbrev sha_of : List ℕ → Text
sha_of b = zeros

abbrev header : Text → Json
header name = object (
    field (codes "name") (string name)
      (field (codes "observedValueDigest") (string (codes "sha256:" ++ zeros)) end))

abbrev selected : Text → SelectedHeader
selected name = record { name = name; observed_value_digest = codes "sha256:" ++ zeros }

abbrev components_read : Json
components_read = object (
    components_object (codes "GET") https (codes "example.com") (codes "/a") (codes "?")
      (some (string (codes "direct-origin"))))

abbrev listed : List Json
listed = header (codes "b") ∷ header (codes "a") ∷ []

abbrev input_of : Json → RequestInput
input_of headers = record {
  components = components_read;
  content_type = none;
  content_encoding = none;
  body = bytes (1 ∷ 2 ∷ []);
  selected_headers = some headers;
}

abbrev two_headers : RequestInput
two_headers = input_of (array (cons (header (codes "b")) (cons (header (codes "a")) nil)))

abbrev bound : RequestBinding
bound = record {
  components = components_read;
  content_type = none;
  content_encoding = none;
  body_digest = codes "sha256:" ++ zeros;
  selected_headers = selected (codes "a") ∷ selected (codes "b") ∷ [];
}

two_headers_bound : build_request_binding no_ip sha_of two_headers ≡ ok bound
unfolding build_request_binding as_string member components_object eq_text scheme_named is_digit
    lower optional_field as_array
two_headers_bound = refl

both_read :
    as_array (some (array (cons (header (codes "b")) (cons (header (codes "a")) nil))))
    ≡ some listed
unfolding as_array
both_read = refl

swapped_read :
    as_array (some (array (cons (header (codes "a")) (cons (header (codes "b")) nil))))
    ≡ some (header (codes "a") ∷ header (codes "b") ∷ [])
unfolding as_array
swapped_read = refl

build_request_binding-order_free_example :
    build_request_binding no_ip sha_of
      (input_of (array (cons (header (codes "a")) (cons (header (codes "b")) nil))))
    ≡ ok bound
build_request_binding-order_free_example =
    build_request_binding-order_free no_ip sha_of two_headers bound listed
      (header (codes "a") ∷ header (codes "b") ∷ [])
      (some (array (cons (header (codes "a")) (cons (header (codes "b")) nil)))) two_headers_bound
      both_read swapped_read (Permᴰ.swap refl refl)

build_request_binding-IsAscending_example :
    (raw : List Json) × (headers : List SelectedHeader) × (b : List ℕ) × (as_array
        two_headers.selected_headers
      ≡ some raw)
    × (admit_headers raw ≡ ok headers)
    × Permᴰ headers bound.selected_headers
    × IsAscending bound.selected_headers
    × (length raw ≤ 32)
    × (two_headers.body ≡ bytes b)
    × (length b ≤ 8388608)
    × (bound.body_digest ≡ digest_bytes sha_of b)
build_request_binding-IsAscending_example =
    build_request_binding-IsAscending no_ip sha_of two_headers bound two_headers_bound

abbrev repeated_list : List Json
repeated_list = header (codes "payment-response") ∷ header (codes "payment-response") ∷ []

abbrev repeated : RequestInput
repeated = input_of (
    array (cons (header (codes "payment-response")) (cons (header (codes "payment-response")) nil)))

abbrev repeated_headers : List SelectedHeader
repeated_headers = selected (codes "payment-response") ∷ selected (codes "payment-response") ∷ []

repeated-Steps : Steps no_ip sha_of repeated repeated_list repeated_headers
unfolding assert_components as_string member components_object eq_text scheme_named is_digit lower
    optional_field assert_content_meta as_array admit_headers
repeated-Steps = record {
  components = refl;
  content_type = refl;
  content_encoding = refl;
  selected = refl;
  admitted = refl;
  few = refl;
}

repeated_twice : 2 ≤ named (codes "payment-response") repeated_headers
unfolding named eq_text
repeated_twice = omega arith

build_request_binding-duplicate_example :
    (m : Text) × (2 ≤ named m repeated_headers)
    × ((IsSensitive m × (build_request_binding no_ip sha_of repeated ≡ err (duplicate_sensitive m)))
        ⊎ ((¬ IsSensitive m)
            × (build_request_binding no_ip sha_of repeated ≡ err (duplicate_field m))))
build_request_binding-duplicate_example =
    build_request_binding-duplicate no_ip sha_of repeated repeated_list repeated_headers
      (codes "payment-response") repeated-Steps repeated_twice

parse_verify_arguments-eq-ok_example :
    (parse_verify_arguments
        (codes "--" ∷ codes "--public-key" ∷ codes "k" ∷ codes "--evidence" ∷ codes "d" ∷ [])
      ≡ ok (evidence_directory (codes "d") (codes "k")))
    ↔ ((l : List Text) × IsGiven
          (codes "--" ∷ codes "--public-key" ∷ codes "k" ∷ codes "--evidence" ∷ codes "d" ∷ [])
          l
        × Accepted l (evidence_directory (codes "d") (codes "k")))
parse_verify_arguments-eq-ok_example =
    parse_verify_arguments-eq-ok_iff
      (codes "--" ∷ codes "--public-key" ∷ codes "k" ∷ codes "--evidence" ∷ codes "d" ∷ [])
      (evidence_directory (codes "d") (codes "k"))
