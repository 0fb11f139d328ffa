-- ===== src/Tests/Requests.antt =====
-- The components of requests, their bindings, and the arguments of the verifier.
use x402_base_evidence.Common.{
  ℕ, ◌≡◌, refl, ◌∙◌, ◌↔◌, ◌⊎◌, inl, inr, arith, true, false, Option, none, some, ◌++◌, all,
  Bool-cases, if◌then◌else◌, Text, codes, to_lower, lower, eq_text, is_digit, is_hex,
}
use x402_base_evidence.Common.Decimal.{value_from}
use x402_base_evidence.Common.Except.{ok}
use x402_base_evidence.Common.Scanning.{has_code, starts_with}
use x402_base_evidence.Components.Authority.{https, is_ipv4_code, canonical_authority}
use x402_base_evidence.Components.Canonical.{canonical_authority-canonical_authority}
use x402_base_evidence.Components.Lowercase.{any-lower}
use x402_base_evidence.Components.Capture.{capture-eq-ok_iff, capture-target}
use x402_base_evidence.Components.Uri.{query, components_from_absolute_uri-capture}
use x402_base_evidence.Components.{
  RequestParts, components_object, build_components, capture_request_components, is_literal,
  components_from_absolute_uri, is_scheme_text,
}
use x402_base_evidence.Json.{Json, string, Fields, member, as_string}

-- Texts with a colon count as IPv6, those of digits and dots as IPv4.
abbrev is_ip_of : Text → ℕ
is_ip_of t = if has_code b':' t then 6 else (if all is_ipv4_code t then 4 else 0)

is_ip_of-lower : (t : Text) → is_ip_of t ≡ 6 → is_ip_of (to_lower t) ≡ 6
unfolding lower
is_ip_of-lower t h = elim (Bool-cases (has_code b':' t)) [
  | inl e ↦ rw (any-lower b':' t refl (ground arith) ∙ e) refl
  | inr e ↦ absurd (ground arith)
]

mixed_case :
    canonical_authority is_ip_of https (codes "Example.COM:08443") ≡ ok (codes "example.com:8443")
unfolding canonical_authority lower is_digit value_from
mixed_case = refl

canonical_authority-canonical_authority_example :
    canonical_authority is_ip_of https (codes "example.com:8443") ≡ ok (codes "example.com:8443")
canonical_authority-canonical_authority_example =
    canonical_authority-canonical_authority is_ip_of is_ip_of-lower https
      (codes "Example.COM:08443") (codes "example.com:8443") mixed_case

abbrev direct : Option Json
direct = some (string (codes "direct-origin"))

abbrev parts : RequestParts
parts = record {
  method = some (string (codes "GET"));
  scheme = some (string (codes "HTTPS"));
  authority = some (string (codes "Example.com:443"));
  raw_path_and_query = some (string (codes "/a?x=%2F"));
  proxy_trust_profile = direct;
}

abbrev captured : Fields
captured =
    components_object (codes "GET") https (codes "example.com") (codes "/a") (codes "?x=%2F") direct

capture-eq-ok_example : (capture_request_components is_ip_of parts ≡ ok captured) ↔ (
    (build_components is_ip_of parts ≡ ok captured)
    × (is_literal (codes "direct-origin") direct ≡ true))
capture-eq-ok_example = capture-eq-ok_iff is_ip_of is_ip_of-lower parts captured

parts_built : build_components is_ip_of parts ≡ ok captured
unfolding build_components eq_text as_string lower is_hex is_digit value_from
parts_built = refl

parts-captured : capture_request_components is_ip_of parts ≡ ok captured
unfolding is_literal eq_text
parts-captured = capture-eq-ok_example.1 (parts_built, refl)

capture-target_example :
    (raw : Text) × (path : Text) × (query : Text) × (some (codes "/a?x=%2F") ≡ some raw)
    × (as_string (member (codes "@path") captured) ≡ some path)
    × (as_string (member (codes "@query") captured) ≡ some query)
    × (has_code b'?' path ≡ false)
    × (starts_with b'?' query ≡ true)
    × ((raw ≡ path ++ query) ⊎ ((raw ≡ path) × (query ≡ codes "?")))
unfolding as_string
capture-target_example = capture-target is_ip_of is_ip_of-lower parts captured parts-captured

https_text : is_scheme_text (codes "https") ≡ true
unfolding is_scheme_text
https_text = refl

components_from_absolute_uri_example :
    components_from_absolute_uri is_ip_of
      (some (string (codes "GET")))
      (codes "https://example.com?x=1")
      none
    ≡ capture_request_components is_ip_of (record {
      method = some (string (codes "GET"));
      scheme = some (string (codes "https"));
      authority = some (string (codes "example.com"));
      raw_path_and_query = some (string (codes "/?x=1"));
      proxy_trust_profile = direct;
    })
components_from_absolute_uri_example =
    components_from_absolute_uri-capture is_ip_of (some (string (codes "GET"))) (codes "https")
      (codes "example.com") (codes "?x=1") (codes "/?x=1") https_text refl refl refl
      (query (codes "x=1"))
