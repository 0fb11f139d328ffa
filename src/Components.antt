-- ===== src/Components.antt =====
-- src/components.ts: what valid components of a request are, their capture from the message parts of
-- an adapter, and the splitting of an absolute URI.
pub mod Authority
pub mod Lowercase
pub mod Port
pub mod Canonical
pub mod Capture
pub mod Uri
use x402_base_evidence.Common.{
  ℕ, Bool, true, false, not, ◌&&◌, ◌||◌, Option, none, some, List, [], ◌∷◌, ◌++◌, ◌==◌, ltb, leb,
  if◌then◌else◌, all, any, drop, length, Text, codes, eq_text, to_lower, within,
}
use x402_base_evidence.Common.Except.{Except, ok, err, ◌>>=◌, throw_if, ◌>>◌, some_or, throw_first}
use x402_base_evidence.Common.Scanning.{
  has_code, until, from, starts_with, is_empty, is_alphanumeric, pct_ok, utf8_length, is_ascii,
}
use x402_base_evidence.Components.Authority.{
  ComponentProblem, authority_no_string, components_missing, invalid_method, non_http_scheme,
  scheme_no_string, invalid_authority, not_canonical, empty_target, invalid_path, not_origin_form,
  invalid_query, control_or_space, non_ascii, fragment_rejected, malformed_encoding,
  target_too_long, invalid_capture_point, invalid_proxy_trust_profile, no_absolute_uri, Scheme,
  http, https, Checked, is_code, canonical_authority,
}
use x402_base_evidence.Json.{
  Json, string, object, Fields, end, field, member, as_string, object_like, is_nullish,
}

-- `MAX_TARGET_BYTES`
abbrev pub max_target_bytes : ℕ
max_target_bytes = 8192

-- `METHOD_TOKEN`
unfoldable pub is_method_token : Text → Bool
unfolding is_alphanumeric
is_method_token t =
    not (is_empty t) && all (λ c. is_alphanumeric c || has_code c (codes "!#$%&'*+-.^_`|~")) t

-- `CONTROL_OR_SPACE`
unfoldable pub is_control_or_space : ℕ → Bool
is_control_or_space c = leb c 0x20 || c == 0x7f

abbrev pub is_non_ascii : ℕ → Bool
is_non_ascii c = not (is_ascii c)

unfoldable pub scheme_named : Text → Option Scheme
scheme_named t =
    if eq_text t (codes "http")
    then some http
    else (if eq_text t (codes "https") then some https else none)

abbrev pub scheme_name : Scheme → Text
scheme_name http = codes "http"
scheme_name https = codes "https"

-- A member that must be exactly this string.
unfoldable pub is_literal : Text → Option Json → Bool
is_literal t (some (string s)) = eq_text s t
is_literal t _ = false

-- The checks on a path and on a query alike.
unfoldable pub check_target_part : Text → Checked (Unit {0})
unfolding is_control_or_space pct_ok
check_target_part v = throw_first (
    (any is_control_or_space v, control_or_space)
    ∷ (any is_non_ascii v, non_ascii)
    ∷ (has_code b'#' v, fragment_rejected)
    ∷ (not (pct_ok v), malformed_encoding)
    ∷ [])

-- The request target that a path and a query make: a bare "?" was not on the wire.
unfoldable pub target_of : Text → Text → Text
target_of path query = if eq_text query (codes "?") then path else path ++ query

-- A last member that is left out if it is `undefined`.
unfoldable pub optional_field : Text → Option Json → Fields
optional_field key none = end
optional_field key (some v) = field key v end

-- The components of a request: the members of the object that the source builds, in its order.
unfoldable pub components_object : Text → Scheme → Text → Text → Text → Option Json → Fields
components_object method scheme authority path query profile =
    field (codes "@method") (string method) (
      field (codes "@scheme") (string (scheme_name scheme)) (
        field (codes "@authority") (string authority) (
          field (codes "@path") (string path) (
            field (codes "@query") (string query) (
              field (codes "capturePoint") (string (codes "origin_request_after_http_parsing"))
                (optional_field (codes "proxyTrustProfile") profile))))))

-- What an adapter supplies, of no checked type.
pub record RequestParts : Type 0 where
  pub method : Option Json
  pub scheme : Option Json
  pub authority : Option Json
  pub raw_path_and_query : Option Json
  pub proxy_trust_profile : Option Json

-- The request target of a capture, split at the first "?".
pub record Target : Type 0 where
  pub path : Text
  pub query : Text

unfoldable pub split_target : Text → Target
unfolding until from
split_target raw =
    if has_code b'?' raw
    then record { path = until (is_code b'?') raw; query = from (is_code b'?') raw }
    else record { path = raw; query = codes "?" }

-- The checks on the request target of a capture, and its split.
unfoldable pub admit_raw : Text → Checked Target
unfolding is_control_or_space pct_ok utf8_length split_target
admit_raw raw =
    throw_first (
      (is_empty raw, empty_target)
      ∷ (ltb max_target_bytes (utf8_length raw), target_too_long)
      ∷ (any is_control_or_space raw, control_or_space)
      ∷ (any is_non_ascii raw, non_ascii)
      ∷ (has_code b'#' raw, fragment_rejected)
      ∷ (not (starts_with b'/' raw), not_origin_form)
      ∷ (not (pct_ok (split_target raw).path), malformed_encoding)
      ∷ (not (pct_ok (split_target raw).query), malformed_encoding)
      ∷ [])
    >> ok (split_target raw)

unfoldable pub admit_target : Option Json → Checked Target
unfolding admit_raw
admit_target v = some_or (as_string v) empty_target >>= admit_raw

module _ (is_ip : Text → ℕ) where
  -- `assertCanonicalComponents`
  unfoldable pub assert_canonical_components : Option Json → Checked (Unit {0})
  unfolding object_like is_method_token canonical_authority check_target_part target_of utf8_length
      is_literal
  assert_canonical_components v = do
    c ← some_or (object_like v) components_missing
    method ← some_or (as_string (member (codes "@method") c)) invalid_method
    throw_if (not (is_method_token method)) invalid_method
    name ← some_or (as_string (member (codes "@scheme") c)) non_http_scheme
    scheme ← some_or (scheme_named name) non_http_scheme
    authority ← some_or (as_string (member (codes "@authority") c)) invalid_authority
    canonical ← canonical_authority is_ip scheme authority
    throw_if (not (eq_text authority canonical)) not_canonical
    path ← some_or (as_string (member (codes "@path") c)) invalid_path
    throw_if (is_empty path) invalid_path
    throw_if (not (starts_with b'/' path)) not_origin_form
    query ← some_or (as_string (member (codes "@query") c)) invalid_query
    throw_if (not (starts_with b'?' query)) invalid_query
    check_target_part path
    check_target_part query
    throw_if (ltb max_target_bytes (utf8_length (target_of path query))) target_too_long
    throw_if
        (not (
          is_literal (codes "origin_request_after_http_parsing") (member (codes "capturePoint") c)))
        invalid_capture_point
    throw_if (not (is_literal (codes "direct-origin") (member (codes "proxyTrustProfile") c)))
        invalid_proxy_trust_profile

  -- The object that a capture builds, before it is asserted.
  unfoldable pub build_components : RequestParts → Checked Fields
  unfolding is_method_token scheme_named admit_target canonical_authority components_object
  build_components i = do
    method ← some_or (as_string i.method) invalid_method
    throw_if (not (is_method_token method)) invalid_method
    name ← some_or (as_string i.scheme) scheme_no_string
    scheme ← some_or (scheme_named (to_lower name)) non_http_scheme
    authority ← some_or (as_string i.authority) authority_no_string
    target ← admit_target i.raw_path_and_query
    canonical ← canonical_authority is_ip scheme authority
    ok (components_object method scheme canonical target.path target.query i.proxy_trust_profile)

  -- `captureRequestComponents`
  unfoldable pub capture_request_components : RequestParts → Checked Fields
  unfolding build_components assert_canonical_components
  capture_request_components i = do
    components ← build_components i
    assert_canonical_components (some (object components))
    ok components

-- `/^([A-Za-z][A-Za-z0-9+.-]*):\/\//`, of the text before the first colon.
unfoldable pub is_scheme_text : Text → Bool
unfolding is_alphanumeric
is_scheme_text [] = false
is_scheme_text (c ∷ cs) =
    (within b'a' b'z' c || within b'A' b'Z' c)
    && all (λ x. is_alphanumeric x || has_code x (codes "+.-")) cs

-- What follows "://", if the text begins so.
unfoldable pub after_slashes : Text → Option Text
after_slashes (c ∷ d ∷ e ∷ cs) = if c == b':' && d == b'/' && e == b'/' then some cs else none
after_slashes _ = none

unfoldable pub ends_authority : ℕ → Bool
ends_authority c = c == b'/' || c == b'?' || c == b'#'

unfoldable pub origin_form : Text → Text
origin_form [] = codes "/"
origin_form (c ∷ cs) = if c == b'/' then c ∷ cs else b'/' ∷ c ∷ cs

-- `proxyTrustProfile ?? 'direct-origin'`
unfoldable pub or_direct : Option Json → Option Json
or_direct v = if is_nullish v then some (string (codes "direct-origin")) else v

-- `componentsFromAbsoluteUri`
unfoldable pub components_from_absolute_uri :
    (Text → ℕ) → Option Json → Text → Option Json → Checked Fields
unfolding is_scheme_text after_slashes ends_authority origin_form or_direct until from
    capture_request_components
components_from_absolute_uri is_ip method uri profile = do
  let scheme = until (is_code b':') uri
  throw_if (not (is_scheme_text scheme)) no_absolute_uri
  after_scheme ← some_or (after_slashes (from (is_code b':') uri)) no_absolute_uri
  capture_request_components is_ip (record {
    method = method;
    scheme = some (string scheme);
    authority = some (string (until ends_authority after_scheme));
    raw_path_and_query = some (string (origin_form (from ends_authority after_scheme)));
    proxy_trust_profile = or_direct profile;
  })
