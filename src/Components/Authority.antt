-- ===== src/Components/Authority.antt =====
-- src/components.ts: the canonical form of an authority. `isIP` of the platform is a parameter.
use x402_base_evidence.Common.{
  ℕ, Bool, false, not, ◌&&◌, ◌||◌, [], ◌∷◌, ◌++◌, ◌==◌, ltb, if◌then◌else◌, all, drop, Text, codes,
  is_digit, is_hex, to_lower,
}
use x402_base_evidence.Common.Decimal.{decimal_value, to_decimal}
use x402_base_evidence.Common.Except.{Except, ok, err, ◌>>=◌, throw_if, ◌>>◌}
use x402_base_evidence.Common.Scanning.{
  has_code, until, from, starts_with, is_empty, occurrences, is_alphanumeric, pct_ok,
}

-- The `ComponentError`s, one for each message.
pub data ComponentProblem : Type 0 where
  authority_no_string : ComponentProblem
  empty_authority : ComponentProblem
  credentials_in_authority : ComponentProblem
  malformed_brackets : ComponentProblem
  malformed_after_literal : ComponentProblem
  ipvfuture_authority : ComponentProblem
  malformed_ipv6 : ComponentProblem
  unbracketed_ipv6 : ComponentProblem
  empty_host : ComponentProblem
  invalid_host : ComponentProblem
  malformed_host_encoding : ComponentProblem
  malformed_ipv4 : ComponentProblem
  invalid_port : ComponentProblem
  port_out_of_range : ComponentProblem
  components_missing : ComponentProblem
  invalid_method : ComponentProblem
  non_http_scheme : ComponentProblem
  scheme_no_string : ComponentProblem
  invalid_authority : ComponentProblem
  not_canonical : ComponentProblem
  empty_target : ComponentProblem
  invalid_path : ComponentProblem
  not_origin_form : ComponentProblem
  invalid_query : ComponentProblem
  control_or_space : ComponentProblem
  non_ascii : ComponentProblem
  fragment_rejected : ComponentProblem
  malformed_encoding : ComponentProblem
  target_too_long : ComponentProblem
  invalid_capture_point : ComponentProblem
  invalid_proxy_trust_profile : ComponentProblem
  no_absolute_uri : ComponentProblem

pub data Scheme : Type 0 where
  http : Scheme
  https : Scheme

-- `REG_NAME`, of one code unit.
unfoldable pub is_reg_name_code : ℕ → Bool
unfolding is_alphanumeric
is_reg_name_code c = is_alphanumeric c || has_code c (codes "-._~!$&'()*+,;=%")

unfoldable pub hex_run_dot : Text → Bool
hex_run_dot [] = false
hex_run_dot (c ∷ cs) = c == b'.' || (is_hex c && hex_run_dot cs)

-- `/^[vV][0-9A-Fa-f]+\./`
unfoldable pub is_ipvfuture : Text → Bool
unfolding hex_run_dot
is_ipvfuture (v ∷ d ∷ cs) = (v == b'v' || v == b'V') && is_hex d && hex_run_dot cs
is_ipvfuture _ = false

-- `/^[0-9.]+$/`, of one code unit.
unfoldable pub is_ipv4_code : ℕ → Bool
is_ipv4_code c = is_digit c || c == b'.'

abbrev pub is_code : ℕ → ℕ → Bool
is_code c x = x == c

-- An authority as the two branches take it apart.
pub record HostAndPort : Type 0 where
  pub host : Text
  pub port : Text

abbrev pub Checked : Type 0 → Type 0
Checked = Except ComponentProblem

abbrev pub default_port : Scheme → ℕ
default_port http = 80
default_port https = 443

-- The one port decision: absent if it is empty or the default, else in its decimal form.
unfoldable pub normalize_port : Scheme → Text → Checked Text
unfolding to_decimal
normalize_port scheme [] = ok []
normalize_port scheme (c ∷ cs) =
    let n = decimal_value (c ∷ cs) in
    throw_if (not (all is_digit (c ∷ cs))) invalid_port
    >> (throw_if (ltb n 1 || ltb 65535 n) port_out_of_range
        >> ok (if n == default_port scheme then [] else to_decimal n))

unfoldable pub print_authority : Text → Text → Text
print_authority host [] = host
print_authority host (c ∷ cs) = host ++ b':' ∷ c ∷ cs

module _ (is_ip : Text → ℕ) where
  -- The branch of a bracketed literal: `inner` stands between the brackets, `rest` behind them.
  unfoldable pub check_literal : Text → Text → Checked HostAndPort
  unfolding is_ipvfuture
  check_literal inner rest = do
    throw_if (not (is_empty rest) && not (starts_with b':' rest)) malformed_after_literal
    throw_if (is_ipvfuture inner) ipvfuture_authority
    throw_if (is_empty inner || not (is_ip inner == 6)) malformed_ipv6
    ok (record { host = b'[' ∷ (inner ++ codes "]"); port = drop 1 rest })

  -- The checks on the host of the other branch.
  unfoldable pub check_host : Text → Text → Checked HostAndPort
  unfolding is_reg_name_code is_ipv4_code pct_ok
  check_host host port = do
    throw_if (is_empty host) empty_host
    throw_if (not (all is_reg_name_code host)) invalid_host
    throw_if (not (pct_ok host)) malformed_host_encoding
    throw_if (all is_ipv4_code host && not (is_ip host == 4)) malformed_ipv4
    ok (record { host = host; port = port })

  -- The bracket branch looks for the first `]`; the other has one colon at most, so that the last
  -- one is the first.
  unfoldable pub split_authority : Text → Checked HostAndPort
  unfolding check_literal check_host until from occurrences
  split_authority raw =
      if starts_with b'[' raw
      then (if is_empty (from (is_code b']') raw)
          then err malformed_brackets
          else check_literal (drop 1 (until (is_code b']') raw)) (drop 1 (from (is_code b']') raw)))
      else (if ltb 1 (occurrences b':' raw)
          then err unbracketed_ipv6
          else check_host (until (is_code b':') raw) (drop 1 (from (is_code b':') raw)))

  -- `canonicalAuthority`
  unfoldable pub canonical_authority : Scheme → Text → Checked Text
  unfolding split_authority normalize_port print_authority
  canonical_authority scheme raw = do
    throw_if (is_empty raw) empty_authority
    throw_if (has_code b'@' raw) credentials_in_authority
    parts ← split_authority raw
    port ← normalize_port scheme parts.port
    ok (print_authority (to_lower parts.host) port)
