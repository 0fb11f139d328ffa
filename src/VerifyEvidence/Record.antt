-- ===== src/VerifyEvidence/Record.antt =====
-- src/flow/verify-evidence.ts: what verification calls, the record, and the two ways to return.
use x402_base_evidence.Common.{
  ℕ, Bool, true, false, ◌&&◌, ◌||◌, Option, none, some, List, [], ◌∷◌, ◌++◌, if◌then◌else◌, any,
  reverse, leb, ◌==◌, Text, codes, eq_text,
}
use x402_base_evidence.Components.{is_literal}
use x402_base_evidence.Json.{Json, Fields}
use x402_base_evidence.StrictJson.Admission.{StrictJsonRead}
use x402_base_evidence.VerifyEvidence.Checks.{
  record_signature, supplied_key_algorithm, supplied_key_identifier, supplied_key_issuer,
  record_type, VerificationCheck, check, VerificationWarning, Report, every_ok,
}
use x402_base_evidence.VerifyEvidence.Native.{CapturedArtifact}

-- `LocalProfileDocument`, and the fields that are captured.
pub data LocalProfile : Type 0 where
  request_binding_document origin_result_document chain_observation_profile : LocalProfile

pub data X402Header : Type 0 where
  payment_required payment_signature payment_response : X402Header

-- What a record that verified says: `claims.extensions?.[group]` for the two groups.
pub record VerifiedRecord : Type 0 where
  pub kid : Text
  pub issuer : Option Json
  pub record_type : Option Json
  pub commerce : Option Fields
  pub payment_evidence : Option Fields

-- What `verifyLocal` gives: it throws, refuses the record, or verifies it.
pub data Verification : Type 0 where
  thrown : Verification
  invalid : Verification
  valid : VerifiedRecord → Verification

pub record SuppliedKeyMetadata : Type 0 where
  pub algorithm : Text
  pub kid : Text
  pub issuer : Text

-- What verification calls: the record's verifier under the given key, the decoder, the strict parser,
-- the two digests, the validator of the committed schemas, the capture of a field value, the reader
-- of the payment identifier, and `isIP`.
pub record Services : Type 0 where
  pub verify_local : Text → Verification
  pub decode_utf8 : List ℕ → Option Text
  pub parse_strict : List ℕ → StrictJsonRead
  pub jcs_digest : Json → Option Text
  pub sha256_hex : List ℕ → Text
  pub validate_local_profile : LocalProfile → Json → Bool
  pub capture : X402Header → Text → Option CapturedArtifact
  pub extract_identifier : Option Json → Option Text
  pub is_ip : Text → ℕ

unfoldable pub is_empty_list : {A : Type 0} → List A → Bool
is_empty_list [] = true
is_empty_list (v ∷ vs) = false

-- White space of `String.prototype.trim`.
unfoldable pub is_trimmed : ℕ → Bool
is_trimmed c =
    any (λ x. x == c)
      (9 ∷ 10 ∷ 11 ∷ 12 ∷ 13 ∷ 32 ∷ 0xa0 ∷ 0x1680 ∷ 0x2028 ∷ 0x2029 ∷ 0x202f ∷ 0x205f ∷ 0x3000
        ∷ 0xfeff ∷ [])
    || (leb 0x2000 c && leb c 0x200a)

unfoldable pub trim_start : Text → Text
unfolding is_trimmed
trim_start [] = []
trim_start (c ∷ cs) = let rest = trim_start cs in if is_trimmed c then rest else c ∷ cs

-- `text.trim()`
unfoldable pub trim : Text → Text
unfolding trim_start
trim t = reverse (trim_start (reverse (trim_start t)))

-- A `return` from the middle of verification, whose `ok` is false.
abbrev pub stop : List VerificationCheck → Option Report
stop checks = some (record { ok = false; checks = checks; warnings = [] })

-- The `return` at the end.
abbrev pub conclude : List VerificationCheck → List VerificationWarning → Option Report
conclude checks warnings =
    some (record { ok = every_ok checks; checks = checks; warnings = warnings })

-- `PUBLIC_KEY_ALGORITHM`, `RECORD_TYPE`
abbrev public_key_algorithm : Text
public_key_algorithm = codes "Ed25519"

abbrev pub payment_record_type : Text
payment_record_type = codes "org.peacprotocol/payment"

unfoldable pub key_checks : Option SuppliedKeyMetadata → VerifiedRecord → List VerificationCheck
unfolding is_literal
key_checks none r = []
key_checks (some k) r =
    check supplied_key_algorithm (eq_text k.algorithm public_key_algorithm)
    ∷ check supplied_key_identifier (eq_text k.kid r.kid)
    ∷ check supplied_key_issuer (is_literal k.issuer r.issuer)
    ∷ []

-- The checks before the extension groups are looked at.
unfoldable pub record_checks : Option SuppliedKeyMetadata → VerifiedRecord → List VerificationCheck
unfolding key_checks is_literal
record_checks key r =
    check record_signature true
    ∷ (key_checks key r ++ check record_type (is_literal payment_record_type r.record_type) ∷ [])
