-- ===== src/VerifyEvidence/Native.antt =====
-- src/flow/verify-evidence.ts: the agreement of the captured x402 artifacts with the record and the
-- observation. What src/x402-header.ts makes of a field value is a parameter, as is the reader of
-- the payment identifier.
use x402_base_evidence.Common.{
  ℕ, Bool, true, false, not, ◌&&◌, ◌||◌, Option, none, some, List, [], ◌∷◌, ◌++◌, all, any,
  if◌then◌else◌, Text, codes,
}
use x402_base_evidence.Common.Except.{ok, err}
use x402_base_evidence.Components.{is_literal, components_from_absolute_uri}
use x402_base_evidence.Json.{
  Json, boolean, string, object, Fields, member, as_object, as_array, object_like,
}
use x402_base_evidence.Presence.{
  EvidenceArtifact, payment_required_txt, payment_signature_txt, payment_response_txt,
}
use x402_base_evidence.SealedObservation.{same_address}
use x402_base_evidence.VerifyEvidence.Agreement.{is_succeeded}
use x402_base_evidence.VerifyEvidence.Checks.{
  CheckName, required_decodes, signature_decodes, response_decodes, signature_terms,
  signature_authorization, signature_identifier, signature_resource, required_advertises,
  response_matches, preserved, VerificationCheck, check,
}
use x402_base_evidence.VerifyEvidence.Comparison.{member_of}
use x402_base_evidence.VerifyEvidence.Digests.{document_digest}
use x402_base_evidence.VerifyEvidence.Dynamic.{◌>>=◌, get, strict_equal, is_string, is_undefined}
use x402_base_evidence.VerifyEvidence.Reads.{JsonRead, parsed}

-- `X402_STAGES`
pub data X402Stage : Type 0 where
  transport json duplicate_members upstream_schema scheme_payload extensions : X402Stage

pub data StageStatus : Type 0 where
  accepted rejected not_evaluated : StageStatus

-- `CapturedX402Artifact`, the members that are read.
pub record CapturedArtifact : Type 0 where
  pub stages : X402Stage → StageStatus
  pub local_structural_status : Option StageStatus
  pub decoded : Option Json

pub data NativeDecode : Type 0 where
  absent : NativeDecode
  undecodable : NativeDecode
  decoded : CapturedArtifact → NativeDecode

unfoldable pub is_accepted : StageStatus → Bool
is_accepted accepted = true
is_accepted _ = false

unfoldable is_rejected : StageStatus → Bool
is_rejected rejected = true
is_rejected _ = false

abbrev accepts_stages : List X402Stage → CapturedArtifact → Bool
accepts_stages stages a = all (λ s. is_accepted (a.stages s)) stages

-- `requiredOk`
unfoldable required_ok : NativeDecode → Bool
unfolding is_accepted
required_ok (decoded a) =
    accepts_stages (transport ∷ json ∷ duplicate_members ∷ upstream_schema ∷ []) a
required_ok _ = false

-- `signatureOk`
unfoldable signature_ok : NativeDecode → Bool
unfolding is_accepted is_rejected
signature_ok (decoded a) =
    accepts_stages (transport ∷ json ∷ duplicate_members ∷ upstream_schema ∷ scheme_payload ∷ []) a
    && not (is_rejected (a.stages extensions))
signature_ok _ = false

unfoldable locally_accepted : Option StageStatus → Bool
unfolding is_accepted
locally_accepted none = false
locally_accepted (some s) = is_accepted s

-- `responseOk`
unfoldable response_ok : NativeDecode → Bool
unfolding is_accepted locally_accepted
response_ok (decoded a) =
    accepts_stages (transport ∷ json ∷ duplicate_members ∷ []) a
    && locally_accepted a.local_structural_status
response_ok _ = false

-- `emitDecodeCheck`
unfoldable decode_check : CheckName → NativeDecode → Bool → List VerificationCheck
decode_check name absent passed = []
decode_check name _ passed = check name passed ∷ []

-- `value?.key`
unfoldable optional_get : Text → Option Json → Option Json
unfolding member_of object_like
optional_get key v = member_of key (object_like v)

-- `typeof a === 'string' && typeof b === 'string' && sameAddress(a, b)`
unfoldable same_address_texts : Option Json → Option Json → Bool
unfolding same_address
same_address_texts (some (string a)) (some (string b)) = same_address a b
same_address_texts _ _ = false

-- `isJsonObject(resource) ? resource.url : undefined`
unfoldable url_of : Option Json → Option Json
unfolding member_of
url_of resource = member_of (codes "url") (as_object resource)

-- `termsOk`
unfoldable terms_ok : Option Json → Fields → Bool
unfolding is_literal optional_get strict_equal same_address_texts
terms_ok terms e =
    is_literal (codes "exact") (optional_get (codes "scheme") terms)
    && strict_equal (optional_get (codes "network") terms) (member (codes "network") e)
    && same_address_texts (optional_get (codes "asset") terms) (member (codes "asset") e)
    && strict_equal (optional_get (codes "amount") terms) (member (codes "amount_base_units") e)
    && same_address_texts (optional_get (codes "payTo") terms) (member (codes "recipient") e)

-- One candidate of `accepts.some(…)`.
unfoldable advertises : Option Json → Json → Bool
unfolding strict_equal same_address_texts member_of object_like optional_get
advertises terms entry = elim (object_like (some entry)) [
  | none ↦ false
  | some candidate ↦
      strict_equal (member (codes "scheme") candidate) (optional_get (codes "scheme") terms)
      && strict_equal (member (codes "network") candidate) (optional_get (codes "network") terms)
      && same_address_texts (member (codes "asset") candidate) (optional_get (codes "asset") terms)
      && strict_equal (member (codes "amount") candidate) (optional_get (codes "amount") terms)
      && same_address_texts (member (codes "payTo") candidate) (optional_get (codes "payTo") terms)
]

-- `Array.isArray(accepts) ? accepts : []`
unfoldable entries_of : Option Json → List Json
entries_of v = elim (as_array v) [ none ↦ [] | some vs ↦ vs ]

unfoldable identifiers_agree : Option Text → Option Json → Bool
unfolding is_undefined is_literal
identifiers_agree none reference = is_undefined reference
identifiers_agree (some i) reference = is_literal i reference

-- `typeof method === 'string' ? method : 'GET'`
unfoldable method_or_get : Option Json → Option Json
unfolding is_string
method_or_get v = if is_string v then v else some (string (codes "GET"))

unfoldable components_agree : Fields → Fields → Bool
unfolding strict_equal
components_agree derived binding =
    strict_equal (member (codes "@scheme") derived) (member (codes "@scheme") binding)
    && strict_equal (member (codes "@authority") derived) (member (codes "@authority") binding)
    && strict_equal (member (codes "@path") derived) (member (codes "@path") binding)
    && strict_equal (member (codes "@query") derived) (member (codes "@query") binding)

unfoldable settlement_agrees : Option Json → Option Json → Option Json → Option Json → Fields → Bool
unfolding strict_equal is_succeeded is_undefined same_address_texts
settlement_agrees success transaction network payer report =
    strict_equal success (some (boolean (is_succeeded report)))
    && strict_equal transaction (member (codes "transaction_hash") report)
    && strict_equal network (member (codes "network_reported") report)
    && (is_undefined payer || same_address_texts payer (member (codes "payer_reported") report))

-- The check of the settlement response against the observation.
unfoldable response_check : CapturedArtifact → Fields → Option (List VerificationCheck)
unfolding get settlement_agrees
response_check a report = do
  success ← get (codes "success") a.decoded
  transaction ← get (codes "transaction") a.decoded
  network ← get (codes "network") a.decoded
  payer ← get (codes "payer") a.decoded
  some (check response_matches (settlement_agrees success transaction network payer report) ∷ [])

-- The check of the advertised terms, for the payload's resource and terms.
unfoldable advertised_check :
    Option Json → Option Json → CapturedArtifact → Option (List VerificationCheck)
unfolding get url_of is_string strict_equal advertises entries_of
advertised_check resource terms a = do
  required_resource ← get (codes "resource") a.decoded
  accepts ← get (codes "accepts") a.decoded
  some (
      check required_advertises (
        is_string (url_of required_resource)
        && strict_equal (url_of required_resource) (url_of resource)
        && any (advertises terms) (entries_of accepts))
      ∷ [])

module _ (jcs_digest : Json → Option Text) where
  unfoldable digest_agrees : Option Fields → Fields → Bool
  unfolding document_digest is_literal
  digest_agrees none e = false
  digest_agrees (some fs) e = elim (document_digest jcs_digest (object fs)) [
    | none ↦ false
    | some d ↦ is_literal d (member (codes "authorization_digest") e)
  ]

  -- `fromOk && toOk && valueOk && digestOk`
  unfoldable authorization_ok : Option Fields → Fields → Bool
  unfolding digest_agrees same_address_texts strict_equal member_of
  authorization_ok authorization e =
      same_address_texts (member_of (codes "from") authorization) (member (codes "payer") e)
      && same_address_texts (member_of (codes "to") authorization) (member (codes "recipient") e)
      && strict_equal (member_of (codes "value") authorization)
          (member (codes "amount_base_units") e)
      && digest_agrees authorization e

module _ (is_ip : Text → ℕ) where
  unfoldable resource_agrees : Option Fields → Option Json → Bool
  unfolding components_from_absolute_uri components_agree method_or_get
  resource_agrees (some binding) (some (string url)) =
      elim (components_from_absolute_uri is_ip (method_or_get (member (codes "@method") binding))
        url none) [ ok derived ↦ components_agree derived binding | err e ↦ false ]
  resource_agrees _ _ = false

  -- The check of the payload's resource against the request binding, if that is an object.
  unfoldable resource_check : JsonRead → Option Json → List VerificationCheck
  unfolding resource_agrees url_of
  resource_check (parsed (object binding)) resource =
      check signature_resource
        (resource_agrees (as_object (member (codes "components") binding)) (url_of resource))
      ∷ []
  resource_check _ resource = []

unfoldable advertised_if :
    NativeDecode → Option Json → Option Json → Option (List VerificationCheck)
unfolding required_ok advertised_check
advertised_if (decoded a) resource terms = elim (required_ok (decoded a)) [
  | true ↦ advertised_check resource terms a
  | false ↦ some []
]
advertised_if _ resource terms = some []

unfoldable response_if : NativeDecode → Fields → Option (List VerificationCheck)
unfolding response_ok response_check
response_if (decoded a) report = elim (response_ok (decoded a)) [
  | true ↦ response_check a report
  | false ↦ some []
]
response_if _ report = some []

unfoldable preserved_check : EvidenceArtifact → NativeDecode → List VerificationCheck
preserved_check a absent = []
preserved_check a _ = check (preserved a) true ∷ []

-- The checks of an artifact set that is not held to the expectation.
unfoldable pub preserved_checks :
    NativeDecode → NativeDecode → NativeDecode → List VerificationCheck
unfolding preserved_check
preserved_checks required signature response =
    preserved_check payment_required_txt required
    ++ (preserved_check payment_signature_txt signature
        ++ preserved_check payment_response_txt response)

-- What the checks of the payload read of the evidence beside it.
pub record Beside : Type 0 where
  pub commerce : Fields
  pub expectation : Fields
  pub report : Fields
  pub request_binding : JsonRead

module _ (is_ip : Text → ℕ) (jcs_digest : Json → Option Text)
    (extract_identifier : Option Json → Option Text) where
  -- The checks that depend on a payload that decoded.
  unfoldable signature_checks :
      NativeDecode → CapturedArtifact → Beside → Option (List VerificationCheck)
  unfolding get terms_ok authorization_ok identifiers_agree resource_check advertised_if
      optional_get
  signature_checks required a b = do
    terms ← get (codes "accepted") a.decoded
    raw_payload ← get (codes "payload") a.decoded
    resource ← get (codes "resource") a.decoded
    let authorization = as_object (optional_get (codes "authorization") raw_payload)
    advertised ← advertised_if required resource terms
    some (
        check signature_terms (terms_ok terms b.expectation)
        ∷ check signature_authorization (authorization_ok jcs_digest authorization b.expectation)
        ∷ check signature_identifier (
            identifiers_agree (extract_identifier a.decoded)
              (member (codes "reference") b.commerce))
        ∷ (resource_check is_ip b.request_binding resource ++ advertised))

  unfoldable signature_if : NativeDecode → NativeDecode → Beside → Option (List VerificationCheck)
  unfolding signature_ok signature_checks
  signature_if required (decoded a) b = elim (signature_ok (decoded a)) [
    | true ↦ signature_checks required a b
    | false ↦ some []
  ]
  signature_if required _ b = some []

  -- The checks of an artifact set that is held to the expectation.
  unfoldable pub held_checks :
      NativeDecode → NativeDecode → NativeDecode → Beside → Option (List VerificationCheck)
  unfolding decode_check required_ok signature_ok response_ok signature_if response_if
  held_checks required signature response b = do
    dependent ← signature_if required signature b
    matched ← response_if response b.report
    some (
        decode_check required_decodes required (required_ok required)
        ++ (decode_check signature_decodes signature (signature_ok signature)
            ++ (decode_check response_decodes response (response_ok response)
                ++ (dependent ++ matched))))
