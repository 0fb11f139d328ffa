-- ===== src/VerifyEvidence/Checks.antt =====
-- src/flow/verify-evidence.ts: the checks of a report, by name, and their categories. The bounded
-- explanations are left out.
use x402_base_evidence.Common.{Bool, List, all}
use x402_base_evidence.Presence.{EvidenceArtifact}

-- `VerificationCategory`
pub data Category : Type 0 where
  integrity structure consistency native : Category

-- One constructor for each name that a check is given.
pub data CheckName : Type 0 where
  nested_directories every_artifact_readable record_present record_signature : CheckName
  supplied_key_algorithm supplied_key_identifier supplied_key_issuer : CheckName
  record_type extension_groups : CheckName
  request_binding_digest request_binding_profile : CheckName
  origin_result_digest origin_result_profile : CheckName
  chain_observation_digest chain_observation_schema : CheckName
  payment_required_digest payment_signature_digest payment_response_digest : CheckName
  origin_result_body_digest terminal_state presence_contract : CheckName
  chain_observation_document observation_profile observation_scheme : CheckName
  separately_attributed settlement_facts rpc_transaction rpc_inclusion_basis : CheckName
  expectation_comparison transfer_event_evaluated : CheckName
  same_network same_terminal_state same_asset same_amount : CheckName
  same_settlement_response same_origin_result : CheckName
  required_decodes signature_decodes response_decodes : CheckName
  signature_terms signature_authorization signature_identifier signature_resource : CheckName
  required_advertises response_matches : CheckName
  preserved : EvidenceArtifact → CheckName
  request_body_preimage : CheckName

unfoldable category_of : CheckName → Category
category_of record_signature = integrity
category_of supplied_key_algorithm = integrity
category_of supplied_key_identifier = integrity
category_of supplied_key_issuer = integrity
category_of request_binding_digest = integrity
category_of origin_result_digest = integrity
category_of chain_observation_digest = integrity
category_of payment_required_digest = integrity
category_of payment_signature_digest = integrity
category_of payment_response_digest = integrity
category_of origin_result_body_digest = integrity
category_of expectation_comparison = consistency
category_of transfer_event_evaluated = consistency
category_of same_network = consistency
category_of same_terminal_state = consistency
category_of same_asset = consistency
category_of same_amount = consistency
category_of same_settlement_response = consistency
category_of same_origin_result = consistency
category_of required_decodes = native
category_of signature_decodes = native
category_of response_decodes = native
category_of signature_terms = native
category_of signature_authorization = native
category_of signature_identifier = native
category_of signature_resource = native
category_of required_advertises = native
category_of response_matches = native
category_of (preserved _) = native
category_of _ = structure

pub record VerificationCheck : Type 0 where
  pub name : CheckName
  pub ok : Bool
  pub category : Category

-- `pass(name, …)` if the test holds, and `fail(name, …)` if it does not.
unfoldable pub check : CheckName → Bool → VerificationCheck
unfolding category_of
check name b = record { name = name; ok = b; category = category_of name }

-- `observer disagreement`, of a reverted execution or of a transaction that was not found.
pub data VerificationWarning : Type 0 where
  observer_reverted observer_not_found : VerificationWarning

-- `EvidenceVerificationReport`
pub record Report : Type 0 where
  pub ok : Bool
  pub checks : List VerificationCheck
  pub warnings : List VerificationWarning

-- `checks.every((c) => c.ok)`
abbrev pub every_ok : List VerificationCheck → Bool
every_ok = all (λ (c : VerificationCheck). c.ok)
