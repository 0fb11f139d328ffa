-- ===== src/Presence.antt =====
-- src/flow/presence.ts: which artifacts each terminal state should have produced.
pub mod Contract
use x402_base_evidence.Common.{
  ℕ, Bool, true, false, not, ◌&&◌, List, [], ◌∷◌, ◌++◌, if◌then◌else◌, Text, codes, includes,
}
use x402_base_evidence.Lifecycle.{
  TerminalState, write_attempted, payment_rejected_pre_verification, verification_rejected,
  handler_error_status, settlement_failed, payment_required_only,
}

pub data EvidenceArtifact : Type 0 where
  record_jws request_binding origin_result_binding origin_result_body : EvidenceArtifact
  payment_required_txt payment_signature_txt payment_response_txt : EvidenceArtifact
  chain_observation : EvidenceArtifact

abbrev pub evidence_artifacts : List EvidenceArtifact
evidence_artifacts =
    record_jws ∷ request_binding ∷ origin_result_binding ∷ origin_result_body ∷ payment_required_txt
    ∷ payment_signature_txt ∷ payment_response_txt ∷ chain_observation ∷ []

-- The path of an artifact below the evidence directory.
unfoldable pub artifact_path : EvidenceArtifact → Text
artifact_path record_jws = codes "record.jws"
artifact_path request_binding = codes "request-binding.json"
artifact_path origin_result_binding = codes "origin-result-binding.json"
artifact_path origin_result_body = codes "origin-result-body.bin"
artifact_path payment_required_txt = codes "artifacts/payment-required.txt"
artifact_path payment_signature_txt = codes "artifacts/payment-signature.txt"
artifact_path payment_response_txt = codes "artifacts/payment-response.txt"
artifact_path chain_observation = codes "chain-observation.json"

pub data Expectation : Type 0 where
  required optional absent : Expectation

-- A `PresenceContract`: the members of `ALWAYS` are required in each, and these are given.
abbrev contract :
    Expectation → Expectation → Expectation → Expectation → EvidenceArtifact → Expectation
contract signature response binding body record_jws = required
contract signature response binding body request_binding = required
contract signature response binding body chain_observation = required
contract signature response binding body payment_required_txt = required
contract signature response binding body payment_signature_txt = signature
contract signature response binding body payment_response_txt = response
contract signature response binding body origin_result_binding = binding
contract signature response binding body origin_result_body = body

unfoldable pub presence_contract_for : TerminalState → EvidenceArtifact → Expectation
presence_contract_for write_attempted = contract required required required required
presence_contract_for payment_rejected_pre_verification = contract required absent absent absent
presence_contract_for verification_rejected = contract required absent absent absent
presence_contract_for handler_error_status = contract required absent required required
presence_contract_for settlement_failed = contract required optional required required
presence_contract_for payment_required_only = contract absent absent absent absent

pub record PresenceViolation : Type 0 where
  pub artifact : EvidenceArtifact
  pub expectation : Expectation
  pub present : Bool

-- The two `if`s of the loop, for one artifact.
unfoldable pub violation : EvidenceArtifact → Expectation → Bool → List PresenceViolation
violation a required false = record { artifact = a; expectation = required; present = false } ∷ []
violation a absent true = record { artifact = a; expectation = absent; present = true } ∷ []
violation a _ _ = []

check_from : List EvidenceArtifact → TerminalState → List Text → List PresenceViolation
unfolding violation presence_contract_for
check_from [] state present = []
check_from (a ∷ as') state present =
    violation a (presence_contract_for state a) (includes present (artifact_path a))
    ++ check_from as' state present

unfoldable pub check_presence : TerminalState → List Text → List PresenceViolation
unfolding check_from
check_presence = check_from evidence_artifacts
