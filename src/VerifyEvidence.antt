-- ===== src/VerifyEvidence.antt =====
-- src/flow/verify-evidence.ts: the verification of an evidence directory. Each stage appends its
-- checks to those before it, and `stop` is a `return` from the middle.
pub mod Checks
pub mod Reads
pub mod Digests
pub mod Dynamic
pub mod Comparison
pub mod Agreement
pub mod Native
pub mod Record
pub mod Stages
pub mod Verdict
pub mod Presented
pub mod Sound
pub mod Whole
pub mod Agreed
pub mod Throws
pub mod Recomputed
pub mod Verdicts
pub mod Arguments
use x402_base_evidence.Common.{
  ℕ, Bool, true, false, not, ◌&&◌, ◌||◌, Option, none, some, List, [], ◌∷◌, ◌++◌, if◌then◌else◌,
  any, reverse, leb, ◌==◌, Text, codes, eq_text,
}
use x402_base_evidence.Components.{is_literal}
use x402_base_evidence.Json.{Json, object, Fields, member, as_object}
use x402_base_evidence.Lifecycle.{TerminalState, payment_was_settled}
use x402_base_evidence.Presence.{
  EvidenceArtifact, evidence_artifacts, check_presence, PresenceViolation, record_jws,
  request_binding, origin_result_binding, origin_result_body, payment_required_txt,
  payment_signature_txt, payment_response_txt, chain_observation,
}
use x402_base_evidence.StrictJson.Admission.{StrictJsonRead}
use x402_base_evidence.VerifyEvidence.Agreement.{
  document_checks, settlement_check, rpc_checks, rpc_warnings, agreement_checks,
}
use x402_base_evidence.VerifyEvidence.Checks.{
  nested_directories, every_artifact_readable, record_present, record_signature,
  supplied_key_algorithm, supplied_key_identifier, supplied_key_issuer, record_type,
  extension_groups, request_binding_digest, request_binding_profile, origin_result_digest,
  origin_result_profile, chain_observation_digest, chain_observation_schema,
  payment_required_digest, payment_signature_digest, payment_response_digest, terminal_state,
  presence_contract, chain_observation_document, request_body_preimage, VerificationCheck, check,
  VerificationWarning, Report, every_ok,
}
use x402_base_evidence.VerifyEvidence.Comparison.{comparison_checks}
use x402_base_evidence.VerifyEvidence.Digests.{
  recompute_json, check_local_profile, recompute_observed, check_body,
}
use x402_base_evidence.VerifyEvidence.Dynamic.{◌>>=◌}
use x402_base_evidence.VerifyEvidence.Native.{
  CapturedArtifact, NativeDecode, absent, undecodable, decoded, Beside, held_checks,
  preserved_checks,
}
use x402_base_evidence.VerifyEvidence.Reads.{
  Directory, is_unreadable, bytes_of, present_paths, JsonRead, parsed, refused, missing, read_json,
  terminal_state_of,
}
use x402_base_evidence.VerifyEvidence.Record.{
  LocalProfile, request_binding_document, origin_result_document, chain_observation_profile,
  X402Header, payment_required, payment_signature, payment_response, VerifiedRecord, Verification,
  thrown, invalid, valid, SuppliedKeyMetadata, Services, is_trimmed, trim_start, trim, stop,
  conclude, payment_record_type, key_checks, record_checks, is_empty_list,
}
use x402_base_evidence.VerifyEvidence.Stages.{
  read, digest_checks, attributed_checks, native_checks, decode_native, capture_text,
}

module _ (s : Services) (d : Directory) where
  -- From the two attributed objects of an observation to the end, after the checks `before`.
  unfoldable pub conclude_attributed :
      Fields
      → Fields
      → TerminalState
      → List VerificationCheck
      → Fields
      → Option Fields
      → Option Fields
      → Option Report
  unfolding attributed_checks rpc_warnings
  conclude_attributed commerce evidence state before doc none report = stop before
  conclude_attributed commerce evidence state before doc (some e) none = stop before
  conclude_attributed commerce evidence state before doc (some e) (some r) =
      attributed_checks s d commerce evidence state doc e r >>= λ more.
      conclude (before ++ more) (rpc_warnings r (as_object (member (codes "rpc_observation") doc)))

  -- From the admitted observation to the end.
  unfoldable pub conclude_document :
      Fields → Fields → TerminalState → List VerificationCheck → Fields → Option Report
  unfolding document_checks conclude_attributed
  conclude_document commerce evidence state before doc =
      let expectation = as_object (member (codes "payment_expectation") doc) in
      let report = as_object (member (codes "chain_observation") doc) in
      conclude_attributed commerce evidence state (before ++ document_checks doc expectation report)
        doc expectation report

  unfoldable pub conclude_observation :
      Fields → Fields → TerminalState → List VerificationCheck → JsonRead → Option Report
  unfolding conclude_document
  conclude_observation commerce evidence state before missing = conclude before []
  conclude_observation commerce evidence state before refused =
      conclude (before ++ check chain_observation_document false ∷ []) []
  conclude_observation commerce evidence state before (parsed (object doc)) =
      conclude_document commerce evidence state before doc
  conclude_observation commerce evidence state before (parsed _) =
      conclude (before ++ check chain_observation_document false ∷ []) []

  -- From the terminal state that the record names to the end.
  unfoldable pub conclude_state :
      Fields → Fields → List VerificationCheck → Option TerminalState → Option Report
  unfolding is_empty_list check_presence present_paths conclude_observation
  conclude_state commerce evidence before none = stop (before ++ check terminal_state false ∷ [])
  conclude_state commerce evidence before (some state) =
      conclude_observation commerce evidence state
        (before
          ++ check presence_contract (is_empty_list (check_presence state (present_paths d))) ∷ [])
        (read s d chain_observation)

  -- From the extension groups to the end.
  unfoldable pub verify_groups :
      List VerificationCheck → Option Fields → Option Fields → Option Report
  unfolding digest_checks terminal_state_of conclude_state
  verify_groups before none evidence = stop (before ++ check extension_groups false ∷ [])
  verify_groups before (some commerce) none = stop (before ++ check extension_groups false ∷ [])
  verify_groups before (some commerce) (some evidence) = digest_checks s d evidence >>= λ digests.
      conclude_state commerce evidence (before ++ check extension_groups true ∷ digests)
        (terminal_state_of (member (codes "terminal_state") evidence))

  unfoldable pub verify_record : Option SuppliedKeyMetadata → VerifiedRecord → Option Report
  unfolding record_checks verify_groups
  verify_record key r = verify_groups (record_checks key r) r.commerce r.payment_evidence

  unfoldable pub verify_with : Option SuppliedKeyMetadata → Verification → Option Report
  unfolding verify_record
  verify_with key thrown = stop (check record_signature false ∷ [])
  verify_with key invalid = stop (check record_signature false ∷ [])
  verify_with key (valid r) = verify_record key r

  unfoldable pub verify_text : Option SuppliedKeyMetadata → Option Text → Option Report
  unfolding trim verify_with
  verify_text key none = stop (check record_signature false ∷ [])
  verify_text key (some text) = verify_with key (s.verify_local (trim text))

  unfoldable pub verify_bytes : Option SuppliedKeyMetadata → Option (List ℕ) → Option Report
  unfolding verify_text
  verify_bytes key none = stop (check record_present false ∷ [])
  verify_bytes key (some bytes) = verify_text key (s.decode_utf8 bytes)

  -- `verifyEvidence`; `none` is an exception that leaves it.
  unfoldable pub verify_evidence : Option SuppliedKeyMetadata → Option Report
  unfolding is_unreadable verify_bytes bytes_of
  verify_evidence key =
      if d.container_refused
      then stop (check nested_directories false ∷ [])
      else (if any (λ a. is_unreadable (d.read_artifact a)) evidence_artifacts
          then stop (check every_artifact_readable false ∷ [])
          else verify_bytes key (bytes_of d record_jws))
