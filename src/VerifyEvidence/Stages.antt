-- ===== src/VerifyEvidence/Stages.antt =====
-- src/flow/verify-evidence.ts: the stages of checks over the artifacts and the observation.
use x402_base_evidence.Common.{ℕ, true, false, Option, none, some, List, [], ◌∷◌, ◌++◌, Text, codes}
use x402_base_evidence.Json.{Fields, member, as_object}
use x402_base_evidence.Lifecycle.{TerminalState, payment_was_settled}
use x402_base_evidence.Presence.{
  EvidenceArtifact, request_binding, origin_result_binding, origin_result_body,
  payment_required_txt, payment_signature_txt, payment_response_txt, chain_observation,
}
use x402_base_evidence.VerifyEvidence.Agreement.{settlement_check, rpc_checks, agreement_checks}
use x402_base_evidence.VerifyEvidence.Checks.{
  request_binding_digest, request_binding_profile, origin_result_digest, origin_result_profile,
  chain_observation_digest, chain_observation_schema, payment_required_digest,
  payment_signature_digest, payment_response_digest, request_body_preimage, VerificationCheck,
  check,
}
use x402_base_evidence.VerifyEvidence.Comparison.{comparison_checks}
use x402_base_evidence.VerifyEvidence.Digests.{
  recompute_json, check_local_profile, recompute_observed, check_body,
}
use x402_base_evidence.VerifyEvidence.Dynamic.{◌>>=◌}
use x402_base_evidence.VerifyEvidence.Native.{
  NativeDecode, absent, undecodable, decoded, Beside, held_checks, preserved_checks,
}
use x402_base_evidence.VerifyEvidence.Reads.{Directory, bytes_of, JsonRead, read_json}
use x402_base_evidence.VerifyEvidence.Record.{
  request_binding_document, origin_result_document, chain_observation_profile, X402Header,
  payment_required, payment_signature, payment_response, Services,
}

module _ (s : Services) (d : Directory) where
  abbrev pub read : EvidenceArtifact → JsonRead
  read a = read_json s.parse_strict (bytes_of d a)

  -- The digests and the schemas of the sidecars, and the digests of the field values.
  unfoldable pub digest_checks : Fields → Option (List VerificationCheck)
  unfolding recompute_json check_local_profile recompute_observed check_body read_json bytes_of
  digest_checks evidence = do
    request ←
        recompute_json s.jcs_digest request_binding_digest (bytes_of d request_binding)
          (read request_binding) (member (codes "request_binding_digest") evidence)
    result ←
        recompute_json s.jcs_digest origin_result_digest (bytes_of d origin_result_binding)
          (read origin_result_binding) (member (codes "origin_result_binding_digest") evidence)
    observation ←
        recompute_json s.jcs_digest chain_observation_digest (bytes_of d chain_observation)
          (read chain_observation) (member (codes "chain_observation_digest") evidence)
    some (
        request
        ∷ (check_local_profile (s.validate_local_profile request_binding_document)
              request_binding_profile (read request_binding)
            ++ result
              ∷ (check_local_profile (s.validate_local_profile origin_result_document)
                    origin_result_profile (read origin_result_binding)
                  ++ observation
                    ∷ (check_local_profile (s.validate_local_profile chain_observation_profile)
                          chain_observation_schema (read chain_observation)
                        ++ recompute_observed s.sha256_hex payment_required_digest
                            (bytes_of d payment_required_txt)
                            (member (codes "payment_required_digest") evidence)
                          ∷ recompute_observed s.sha256_hex payment_signature_digest
                              (bytes_of d payment_signature_txt)
                              (member (codes "payment_signature_digest") evidence)
                          ∷ recompute_observed s.sha256_hex payment_response_digest
                              (bytes_of d payment_response_txt)
                              (member (codes "payment_response_digest") evidence)
                          ∷ check_body s.sha256_hex (read origin_result_binding)
                              (bytes_of d origin_result_body)))))

  unfoldable pub capture_text : X402Header → Option Text → NativeDecode
  capture_text h none = undecodable
  capture_text h (some text) = elim (s.capture h text) [ none ↦ undecodable | some a ↦ decoded a ]

  -- `decodeNative`
  unfoldable pub decode_native : X402Header → Option (List ℕ) → NativeDecode
  unfolding capture_text
  decode_native h none = absent
  decode_native h (some bytes) = capture_text h (s.decode_utf8 bytes)

  -- `held` of the source, a written response, is what `payment_was_settled` tests.
  unfoldable pub native_checks : TerminalState → Beside → Option (List VerificationCheck)
  unfolding decode_native bytes_of held_checks preserved_checks payment_was_settled
  native_checks state b =
      let required = decode_native payment_required (bytes_of d payment_required_txt) in
      let signature = decode_native payment_signature (bytes_of d payment_signature_txt) in
      let response = decode_native payment_response (bytes_of d payment_response_txt) in
      elim (payment_was_settled state) [
        | true ↦ held_checks s.is_ip s.jcs_digest s.extract_identifier required signature response b
        | false ↦ some (preserved_checks required signature response)
      ]

  -- The rest of the checks on an observation that has both of its attributed objects.
  unfoldable pub attributed_checks :
      Fields → Fields → TerminalState → Fields → Fields → Fields → Option (List VerificationCheck)
  unfolding settlement_check rpc_checks comparison_checks agreement_checks native_checks read_json
      bytes_of
  attributed_checks commerce evidence state doc expectation report = do
    let rpc = as_object (member (codes "rpc_observation") doc)
    compared ←
        comparison_checks (as_object (member (codes "comparison") doc)) expectation report rpc
    natives ← native_checks state (record {
      commerce = commerce;
      expectation = expectation;
      report = report;
      request_binding = read request_binding;
    })
    some (
        settlement_check report
        ∷ (rpc_checks report rpc
            ++ (compared
                ++ (agreement_checks commerce evidence state (read origin_result_binding) doc
                      expectation
                    ++ (natives ++ check request_body_preimage true ∷ [])))))
