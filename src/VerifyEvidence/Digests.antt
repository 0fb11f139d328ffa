-- ===== src/VerifyEvidence/Digests.antt =====
-- src/flow/verify-evidence.ts: the recomputation of the digests that a record binds. An exception that
-- is caught nowhere is `none`.
use x402_base_evidence.Common.{ℕ, Bool, true, false, Option, none, some, List, [], ◌∷◌, Text, codes}
use x402_base_evidence.Components.{is_literal}
use x402_base_evidence.Digest.{coerce_digest, digest_bytes}
use x402_base_evidence.Json.{Json, Fields, member, as_object}
use x402_base_evidence.VerifyEvidence.Checks.{
  CheckName, origin_result_body_digest, VerificationCheck, check,
}
use x402_base_evidence.VerifyEvidence.Dynamic.{◌>>=◌}
use x402_base_evidence.VerifyEvidence.Reads.{JsonRead, parsed, refused, missing}

unfoldable pub is_absent : Option (List ℕ) → Bool
is_absent none = true
is_absent (some bytes) = false

module _ (jcs_digest : Json → Option Text) where
  -- `coerceDigest(await computeJsonDocumentDigestJcs(value))`
  unfoldable pub document_digest : Json → Option Text
  unfolding coerce_digest
  document_digest v = elim (jcs_digest v) [ none ↦ none | some d ↦ coerce_digest d ]

  -- `recomputeJson`, where the bytes are there and were read as JSON.
  unfoldable pub recompute_read : CheckName → JsonRead → Json → Option VerificationCheck
  unfolding document_digest is_literal
  recompute_read name (parsed v) claimed =
      document_digest v >>= λ d. some (check name (is_literal d (some claimed)))
  recompute_read name _ claimed = some (check name false)

  -- `recomputeJson`
  unfoldable pub recompute_json :
      CheckName → Option (List ℕ) → JsonRead → Option Json → Option VerificationCheck
  unfolding recompute_read is_absent
  recompute_json name bytes read none = some (check name (is_absent bytes))
  recompute_json name none read (some claimed) = some (check name false)
  recompute_json name (some bytes) read (some claimed) = recompute_read name read claimed

-- `checkLocalProfile`, with the validation of the committed schema.
unfoldable pub check_local_profile : (Json → Bool) → CheckName → JsonRead → List VerificationCheck
check_local_profile validate name (parsed v) = check name (validate v) ∷ []
check_local_profile validate name _ = []

module _ (sha256_hex : List ℕ → Text) where
  -- `recomputeObserved`
  unfoldable pub recompute_observed : CheckName → Option (List ℕ) → Option Json → VerificationCheck
  unfolding is_absent digest_bytes is_literal
  recompute_observed name bytes none = check name (is_absent bytes)
  recompute_observed name none (some claimed) = check name false
  recompute_observed name (some bytes) (some claimed) =
      check name (is_literal (digest_bytes sha256_hex bytes) (some claimed))

  unfoldable body_matches : Option Fields → Option (List ℕ) → Bool
  unfolding digest_bytes is_literal
  body_matches (some binding) (some body) =
      is_literal (digest_bytes sha256_hex body) (member (codes "bodyDigest") binding)
  body_matches _ _ = false

  -- The check of the origin's result body against the result binding.
  unfoldable pub check_body : JsonRead → Option (List ℕ) → List VerificationCheck
  unfolding body_matches
  check_body missing body = []
  check_body refused body = check origin_result_body_digest false ∷ []
  check_body (parsed v) body =
      check origin_result_body_digest (body_matches (as_object (some v)) body) ∷ []
