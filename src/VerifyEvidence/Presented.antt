-- ===== src/VerifyEvidence/Presented.antt =====
-- The artifacts that are present in a directory, by their paths (src/flow/verify-evidence.ts).
use x402_base_evidence.Common.{
  ◌≡◌, refl, true, false, Option, none, some, List, [], ℕ, Text, arith, eq_text, includes,
}
use x402_base_evidence.Presence.{
  EvidenceArtifact, artifact_path, chain_observation, record_jws, request_binding,
  origin_result_binding, origin_result_body, payment_required_txt, payment_signature_txt,
  payment_response_txt,
}
use x402_base_evidence.VerifyEvidence.Reads.{
  Directory, bytes_of, present_paths, paths_from, add_path,
}

later :
    (o : Option (List ℕ)) (a : EvidenceArtifact) (rest : List Text) (t : Text)
    → eq_text (artifact_path a) t ≡ false
    → includes (add_path o a rest) t ≡ true
    → includes rest t ≡ true
unfolding add_path
later none a rest t ne h = h
later (some b) a rest t ne h = ground arith

here :
    (o : Option (List ℕ)) (a : EvidenceArtifact) (t : Text)
    → includes (add_path o a []) t ≡ true
    → (b : List ℕ) × (o ≡ some b)
unfolding add_path
here none a t h = absurd (ground arith)
here (some b) a t h = (b, refl)

-- A chain observation that is among the present paths has bytes.
pub chain_observation-present :
    (d : Directory)
    → includes (present_paths d) (artifact_path chain_observation) ≡ true
    → (b : List ℕ) × (bytes_of d chain_observation ≡ some b)
unfolding present_paths paths_from artifact_path eq_text
chain_observation-present d h =
    let t : Text = artifact_path chain_observation in
    let after : List EvidenceArtifact → List Text = λ as'. paths_from d as' in
    here (bytes_of d chain_observation) chain_observation t (
      later (bytes_of d payment_response_txt) payment_response_txt _ t refl (
        later (bytes_of d payment_signature_txt) payment_signature_txt _ t refl (
          later (bytes_of d payment_required_txt) payment_required_txt _ t refl (
            later (bytes_of d origin_result_body) origin_result_body _ t refl (
              later (bytes_of d origin_result_binding) origin_result_binding _ t refl (
                later (bytes_of d request_binding) request_binding _ t refl
                  (later (bytes_of d record_jws) record_jws _ t refl h)))))))
