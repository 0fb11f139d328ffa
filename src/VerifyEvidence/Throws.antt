-- ===== src/VerifyEvidence/Throws.antt =====
-- A malformed transfer leaves a verification by an exception (src/flow/verify-evidence.ts).
use x402_base_evidence.Common.{
  ◌≡◌, refl, Option, none, some, List, arith, codes, Option-cases, inl, inr,
}
use x402_base_evidence.Json.{Json, string, object, Fields, member, as_object, as_string}
use x402_base_evidence.Lifecycle.{TerminalState}
use x402_base_evidence.VerifyEvidence.Checks.{VerificationCheck}
use x402_base_evidence.VerifyEvidence.Comparison.{
  same_party, verdict_of, transfer_agrees, member_of, compare_documents, comparison_checks,
}
use x402_base_evidence.VerifyEvidence.Dynamic.{get, lower_of, same_address_of}
use x402_base_evidence.VerifyEvidence.Reads.{Directory}
use x402_base_evidence.VerifyEvidence.Record.{Services}
use x402_base_evidence.VerifyEvidence.Stages.{attributed_checks}
use x402_base_evidence.VerifyEvidence.{conclude_document, conclude_attributed}

lower_of-eq-none : (v : Option Json) → as_string v ≡ none → lower_of v ≡ none
unfolding lower_of as_string
lower_of-eq-none (some (string t)) h = absurd (ground arith)
lower_of-eq-none _ h = refl

same_party-throws :
    (t : Fields) (v : Option Json)
    → as_string (member (codes "token_contract") t) ≡ none
    → same_party (codes "token_contract") (some (object t)) v ≡ none
unfolding same_party get same_address_of
same_party-throws t v h = rw (lower_of-eq-none (member (codes "token_contract") t) h) refl

compare_documents-throws :
    (e r rpc t : Fields)
    → member (codes "token_transfer") rpc ≡ some (object t)
    → as_string (member (codes "token_contract") t) ≡ none
    → compare_documents e r (some rpc) ≡ none
unfolding compare_documents member_of verdict_of
compare_documents-throws e r rpc t there malformed =
    elim (Option-cases (transfer_agrees (some (object t)) e)) [
      | inl f ↦ rw there (rw f refl)
      | inr (agrees, f) ↦
          rw there (rw f (rw (same_party-throws t (member (codes "asset") e) malformed) refl))
    ]

-- An observation with both attributed objects and a comparison, whose RPC account has a transfer with
-- no text as its token contract, is not reported on at all, whatever the checks before it found: the
-- verification ends in an exception.
pub conclude_document-throws :
    (s : Services) (d : Directory) (commerce evidence : Fields) (state : TerminalState)
    (before : List VerificationCheck) (doc e r recorded rpc t : Fields)
    → as_object (member (codes "payment_expectation") doc) ≡ some e
    → as_object (member (codes "chain_observation") doc) ≡ some r
    → as_object (member (codes "comparison") doc) ≡ some recorded
    → as_object (member (codes "rpc_observation") doc) ≡ some rpc
    → member (codes "token_transfer") rpc ≡ some (object t)
    → as_string (member (codes "token_contract") t) ≡ none
    → conclude_document s d commerce evidence state before doc ≡ none
unfolding conclude_document conclude_attributed attributed_checks comparison_checks
conclude_document-throws s d commerce evidence state before doc e r recorded rpc t is_e is_r is_c
      is_p there malformed =
    rw is_e
      (rw is_r (rw is_c (rw is_p (rw (compare_documents-throws e r rpc t there malformed) refl))))
