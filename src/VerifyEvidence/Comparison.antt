-- ===== src/VerifyEvidence/Comparison.antt =====
-- src/flow/verify-evidence.ts: the recorded comparison, recomputed. `compareExpectationToObservation`
-- of src/flow/observe-settlement.ts runs here on a document whose shape nothing has checked.
use x402_base_evidence.Common.{
  Bool, true, false, ◌&&◌, Option, none, some, List, [], ◌∷◌, Text, codes,
}
use x402_base_evidence.Components.{is_literal}
use x402_base_evidence.Json.{Json, Fields, member}
use x402_base_evidence.Settlement.{
  ComparisonVerdict, match, mismatch, not_evaluated, verdict, AuthorizationVerdict, linked,
  not_linked, ExpectationComparison,
}
use x402_base_evidence.VerifyEvidence.Checks.{
  expectation_comparison, transfer_event_evaluated, VerificationCheck, check,
}
use x402_base_evidence.VerifyEvidence.Dynamic.{
  ◌>>=◌, and_then, get, same_address_of, strict_equal, is_string,
}

unfoldable pub member_of : Text → Option Fields → Option Json
member_of key none = none
member_of key (some fs) = member key fs

-- `sameAddress(transfer[key], value)`
unfoldable pub same_party : Text → Option Json → Option Json → Option Bool
unfolding get same_address_of
same_party key transfer v = get key transfer >>= λ x. same_address_of x v

unfoldable pub same_amount_of : Option Json → Fields → Option Bool
unfolding get strict_equal
same_amount_of transfer e = get (codes "transfer_amount") transfer >>= λ x.
    some (strict_equal x (member (codes "amount_base_units") e))

-- `transferMatchesExpected` with the transfer that the expectation names.
unfoldable pub matches_expected : Option Json → Fields → Option Bool
unfolding and_then same_party same_amount_of
matches_expected transfer e =
    and_then (same_party (codes "token_contract") transfer (member (codes "asset") e)) (
      and_then (same_party (codes "transfer_from") transfer (member (codes "payer") e)) (
        and_then (same_party (codes "transfer_to") transfer (member (codes "recipient") e))
          (same_amount_of transfer e)))

-- `value !== undefined && test`
unfoldable pub if_given : Option Json → Option Bool → Option Bool
if_given none test = some false
if_given (some v) test = test

unfoldable pub transfer_agrees : Option Json → Fields → Option Bool
unfolding matches_expected if_given
transfer_agrees transfer e =
    if_given transfer (if_given (member (codes "payer") e) (matches_expected transfer e))

-- A verdict on the transfer, if there is one.
unfoldable pub verdict_of : Option Json → Option Bool → Option ComparisonVerdict
unfolding verdict
verdict_of none agrees = some not_evaluated
verdict_of (some t) agrees = agrees >>= λ b. some (verdict b)

unfoldable pub linked_by : Option Json → AuthorizationVerdict
linked_by none = not_linked
linked_by (some v) = linked

-- `compareExpectationToObservation`
unfoldable pub compare_documents : Fields → Fields → Option Fields → Option ExpectationComparison
unfolding member_of
compare_documents e report rpc = do
  let transfer = member_of (codes "token_transfer") rpc
  agrees ← transfer_agrees transfer e
  asset ←
      verdict_of transfer (same_party (codes "token_contract") transfer (member (codes "asset") e))
  recipient ←
      verdict_of transfer (same_party (codes "transfer_to") transfer (member (codes "recipient") e))
  amount ← verdict_of transfer (same_amount_of transfer e)
  network ←
      verdict_of (member (codes "network_reported") report) (
        some (strict_equal (member (codes "network_reported") report) (member (codes "network") e)))
  event ← verdict_of (member_of (codes "receipt_status") rpc) (some agrees)
  some (record {
    network = network;
    asset = asset;
    recipient = recipient;
    amount = amount;
    authorization = linked_by (member (codes "authorization_digest") e);
    transfer_event = event;
  })

unfoldable verdict_name : ComparisonVerdict → Text
verdict_name match = codes "match"
verdict_name mismatch = codes "mismatch"
verdict_name not_evaluated = codes "not_evaluated"

unfoldable authorization_name : AuthorizationVerdict → Text
authorization_name linked = codes "linked"
authorization_name not_linked = codes "not_evaluated"

-- `disagreements.length === 0`
unfoldable pub records_comparison : Fields → ExpectationComparison → Bool
unfolding verdict_name authorization_name is_literal
records_comparison recorded c =
    is_literal (verdict_name c.network) (member (codes "network") recorded)
    && is_literal (verdict_name c.asset) (member (codes "asset") recorded)
    && is_literal (verdict_name c.recipient) (member (codes "recipient") recorded)
    && is_literal (verdict_name c.amount) (member (codes "amount") recorded)
    && is_literal (authorization_name c.authorization) (member (codes "authorization") recorded)
    && is_literal (verdict_name c.transfer_event) (member (codes "transfer_event") recorded)

unfoldable is_evaluated : ComparisonVerdict → Bool
is_evaluated not_evaluated = false
is_evaluated _ = true

unfoldable pub event_checks : Option Json → ExpectationComparison → List VerificationCheck
unfolding is_string is_evaluated
event_checks status c = elim (is_string status) [
  | true ↦ check transfer_event_evaluated (is_evaluated c.transfer_event) ∷ []
  | false ↦ []
]

-- The checks on the comparison that the document records.
unfoldable pub comparison_checks :
    Option Fields → Fields → Fields → Option Fields → Option (List VerificationCheck)
unfolding compare_documents records_comparison event_checks
comparison_checks none e report rpc = some (check expectation_comparison false ∷ [])
comparison_checks (some recorded) e report rpc = compare_documents e report rpc >>= λ c. some (
    check expectation_comparison (records_comparison recorded c)
    ∷ event_checks (member_of (codes "receipt_status") rpc) c)
