-- ===== src/Settlement/Comparison.antt =====
-- What the verdicts of a comparison say (src/flow/observe-settlement.ts).
use x402_base_evidence.Common.{
  ◌≡◌, refl, ◌↔◌, Bool, true, false, Option, none, some, arith, Text, eq_text_iff,
}
use x402_base_evidence.SealedObservation.{
  Transfer, SealedRpcObservation, ExecutionStatus, transfer_matches_expected,
}
use x402_base_evidence.SealedObservation.Transfers.{
  IsSameTransfer, transfer_matches_expected_iff, same_address_iff,
}
use x402_base_evidence.Settlement.{
  PaymentExpectation, SettlementReport, match, compare_expectation_to_observation,
  expected_transfer, verdict, verdict_on, token_transfer_of, receipt_status_of, transfer_matches,
}

-- The RPC account reports an execution status and a transfer, and that is the whole transfer that the
-- expectation names, its payer included.
abbrev pub Shows : PaymentExpectation → Option SealedRpcObservation → Type 0
Shows e rpc =
    (o : SealedRpcObservation) × (status : ExecutionStatus) × (t : Transfer) × (payer : Text) × (rpc
      ≡ some o)
    × (o.receipt_status ≡ some status)
    × (o.token_transfer ≡ some t)
    × (e.payer ≡ some payer)
    × IsSameTransfer t (expected_transfer e payer)

transfer_matches-eq-true :
    (e : PaymentExpectation) (t : Option Transfer) (p : Option Text)
    → transfer_matches e t p ≡ true
    → ((u : Transfer) × (payer : Text) × (t ≡ some u)
        × (p ≡ some payer)
        × (transfer_matches_expected u (expected_transfer e payer) ≡ true))
unfolding transfer_matches
transfer_matches-eq-true e (some t) (some p) h = (t, p, refl, refl, h)
transfer_matches-eq-true e none p h = absurd (ground arith)
transfer_matches-eq-true e (some t) none h = absurd (ground arith)

status-of-match :
    (m : Bool) (s : Option ExecutionStatus)
    → verdict_on (λ (x : ExecutionStatus). m) s ≡ match
    → ((status : ExecutionStatus) × (s ≡ some status) × (m ≡ true))
unfolding verdict_on verdict
status-of-match true (some s) h = (s, refl, refl)
status-of-match false (some s) h = absurd (ground arith)
status-of-match m none h = absurd (ground arith)

-- The transfer-event verdict is `match` exactly if the RPC account reports an execution status and a
-- transfer that is the expected one in every respect: a successful status alone is never a match.
pub transfer_event-eq-match_iff :
    (e : PaymentExpectation) (report : SettlementReport) (rpc : Option SealedRpcObservation)
    → ((compare_expectation_to_observation e report rpc).transfer_event ≡ match) ↔ Shows e rpc
unfolding compare_expectation_to_observation token_transfer_of receipt_status_of
transfer_event-eq-match_iff e report none = ground arith
transfer_event-eq-match_iff e report (some o) = (
  λ h.
      let (status, reported, matches) =
        status-of-match (transfer_matches e o.token_transfer e.payer) o.receipt_status h in
      let (t, payer, seen, named, same) =
        transfer_matches-eq-true e o.token_transfer e.payer matches in
      (
        o,
        status,
        t,
        payer,
        refl,
        reported,
        seen,
        named,
        (transfer_matches_expected_iff t (expected_transfer e payer)).0 same,
      ),
  λ (o', status, t, payer, same, reported, seen, named, whole).
      let equal = (transfer_matches_expected_iff t (expected_transfer e payer)).1 whole in
      ground arith,
)

-- A transfer-event match carries the asset, recipient and amount verdicts with it: they are all
-- `match`, and none of them is left unevaluated.
transfer_event-carries :
    (e : PaymentExpectation) (report : SettlementReport) (rpc : Option SealedRpcObservation)
    → (compare_expectation_to_observation e report rpc).transfer_event ≡ match
    → (((compare_expectation_to_observation e report rpc).asset ≡ match)
        × ((compare_expectation_to_observation e report rpc).recipient ≡ match)
        × ((compare_expectation_to_observation e report rpc).amount ≡ match))
unfolding compare_expectation_to_observation token_transfer_of verdict_on verdict expected_transfer
transfer_event-carries e report rpc h =
    let (o, status, t, payer, is_o, reported, seen, named, same) =
      (transfer_event-eq-match_iff e report rpc).0 h in
    let token = (same_address_iff t.token_contract e.asset).1 same.token in
    let to = (same_address_iff t.transfer_to e.recipient).1 same.to in
    let amount = (eq_text_iff t.transfer_amount e.amount_base_units).1 same.amount in
    rw is_o (rw seen (rw token (rw to (rw amount (refl, refl, refl)))))
