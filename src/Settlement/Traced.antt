-- ===== src/Settlement/Traced.antt =====
-- From the verdict of a document back to a log of the receipt (src/flow/observe-settlement.ts over
-- src/flow/observe-transaction.ts).
use x402_base_evidence.Common.{
  ℕ, ◌≡◌, refl, ap, ◌∙◌, sym, true, Option, none, some, inl, inr, arith, Text, In, Bool-cases,
  subst,
}
use x402_base_evidence.Json.{Fields}
use x402_base_evidence.Rpc.{hash32}
use x402_base_evidence.SealedObservation.{
  SealedRpcObservation, Log, Receipt, Transaction, Answer, answered, rpc_failed, failed_locally,
  Source, Transfer, ExecutionStatus, conclude, on_answers, observe_sealed_transaction,
  without_facts,
}
use x402_base_evidence.SealedObservation.Transfers.{
  Carries, IsSameTransfer, observe-token_transfer_iff,
}
use x402_base_evidence.Settlement.{
  NativeSettlementArtifacts, BaseChainObservation, observe_settlement, expected_transfer, match,
  carried_rpc, document_of, ExpectationComparison,
}
use x402_base_evidence.Settlement.Comparison.{transfer_event-eq-match_iff}
use x402_base_evidence.Settlement.Document.{observe_settlement-recomputes, is_document}

on_answers-receipt :
    (src : Source) (w : Text) (expected : Transfer) (at : ℕ) (r : Answer (Option Receipt))
    (t : Answer (Option Transaction)) (status : ExecutionStatus)
    → (on_answers src w expected at r t).receipt_status ≡ some status
    → ((r' : Receipt) × (t' : Option Transaction) × (r ≡ answered (some r')) × (t ≡ answered t'))
unfolding on_answers without_facts conclude
on_answers-receipt src w expected at (answered (some r)) (answered t) status e = (r, t, refl, refl)
on_answers-receipt src w expected at (answered none) (answered none) status e =
    absurd (ground arith)
on_answers-receipt src w expected at (answered none) (answered (some t)) status e =
    absurd (ground arith)
on_answers-receipt src w expected at (answered r) (rpc_failed f) status e = absurd (ground arith)
on_answers-receipt src w expected at (answered r) failed_locally status e = absurd (ground arith)
on_answers-receipt src w expected at (rpc_failed f) t status e = absurd (ground arith)
on_answers-receipt src w expected at failed_locally t status e = absurd (ground arith)

-- An observation that reports an execution status was given a receipt.
observe-receipt :
    (src : Source) (w : Text) (expected : Transfer) (at : ℕ) (status : ExecutionStatus)
    → (observe_sealed_transaction src w expected at).receipt_status ≡ some status
    → ((r : Receipt) × (t : Option Transaction) × (hash32 w ≡ true)
        × (src.transaction_receipt w ≡ answered (some r))
        × (src.transaction_by_hash w ≡ answered t))
unfolding observe_sealed_transaction without_facts
observe-receipt src w expected at status e = elim (Bool-cases (hash32 w)) [
  | inl hashed ↦
      let (r, t, qr, qt) =
        on_answers-receipt src w expected at (src.transaction_receipt w) (src.transaction_by_hash w)
          status (ground arith) in
      (r, t, hashed, qr, qt)
  | inr other ↦ absurd (ground arith)
]

carried_rpc-Given :
    (a : NativeSettlementArtifacts) (o : SealedRpcObservation)
    → carried_rpc a ≡ some o
    → a.rpc_observation ≡ some o
unfolding carried_rpc
carried_rpc-Given a o e = ground arith

-- The trace: if the RPC account of the artifacts is what observing a transaction through a source gives,
-- for the transfer that the document expects, then a `match` of the document's transfer event says
-- that the source gave a receipt with a log that is that transfer.
pub match-Carries :
    (jcs_digest : Fields → Option Text) (a : NativeSettlementArtifacts) (d : BaseChainObservation)
    (src : Source) (w payer : Text) (at : ℕ)
    → observe_settlement jcs_digest a ≡ some d
    → d.payment_expectation.payer ≡ some payer
    → a.rpc_observation
      ≡ some (observe_sealed_transaction src w (expected_transfer d.payment_expectation payer) at)
    → d.comparison.transfer_event ≡ match
    → ((r : Receipt) × (l : Log) × (src.transaction_receipt w ≡ answered (some r))
        × In l r.logs
        × Carries (expected_transfer d.payment_expectation payer) l)
unfolding document_of
match-Carries jcs_digest a d src w payer at e named observed h =
    let expected = expected_transfer d.payment_expectation payer in
    let seen_by = observe_sealed_transaction src w expected at in
    let compared = observe_settlement-recomputes jcs_digest a d e in
    let (o, status, t, payer', is_o, reported, seen, named', same) =
      (transfer_event-eq-match_iff d.payment_expectation d.chain_observation d.rpc_observation).0
        (ap (λ (c : ExpectationComparison). c.transfer_event) (sym compared) ∙ h) in
    let (authorization, digest, is_d) = is_document jcs_digest a d e in
    let carried : carried_rpc a ≡ some o =
      sym (ap (λ (x : BaseChainObservation). x.rpc_observation) is_d) ∙ is_o in
    let is_seen : o ≡ seen_by = ground (arith, carried_rpc-Given a o carried) in
    let (r, tx, hashed, qr, qt) =
      observe-receipt src w expected at status
        (ap (λ (x : SealedRpcObservation). x.receipt_status) (sym is_seen) ∙ reported) in
    let same_payer : payer' ≡ payer = ground arith in
    let same' : IsSameTransfer t expected =
      subst (λ p. IsSameTransfer t (expected_transfer d.payment_expectation p)) same_payer same in
    let (well_formed, (l, m, carries)) =
      (observe-token_transfer_iff src w expected at r tx hashed qr qt).0
        (t, ap (λ (x : SealedRpcObservation). x.token_transfer) (sym is_seen) ∙ seen, same') in
    (r, l, qr, m, carries)
