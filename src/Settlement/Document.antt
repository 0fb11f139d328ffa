-- ===== src/Settlement/Document.antt =====
-- The chain observation document of a run (src/flow/observe-settlement.ts).
use x402_base_evidence.Common.{
  ◌≡◌, ◌≢◌, refl, ◌↔◌, inl, inr, true, false, ◌&&◌, Option, none, some, [], ◌∷◌, arith, Text,
  Option-cases,
}
use x402_base_evidence.Digest.{coerce_digest}
use x402_base_evidence.Json.{Fields}
use x402_base_evidence.Lifecycle.{TerminalState, write_attempted, payment_was_settled, truthy}
use x402_base_evidence.Settlement.{
  NativeSettlementArtifacts, SettleResponse, BaseChainObservation, observe_settlement, document_of,
  report_of, carried_rpc, reported_transaction, is_settled, succeeded_with, outcome_of, when,
  transaction_of, authorization_of, compare_expectation_to_observation, verdict_on,
  token_transfer_of, receipt_status_of, not_evaluated, succeeded,
}

-- What a settlement that is reported as a transaction rests on.
abbrev Settled : TerminalState → Option SettleResponse → Text → Type 0
Settled terminal response x =
    (terminal ≡ write_attempted)
    × ((s : SettleResponse) × (response ≡ some s)
        × (s.success ≡ true)
        × (s.transaction ≡ x)
        × (x ≢ []))

truthy-eq-some_iff : (t x : Text) → (truthy (some t) ≡ some x) ↔ ((t ≡ x) × (x ≢ []))
unfolding truthy
truthy-eq-some_iff [] x = ground arith
truthy-eq-some_iff (c ∷ cs) x = ground arith

reported_iff :
    (terminal : TerminalState) (response : Option SettleResponse) (x : Text)
    → (when (payment_was_settled terminal && succeeded_with response) (transaction_of response)
        ≡ some x)
      ↔ Settled terminal response x
unfolding when payment_was_settled succeeded_with transaction_of
reported_iff terminal none x = ground arith
reported_iff terminal (some s) x = (
  λ e.
      let succeeded : (payment_was_settled terminal && s.success) ≡ true = ground arith in
      let (same, given) = (truthy-eq-some_iff s.transaction x).0 (ground arith) in
      (ground arith, (s, refl, ground arith, same, given)),
  λ (settled, (s', is_s, success, same, given)).
      ground (arith, (truthy-eq-some_iff s.transaction x).1),
)

module _ (jcs_digest : Fields → Option Text) (a : NativeSettlementArtifacts)
    (d : BaseChainObservation) where
  pub is_document :
      observe_settlement jcs_digest a ≡ some d
      → ((authorization : Option Fields) × (digest : Option Text) × (d
            ≡ document_of a authorization digest))
  unfolding observe_settlement
  is_document e = elim (Option-cases (authorization_of a.payload)) [
    | inl nothing ↦ (none, none, ground arith)
    | inr (fs, it_is) ↦ elim (Option-cases (jcs_digest fs)) [
      | inl threw ↦ absurd (ground arith)
      | inr (v, digest) ↦ elim (Option-cases (coerce_digest v)) [
        | inl threw ↦ absurd (ground arith)
        | inr (c, coerced) ↦ (some fs, some c, ground arith)
      ]
    ]
  ]

  -- The comparison of a document is what a reader recomputes from its other members.
  pub observe_settlement-recomputes :
      observe_settlement jcs_digest a ≡ some d
      → d.comparison
        ≡ compare_expectation_to_observation d.payment_expectation d.chain_observation
            d.rpc_observation
  unfolding document_of
  observe_settlement-recomputes e =
      let (authorization, digest, is_d) = is_document e in ground arith

  -- A document reports a transaction exactly if the response was written and the settlement response
  -- says that it succeeded and names that transaction; the outcome is then `succeeded`.
  pub observe_settlement-transaction_iff :
      (x : Text)
      → observe_settlement jcs_digest a ≡ some d
      → ((d.chain_observation.transaction_hash ≡ some x)
          ↔ Settled a.lifecycle.terminal_state a.settle_response x)
        × (d.chain_observation.transaction_hash ≡ some x
            → d.chain_observation.settlement_outcome ≡ succeeded)
  unfolding document_of report_of reported_transaction is_settled outcome_of when
  observe_settlement-transaction_iff x e =
      let (authorization, digest, is_d) = is_document e in
      (rw is_d (reported_iff a.lifecycle.terminal_state a.settle_response x), λ h. ground arith)

  -- A document whose settlement was refused or not reached carries no payment fact: no transaction, no
  -- network and no RPC account, so none of its verdicts but the link to the authorization is evaluated.
  observe_settlement-unsettled :
      observe_settlement jcs_digest a ≡ some d
      → d.chain_observation.settlement_outcome ≢ succeeded
      → ((d.chain_observation.transaction_hash ≡ none)
          × (d.chain_observation.network_reported ≡ none)
          × (d.rpc_observation ≡ none)
          × (d.comparison.network ≡ not_evaluated)
          × (d.comparison.asset ≡ not_evaluated)
          × (d.comparison.recipient ≡ not_evaluated)
          × (d.comparison.amount ≡ not_evaluated)
          × (d.comparison.transfer_event ≡ not_evaluated))
  unfolding document_of report_of reported_transaction carried_rpc outcome_of when
      compare_expectation_to_observation verdict_on token_transfer_of receipt_status_of
  observe_settlement-unsettled e h =
      let (authorization, digest, is_d) = is_document e in
      let unsettled : is_settled a ≡ false = ground arith in ground arith
