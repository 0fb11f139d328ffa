-- ===== src/Settlement.antt =====
-- src/flow/observe-settlement.ts: the chain observation document and its comparison.
pub mod Comparison
pub mod Document
pub mod Traced
use x402_base_evidence.Common.{
  ℕ, Bool, true, false, not, ◌&&◌, ◌||◌, Option, none, some, List, [], ◌∷◌, if◌then◌else◌, Text,
  codes, eq_text,
}
use x402_base_evidence.Digest.{coerce_digest}
use x402_base_evidence.FailureVocabulary.{FailureReason}
use x402_base_evidence.Json.{Json, object, Fields, member, as_object, as_string}
use x402_base_evidence.Lifecycle.{
  LifecycleObservation, TerminalState, settlement_failed, payment_was_settled, truthy,
}
use x402_base_evidence.SealedObservation.{
  Transfer, SealedRpcObservation, ExecutionStatus, same_address, transfer_matches_expected,
}

pub data SourceKind : Type 0 where
  facilitator : SourceKind
  in_process_fixture : SourceKind

pub record ObservationSource : Type 0 where
  pub kind : SourceKind
  pub reference : Text

pub data SettlementOutcome : Type 0 where
  succeeded : SettlementOutcome
  refused : SettlementOutcome
  not_reached : SettlementOutcome

pub record PaymentExpectation : Type 0 where
  pub network : Text
  pub asset : Text
  pub amount_base_units : Text
  pub asset_decimals : ℕ
  pub recipient : Text
  pub payer : Option Text
  pub authorization_digest : Option Text

pub record SettlementReport : Type 0 where
  pub source : ObservationSource
  pub settlement_outcome : SettlementOutcome
  pub transaction_hash : Option Text
  pub network_reported : Option Text
  pub payer_reported : Option Text
  pub observed_at_unix_seconds : ℕ

pub data ComparisonVerdict : Type 0 where
  match : ComparisonVerdict
  mismatch : ComparisonVerdict
  not_evaluated : ComparisonVerdict

pub data AuthorizationVerdict : Type 0 where
  linked : AuthorizationVerdict
  not_linked : AuthorizationVerdict

pub record ExpectationComparison : Type 0 where
  pub network : ComparisonVerdict
  pub asset : ComparisonVerdict
  pub recipient : ComparisonVerdict
  pub amount : ComparisonVerdict
  pub authorization : AuthorizationVerdict
  pub transfer_event : ComparisonVerdict

unfoldable pub verdict : Bool → ComparisonVerdict
verdict true = match
verdict false = mismatch

-- A verdict on a value that may be missing.
unfoldable pub verdict_on {ℓ} : {A : Type ℓ} → (A → Bool) → Option A → ComparisonVerdict
unfolding verdict
verdict_on agrees none = not_evaluated
verdict_on agrees (some a) = verdict (agrees a)

unfoldable pub token_transfer_of : Option SealedRpcObservation → Option Transfer
token_transfer_of none = none
token_transfer_of (some o) = o.token_transfer

unfoldable pub receipt_status_of : Option SealedRpcObservation → Option ExecutionStatus
receipt_status_of none = none
receipt_status_of (some o) = o.receipt_status

-- The transfer that the expectation names with this payer.
unfoldable pub expected_transfer : PaymentExpectation → Text → Transfer
expected_transfer e payer = record {
  token_contract = e.asset;
  transfer_from = payer;
  transfer_to = e.recipient;
  transfer_amount = e.amount_base_units;
}

unfoldable pub transfer_matches : PaymentExpectation → Option Transfer → Option Text → Bool
transfer_matches e (some t) (some payer) = transfer_matches_expected t (expected_transfer e payer)
transfer_matches e _ _ = false

-- `compareExpectationToObservation`
unfoldable pub compare_expectation_to_observation :
    PaymentExpectation → SettlementReport → Option SealedRpcObservation → ExpectationComparison
unfolding verdict_on token_transfer_of receipt_status_of transfer_matches
compare_expectation_to_observation e report rpc =
    let transfer = token_transfer_of rpc in
    record {
      network = verdict_on (λ n. eq_text n e.network) report.network_reported;
      asset = verdict_on (λ (t : Transfer). same_address t.token_contract e.asset) transfer;
      recipient = verdict_on (λ (t : Transfer). same_address t.transfer_to e.recipient) transfer;
      amount =
          verdict_on (λ (t : Transfer). eq_text t.transfer_amount e.amount_base_units) transfer;
      authorization = elim e.authorization_digest [ none ↦ not_linked | some d ↦ linked ];
      transfer_event =
          verdict_on (λ (s : ExecutionStatus). transfer_matches e transfer e.payer)
            (receipt_status_of rpc);
    }

-- `PaymentRequirements`, the members that are read.
pub record PaymentRequirements : Type 0 where
  pub scheme : Text
  pub network : Text
  pub asset : Text
  pub amount : Text
  pub pay_to : Text

-- `SettleResponse`, the members that are read.
pub record SettleResponse : Type 0 where
  pub success : Bool
  pub transaction : Text
  pub network : Option Text

-- `payload` is the `payload` member of the payment payload.
pub record NativeSettlementArtifacts : Type 0 where
  pub requirements : PaymentRequirements
  pub payload : Fields
  pub settle_response : Option SettleResponse
  pub settlement_response_digest : Option Text
  pub service_result_digest : Option Text
  pub lifecycle : LifecycleObservation
  pub observation_source : ObservationSource
  pub observed_at_unix_seconds : ℕ
  pub asset_decimals : ℕ
  pub rpc_observation : Option SealedRpcObservation

pub record BaseChainObservation : Type 0 where
  pub scheme : Text
  pub payment_expectation : PaymentExpectation
  pub chain_observation : SettlementReport
  pub rpc_observation : Option SealedRpcObservation
  pub comparison : ExpectationComparison
  pub terminal_state : TerminalState
  pub settlement_failure_reason : Option FailureReason
  pub settlement_response_digest : Option Text
  pub service_result_digest : Option Text
  pub observed_at_unix_seconds : ℕ

-- `authorizationOf`
unfoldable pub authorization_of : Fields → Option Fields
authorization_of payload = as_object (member (codes "authorization") payload)

unfoldable pub authorized_payer : Option Fields → Option Text
authorized_payer none = none
authorized_payer (some authorization) = as_string (member (codes "from") authorization)

unfoldable pub succeeded_with : Option SettleResponse → Bool
succeeded_with none = false
succeeded_with (some s) = s.success

-- `paymentWasSettled(lifecycle.terminalState) && settleResponse?.success === true`
unfoldable pub is_settled : NativeSettlementArtifacts → Bool
unfolding succeeded_with
is_settled a = payment_was_settled a.lifecycle.terminal_state && succeeded_with a.settle_response

unfoldable is_refusal : TerminalState → Option SettleResponse → Bool
is_refusal settlement_failed none = true
is_refusal _ none = false
is_refusal _ (some s) = true

unfoldable pub outcome_of : NativeSettlementArtifacts → SettlementOutcome
unfolding is_settled is_refusal
outcome_of a =
    if is_settled a
    then succeeded
    else (if is_refusal a.lifecycle.terminal_state a.settle_response then refused else not_reached)

unfoldable pub when {ℓ} : {A : Type ℓ} → Bool → Option A → Option A
when true o = o
when false o = none

unfoldable pub transaction_of : Option SettleResponse → Option Text
transaction_of none = none
transaction_of (some s) = truthy (some s.transaction)

unfoldable network_of : Option SettleResponse → Option Text
network_of none = none
network_of (some s) = s.network

unfoldable is_refused : SettlementOutcome → Bool
is_refused refused = true
is_refused _ = false

-- The transaction hash that the report carries.
unfoldable pub reported_transaction : NativeSettlementArtifacts → Option Text
unfolding is_settled when transaction_of
reported_transaction a = when (is_settled a) (transaction_of a.settle_response)

-- The RPC account that the document carries.
unfoldable pub carried_rpc : NativeSettlementArtifacts → Option SealedRpcObservation
unfolding reported_transaction
carried_rpc a = elim (reported_transaction a) [ none ↦ none | some t ↦ a.rpc_observation ]

unfoldable pub expectation_of :
    NativeSettlementArtifacts → Option Fields → Option Text → PaymentExpectation
expectation_of a authorization digest = record {
  network = a.requirements.network;
  asset = a.requirements.asset;
  amount_base_units = a.requirements.amount;
  asset_decimals = a.asset_decimals;
  recipient = a.requirements.pay_to;
  payer = authorized_payer authorization;
  authorization_digest = digest;
}

unfoldable pub report_of : NativeSettlementArtifacts → SettlementReport
unfolding outcome_of reported_transaction when network_of
report_of a = record {
  source = a.observation_source;
  settlement_outcome = outcome_of a;
  transaction_hash = reported_transaction a;
  network_reported = when (is_settled a) (network_of a.settle_response);
  payer_reported = a.lifecycle.payer;
  observed_at_unix_seconds = a.observed_at_unix_seconds;
}

unfoldable pub document_of :
    NativeSettlementArtifacts → Option Fields → Option Text → BaseChainObservation
unfolding expectation_of report_of carried_rpc compare_expectation_to_observation when is_refused
    outcome_of
document_of a authorization digest =
    let expectation = expectation_of a authorization digest in
    record {
      scheme = a.requirements.scheme;
      payment_expectation = expectation;
      chain_observation = report_of a;
      rpc_observation = carried_rpc a;
      comparison = compare_expectation_to_observation expectation (report_of a) (carried_rpc a);
      terminal_state = a.lifecycle.terminal_state;
      settlement_failure_reason = when (is_refused (outcome_of a)) a.lifecycle.failure_reason;
      settlement_response_digest = a.settlement_response_digest;
      service_result_digest = a.service_result_digest;
      observed_at_unix_seconds = a.observed_at_unix_seconds;
    }

-- `observeSettlement`. `jcs_digest` is the digest of the canonical JSON of an object, whose result is
-- coerced; `none` is a throw of it or of the coercion.
module _ (jcs_digest : Fields → Option Text) where
  unfoldable pub observe_settlement : NativeSettlementArtifacts → Option BaseChainObservation
  unfolding authorization_of coerce_digest document_of
  observe_settlement a = elim (authorization_of a.payload) [
    | none ↦ some (document_of a none none)
    | some fs ↦ elim (jcs_digest fs) [
      | none ↦ none
      | some v ↦ elim (coerce_digest v) [
        | none ↦ none
        | some d ↦ some (document_of a (some fs) (some d))
      ]
    ]
  ]
