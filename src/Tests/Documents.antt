-- ===== src/Tests/Documents.antt =====
-- The chain observation document of a settled run and of a refused one.
use x402_base_evidence.Common.{
  ◌≡◌, refl, true, Option, none, some, [], arith, In, Text, codes, eq_text, ◌++◌, is_hex, lower,
  filter_map, is_digit,
}
use x402_base_evidence.Common.Decimal.{to_decimal}
use x402_base_evidence.Common.Hex.{hex_from, hex_value}
use x402_base_evidence.Rpc.{hash32, address20, abi_uint256_data, big_int}
use x402_base_evidence.Digest.{is_sha256_digest, hex64, is_lower_hex}
use x402_base_evidence.Json.{object, string, Fields, field, end, member, as_object, as_string}
use x402_base_evidence.Lifecycle.{
  LifecycleObservation, write_attempted, payment_was_settled, truthy,
}
use x402_base_evidence.SealedObservation.{
  Log, success, found, Receipt, answered, SealedRpcObservation, observe_sealed_transaction, placed,
  recorded_transfer, transfers_on_contract, transfer_of, same_address, transfer_event_topic,
  address_topic, address_of_topic, transfer_matches_expected, without_facts,
}
use x402_base_evidence.SealedObservation.Transfers.{Carries}
use x402_base_evidence.Settlement.Comparison.{Shows, transfer_event-eq-match_iff}
use x402_base_evidence.Settlement.Document.{
  observe_settlement-recomputes, observe_settlement-transaction_iff,
}
use x402_base_evidence.Settlement.Traced.{match-Carries}
use x402_base_evidence.Settlement.{
  NativeSettlementArtifacts, in_process_fixture, BaseChainObservation, PaymentExpectation,
  SettlementReport, observe_settlement, document_of, compare_expectation_to_observation, match,
  succeeded, expected_transfer, authorization_of, authorized_payer, expectation_of, verdict_on,
  transfer_matches, receipt_status_of, carried_rpc,
}
use x402_base_evidence.Tests.Chain.{
  transaction_1, party_a, party_b, token_1, expected_1, receipt_1, source_1, itself,
}

abbrev payer_1 : Text
payer_1 = codes "0x" ++ party_a

abbrev seen_1 : SealedRpcObservation
seen_1 = record {
  reference = codes "https://rpc.example";
  transaction_hash = transaction_1;
  observation_state = found;
  observation_level = none;
  receipt_status = some success;
  transaction_sender = none;
  block_number = none;
  block_hash = none;
  token_transfer = some expected_1;
  unavailable_reason = none;
  observed_at_unix_seconds = 1;
}

abbrev expectation_1 : PaymentExpectation
expectation_1 = record {
  network = codes "eip155:84532";
  asset = token_1;
  amount_base_units = codes "1";
  asset_decimals = 6;
  recipient = codes "0x" ++ party_b;
  payer = some payer_1;
  authorization_digest = none;
}

abbrev report_1 : SettlementReport
report_1 = record {
  source = record { kind = in_process_fixture; reference = codes "fixture" };
  settlement_outcome = succeeded;
  transaction_hash = some transaction_1;
  network_reported = none;
  payer_reported = none;
  observed_at_unix_seconds = 1;
}

shown : Shows expectation_1 (some seen_1)
unfolding expected_transfer
shown = (seen_1, success, expected_1, payer_1, refl, refl, refl, refl, itself)

transfer_event-eq-match_example :
    (compare_expectation_to_observation expectation_1 report_1 (some seen_1)).transfer_event ≡ match
transfer_event-eq-match_example =
    (transfer_event-eq-match_iff expectation_1 report_1 (some seen_1)).1 shown

abbrev lifecycle_1 : LifecycleObservation
lifecycle_1 = record {
  states = [];
  terminal_state = write_attempted;
  cancellation_reason = none;
  failure_reason = none;
  transaction = some transaction_1;
  payer = some payer_1;
  response_status = some 200;
}

-- The account of the transaction that the source gives for the expected transfer.
abbrev account_1 : SealedRpcObservation
account_1 = observe_sealed_transaction source_1 transaction_1 expected_1 1

abbrev artifacts_1 : NativeSettlementArtifacts
artifacts_1 = record {
  requirements = record {
    scheme = codes "exact";
    network = codes "eip155:84532";
    asset = token_1;
    amount = codes "1";
    pay_to = codes "0x" ++ party_b;
  };
  payload = field (codes "authorization") (object (field (codes "from") (string payer_1) end)) end;
  settle_response = some (record { success = true; transaction = transaction_1; network = none });
  settlement_response_digest = none;
  service_result_digest = none;
  lifecycle = lifecycle_1;
  observation_source = record { kind = in_process_fixture; reference = codes "fixture" };
  observed_at_unix_seconds = 1;
  asset_decimals = 6;
  rpc_observation = some account_1;
}

abbrev digest_1 : Text
digest_1 = codes "sha256:0123456789abcdef0123456789abcdef0123456789abcdef0123456789abcdef"

abbrev jcs_digest_1 : Fields → Option Text
jcs_digest_1 fs = some digest_1

abbrev authorization_fields : Fields
authorization_fields = field (codes "from") (string payer_1) end

abbrev document_1 : BaseChainObservation
document_1 = document_of artifacts_1 (some authorization_fields) (some digest_1)

observed : observe_settlement jcs_digest_1 artifacts_1 ≡ some document_1
unfolding observe_settlement authorization_of member eq_text as_object is_sha256_digest hex64
    is_lower_hex
observed = refl

observe_settlement-recomputes_example :
    document_1.comparison
    ≡ compare_expectation_to_observation document_1.payment_expectation document_1.chain_observation
        document_1.rpc_observation
observe_settlement-recomputes_example =
    observe_settlement-recomputes jcs_digest_1 artifacts_1 document_1 observed

observe_settlement-transaction_example :
    document_1.chain_observation.transaction_hash ≡ some transaction_1
observe_settlement-transaction_example =
    (observe_settlement-transaction_iff jcs_digest_1 artifacts_1 document_1 transaction_1
        observed).0.1
      (
        refl,
        (
          record { success = true; transaction = transaction_1; network = none },
          refl,
          refl,
          refl,
          ground arith,
        ),
      )

names_payer : document_1.payment_expectation.payer ≡ some payer_1
unfolding document_of expectation_of authorized_payer member eq_text as_string
names_payer = refl

given_account :
    artifacts_1.rpc_observation
    ≡ some (
        observe_sealed_transaction source_1 transaction_1
          (expected_transfer document_1.payment_expectation payer_1)
          1)
unfolding document_of expectation_of expected_transfer
given_account = refl

document_matches : document_1.comparison.transfer_event ≡ match
unfolding document_of payment_was_settled truthy observe_sealed_transaction hash32 is_hex placed
    eq_text lower recorded_transfer transfers_on_contract address20 filter_map transfer_of
    same_address abi_uint256_data transfer_event_topic address_topic to_decimal hex_from hex_value
    is_digit as_string member big_int address_of_topic transfer_matches_expected without_facts
    authorized_payer expectation_of expected_transfer verdict_on transfer_matches receipt_status_of
    carried_rpc
document_matches = refl

match-Carries_example :
    (r : Receipt) × (l : Log) × (answered (some receipt_1) ≡ answered (some r))
    × In l r.logs
    × Carries (expected_transfer document_1.payment_expectation payer_1) l
match-Carries_example =
    match-Carries jcs_digest_1 artifacts_1 document_1 source_1 transaction_1 payer_1 1 observed
      names_payer given_account document_matches
