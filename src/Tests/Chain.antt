-- ===== src/Tests/Chain.antt =====
-- An observation of one transaction through a source, its receipt, and the live loop.
use x402_base_evidence.Common.{
  ℕ, ◌*◌, ◌≡◌, ◌≤◌, refl, inl, true, none, some, List, [], ◌∷◌, arith, length, all, In, Text, codes,
  eq_text, is_hex, ◌++◌, lower, filter_map, is_digit,
}
use x402_base_evidence.Common.Decimal.{to_decimal, decimal_value}
use x402_base_evidence.Common.Hex.{hex_number, hex_value, hex_from, is_shortest_hex}
use x402_base_evidence.Json.{
  Json, nil, cons, array, object, string, Fields, field, end, member, as_array, as_object,
  as_string, is_nullish,
}
use x402_base_evidence.LiveObservation.Deadline.{IsClock, observe_until_sealed-Ends}
use x402_base_evidence.LiveObservation.Outcome.{matched-IsIncluded}
use x402_base_evidence.LiveObservation.{LiveInput, LiveOutcome, matched, observe_until_sealed}
use x402_base_evidence.Rpc.{
  admit_rpc_quantity, rpc_quantity, abi_uint256_data, big_int, hash32, address20, ok, unreachable,
  rpc_data,
}
use x402_base_evidence.SealedObservation.Admission.{admit_receipt_result, max_receipt_logs}
use x402_base_evidence.SealedObservation.Inclusion.{IsIncluded, observe-inclusion_iff}
use x402_base_evidence.SealedObservation.Receipts.{AreLogsOf, admit_receipt_result-AreLogsOf}
use x402_base_evidence.SealedObservation.Transfers.{
  IsSameTransfer, Carries, emitted, transfer_of-emitted, observe-token_transfer_iff,
}
use x402_base_evidence.SealedObservation.{
  Log, success, Receipt, Transaction, SealedBlock, answered, rpc_failed, Source, Transfer,
  transfer_of, SealedRpcObservation, l2_block_inclusion, observe_sealed_transaction, placed,
  transfers_on_contract, recorded_transfer, transfer_matches_expected, same_address,
  transfer_event_topic, address_topic, address_of_topic, without_facts,
}

-- The transaction, its block's hash, and the expected transfer of 1.
abbrev pub transaction_1 : Text
transaction_1 = codes "0x1111111111111111111111111111111111111111111111111111111111111111"

abbrev block_hash_1 : Text
block_hash_1 = codes "0x2222222222222222222222222222222222222222222222222222222222222222"

abbrev pub party_a : Text
party_a = codes "aaaaaaaaaaaaaaaaaaaaaaaaaaaaaaaaaaaaaaaa"

abbrev pub party_b : Text
party_b = codes "bbbbbbbbbbbbbbbbbbbbbbbbbbbbbbbbbbbbbbbb"

abbrev pub token_1 : Text
token_1 = codes "0xcccccccccccccccccccccccccccccccccccccccc"

abbrev word_1 : Text
word_1 = codes "0000000000000000000000000000000000000000000000000000000000000001"

abbrev pub expected_1 : Transfer
expected_1 = record {
  token_contract = token_1;
  transfer_from = codes "0x" ++ party_a;
  transfer_to = codes "0x" ++ party_b;
  transfer_amount = codes "1";
}

abbrev pub receipt_1 : Receipt
receipt_1 = record {
  status = success;
  block_number = some 7;
  block_hash = some block_hash_1;
  logs = emitted token_1 party_a party_b word_1 ∷ [];
}

abbrev observed_transaction_1 : Transaction
observed_transaction_1 = record {
  from' = token_1;
  block_number = some 7;
  block_hash = some block_hash_1;
}

abbrev block_1 : SealedBlock
block_1 = record { number = 7; hash = block_hash_1; transaction_hashes = transaction_1 ∷ [] }

abbrev pub source_1 : Source
source_1 = record {
  reference = codes "https://rpc.example";
  sealed_head_block_number = answered 9;
  transaction_receipt = λ w. answered (some receipt_1);
  transaction_by_hash = λ w. answered (some observed_transaction_1);
  sealed_block_by_number = λ n. answered (some block_1);
}

is_hash : hash32 transaction_1 ≡ true
unfolding hash32 is_hex
is_hash = refl

agreement : IsIncluded source_1 transaction_1 7 block_hash_1
agreement = (
  is_hash,
  (
    receipt_1,
    observed_transaction_1,
    refl,
    refl,
    (
      block_hash_1,
      refl,
      refl,
      refl,
      refl,
      refl,
      (block_1, 9, transaction_1, refl, refl, refl, inl refl, refl, refl, omega arith),
    ),
  ),
)

observe-inclusion_example :
    ((observe_sealed_transaction source_1 transaction_1 expected_1 0).observation_level
      ≡ some l2_block_inclusion)
    × ((observe_sealed_transaction source_1 transaction_1 expected_1 0).block_number
        ≡ some (to_decimal 7))
    × ((observe_sealed_transaction source_1 transaction_1 expected_1 0).block_hash
        ≡ some block_hash_1)
observe-inclusion_example =
    (observe-inclusion_iff source_1 transaction_1 expected_1 0 (to_decimal 7) block_hash_1).1
      (7, refl, agreement)

is_address : address20 token_1 ≡ true
unfolding address20 is_hex
is_address = refl

digits_a : all is_hex party_a ≡ true
unfolding is_hex
digits_a = refl

digits_b : all is_hex party_b ≡ true
unfolding is_hex
digits_b = refl

digits_word : all is_hex word_1 ≡ true
unfolding is_hex
digits_word = refl

transfer_of-emitted_example :
    (amount : Text) × (transfer_of token_1 (emitted token_1 party_a party_b word_1)
      ≡ some (record {
        token_contract = token_1;
        transfer_from = codes "0x" ++ party_a;
        transfer_to = codes "0x" ++ party_b;
        transfer_amount = amount;
      }))
    × (decimal_value amount ≡ hex_number word_1)
transfer_of-emitted_example =
    transfer_of-emitted token_1 token_1 party_a party_b word_1 is_address refl (refl, digits_a)
      (refl, digits_b) (refl, digits_word)

pub reads : transfer_of token_1 (emitted token_1 party_a party_b word_1) ≡ some expected_1
unfolding transfer_of address20 address_topic abi_uint256_data is_hex address_of_topic big_int
    to_decimal hex_from hex_value same_address transfer_event_topic lower eq_text
reads = refl

pub itself : IsSameTransfer expected_1 expected_1
itself = record { token = refl; from' = refl; to = refl; amount = refl }

observe-token_transfer_example :
    (u : Transfer) × ((observe_sealed_transaction source_1 transaction_1 expected_1
        0).token_transfer
      ≡ some u)
    × IsSameTransfer u expected_1
observe-token_transfer_example =
    (observe-token_transfer_iff source_1 transaction_1 expected_1 0 receipt_1
        (some observed_transaction_1) is_hash refl refl).1
      (is_address, (emitted token_1 party_a party_b word_1, inl refl, (expected_1, reads, itself)))

abbrev dropped : Source
dropped = record source_1 { transaction_by_hash = λ w. rpc_failed unreachable }

-- Attempts a second apart, each through the source above.
abbrev live_1 : LiveInput
live_1 = record {
  observe = λ i at. observe_sealed_transaction source_1 transaction_1 expected_1 at;
  now_ms = λ n. 1000 * n;
  expected_transfer = expected_1;
  poll_ms = 2000;
  deadline_ms = 9000;
}

ticking : IsClock live_1
ticking = record { polls = omega arith; first = omega arith; slept = λ i. omega arith }

observe_until_sealed-Ends_example :
    (result : LiveOutcome × SealedRpcObservation) × (observe_until_sealed live_1 ≡ some result)
observe_until_sealed-Ends_example = observe_until_sealed-Ends live_1 ticking

abbrev log_fields : Fields
log_fields = field (codes "address") (string token_1) (
    field (codes "topics") (array (cons (string transaction_1) nil))
      (field (codes "data") (string (codes "0x")) end))

abbrev receipt_fields : Fields
receipt_fields = field (codes "status") (string (codes "0x1")) (
    field (codes "blockNumber") (string (codes "0x7"))
      (field (codes "logs") (array (cons (object log_fields) nil)) end))

abbrev admitted_1 : Receipt
admitted_1 = record {
  status = success;
  block_number = some 7;
  block_hash = none;
  logs = record { address = token_1; topics = transaction_1 ∷ []; data' = codes "0x" } ∷ [];
}

admits : admit_receipt_result (object receipt_fields) (some transaction_1) ≡ ok admitted_1
unfolding admit_receipt_result member eq_text as_object is_nullish admit_rpc_quantity rpc_quantity
    is_shortest_hex is_hex as_array as_string address20 hash32 rpc_data big_int hex_from hex_value
admits = refl

admit_receipt_result-AreLogsOf_example :
    (fields : Fields) × (raws : List Json) × (object receipt_fields ≡ object fields)
    × (as_array (member (codes "logs") fields) ≡ some raws)
    × (length raws ≤ max_receipt_logs)
    × AreLogsOf (some transaction_1) (some 7) none raws admitted_1.logs
admit_receipt_result-AreLogsOf_example =
    admit_receipt_result-AreLogsOf (object receipt_fields) (some transaction_1) admitted_1 admits

matched_run :
    observe_until_sealed live_1
    ≡ some (matched, observe_sealed_transaction source_1 transaction_1 expected_1 1)
unfolding observe_until_sealed observe_sealed_transaction hash32 is_hex placed eq_text lower
    without_facts recorded_transfer transfers_on_contract address20 filter_map transfer_of
    same_address abi_uint256_data transfer_event_topic address_topic transfer_matches_expected
    to_decimal hex_from hex_value is_digit big_int address_of_topic
matched_run = refl

matched-IsIncluded_example :
    (i : ℕ) × (number : ℕ) × (hash : Text) × (r : Receipt) × (l : Log) × IsIncluded source_1
      transaction_1 number hash
    × (answered (some receipt_1) ≡ answered (some r))
    × In l r.logs
    × Carries expected_1 l
matched-IsIncluded_example =
    matched-IsIncluded live_1 (λ i. source_1) transaction_1
      (observe_sealed_transaction source_1 transaction_1 expected_1 1) (λ i at. refl) matched_run
