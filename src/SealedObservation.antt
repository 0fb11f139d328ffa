-- ===== src/SealedObservation.antt =====
-- src/flow/observe-transaction.ts: the observation of one transaction through a sealed source. The
-- `statement`, a sentence made of the other members, is left out.
pub mod Admission
pub mod Receipts
pub mod Inclusion
pub mod Transfers
pub mod Reasons
use x402_base_evidence.Common.{
  ℕ, ◌-◌, Bool, true, false, ◌&&◌, Option, none, some, List, [], ◌∷◌, ◌++◌, ◌==◌, leb,
  if◌then◌else◌, length, all, any, filter_map, take, drop, Text, codes, eq_text, is_hex, to_lower,
}
use x402_base_evidence.Common.Decimal.{to_decimal}
use x402_base_evidence.Rpc.{
  Failure, unreachable, temporarily_unavailable, rpc_error, unusable, behind_0x, hash32, address20,
  abi_uint256_data, big_int,
}

pub record Log : Type 0 where
  pub address : Text
  pub topics : List Text
  pub data' : Text

pub data ExecutionStatus : Type 0 where
  success : ExecutionStatus
  reverted : ExecutionStatus

pub record Receipt : Type 0 where
  pub status : ExecutionStatus
  pub block_number : Option ℕ
  pub block_hash : Option Text
  pub logs : List Log

pub record Transaction : Type 0 where
  pub from' : Text
  pub block_number : Option ℕ
  pub block_hash : Option Text

pub record SealedBlock : Type 0 where
  pub number : ℕ
  pub hash : Text
  pub transaction_hashes : List Text

-- What a query gives: a value, a `JsonRpcFailure`, or another error that this code raised.
pub data Answer {ℓ} (A : Type ℓ) : Type ℓ where
  answered : A → Answer A
  rpc_failed : Failure → Answer A
  failed_locally : Answer A

-- `SealedTransactionSource`. An observation makes each query at most once.
pub record Source : Type 0 where
  pub reference : Text
  pub sealed_head_block_number : Answer ℕ
  pub transaction_receipt : Text → Answer (Option Receipt)
  pub transaction_by_hash : Text → Answer (Option Transaction)
  pub sealed_block_by_number : ℕ → Answer (Option SealedBlock)

pub record Transfer : Type 0 where
  pub token_contract : Text
  pub transfer_from : Text
  pub transfer_to : Text
  pub transfer_amount : Text

-- `TRANSFER_EVENT_TOPIC`
unfoldable pub transfer_event_topic : Text
transfer_event_topic = codes "0xddf252ad1be2c89b69c2b068fc378daa952ba7f163c4a11628f55a4df523b3ef"

-- The digits of an `ADDRESS_TOPIC`.
unfoldable pub is_padded_address : Text → Bool
is_padded_address cs =
    length cs == 64 && all (λ c. c == b'0') (take 24 cs) && all is_hex (drop 24 cs)

unfoldable pub address_topic : Text → Bool
unfolding behind_0x is_padded_address
address_topic = behind_0x is_padded_address

-- `text.slice(-40)`
unfoldable pub last_40 : Text → Text
last_40 t = drop (length t - 40) t

unfoldable pub address_of_topic : Text → Text
unfolding last_40
address_of_topic topic = codes "0x" ++ last_40 topic

-- `sameAddress`
unfoldable pub same_address : Text → Text → Bool
same_address a b = eq_text (to_lower a) (to_lower b)

-- One turn of the loop of `transfersOnContract`: `none` is `continue`. `ABI_WORD` is the shape of
-- `ABI_UINT256_DATA`.
unfoldable pub transfer_of : Text → Log → Option Transfer
transfer_of token_contract l = elim l.topics [
  | [] ↦ none
  | signature ∷ [] ↦ none
  | signature ∷ from ∷ [] ↦ none
  | signature ∷ from ∷ to ∷ [] ↦
      if address20 l.address
        && same_address l.address token_contract
        && abi_uint256_data signature
        && eq_text (to_lower signature) transfer_event_topic
        && address_topic from
        && address_topic to
        && abi_uint256_data l.data'
      then some (record {
        token_contract = l.address;
        transfer_from = address_of_topic from;
        transfer_to = address_of_topic to;
        transfer_amount = to_decimal (big_int l.data');
      })
      else none
  | signature ∷ from ∷ to ∷ more ∷ rest ↦ none
]

unfoldable pub transfers_on_contract : List Log → Text → List Transfer
transfers_on_contract logs token_contract =
    if address20 token_contract then filter_map (transfer_of token_contract) logs else []

unfoldable pub transfer_matches_expected : Transfer → Transfer → Bool
transfer_matches_expected observed expected =
    same_address observed.token_contract expected.token_contract
    && same_address observed.transfer_from expected.transfer_from
    && same_address observed.transfer_to expected.transfer_to
    && eq_text observed.transfer_amount expected.transfer_amount

-- `transfers.find((t) => transferMatchesExpected(t, expectedTransfer))`
find_matching : Transfer → List Transfer → Option Transfer
find_matching expected [] = none
find_matching expected (t ∷ ts) =
    if transfer_matches_expected t expected then some t else find_matching expected ts

first : List Transfer → Option Transfer
first [] = none
first (t ∷ ts) = some t

-- `matching ?? transfers[0]`
unfoldable pub recorded_transfer : Transfer → List Transfer → Option Transfer
unfolding find_matching first
recorded_transfer expected ts = elim (find_matching expected ts) [
  | some t ↦ some t
  | none ↦ first ts
]

-- The fixed reasons.
pub data Reason : Type 0 where
  endpoint_unreachable : Reason
  endpoint_temporarily_unavailable : Reason
  endpoint_rpc_error : Reason
  endpoint_response_unusable : Reason
  unknown_transaction : Reason
  malformed_transaction_reference : Reason
  observation_local_failure : Reason

-- `JSON_RPC_FAILURE_TEXT[e.kind]`
unfoldable pub failure_text : Failure → Reason
failure_text unreachable = endpoint_unreachable
failure_text (temporarily_unavailable status) = endpoint_temporarily_unavailable
failure_text (rpc_error code) = endpoint_rpc_error
failure_text unusable = endpoint_response_unusable

-- `RETRYABLE_UNAVAILABLE_REASONS.has(reason)`
unfoldable pub is_retryable : Reason → Bool
is_retryable endpoint_unreachable = true
is_retryable endpoint_temporarily_unavailable = true
is_retryable _ = false

pub data ObservationState : Type 0 where
  found : ObservationState
  not_found : ObservationState
  unavailable : ObservationState

pub data ObservationLevel : Type 0 where
  l2_block_inclusion : ObservationLevel

pub record SealedRpcObservation : Type 0 where
  pub reference : Text
  pub transaction_hash : Text
  pub observation_state : ObservationState
  pub observation_level : Option ObservationLevel
  pub receipt_status : Option ExecutionStatus
  pub transaction_sender : Option Text
  pub block_number : Option Text
  pub block_hash : Option Text
  pub token_transfer : Option Transfer
  pub unavailable_reason : Option Reason
  pub observed_at_unix_seconds : ℕ

-- The placement that is recorded, `inclusion`, of the answers about the block and the head.
unfoldable pub agreed :
    Text → ℕ → Text → Answer (Option SealedBlock) → Answer ℕ → Option (Text × Text)
agreed transaction_hash number hash (answered (some block)) (answered head) =
    if block.number == number
      && eq_text (to_lower block.hash) (to_lower hash)
      && any (λ h. eq_text (to_lower h) (to_lower transaction_hash)) block.transaction_hashes
      && leb number head
    then some (to_decimal number, hash)
    else none
agreed transaction_hash number hash _ _ = none

-- A reported placement: a number and a hash, neither of them null.
unfoldable pub placement : Option ℕ → Option Text → Option (ℕ × Text)
placement (some number) (some hash) = some (number, hash)
placement _ _ = none

-- The sealed-block comparison, of the placements that the receipt and the transaction report.
unfoldable pub sealed_at :
    Source → Text → Option (ℕ × Text) → Option (ℕ × Text) → Option (Text × Text)
unfolding agreed
sealed_at src transaction_hash (some (number, hash)) (some (number', hash')) =
    if number' == number && eq_text (to_lower hash') (to_lower hash)
    then agreed transaction_hash number hash (src.sealed_block_by_number number)
        src.sealed_head_block_number
    else none
sealed_at src transaction_hash _ _ = none

unfoldable pub placed : Source → Text → Receipt → Option Transaction → Option (Text × Text)
unfolding sealed_at placement
placed src transaction_hash r none = none
placed src transaction_hash r (some t) =
    sealed_at src transaction_hash (placement r.block_number r.block_hash)
      (placement t.block_number t.block_hash)

-- An observation of `state` with nothing but a reason.
unfoldable pub without_facts : Source → Text → ℕ → ObservationState → Reason → SealedRpcObservation
without_facts src transaction_hash at state reason = record {
  reference = src.reference;
  transaction_hash = transaction_hash;
  observation_state = state;
  observation_level = none;
  receipt_status = none;
  transaction_sender = none;
  block_number = none;
  block_hash = none;
  token_transfer = none;
  unavailable_reason = some reason;
  observed_at_unix_seconds = at;
}

sender_of : Option Transaction → Option Text
sender_of none = none
sender_of (some t) = some t.from'

-- The part behind the two queries for the receipt and the transaction.
unfoldable pub conclude :
    Source → Text → Transfer → ℕ → Option Receipt → Option Transaction → SealedRpcObservation
unfolding sender_of
conclude src transaction_hash expected at none none =
    without_facts src transaction_hash at not_found unknown_transaction
conclude src transaction_hash expected at none (some t) =
    record (without_facts src transaction_hash at found unknown_transaction) {
      transaction_sender = some t.from';
      unavailable_reason = none;
    }
conclude src transaction_hash expected at (some r) t =
    let transfers = transfers_on_contract r.logs expected.token_contract in
    let fill : Option ObservationLevel → Option Text → Option Text → SealedRpcObservation =
      λ level number hash.
        record (without_facts src transaction_hash at found unknown_transaction) {
          observation_level = level;
          receipt_status = some r.status;
          transaction_sender = sender_of t;
          block_number = number;
          block_hash = hash;
          token_transfer = recorded_transfer expected transfers;
          unavailable_reason = none;
        } in
    elim (placed src transaction_hash r t) [
      | none ↦ fill none none none
      | some (number, hash) ↦ fill (some l2_block_inclusion) (some number) (some hash)
    ]

-- The part behind the check of the reference. The second query is made if the first was answered.
unfoldable pub on_answers :
    Source
    → Text
    → Transfer
    → ℕ
    → Answer (Option Receipt)
    → Answer (Option Transaction)
    → SealedRpcObservation
unfolding conclude
on_answers src w expected at (rpc_failed e) _ = without_facts src w at unavailable (failure_text e)
on_answers src w expected at failed_locally _ =
    without_facts src w at unavailable observation_local_failure
on_answers src w expected at (answered r) (rpc_failed e) =
    without_facts src w at unavailable (failure_text e)
on_answers src w expected at (answered r) failed_locally =
    without_facts src w at unavailable observation_local_failure
on_answers src w expected at (answered r) (answered t) = conclude src w expected at r t

-- `observeSealedTransaction`
unfoldable pub observe_sealed_transaction : Source → Text → Transfer → ℕ → SealedRpcObservation
unfolding on_answers
observe_sealed_transaction src w expected at =
    if hash32 w
    then on_answers src w expected at (src.transaction_receipt w) (src.transaction_by_hash w)
    else without_facts src w at unavailable malformed_transaction_reference
