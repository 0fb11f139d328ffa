-- ===== src/SealedObservation/Admission.antt =====
-- src/flow/observe-transaction.ts: the admission of the results of the four queries, and the source
-- that an endpoint backs.
use x402_base_evidence.Common.{
  ℕ, Bool, true, not, Option, none, some, List, [], ◌∷◌, ◌++◌, ◌==◌, leb, if◌then◌else◌, length,
  Text, codes, eq_text, to_lower,
}
use x402_base_evidence.Common.Hex.{to_hex}
use x402_base_evidence.Json.{Json, null, boolean, string, member, as_array, is_nullish}
use x402_base_evidence.Rpc.{
  unusable, Result, ok, thrown, ◌>>=◌, require, ◌>>◌, hash32, address20, rpc_data,
  admit_rpc_quantity, object_or_unusable, string_or_unusable, Fetched, json_rpc_request,
}
use x402_base_evidence.SealedObservation.{
  Log, ExecutionStatus, success, reverted, Receipt, Transaction, SealedBlock, Answer, answered,
  rpc_failed, Source,
}

unfoldable pub some_or_unusable {ℓ} : {A : Type ℓ} → Option A → Result A
some_or_unusable none = thrown unusable
some_or_unusable (some a) = ok a

-- `typeof value === 'string' && shape.test(value)`
unfoldable pub text_of_shape : (Text → Bool) → Option Json → Result Text
unfolding string_or_unusable
text_of_shape shape v = string_or_unusable v >>= λ s. require (shape s) >> ok s

-- A member that may be null or missing.
unfoldable pub optional {ℓ} :
    {A : Type ℓ} → (Option Json → Result A) → Option Json → Result (Option A)
optional admit v = if is_nullish v then ok none else admit v >>= λ a. ok (some a)

unfoldable pub quantity_or_unusable : Option Json → Result ℕ
unfolding some_or_unusable
quantity_or_unusable v = some_or_unusable (admit_rpc_quantity v)

unfoldable pub admit_status : Option Json → Result ExecutionStatus
admit_status (some (string s)) =
    if eq_text s (codes "0x1")
    then ok success
    else (if eq_text s (codes "0x0") then ok reverted else thrown unusable)
admit_status _ = thrown unusable

unfoldable pub admit_texts : (Text → Bool) → List Json → Result (List Text)
unfolding text_of_shape
admit_texts shape [] = ok []
admit_texts shape (v ∷ vs) = do
  s ← text_of_shape shape (some v)
  ss ← admit_texts shape vs
  ok (s ∷ ss)

unfoldable pub array_or_unusable : Option Json → Result (List Json)
unfolding some_or_unusable
array_or_unusable v = some_or_unusable (as_array v)

-- `log.removed`: missing or false.
unfoldable pub check_removed : Option Json → Result (Unit {0})
check_removed none = ok tt
check_removed (some (boolean removed)) = require (not removed)
check_removed (some _) = thrown unusable

unfoldable pub same_as : Option Text → Text → Bool
same_as none s = true
same_as (some expected) s = eq_text (to_lower s) (to_lower expected)

-- A hash of a log that must name what the receipt is for, if both are there.
unfoldable pub check_hash : Option Text → Option Json → Result (Unit {0})
unfolding text_of_shape same_as
check_hash expected none = ok tt
check_hash expected (some v) = text_of_shape hash32 (some v) >>= λ s. require (same_as expected s)

unfoldable pub same_number : Option ℕ → ℕ → Bool
same_number none n = true
same_number (some expected) n = n == expected

unfoldable pub check_number : Option ℕ → Option Json → Result (Unit {0})
unfolding quantity_or_unusable same_number
check_number expected v =
    if is_nullish v then ok tt else quantity_or_unusable v >>= λ n. require (same_number expected n)

-- One turn of the loop over the logs of a receipt, whose placement is `number` and `hash`.
unfoldable pub admit_log : Option Text → Option ℕ → Option Text → Json → Result Log
unfolding object_or_unusable text_of_shape array_or_unusable admit_texts check_removed check_hash
    check_number
admit_log expected number hash raw = do
  l ← object_or_unusable (some raw)
  address ← text_of_shape address20 (member (codes "address") l)
  raw_topics ← array_or_unusable (member (codes "topics") l)
  topics ← admit_texts hash32 raw_topics
  data' ← text_of_shape rpc_data (member (codes "data") l)
  check_removed (member (codes "removed") l)
  check_hash expected (member (codes "transactionHash") l)
  check_hash hash (member (codes "blockHash") l)
  check_number number (member (codes "blockNumber") l)
  ok (record { address = address; topics = topics; data' = data' })

unfoldable pub admit_logs : Option Text → Option ℕ → Option Text → List Json → Result (List Log)
unfolding admit_log
admit_logs expected number hash [] = ok []
admit_logs expected number hash (raw ∷ raws) = do
  l ← admit_log expected number hash raw
  ls ← admit_logs expected number hash raws
  ok (l ∷ ls)

-- `MAX_RECEIPT_LOGS`
abbrev pub max_receipt_logs : ℕ
max_receipt_logs = 256

-- `admitReceiptResult`
unfoldable pub admit_receipt_result : Json → Option Text → Result Receipt
unfolding object_or_unusable admit_status optional quantity_or_unusable text_of_shape
    array_or_unusable admit_logs
admit_receipt_result result expected = do
  r ← object_or_unusable (some result)
  status ← admit_status (member (codes "status") r)
  number ← optional quantity_or_unusable (member (codes "blockNumber") r)
  hash ← optional (text_of_shape hash32) (member (codes "blockHash") r)
  raws ← array_or_unusable (member (codes "logs") r)
  require (leb (length raws) max_receipt_logs)
  logs ← admit_logs expected number hash raws
  ok (record { status = status; block_number = number; block_hash = hash; logs = logs })

-- `admitTransactionResult`
unfoldable admit_transaction_result : Json → Result Transaction
unfolding object_or_unusable text_of_shape optional quantity_or_unusable
admit_transaction_result result = do
  t ← object_or_unusable (some result)
  from ← text_of_shape address20 (member (codes "from") t)
  number ← optional quantity_or_unusable (member (codes "blockNumber") t)
  hash ← optional (text_of_shape hash32) (member (codes "blockHash") t)
  ok (record { from' = from; block_number = number; block_hash = hash })

-- `admitSealedBlockResult`
unfoldable admit_sealed_block_result : Json → Result SealedBlock
unfolding object_or_unusable text_of_shape quantity_or_unusable array_or_unusable admit_texts
admit_sealed_block_result result = do
  b ← object_or_unusable (some result)
  number ← quantity_or_unusable (member (codes "number") b)
  hash ← text_of_shape hash32 (member (codes "hash") b)
  entries ← array_or_unusable (member (codes "transactions") b)
  hashes ← admit_texts hash32 entries
  ok (record { number = number; hash = hash; transaction_hashes = hashes })

-- The methods that are called, with the parameters that vary.
pub data Request : Type 0 where
  eth_block_number : Request
  eth_get_transaction_receipt : Text → Request
  eth_get_transaction_by_hash : Text → Request
  eth_get_block_by_number : Text → Request

answer : {A : Type 0} → Result A → Answer A
answer (ok a) = answered a
answer (thrown e) = rpc_failed e

-- A result that may be `null`, the endpoint's way of reporting no such object.
or_null : {A : Type 0} → (Json → Result A) → Json → Result (Option A)
or_null admit null = ok none
or_null admit v = admit v >>= λ a. ok (some a)

-- `baseSealedRpcSource`: the transport `fetch` and the parser of bodies are the platform's.
module _ (parse : List ℕ → Option Json) (fetch : Request → Fetched) where
  call : Request → Result Json
  unfolding json_rpc_request
  call q = json_rpc_request parse (fetch q)

  unfoldable base_sealed_rpc_source : Text → Source
  unfolding answer or_null call admit_receipt_result admit_transaction_result
      admit_sealed_block_result quantity_or_unusable
  base_sealed_rpc_source reference = record {
    reference = reference;
    sealed_head_block_number =
        answer (call eth_block_number >>= λ v. quantity_or_unusable (some v));
    transaction_receipt = λ w. answer (
        require (hash32 w)
        >> (call (eth_get_transaction_receipt w) >>= λ v.
            or_null (λ j. admit_receipt_result j (some w)) v));
    transaction_by_hash = λ w. answer (
        require (hash32 w)
        >> (call (eth_get_transaction_by_hash w) >>= λ v. or_null admit_transaction_result v));
    sealed_block_by_number = λ n. answer (
        call (eth_get_block_by_number (codes "0x" ++ to_hex n)) >>= λ v.
        or_null admit_sealed_block_result v);
  }
