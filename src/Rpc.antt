-- ===== src/Rpc.antt =====
-- src/flow/evm-json-rpc.ts: the shapes of JSON-RPC values, the failures of an exchange, and the
-- envelope reader.
pub mod Shapes
pub mod Exchange
use x402_base_evidence.Common.{
  ℕ, ◌+◌, ◌*◌, Bool, true, false, not, ◌&&◌, ◌||◌, Option, none, some, List, [], ◌∷◌, ◌++◌, ◌==◌,
  ltb, if◌then◌else◌, length, all, Text, codes, eq_text, is_hex,
}
use x402_base_evidence.Common.Hex.{hex_number, is_shortest_hex}
use x402_base_evidence.Json.{
  Json, null, integer, string, ℤ, pos, Fields, as_object, as_string, member,
}

-- Reads the texts that `0x` begins, by what stands behind it.
unfoldable pub behind_0x : (Text → Bool) → Text → Bool
behind_0x p (a ∷ b ∷ cs) = a == b'0' && b == b'x' && p cs
behind_0x p _ = false

unfoldable pub is_hex_of : ℕ → Text → Bool
is_hex_of n cs = length cs == n && all is_hex cs

unfoldable is_hex_bytes : Text → Bool
is_hex_bytes [] = true
is_hex_bytes (a ∷ []) = false
is_hex_bytes (a ∷ b ∷ cs) = is_hex a && is_hex b && is_hex_bytes cs

-- `RPC_QUANTITY`, `RPC_DATA`, `HASH32`, `ADDRESS20`, `ABI_UINT256_DATA`
unfoldable pub rpc_quantity : Text → Bool
unfolding behind_0x
rpc_quantity = behind_0x is_shortest_hex

unfoldable pub rpc_data : Text → Bool
unfolding behind_0x is_hex_bytes
rpc_data = behind_0x is_hex_bytes

unfoldable pub hash32 : Text → Bool
unfolding behind_0x is_hex_of
hash32 = behind_0x (is_hex_of 64)

unfoldable pub address20 : Text → Bool
unfolding behind_0x is_hex_of
address20 = behind_0x (is_hex_of 40)

unfoldable pub abi_uint256_data : Text → Bool
unfolding behind_0x is_hex_of
abi_uint256_data = behind_0x (is_hex_of 64)

-- `BigInt(value)` of a text that `0x` begins.
unfoldable pub big_int : Text → ℕ
big_int (a ∷ b ∷ cs) = hex_number cs
big_int _ = 0

admit : (Text → Bool) → Option Json → Option ℕ
admit shape (some (string s)) = if shape s then some (big_int s) else none
admit shape _ = none

unfoldable pub admit_rpc_quantity : Option Json → Option ℕ
unfolding admit
admit_rpc_quantity = admit rpc_quantity

unfoldable admit_abi_uint256_word : Option Json → Option ℕ
unfolding admit
admit_abi_uint256_word = admit abi_uint256_data

-- `JsonRpcFailure`: the kind, with the HTTP status or the RPC error code that is retained.
pub data Failure : Type 0 where
  unreachable : Failure
  temporarily_unavailable : ℕ → Failure
  rpc_error : ℤ → Failure
  unusable : Failure

unfoldable pub retryable : Failure → Bool
retryable unreachable = true
retryable (temporarily_unavailable status) = true
retryable _ = false

-- What a call that may throw gives.
pub data Result {ℓ} (A : Type ℓ) : Type ℓ where
  ok : A → Result A
  thrown : Failure → Result A

infixl 5 ◌>>=◌
abbrev pub ◌>>=◌ {ℓ κ} : {A : Type ℓ} {B : Type κ} → Result A → (A → Result B) → Result B
ok a >>= k = k a
thrown e >>= k = thrown e

-- `if (!test) throw new JsonRpcFailure('unusable')`
abbrev pub require : Bool → Result (Unit {0})
require true = ok tt
require false = thrown unusable

infixl 5 ◌>>◌
abbrev pub ◌>>◌ {ℓ} : {B : Type ℓ} → Result (Unit {0}) → Result B → Result B
m >> k = m >>= λ _. k

-- `MAX_RPC_RESPONSE_BYTES`
abbrev pub max_rpc_response_bytes : ℕ
max_rpc_response_bytes = 2 * 1024 * 1024

-- What the reader of a response body gives, read by read; the end of the list is `done`.
pub data Read : Type 0 where
  chunk : List ℕ → Read
  broken : Read

-- The loop of `readBodyWithinBudget`, with the bytes joined so far.
read_from : ℕ → ℕ → List ℕ → List Read → Result (List ℕ)
read_from budget total joined [] = ok joined
read_from budget total joined (broken ∷ rs) = thrown unreachable
read_from budget total joined (chunk bytes ∷ rs) =
    let rest = read_from budget (total + length bytes) (joined ++ bytes) rs in
    if ltb budget (total + length bytes) then thrown unusable else rest

-- `none` is a response with no body.
unfoldable pub read_body_within_budget : ℕ → Option (List Read) → Result (List ℕ)
unfolding read_from
read_body_within_budget budget none = ok []
read_body_within_budget budget (some reads) = read_from budget 0 [] reads

error_code : Option Json → Result ℤ
error_code (some (integer code)) = ok code
error_code _ = thrown unusable

unfoldable pub object_or_unusable : Option Json → Result Fields
object_or_unusable v = elim (as_object v) [ none ↦ thrown unusable | some fs ↦ ok fs ]

unfoldable pub string_or_unusable : Option Json → Result Text
string_or_unusable v = elim (as_string v) [ none ↦ thrown unusable | some s ↦ ok s ]

unfoldable pub admit_rpc_error_object : Option Json → Result ℤ
unfolding error_code object_or_unusable string_or_unusable
admit_rpc_error_object error = do
  record' ← object_or_unusable error
  code ← error_code (member (codes "code") record')
  message ← string_or_unusable (member (codes "message") record')
  ok code

-- What `fetch` gives: nothing, or a response with its status, `ok` flag and body.
pub data Fetched : Type 0 where
  no_response : Fetched
  response : ℕ → Bool → Option (List Read) → Fetched

unfoldable pub is_temporary_status : ℕ → Bool
is_temporary_status status = status == 429 || status == 503

-- `envelope['id'] === REQUEST_ID`
pub is_request_id : Option Json → Bool
is_request_id (some (integer (pos n))) = n == 1
is_request_id _ = false

pub is_version : Option Json → Bool
is_version (some (string s)) = eq_text s (codes "2.0")
is_version _ = false

-- The part behind the checks of the version and the identifier: exactly one of `result` and `error`.
unfoldable pub admit_envelope : Fields → Result Json
unfolding is_version is_request_id
admit_envelope envelope = do
  require (is_version (member (codes "jsonrpc") envelope))
  require (is_request_id (member (codes "id") envelope))
  elim (member (codes "error") envelope) [
    | some error ↦ elim (member (codes "result") envelope) [
      | some result ↦ thrown unusable
      | none ↦ admit_rpc_error_object (some error) >>= λ code. thrown (rpc_error code)
    ]
    | none ↦ elim (member (codes "result") envelope) [
      | some result ↦ ok result
      | none ↦ thrown unusable
    ]
  ]

-- The parsed body: an object, or unusable.
unfoldable pub admit_body : Option Json → Result Json
unfolding object_or_unusable
admit_body body = object_or_unusable body >>= λ envelope. admit_envelope envelope

-- `parse` is the platform's fatal UTF-8 decoding followed by `JSON.parse`; `none` is a throw of one.
module _ (parse : List ℕ → Option Json) where
  unfoldable pub json_rpc_request : Fetched → Result Json
  json_rpc_request no_response = thrown unreachable
  json_rpc_request (response status success body) =
      if not success
      then (if is_temporary_status status
          then thrown (temporarily_unavailable status)
          else thrown unusable)
      else (read_body_within_budget max_rpc_response_bytes body >>= λ bytes.
          admit_body (parse bytes))
