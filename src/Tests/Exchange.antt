-- ===== src/Tests/Exchange.antt =====
-- The exchange with an endpoint, its texts, and digests.
use x402_base_evidence.Common.{
  ℕ, ◌≡◌, refl, true, false, Option, none, some, List, [], ◌∷◌, arith, Text, codes, eq_text,
}
use x402_base_evidence.Digest.Form.{coerce_digest-digest_bytes}
use x402_base_evidence.Digest.{coerce_digest, digest_bytes, hex64, is_lower_hex}
use x402_base_evidence.Json.{Json, Fields, field, end, object, string, integer, pos, null, member}
use x402_base_evidence.Rpc.Exchange.{
  read_body-eq-ok_iff, json_rpc_request-IsTransient, json_rpc_request-eq-ok_iff, IsTransient,
}
use x402_base_evidence.Rpc.Shapes.{quantity, admit_rpc_quantity-quantity}
use x402_base_evidence.Rpc.{
  Read, chunk, read_body_within_budget, ok, thrown, temporarily_unavailable, Fetched, response,
  json_rpc_request, retryable, max_rpc_response_bytes, admit_rpc_quantity, is_temporary_status,
}

abbrev two_chunks : List Read
two_chunks = chunk (1 ∷ 2 ∷ []) ∷ chunk (3 ∷ []) ∷ []

abbrev envelope_1 : Fields
envelope_1 =
    field (codes "jsonrpc") (string (codes "2.0"))
      (field (codes "id") (integer (pos 1)) (field (codes "result") null end))

-- A parser that reads every body as the envelope.
abbrev parse_1 : List ℕ → Option Json
parse_1 bytes = some (object envelope_1)

abbrev answer_1 : Fetched
answer_1 = response 200 true (some two_chunks)

version_of : member (codes "jsonrpc") envelope_1 ≡ some (string (codes "2.0"))
unfolding member eq_text
version_of = refl

id_of : member (codes "id") envelope_1 ≡ some (integer (pos 1))
unfolding member eq_text
id_of = refl

result_of : member (codes "result") envelope_1 ≡ some null
unfolding member eq_text
result_of = refl

error_of : member (codes "error") envelope_1 ≡ none
unfolding member eq_text
error_of = refl

read_whole : read_body_within_budget max_rpc_response_bytes (some two_chunks) ≡ ok (1 ∷ 2 ∷ 3 ∷ [])
read_whole =
    (read_body-eq-ok_iff max_rpc_response_bytes two_chunks (1 ∷ 2 ∷ 3 ∷ [])).1 (refl, omega arith)

json_rpc_request-ok_example : json_rpc_request parse_1 answer_1 ≡ ok null
json_rpc_request-ok_example = (json_rpc_request-eq-ok_iff parse_1 answer_1 null).1 (
  200,
  some two_chunks,
  1 ∷ 2 ∷ 3 ∷ [],
  envelope_1,
  refl,
  read_whole,
  refl,
  version_of,
  id_of,
  result_of,
  error_of,
)

unavailable_503 :
    json_rpc_request parse_1 (response 503 false none) ≡ thrown (temporarily_unavailable 503)
unfolding json_rpc_request is_temporary_status
unavailable_503 = refl

may_retry : retryable (temporarily_unavailable 503) ≡ true
unfolding retryable
may_retry = refl

json_rpc_request-IsTransient_example :
    IsTransient (response 503 false none) (temporarily_unavailable 503)
json_rpc_request-IsTransient_example =
    json_rpc_request-IsTransient parse_1 (response 503 false none) (temporarily_unavailable 503)
      unavailable_503 may_retry

admit_rpc_quantity_example : admit_rpc_quantity (some (string (quantity 123456))) ≡ some 123456
admit_rpc_quantity_example = admit_rpc_quantity-quantity 123456

abbrev digits_1 : Text
digits_1 = codes "0123456789abcdef0123456789abcdef0123456789abcdef0123456789abcdef"

are_digits : hex64 digits_1 ≡ true
unfolding hex64 is_lower_hex
are_digits = refl

coerce_digest-digest_bytes_example :
    (coerce_digest (digest_bytes (λ b. digits_1) []) ≡ some (digest_bytes (λ b. digits_1) []))
coerce_digest-digest_bytes_example = (coerce_digest-digest_bytes (λ b. digits_1) [] are_digits).0
