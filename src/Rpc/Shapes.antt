-- ===== src/Rpc/Shapes.antt =====
-- The admitted numbers (src/flow/evm-json-rpc.ts, `admitRpcQuantity`).
use x402_base_evidence.Common.{ℕ, ◌≡◌, some, ◌++◌, arith, Text, codes}
use x402_base_evidence.Common.Hex.{to_hex, hex_number-to_hex, is_shortest_hex-to_hex}
use x402_base_evidence.Json.{string}
use x402_base_evidence.Rpc.{admit_rpc_quantity, rpc_quantity, big_int}

-- `0x${n.toString(16)}`, as the block number is sent.
unfoldable pub quantity : ℕ → Text
quantity n = codes "0x" ++ to_hex n

-- Every number that is sent as a Quantity is admitted as that number.
pub admit_rpc_quantity-quantity : (n : ℕ) → admit_rpc_quantity (some (string (quantity n))) ≡ some n
unfolding admit_rpc_quantity quantity rpc_quantity big_int
admit_rpc_quantity-quantity n = ground (arith, is_shortest_hex-to_hex n, hex_number-to_hex n)
