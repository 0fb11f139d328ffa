-- ===== src/Idempotency/Store.antt =====
-- The laws of the identifier store (src/flow/server.ts, `idempotency`).
use x402_base_evidence.Common.{
  ◌+◌, ◌≡◌, refl, none, some, [], ◌∷◌, arith, if◌then◌else◌, length, Text, eq_text, eq_text_iff,
}
use x402_base_evidence.Idempotency.{OperationState, Store, get, set}

pub get-set :
    (k j : Text) (v : OperationState) (m : Store)
    → get j (set k v m) ≡ (if eq_text k j then some v else get j m)
unfolding get set
get-set k j v [] = refl
get-set k j v ((i, w) ∷ m) =
    ground (arith, eq_text_iff k j, eq_text_iff i k, eq_text_iff i j, get-set k j v m)

pub length-set :
    (k : Text) (v : OperationState) (m : Store)
    → length (set k v m) ≡ length m + elim (get k m) [ none ↦ 1 | some w ↦ 0 ]
unfolding get set
length-set k v [] = omega arith
length-set k v ((i, w) ∷ m) = ground (arith, length-set k v m)
