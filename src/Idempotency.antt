-- ===== src/Idempotency.antt =====
-- src/flow/server.ts: the run-local idempotency store of the paid resource. One pass of the loop
-- that a request with a payment identifier makes over the store, and the conclusion of an operation.
pub mod Authorization
pub mod Store
pub mod Pass
use x402_base_evidence.Common.{
  ℕ, ◌+◌, Bool, true, false, not, ◌&&◌, ◌||◌, Option, none, some, List, [], ◌∷◌, ◌++◌, ◌==◌, leb,
  if◌then◌else◌, length, Text, eq_text,
}
use x402_base_evidence.FailureVocabulary.{FailureReason, settlement_exception}
use x402_base_evidence.Idempotency.Authorization.{PresentedAuthorization, same_authorization}
use x402_base_evidence.Lifecycle.{
  Recorder, LifecycleObservation, observation, has_state, has_terminal_state, payment_settled,
  resource_executed, TerminalState, settlement_failed,
}

-- `OriginResult`
pub record OriginResult : Type 0 where
  pub status : ℕ
  pub content_type : Text
  pub body : List ℕ

-- The `result` of a completed operation.
pub record CachedResult : Type 0 where
  pub status : ℕ
  pub content_type : Text
  pub body : List ℕ
  pub payment_response : Option Text

-- `OperationState`. A pending entry is an object that one request made; that request's number is its
-- identity, which stands for `done` and `conclude` too.
pub data OperationState : Type 0 where
  pending : Text → PresentedAuthorization → ℕ → OperationState
  completed : Text → PresentedAuthorization → CachedResult → OperationState
  rejected : Text → OperationState
  uncertain : Text → PresentedAuthorization → OperationState

unfoldable fingerprint_of : OperationState → Text
fingerprint_of (pending f a n) = f
fingerprint_of (completed f a r) = f
fingerprint_of (rejected f) = f
fingerprint_of (uncertain f a) = f

-- The `Map` from payment identifiers to their operations.
abbrev pub Store : Type 0
Store = List (Text × OperationState)

unfoldable pub get : Text → Store → Option OperationState
get k [] = none
get k ((j, v) ∷ m) = if eq_text j k then some v else get k m

unfoldable pub set : Text → OperationState → Store → Store
set k v [] = (k, v) ∷ []
set k v ((j, w) ∷ m) = if eq_text j k then (j, v) ∷ m else (j, w) ∷ set k v m

-- What a request brings that presents an identifier and a well-formed authorization.
pub record Claim : Type 0 where
  pub payment_id : Text
  pub fingerprint : Text
  pub authorization : PresentedAuthorization

-- What one pass of the loop does with the request.
pub data Verdict : Type 0 where
  -- it owns a new pending entry and goes on to the payment middleware
  claimed : Verdict
  -- it waits for the pending entry of that owner to conclude, and makes another pass
  waits : ℕ → Verdict
  -- it is answered from the cache
  served : CachedResult → Verdict
  -- it is answered with an error status
  refused : ℕ → Verdict

-- The branches on `entry.kind`, once the fingerprints are equal. The request's own number is `n`.
on_entry : OperationState → ℕ → Claim → Store → Verdict × Store
on_entry (pending f a owner) n c store =
    if not (same_authorization a c.authorization)
    then (refused 409, store)
    else (waits owner, store)
on_entry (completed f a result) n c store =
    if same_authorization a c.authorization then (served result, store) else (refused 409, store)
on_entry (rejected f) n c store =
    (claimed, set c.payment_id (pending c.fingerprint c.authorization n) store)
on_entry (uncertain f a) n c store = (refused 409, store)

-- One pass of `for (;;)`, by what the map holds under the identifier.
unfoldable pub on_lookup : ℕ → Option OperationState → ℕ → Claim → Store → Verdict × Store
unfolding on_entry fingerprint_of
on_lookup capacity none n c store =
    if leb capacity (length store)
    then (refused 503, store)
    else (claimed, set c.payment_id (pending c.fingerprint c.authorization n) store)
on_lookup capacity (some entry) n c store =
    if not (eq_text (fingerprint_of entry) c.fingerprint)
    then (refused 409, store)
    else on_entry entry n c store

unfoldable pub pass : ℕ → ℕ → Claim → Store → Verdict × Store
unfolding on_lookup
pass capacity n c store = on_lookup capacity (get c.payment_id store) n c store

-- What is known of a request when its response finishes or closes.
pub record Ending : Type 0 where
  pub recorder : Recorder
  pub origin_result : Option OriginResult
  pub status_code : ℕ
  -- the `PAYMENT-RESPONSE` field that the middleware emitted
  pub payment_response : Option Text

is_settlement_exception : Option FailureReason → Bool
is_settlement_exception (some settlement_exception) = true
is_settlement_exception _ = false

is_settlement_failed : TerminalState → Bool
is_settlement_failed settlement_failed = true
is_settlement_failed _ = false

-- The state that `concludeOperation` gives the operation.
unfoldable pub next_state : Claim → Ending → OperationState
unfolding is_settlement_exception is_settlement_failed
next_state c e =
    let o = observation e.recorder in
    if has_state o.states payment_settled
    then elim e.origin_result [
      | none ↦ uncertain c.fingerprint c.authorization
      | some produced ↦ completed c.fingerprint c.authorization (record {
        status = e.status_code;
        content_type = produced.content_type;
        body = produced.body;
        payment_response = e.payment_response;
      })
    ]
    else if has_terminal_state e.recorder
    then (if is_settlement_failed o.terminal_state && is_settlement_exception o.failure_reason
        then uncertain c.fingerprint c.authorization
        else rejected c.fingerprint)
    else if has_state o.states resource_executed
    then uncertain c.fingerprint c.authorization
    else rejected c.fingerprint

is_own : ℕ → Option OperationState → Bool
is_own n (some (pending f a owner)) = owner == n
is_own n _ = false

-- `concludeOperation` of the request `n`, which holds a pending entry: the entry is replaced if it is
-- still the one in the map.
unfoldable pub conclude : ℕ → Claim → Ending → Store → Store
unfolding is_own next_state
conclude n c e store =
    if is_own n (get c.payment_id store) then set c.payment_id (next_state c e) store else store
