-- ===== src/Idempotency/Pass.antt =====
-- What one pass over the identifier store decides (src/flow/server.ts, the loop before the payment
-- middleware), and how an operation is concluded.
use x402_base_evidence.Common.{
  ℕ, ◌≤◌, ◌<◌, ◌≡◌, ◌≢◌, ◌↔◌, ◌⊎◌, true, false, Option, none, some, arith, length, Text,
  eq_text_iff,
}
use x402_base_evidence.FailureVocabulary.{settlement_exception}
use x402_base_evidence.Idempotency.Authorization.{same_authorization_iff}
use x402_base_evidence.Idempotency.Store.{length-set}
use x402_base_evidence.Idempotency.{
  OperationState, pending, completed, rejected, uncertain, Store, get, set, Claim, claimed, waits,
  served, on_lookup, pass, CachedResult, Ending, next_state,
}
use x402_base_evidence.Lifecycle.{
  observation, has_state, has_terminal_state, payment_settled, resource_executed, settlement_failed,
}

module _ (capacity n : ℕ) (c : Claim) (s : Store) where
  on_lookup-served_iff :
      (o : Option OperationState) (r : CachedResult)
      → ((on_lookup capacity o n c s).0 ≡ served r)
        ↔ (o ≡ some (completed c.fingerprint c.authorization r))
  unfolding on_lookup
  on_lookup-served_iff none r = ground arith
  on_lookup-served_iff (some (pending f a m)) r = ground arith
  on_lookup-served_iff (some (completed f a q)) r =
      ground (arith, eq_text_iff f c.fingerprint, same_authorization_iff a c.authorization)
  on_lookup-served_iff (some (rejected f)) r = ground arith
  on_lookup-served_iff (some (uncertain f a)) r = ground arith

  -- A cached result is served exactly if a completed operation is held under the identifier with the
  -- request's own fingerprint and the request's own authorization.
  pub pass-served_iff :
      (r : CachedResult)
      → ((pass capacity n c s).0 ≡ served r)
        ↔ (get c.payment_id s ≡ some (completed c.fingerprint c.authorization r))
  unfolding pass
  pass-served_iff = on_lookup-served_iff (get c.payment_id s)

  on_lookup-waits_iff :
      (o : Option OperationState) (m : ℕ)
      → ((on_lookup capacity o n c s).0 ≡ waits m)
        ↔ (o ≡ some (pending c.fingerprint c.authorization m))
  unfolding on_lookup
  on_lookup-waits_iff none m = ground arith
  on_lookup-waits_iff (some (pending f a q)) m =
      ground (arith, eq_text_iff f c.fingerprint, same_authorization_iff a c.authorization)
  on_lookup-waits_iff (some (completed f a q)) m = ground arith
  on_lookup-waits_iff (some (rejected f)) m = ground arith
  on_lookup-waits_iff (some (uncertain f a)) m = ground arith

  -- A request waits exactly for the pending operation with its own fingerprint and authorization.
  pass-waits_iff :
      (m : ℕ)
      → ((pass capacity n c s).0 ≡ waits m)
        ↔ (get c.payment_id s ≡ some (pending c.fingerprint c.authorization m))
  unfolding pass
  pass-waits_iff = on_lookup-waits_iff (get c.payment_id s)

  -- The identifier is free for the request: new with room for it, or released by a rejected attempt
  -- under the same fingerprint.
  abbrev IsFree : Option OperationState → Type 0
  IsFree o = ((o ≡ none) × (length s < capacity)) ⊎ (o ≡ some (rejected c.fingerprint))

  on_lookup-claimed_iff :
      (o : Option OperationState) → ((on_lookup capacity o n c s).0 ≡ claimed) ↔ IsFree o
  unfolding on_lookup
  on_lookup-claimed_iff none = ground arith
  on_lookup-claimed_iff (some (pending f a m)) = ground arith
  on_lookup-claimed_iff (some (completed f a q)) = ground arith
  on_lookup-claimed_iff (some (rejected f)) = ground (arith, eq_text_iff f c.fingerprint)
  on_lookup-claimed_iff (some (uncertain f a)) = ground arith

  -- A request claims the identifier exactly if it is free for it.
  pub pass-claimed_iff : ((pass capacity n c s).0 ≡ claimed) ↔ IsFree (get c.payment_id s)
  unfolding pass
  pass-claimed_iff = on_lookup-claimed_iff (get c.payment_id s)

  on_lookup-store :
      (o : Option OperationState)
      → ((on_lookup capacity o n c s).0 ≡ claimed)
          × ((on_lookup capacity o n c s).1
              ≡ set c.payment_id (pending c.fingerprint c.authorization n) s)
        ⊎ ((on_lookup capacity o n c s).0 ≢ claimed) × ((on_lookup capacity o n c s).1 ≡ s)
  unfolding on_lookup
  on_lookup-store none = ground arith
  on_lookup-store (some (pending f a m)) = ground arith
  on_lookup-store (some (completed f a q)) = ground arith
  on_lookup-store (some (rejected f)) = ground arith
  on_lookup-store (some (uncertain f a)) = ground arith

  -- A pass changes the store exactly by claiming: it then holds the request's own pending entry under
  -- the identifier. Every other answer leaves it as it was.
  pub pass-store :
      ((pass capacity n c s).0 ≡ claimed)
        × ((pass capacity n c s).1 ≡ set c.payment_id (pending c.fingerprint c.authorization n) s)
      ⊎ ((pass capacity n c s).0 ≢ claimed) × ((pass capacity n c s).1 ≡ s)
  unfolding pass
  pass-store = on_lookup-store (get c.payment_id s)

  -- The store never holds more identifiers than its capacity.
  pub length-pass : length s ≤ capacity → length (pass capacity n c s).1 ≤ capacity
  length-pass h = ground (
    arith,
    pass-store,
    pass-claimed_iff,
    length-set c.payment_id (pending c.fingerprint c.authorization n) s,
  )

-- The conclusion releases an identifier for another attempt only if no settlement was observed, and
-- the run was reported to end, and not by an exception out of settlement, or no end was reported and
-- the resource had not been executed.
next_state-rejected :
    (c : Claim) (e : Ending) (f : Text)
    → next_state c e ≡ rejected f
    → (f ≡ c.fingerprint)
      × (has_state (observation e.recorder).states payment_settled ≡ false)
      × ((has_terminal_state e.recorder ≡ true)
            × ¬ (
                ((observation e.recorder).terminal_state ≡ settlement_failed)
                × ((observation e.recorder).failure_reason ≡ some settlement_exception))
          ⊎ (has_terminal_state e.recorder ≡ false)
            × (has_state (observation e.recorder).states resource_executed ≡ false))
unfolding next_state
next_state-rejected c e f h = ground arith

-- After an observed settlement the conclusion is final: the result is kept, or the outcome is unknown.
pub next_state-settled :
    (c : Claim) (e : Ending)
    → has_state (observation e.recorder).states payment_settled ≡ true
    → ((r : CachedResult) × (next_state c e ≡ completed c.fingerprint c.authorization r))
      ⊎ (next_state c e ≡ uncertain c.fingerprint c.authorization)
unfolding next_state
next_state-settled c e h = ground arith
