-- ===== src/LiveObservation/Retry.antt =====
-- When the bounded loop tries again (src/flow/live-e2e.ts, `observeUntilSealed`).
use x402_base_evidence.Common.{◌≡◌, ◌≢◌, ◌⊎◌, true, none, some}
use x402_base_evidence.SealedObservation.{
  SealedRpcObservation, found, not_found, unavailable, reverted, Reason, is_retryable,
}

-- A receipt or a transaction was found, not in a sealed block, and not as reverted.
pub record IsUnsealed (o : SealedRpcObservation) : Type 0 where
  pub seen : o.observation_state ≡ found
  pub unsealed : o.observation_level ≡ none
  pub unreverted : o.receipt_status ≢ some reverted

-- The three ways in which an observation leaves the question open.
abbrev IsOpen : SealedRpcObservation → Type 0
IsOpen o =
    ((o.observation_state ≡ unavailable)
      × (reason : Reason) × (o.unavailable_reason ≡ some reason)
      × (is_retryable reason ≡ true))
    ⊎ ((o.observation_state ≡ not_found) ⊎ IsUnsealed o)
