-- ===== src/LiveObservation.antt =====
-- src/flow/live-e2e.ts: `observeUntilSealed`, the bounded loop that observes a transaction until a
-- definitive result or the deadline.
pub mod Deadline
pub mod Outcome
pub mod Retry
use x402_base_evidence.Common.{
  ℕ, zero, suc, ◌+◌, ◌*◌, ◌/◌, Bool, true, false, Option, none, some, ltb, if◌then◌else◌,
}
use x402_base_evidence.SealedObservation.{
  SealedRpcObservation, ObservationState, found, not_found, unavailable, ExecutionStatus, success,
  reverted, ObservationLevel, Transfer, Reason, is_retryable, transfer_matches_expected,
}

pub data LiveOutcome : Type 0 where
  matched : LiveOutcome
  was_reverted : LiveOutcome
  wrong_transfer : LiveOutcome
  not_established : LiveOutcome

unfoldable pub is_matching : Transfer → Option Transfer → Bool
is_matching expected none = false
is_matching expected (some t) = transfer_matches_expected t expected

-- Behind the test for a reverted receipt: sealed inclusion makes the transfer verdict definitive.
unfoldable pub on_level : Transfer → Option Transfer → Option ObservationLevel → Option LiveOutcome
unfolding is_matching
on_level expected t none = none
on_level expected t (some level) = some (if is_matching expected t then matched else wrong_transfer)

unfoldable pub on_found :
    Transfer
    → Option Transfer
    → Option ObservationLevel
    → Option ExecutionStatus
    → Option LiveOutcome
unfolding on_level
on_found expected t level (some reverted) = some was_reverted
on_found expected t level (some success) = on_level expected t level
on_found expected t level none = on_level expected t level

unfoldable pub on_reason : Option Reason → Option LiveOutcome
on_reason none = some not_established
on_reason (some reason) = if is_retryable reason then none else some not_established

unfoldable pub on_state : ObservationState → Transfer → SealedRpcObservation → Option LiveOutcome
unfolding on_found on_reason
on_state found expected o = on_found expected o.token_transfer o.observation_level o.receipt_status
on_state unavailable expected o = on_reason o.unavailable_reason
on_state not_found expected o = none

-- What one observation settles; `none` is to try again within the deadline.
unfoldable pub definitive : Transfer → SealedRpcObservation → Option LiveOutcome
unfolding on_state
definitive expected o = on_state o.observation_state expected o

-- The readings of the clock in the order they are made: the start, then two in each turn. `observe` is
-- the attempt of each turn, at a time in seconds.
pub record LiveInput : Type 0 where
  pub observe : ℕ → ℕ → SealedRpcObservation
  pub now_ms : ℕ → ℕ
  pub expected_transfer : Transfer
  pub poll_ms : ℕ
  pub deadline_ms : ℕ

-- `nowMs() - startedAt + pollMs > deadlineMs`
unfoldable pub is_expired : LiveInput → ℕ → Bool
is_expired input i =
    ltb (input.deadline_ms + input.now_ms 0) (input.now_ms (2 * i + 2) + input.poll_ms)

unfoldable pub attempt : LiveInput → ℕ → SealedRpcObservation
attempt input i = input.observe i (input.now_ms (2 * i + 1) / 1000)

-- The turns from number `i`; `none` is a lack of fuel.
unfoldable pub turns : ℕ → LiveInput → ℕ → Option (LiveOutcome × SealedRpcObservation)
unfolding definitive is_expired attempt
turns zero input i = none
turns (suc fuel) input i =
    let rest = turns fuel input (suc i) in
    elim (definitive input.expected_transfer (attempt input i)) [
      | some outcome ↦ some (outcome, attempt input i)
      | none ↦ if is_expired input i then some (not_established, attempt input i) else rest
    ]

-- `observeUntilSealed`, of as many turns as the deadline has room for: the loop of the source counts
-- no turns, and a clock that runs slower than its pauses would leave this one without a result.
unfoldable pub observe_until_sealed : LiveInput → Option (LiveOutcome × SealedRpcObservation)
unfolding turns
observe_until_sealed input = turns (suc (input.deadline_ms / input.poll_ms)) input 0
