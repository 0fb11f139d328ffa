-- ===== src/LiveObservation/Deadline.antt =====
-- The loop ends (src/flow/live-e2e.ts, `observeUntilSealed`).
use x402_base_evidence.Common.{
  ℕ, zero, suc, ◌+◌, ◌*◌, ◌/◌, ◌≤◌, ◌<◌, ◌≡◌, ◌≢◌, inl, inr, true, none, some, arith, Option-cases,
}
use native.Mathlib.Nat.{div-add-mod, mod-lt}
use x402_base_evidence.SealedObservation.{SealedRpcObservation}
use x402_base_evidence.LiveObservation.{
  LiveOutcome, LiveInput, is_expired, turns, observe_until_sealed,
}

-- The clock does not run backwards, and a sleep takes at least the time asked for.
pub record IsClock (input : LiveInput) : Type 0 where
  pub polls : 0 < input.poll_ms
  pub first : input.now_ms 0 ≤ input.now_ms 2
  pub slept : (i : ℕ) → input.now_ms (2 * i + 2) + input.poll_ms ≤ input.now_ms (2 * suc i + 2)

elapsed :
    (input : LiveInput)
    → IsClock input
    → (i : ℕ) → input.now_ms 0 + i * input.poll_ms ≤ input.now_ms (2 * i + 2)
elapsed input c zero = omega (arith, c.first)
elapsed input c (suc i) = omega (arith, elapsed input c i, c.slept i)

expires :
    (input : LiveInput)
    → IsClock input
    → (i : ℕ) → input.deadline_ms < suc i * input.poll_ms
    → is_expired input i ≡ true
unfolding is_expired
expires input c i h = ground (arith, elapsed input c i)

turns_end :
    (fuel : ℕ) (input : LiveInput) (i : ℕ)
    → IsClock input
    → input.deadline_ms < (i + suc fuel) * input.poll_ms
    → turns (suc fuel) input i ≢ none
unfolding turns
turns_end zero input i c h = ground (arith, expires input c i (omega (arith, h)))
turns_end (suc fuel) input i c h = ground (arith, turns_end fuel input (suc i) c (omega (arith, h)))

room : (d p : ℕ) → 0 < p → d < suc (d / p) * p
room d p h = omega (arith, div-add-mod d p, mod-lt d h)

-- With a clock that does not run backwards, and a positive pause that is slept in full, the loop ends
-- with an outcome within as many turns as the deadline has room for: one more than the quotient of the
-- deadline by the pause.
pub observe_until_sealed-Ends :
    (input : LiveInput)
    → IsClock input
    → ((result : LiveOutcome × SealedRpcObservation) × (observe_until_sealed input ≡ some result))
unfolding observe_until_sealed
observe_until_sealed-Ends input c =
    elim (Option-cases (turns (suc (input.deadline_ms / input.poll_ms)) input 0)) [
      | inr ended ↦ ended
      | inl unended ↦ absurd (
          turns_end (input.deadline_ms / input.poll_ms) input 0 c
            (omega (arith, room input.deadline_ms input.poll_ms c.polls)) unended)
    ]
