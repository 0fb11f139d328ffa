-- ===== src/SealedObservation/Reasons.antt =====
-- Which answers an observation reports as what (src/flow/observe-transaction.ts).
use x402_base_evidence.Common.{
  ℕ, ◌≡◌, refl, ◌↔◌, inl, inr, true, Option, none, some, arith, Text, Bool-cases, Option-cases,
}
use x402_base_evidence.Rpc.{hash32, Failure, retryable}
use x402_base_evidence.SealedObservation.{
  Receipt, Transaction, Answer, answered, rpc_failed, failed_locally, Source, Transfer, Reason,
  failure_text, is_retryable, placed, conclude, on_answers, observe_sealed_transaction,
  without_facts, not_found, unavailable, unknown_transaction,
}

-- The first query that was not answered failed so.
abbrev pub FailedWith : Answer (Option Receipt) → Answer (Option Transaction) → Failure → Type 0
FailedWith (rpc_failed e) t f = e ≡ f
FailedWith failed_locally t f = ⊥
FailedWith (answered r) (rpc_failed e) f = e ≡ f
FailedWith (answered r) _ f = ⊥

is_retryable-failure_text : (e : Failure) → is_retryable (failure_text e) ≡ retryable e
unfolding is_retryable failure_text retryable
is_retryable-failure_text e = ground arith

conclude-reason :
    (src : Source) (w : Text) (expected : Transfer) (at : ℕ) (r : Option Receipt)
    (t : Option Transaction) (reason : Reason)
    → (conclude src w expected at r t).unavailable_reason ≡ some reason
    → ((r ≡ none) × (t ≡ none) × (reason ≡ unknown_transaction))
unfolding conclude without_facts
conclude-reason src w expected at none none reason e = ground arith
conclude-reason src w expected at none (some t) reason e = ground arith
conclude-reason src w expected at (some r) t reason e = elim (Option-cases (placed src w r t)) [
  | inl nothing ↦ ground arith
  | inr (p, it_is) ↦ ground arith
]

on_answers-retryable :
    (src : Source) (w : Text) (expected : Transfer) (at : ℕ) (r : Answer (Option Receipt))
    (t : Answer (Option Transaction)) (reason : Reason)
    → (on_answers src w expected at r t).unavailable_reason ≡ some reason
    → is_retryable reason ≡ true
    → ((e : Failure) × FailedWith r t e × (retryable e ≡ true) × (reason ≡ failure_text e))
unfolding on_answers without_facts is_retryable
on_answers-retryable src w expected at (rpc_failed e) t reason q h =
    (e, refl, ground (arith, is_retryable-failure_text e), ground arith)
on_answers-retryable src w expected at failed_locally t reason q h = absurd (ground arith)
on_answers-retryable src w expected at (answered r) (rpc_failed e) reason q h =
    (e, refl, ground (arith, is_retryable-failure_text e), ground arith)
on_answers-retryable src w expected at (answered r) failed_locally reason q h =
    absurd (ground arith)
on_answers-retryable src w expected at (answered r) (answered t) reason q h =
    absurd (ground (arith, conclude-reason src w expected at r t reason q))

failed-on_answers :
    (src : Source) (w : Text) (expected : Transfer) (at : ℕ) (r : Answer (Option Receipt))
    (t : Answer (Option Transaction)) (e : Failure)
    → FailedWith r t e
    → (on_answers src w expected at r t).unavailable_reason ≡ some (failure_text e)
unfolding on_answers without_facts
failed-on_answers src w expected at (rpc_failed e) t f q = ground arith
failed-on_answers src w expected at failed_locally t f q = absurd q
failed-on_answers src w expected at (answered r) (rpc_failed e) f q = ground arith
failed-on_answers src w expected at (answered r) failed_locally f q = absurd q
failed-on_answers src w expected at (answered r) (answered t) f q = absurd q

failed-on_answers-state :
    (src : Source) (w : Text) (expected : Transfer) (at : ℕ) (r : Answer (Option Receipt))
    (t : Answer (Option Transaction)) (e : Failure)
    → FailedWith r t e
    → (on_answers src w expected at r t).observation_state ≡ unavailable
unfolding on_answers without_facts
failed-on_answers-state src w expected at (rpc_failed e) t f q = refl
failed-on_answers-state src w expected at failed_locally t f q = refl
failed-on_answers-state src w expected at (answered r) (rpc_failed e) f q = refl
failed-on_answers-state src w expected at (answered r) failed_locally f q = refl
failed-on_answers-state src w expected at (answered r) (answered t) f q = absurd q

-- A query that failed leaves the observation unavailable.
pub observe-unavailable :
    (src : Source) (w : Text) (expected : Transfer) (at : ℕ) (e : Failure)
    → hash32 w ≡ true
    → FailedWith (src.transaction_receipt w) (src.transaction_by_hash w) e
    → (observe_sealed_transaction src w expected at).observation_state ≡ unavailable
unfolding observe_sealed_transaction
observe-unavailable src w expected at e hashed failed = rw hashed (
    failed-on_answers-state src w expected at (src.transaction_receipt w)
      (src.transaction_by_hash w) e failed)

-- An observation reports a retryable reason exactly if the reference is a transaction hash and the
-- first query that was not answered ended in a retryable failure of the exchange; the reasons of a
-- malformed reference, an unknown transaction and a local error are not of that class.
pub observe-retryable_iff :
    (src : Source) (w : Text) (expected : Transfer) (at : ℕ) (reason : Reason)
    → (((observe_sealed_transaction src w expected at).unavailable_reason ≡ some reason)
        × (is_retryable reason ≡ true))
      ↔ ((hash32 w ≡ true)
          × ((e : Failure) × FailedWith (src.transaction_receipt w) (src.transaction_by_hash w) e
              × (retryable e ≡ true)
              × (reason ≡ failure_text e)))
unfolding observe_sealed_transaction without_facts is_retryable
observe-retryable_iff src w expected at reason = (
  λ (q, h). elim (Bool-cases (hash32 w)) [
    | inl hashed ↦ (
      hashed,
      on_answers-retryable src w expected at (src.transaction_receipt w) (src.transaction_by_hash w)
          reason (ground arith) h,
    )
    | inr other ↦ absurd (ground arith)
  ],
  λ (hashed, (e, failed, r, same)). (
    rw hashed (
        rw same (
          failed-on_answers src w expected at (src.transaction_receipt w)
            (src.transaction_by_hash w) e failed)),
    ground (arith, is_retryable-failure_text e),
  ),
)

conclude-state :
    (src : Source) (w : Text) (expected : Transfer) (at : ℕ) (r : Option Receipt)
    (t : Option Transaction)
    → ((conclude src w expected at r t).observation_state ≡ not_found) ↔ ((r ≡ none) × (t ≡ none))
unfolding conclude without_facts
conclude-state src w expected at none none = ground arith
conclude-state src w expected at none (some t) = ground arith
conclude-state src w expected at (some r) t = elim (Option-cases (placed src w r t)) [
  | inl nothing ↦ ground arith
  | inr (p, it_is) ↦ ground arith
]

on_answers-state :
    (src : Source) (w : Text) (expected : Transfer) (at : ℕ) (r : Answer (Option Receipt))
    (t : Answer (Option Transaction))
    → ((on_answers src w expected at r t).observation_state ≡ not_found)
      ↔ ((r ≡ answered none) × (t ≡ answered none))
unfolding on_answers without_facts
on_answers-state src w expected at (rpc_failed e) t = ground arith
on_answers-state src w expected at failed_locally t = ground arith
on_answers-state src w expected at (answered r) (rpc_failed e) = ground arith
on_answers-state src w expected at (answered r) failed_locally = ground arith
on_answers-state src w expected at (answered r) (answered t) =
    ground (arith, conclude-state src w expected at r t)

-- An observation is `not_found` exactly if the reference is a transaction hash and both queries were
-- answered with nothing: no failure of an exchange is reported as a transaction that does not exist.
pub observe-not_found_iff :
    (src : Source) (w : Text) (expected : Transfer) (at : ℕ)
    → ((observe_sealed_transaction src w expected at).observation_state ≡ not_found) ↔ (
        (hash32 w ≡ true)
        × (src.transaction_receipt w ≡ answered none)
        × (src.transaction_by_hash w ≡ answered none))
unfolding observe_sealed_transaction without_facts
observe-not_found_iff src w expected at = ground (
  arith,
  on_answers-state src w expected at (src.transaction_receipt w) (src.transaction_by_hash w),
)
