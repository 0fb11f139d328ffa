-- ===== src/PaidResource.antt =====
-- src/flow/server.ts: the hooks that the paid resource registers, the middleware that runs before
-- the payment middleware, and the `finish` and `close` listeners of the response.
pub mod Runs
pub mod Safety
pub mod Dropped
pub mod Permanence
use x402_base_evidence.Common.{
  ℕ, ◌+◌, Bool, true, false, not, ◌&&◌, Option, none, some, List, [], ◌∷◌, if◌then◌else◌, Text,
}
use x402_base_evidence.FailureVocabulary
use x402_base_evidence.FailureVocabulary.{FailureReason, persistable_failure_reason}
use x402_base_evidence.Idempotency.Authorization.{PresentedAuthorization, presented_authorization}
use x402_base_evidence.Idempotency.{
  Store, Claim, CachedResult, Verdict, claimed, waits, served, refused, pass,
}
use x402_base_evidence.Json.{Json}
use x402_base_evidence.Lifecycle
use x402_base_evidence.Lifecycle.{
  Recorder, enter, finish, note, observation, has_state, has_terminal_state, Patch, no_patch, given,
  TerminalState, write_attempted, payment_rejected_pre_verification, settlement_failed,
  handler_error_status, request_received, payment_required, payment_payload_received,
  payment_verified, resource_executed, payment_settled, response_prepared, response_write_attempted,
}

-- A hook of the resource server with what its context carries. A value of a foreign field that is no
-- string is `none`.
pub data Hook : Type 0 where
  -- `onProtectedRequest`, with whether there is a payment header
  protected_request : Bool → Hook
  -- `onAfterVerify` of a valid payment, with the payer, or of an invalid one, with the reason
  verified : Option Text → Hook
  invalid : Option Text → Hook
  -- `onVerifyFailure`, `onBeforeSettle`
  verify_failure before_settle : Hook
  -- `onAfterSettle` of a success, with the transaction and the payer, or of a refusal
  settled : Option Text → Option Text → Hook
  settle_refused : Option Text → Hook
  -- `onSettleFailure`
  settle_failure : Hook
  -- `onVerifiedPaymentCanceled`, with the reason and the response status
  canceled : Option Text → Option ℕ → Hook

abbrev failing : FailureReason → Patch
failing reason = record no_patch { failure_reason = given (some reason) }

abbrev cancel_patch : FailureReason → Option ℕ → Patch
cancel_patch reason none = record no_patch { cancellation_reason = given (some reason) }
cancel_patch reason (some status) = record no_patch {
  cancellation_reason = given (some reason);
  response_status = given (some status);
}

-- What the hook does to the recorder of the request in flight.
unfoldable pub fire : Hook → Recorder → Recorder
fire (protected_request has_payment) r =
    enter (if has_payment then payment_payload_received else payment_required)
      (enter request_received r)
fire (verified payer) r =
    note (record no_patch { payer = given payer })
      (enter payment_verified (enter payment_payload_received r))
fire (invalid reason) r =
    finish Lifecycle.TerminalState.verification_rejected
      (failing
        (persistable_failure_reason reason FailureVocabulary.FailureReason.verification_rejected))
      (enter payment_payload_received r)
fire verify_failure r =
    finish Lifecycle.TerminalState.verification_rejected
      (failing FailureVocabulary.FailureReason.verification_exception) r
fire before_settle r = enter resource_executed r
fire (settled transaction payer) r =
    note (record no_patch { transaction = given transaction; payer = given payer })
      (enter payment_settled r)
fire (settle_refused reason) r =
    finish settlement_failed
      (failing
        (persistable_failure_reason reason FailureVocabulary.FailureReason.settlement_rejected))
      r
fire settle_failure r =
    finish settlement_failed (failing FailureVocabulary.FailureReason.settlement_exception) r
fire (canceled reason status) r =
    finish handler_error_status
      (cancel_patch
        (persistable_failure_reason reason FailureVocabulary.FailureReason.handler_failed) status)
      (enter resource_executed r)

-- The `finish` listener's part on the recorder, with `res.statusCode`.
unfoldable pub on_finish : ℕ → Recorder → Recorder
on_finish status r =
    let reached = observation r in
    let patch = record no_patch { response_status = given (some status) } in
    if has_state reached.states payment_settled
    then finish write_attempted patch (enter response_write_attempted (enter response_prepared r))
    else if not (has_terminal_state r)
        && has_state reached.states payment_payload_received
        && not (has_state reached.states payment_verified)
    then finish payment_rejected_pre_verification patch r
    else note patch r

-- What becomes of a request before the payment middleware sees it.
pub data Front : Type 0 where
  -- it goes on to the payment middleware, and holds no operation
  passed : Front
  -- its payload carries no valid identifier where one is required: status 400
  unidentified : Front
  -- it was taken through one pass over the store
  decided : Claim → Verdict → Front

-- The upstream functions that the middleware calls: the decoder of the field (`none` where it throws
-- or gives no object), the check of the identifier requirement, and the extraction of the identifier;
-- and the language's `toLowerCase`.
module _ (decode_payment_signature : Text → Option Json)
    (meets_identifier_requirement : Json → Bool) (extract_payment_identifier : Json → Option Text)
    (to_lower_case : Text → Text) where
  -- The claim that a payload makes, if it has an identifier and a well-formed authorization.
  claim_of : Text → Json → Option Claim
  claim_of fingerprint payload = elim (extract_payment_identifier payload) [
    | none ↦ none
    | some id ↦ elim (presented_authorization to_lower_case payload) [
      | none ↦ none
      | some authorization ↦
          some
            (record { payment_id = id; fingerprint = fingerprint; authorization = authorization })
    ]
  ]

  -- The middleware up to the first answer of the store, for a request with that `payment-signature`
  -- field (`none` where it has none) and that fingerprint.
  unfoldable pub front : ℕ → ℕ → Text → Option Text → Store → Front × Store
  unfolding claim_of
  front capacity n fingerprint none store = (passed, store)
  front capacity n fingerprint (some observed) store = elim (decode_payment_signature observed) [
    | none ↦ (passed, store)
    | some payload ↦
        if not (meets_identifier_requirement payload)
        then (unidentified, store)
        else elim (claim_of fingerprint payload) [
          | none ↦ (passed, store)
          | some c ↦ (decided c (pass capacity n c store).0, (pass capacity n c store).1)
        ]
  ]
