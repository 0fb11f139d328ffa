-- ===== src/Tests/Origin.antt =====
-- The lifecycle, the presence contract, the failure vocabulary and the identifier store.
use x402_base_evidence.Common.{
  ◌≡◌, refl, ◌≢◌, ◌↔◌, ◌⊎◌, inl, true, false, none, some, List, [], ◌∷◌, ◌≤◌, arith, length, In,
  Text, codes, includes, eq_text,
}
use x402_base_evidence.Idempotency.Authorization.{
  PresentedAuthorization, same_authorization, same_authorization_iff,
}
use x402_base_evidence.Idempotency.Pass.{pass-served_iff, pass-claimed_iff, pass-store, length-pass}
use x402_base_evidence.Idempotency.{
  Claim, CachedResult, completed, pending, Store, pass, served, claimed, set, get,
}
use x402_base_evidence.Lifecycle.Observation.{
  Call, entered, finished, record_calls, Enters, observation-states_iff, observation-order_free,
}
use x402_base_evidence.Lifecycle.{
  LifecycleState, request_received, payment_settled, TerminalState, write_attempted, no_patch,
  new_recorder, observation, payment_was_settled,
}
use x402_base_evidence.Presence.Contract.{check_presence-eq-nil_iff, accepted-agrees, Satisfies}
use x402_base_evidence.Presence.{check_presence, artifact_path, payment_response_txt}
use x402_base_evidence.StrictJson.Fuel.{run_total}
use x402_base_evidence.StrictJson.Scanner.{run, fuel_for, no_fuel}

abbrev out_of_order : List Call
out_of_order =
    entered payment_settled ∷ entered request_received ∷ finished write_attempted no_patch ∷ []

abbrev in_order : List Call
in_order =
    entered request_received ∷ finished write_attempted no_patch ∷ entered payment_settled ∷ []

observation-states_example :
    In payment_settled (observation (record_calls new_recorder out_of_order)).states
observation-states_example = (observation-states_iff out_of_order payment_settled).1 (inl refl)

same_entered : (s : LifecycleState) → Enters s out_of_order ↔ Enters s in_order
same_entered s = ground arith

observation-order_free_example :
    (observation (record_calls new_recorder out_of_order)).states
    ≡ (observation (record_calls new_recorder in_order)).states
observation-order_free_example = observation-order_free out_of_order in_order same_entered

-- The artifacts of a run that was only challenged.
abbrev challenged : List Text
challenged =
    codes "record.jws"
    ∷ codes "request-binding.json"
    ∷ codes "chain-observation.json"
    ∷ codes "artifacts/payment-required.txt"
    ∷ []

challenged_accepted : check_presence TerminalState.payment_required_only challenged ≡ []
unfolding check_presence artifact_path eq_text
challenged_accepted = refl

check_presence-eq-nil_example : Satisfies TerminalState.payment_required_only challenged
check_presence-eq-nil_example =
    (check_presence-eq-nil_iff TerminalState.payment_required_only challenged).0 challenged_accepted

accepted-agrees_example :
    ((payment_was_settled TerminalState.payment_required_only ≡ false)
      ⊎ (includes challenged (artifact_path payment_response_txt) ≡ true))
accepted-agrees_example =
    (accepted-agrees TerminalState.payment_required_only challenged challenged_accepted).0

run_total_example : run (fuel_for 8) (codes "{\"a\":[]}") ≢ no_fuel
run_total_example = run_total (codes "{\"a\":[]}")

abbrev authorization_1 : PresentedAuthorization
authorization_1 = record {
  from = codes "0xa";
  to = codes "0xb";
  value = codes "10000";
  valid_after = codes "0";
  valid_before = codes "900";
  nonce = codes "0x1";
  signature = codes "0xs";
}

abbrev claim_1 : Claim
claim_1 = record {
  payment_id = codes "pay_1";
  fingerprint = codes "f1";
  authorization = authorization_1;
}

abbrev result_1 : CachedResult
result_1 = record {
  status = 200;
  content_type = codes "text/plain";
  body = 104 ∷ 105 ∷ [];
  payment_response = none;
}

abbrev completed_store : Store
completed_store = (codes "pay_1", completed (codes "f1") authorization_1 result_1) ∷ []

abbrev pending_store : Store
pending_store = (codes "pay_1", pending (codes "f1") authorization_1 0) ∷ []

same_authorization_example : same_authorization authorization_1 authorization_1 ≡ true
same_authorization_example = (same_authorization_iff authorization_1 authorization_1).1 refl

held_completed :
    get (codes "pay_1") completed_store ≡ some (completed (codes "f1") authorization_1 result_1)
unfolding get eq_text
held_completed = refl

held_nothing : get (codes "pay_1") [] ≡ none
unfolding get
held_nothing = refl

pass-served_example : (pass 4 1 claim_1 completed_store).0 ≡ served result_1
pass-served_example = (pass-served_iff 4 1 claim_1 completed_store result_1).1 held_completed

pass-claimed_example : (pass 4 0 claim_1 []).0 ≡ claimed
pass-claimed_example = (pass-claimed_iff 4 0 claim_1 []).1 (inl (held_nothing, omega arith))

pass-store_example :
    ((pass 4 0 claim_1 []).0 ≡ claimed)
      × ((pass 4 0 claim_1 []).1 ≡ set (codes "pay_1") (pending (codes "f1") authorization_1 0) [])
    ⊎ ((pass 4 0 claim_1 []).0 ≢ claimed) × ((pass 4 0 claim_1 []).1 ≡ [])
pass-store_example = pass-store 4 0 claim_1 []

length-pass_example : length (pass 1 1 claim_1 pending_store).1 ≤ 1
length-pass_example = length-pass 1 1 claim_1 pending_store (omega arith)
