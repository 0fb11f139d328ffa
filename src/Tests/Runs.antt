-- ===== src/Tests/Runs.antt =====
-- Runs of the paid resource and of the fixture facilitator.
use x402_base_evidence.Common.{
  ◌≡◌, ◌≤◌, refl, ◌≢◌, inl, true, false, none, some, [], ◌∷◌, arith, length, codes, eq_text,
  to_lower,
}
use x402_base_evidence.Idempotency.Authorization.{PresentedAuthorization}
use x402_base_evidence.Idempotency.{Claim, get, set, pass, on_lookup, completed, CachedResult}
use x402_base_evidence.Lifecycle.{new_recorder, has_state}
use x402_base_evidence.PaidResource.Dropped.{late_settles_twice}
use x402_base_evidence.PaidResource.Permanence.{Step-IsFinal, Step-kept, Reach-bounded}
use x402_base_evidence.PaidResource.Runs.{
  Flight, World, start, put, arrive, hooked, arrival, settle, Reach, here, next,
}
use x402_base_evidence.PaidResource.Safety.{
  Reach-Distinct, Distinct, IsFinal, IsWithheld, Reach-IsWithheld,
}
use x402_base_evidence.PaidResource.{settled}
use x402_base_evidence.FixtureFacilitator.Consumption.{enters, passes, successes, successes_le_one}
use x402_base_evidence.FixtureFacilitator.{AcceptedTerms, PaymentPayload, Behavior, Facilitator}
use x402_base_evidence.Json.{Fields, field, end, object, string}

abbrev authorization_1 : PresentedAuthorization
authorization_1 = record {
  from = codes "0xa";
  to = codes "0xb";
  value = codes "10000";
  valid_after = codes "0";
  valid_before = codes "900";
  nonce = codes "0x1";
  signature = codes "0xs";
}

abbrev claim_1 : Claim
claim_1 = record {
  payment_id = codes "pay_1";
  fingerprint = codes "f1";
  authorization = authorization_1;
}

abbrev flight_1 : Flight
flight_1 = record {
  claim = claim_1;
  recorder = new_recorder;
  origin_result = none;
  concluded = false;
}

abbrev claimed_world : World
claimed_world = arrive 4 claim_1 start

in_flight : claimed_world.flights 0 ≡ some flight_1
unfolding arrive pass on_lookup get
in_flight = refl

abbrev settled_world : World
settled_world = record claimed_world {
  flights = put 0 (hooked (settled none none) flight_1) claimed_world;
  settlements = codes "pay_1" ∷ claimed_world.settlements;
}

settled_run : Reach false 4 settled_world
unfolding has_state
settled_run =
    next (next here (arrival claim_1)) (settle 0 flight_1 none none in_flight (inl refl) refl)

Reach-Distinct_example : Distinct settled_world.settlements
Reach-Distinct_example = Reach-Distinct settled_run

Reach-IsWithheld_example : IsWithheld (get (codes "pay_1") settled_world.store)
Reach-IsWithheld_example = Reach-IsWithheld settled_run (codes "pay_1") (inl refl)

Reach-bounded_example : length settled_world.store ≤ 4
Reach-bounded_example = Reach-bounded settled_run

stored : get (codes "pay_1") claimed_world.store ≢ none
unfolding arrive pass on_lookup get set eq_text
stored = ground arith

abbrev retried_world : World
retried_world = arrive 4 claim_1 claimed_world

Step-kept_example : get (codes "pay_1") retried_world.store ≢ none
Step-kept_example = Step-kept {late = false} {capacity = 4} (codes "pay_1") (arrival claim_1) stored

abbrev result_1 : CachedResult
result_1 = record {
  status = 200;
  content_type = codes "text/plain";
  body = 104 ∷ 105 ∷ [];
  payment_response = none;
}

abbrev completed_world : World
completed_world = record start {
  store = (codes "pay_1", completed (codes "f1") authorization_1 result_1) ∷ [];
}

final : IsFinal (get (codes "pay_1") completed_world.store)
unfolding get eq_text
final = tt

Step-IsFinal_example :
    get (codes "pay_1") (arrive 4 claim_1 completed_world).store
    ≡ get (codes "pay_1") completed_world.store
Step-IsFinal_example =
    Step-IsFinal {late = false} {capacity = 4} (codes "pay_1") (arrival claim_1) final

late_settles_twice_example :
    (w : World) × Reach true 4 w × (w.settlements ≡ codes "pay_1" ∷ codes "pay_1" ∷ [])
late_settles_twice_example =
    late_settles_twice 3 claim_1 (record authorization_1 { nonce = codes "0x2" })

abbrev terms_1 : AcceptedTerms
terms_1 = record {
  network = codes "eip155:84532";
  scheme = codes "exact";
  asset = codes "0xc";
  amount = codes "10000";
  pay_to = codes "0xb";
}

abbrev authorization_fields : Fields
authorization_fields =
    field (codes "from") (string (codes "0xA")) (field (codes "nonce") (string (codes "0x1")) end)

abbrev payload_fields : Fields
payload_fields =
    field (codes "authorization") (object authorization_fields)
      (field (codes "signature") (string (codes "0xs")) end)

abbrev payload_1 : PaymentPayload
payload_1 = record { accepted = terms_1; payload = payload_fields }

abbrev compliant : Behavior
compliant = record {
  reject_verification = none;
  reject_settlement = none;
  throw_on_verify = none;
  throw_on_settle = none;
}

abbrev fresh : Facilitator
fresh = record { verify_calls = 0; settle_calls = 0; settled_authorizations = [] }

successes_example :
    successes to_lower compliant
      (codes "0xa:0x1")
      (enters ∷ enters ∷ passes payload_1 terms_1 ∷ passes payload_1 terms_1 ∷ [])
      fresh
    ≤ 1
successes_example =
    successes_le_one to_lower compliant (codes "0xa:0x1")
      (enters ∷ enters ∷ passes payload_1 terms_1 ∷ passes payload_1 terms_1 ∷ []) fresh
