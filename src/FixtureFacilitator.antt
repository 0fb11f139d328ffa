-- ===== src/FixtureFacilitator.antt =====
-- src/flow/fixture-facilitator.ts: the facilitator of the offline path. The barrier of a settlement
-- stands before everything it reads or changes but the count of calls, so what is behind it is one step.
pub mod Terms
pub mod Consumption
use x402_base_evidence.Common.{
  ℕ, ◌+◌, Bool, true, false, not, ◌&&◌, ◌||◌, Option, none, some, List, [], ◌∷◌, ◌++◌, ◌==◌,
  if◌then◌else◌, length, Text, codes, eq_text, includes,
}
use x402_base_evidence.Json.{
  object_like, Json, end, object, array, string, Fields, member, as_string,
}

-- `PaymentRequirements`, and `payload.accepted`, the members that are compared.
pub record AcceptedTerms : Type 0 where
  pub network : Text
  pub scheme : Text
  pub asset : Text
  pub amount : Text
  pub pay_to : Text

pub record PaymentPayload : Type 0 where
  pub accepted : AcceptedTerms
  pub payload : Fields

pub data Problem : Type 0 where
  network_mismatch scheme_mismatch asset_mismatch amount_mismatch : Problem
  recipient_mismatch missing_authorization : Problem

unfoldable pub is_given {ℓ} : {A : Type ℓ} → Option A → Bool
is_given none = false
is_given (some a) = true

-- `typeof signature === 'string' && signature.length !== 0`
unfoldable pub is_signature : Option Json → Bool
is_signature (some (string [])) = false
is_signature (some (string (c ∷ cs))) = true
is_signature _ = false

-- `checkTerms`
unfoldable pub check_terms : PaymentPayload → AcceptedTerms → Option Problem
unfolding object_like is_given is_signature
check_terms p r =
    if not (eq_text p.accepted.network r.network)
    then some network_mismatch
    else (if not (eq_text p.accepted.scheme r.scheme)
        then some scheme_mismatch
        else (if not (eq_text p.accepted.asset r.asset)
            then some asset_mismatch
            else (if not (eq_text p.accepted.amount r.amount)
                then some amount_mismatch
                else (if not (eq_text p.accepted.pay_to r.pay_to)
                    then some recipient_mismatch
                    else (if not (is_given (object_like (member (codes "authorization") p.payload)))
                          || not (is_signature (member (codes "signature") p.payload))
                        then some missing_authorization
                        else none)))))

-- `FixtureFacilitatorBehavior`
pub record Behavior : Type 0 where
  pub reject_verification : Option Text
  pub reject_settlement : Option Text
  pub throw_on_verify : Option Text
  pub throw_on_settle : Option Text

-- The facilitator's own state: the counts of calls and `settledAuthorizations`.
pub record Facilitator : Type 0 where
  pub verify_calls : ℕ
  pub settle_calls : ℕ
  pub settled_authorizations : List Text

pub data Refusal : Type 0 where
  duplicate_settlement : Refusal
  rejected_as : Text → Refusal
  mismatched : Problem → Refusal

pub data Response : Type 0 where
  accepted' : Response
  refused : Refusal → Response
  raised : Text → Response

-- `verify`
unfoldable pub verify :
    Behavior → PaymentPayload → AcceptedTerms → Facilitator → Response × Facilitator
unfolding check_terms
verify b p r f =
    let counted : Facilitator = record f { verify_calls = f.verify_calls + 1 } in
    elim b.throw_on_verify [
      | some message ↦ (raised message, counted)
      | none ↦ elim b.reject_verification [
        | some reason ↦ (refused (rejected_as reason), counted)
        | none ↦ elim (check_terms p r) [
          | some problem ↦ (refused (mismatched problem), counted)
          | none ↦ (accepted', counted)
        ]
      ]
    ]

-- `settle` up to its barrier.
unfoldable pub begin_settle : Facilitator → Facilitator
begin_settle f = record f { settle_calls = f.settle_calls + 1 }

unfoldable pub is_settled : Option Text → List Text → Bool
is_settled none settled = false
is_settled (some identity) settled = includes settled identity

unfoldable pub consume : Option Text → List Text → List Text
consume none settled = settled
consume (some identity) settled = identity ∷ settled

-- `toLowerCase` is the platform's.
module _ (to_lower_case : Text → Text) where
  identity_from : Option Fields → Option Text
  identity_from none = none
  identity_from (some record') = elim (as_string (member (codes "from") record')) [
    | none ↦ none
    | some from ↦ elim (as_string (member (codes "nonce") record')) [
      | none ↦ none
      | some nonce ↦ some (to_lower_case from ++ codes ":" ++ to_lower_case nonce)
    ]
  ]

  -- `authorizationIdentity`
  unfoldable pub authorization_identity : PaymentPayload → Option Text
  unfolding identity_from object_like
  authorization_identity p = identity_from (object_like (member (codes "authorization") p.payload))

  -- `settle` behind its barrier.
  unfoldable pub settle :
      Behavior → PaymentPayload → AcceptedTerms → Facilitator → Response × Facilitator
  unfolding is_settled consume
  settle b p r f =
      if is_settled (authorization_identity p) f.settled_authorizations
      then (refused duplicate_settlement, f)
      else elim b.throw_on_settle [
        | some message ↦ (raised message, f)
        | none ↦ elim b.reject_settlement [
          | some reason ↦ (refused (rejected_as reason), f)
          | none ↦ elim (check_terms p r) [
            | some problem ↦ (refused (mismatched problem), f)
            | none ↦ (
              accepted',
              record f {
                settled_authorizations =
                    consume (authorization_identity p) f.settled_authorizations;
              },
            )
          ]
        ]
      ]
