-- ===== src/VerifyEvidence/Agreement.antt =====
-- src/flow/verify-evidence.ts: the checks on the chain observation, and on what the record and the
-- observation state twice.
use x402_base_evidence.Common.{
  Bool, true, false, not, ◌&&◌, ◌||◌, Option, none, some, List, [], ◌∷◌, ◌++◌, if◌then◌else◌, Text,
  codes, eq_text,
}
use x402_base_evidence.Components.{is_literal}
use x402_base_evidence.Json.{Json, string, Fields, member, as_object}
use x402_base_evidence.Lifecycle.{TerminalState}
use x402_base_evidence.VerifyEvidence.Checks.{
  CheckName, observation_profile, observation_scheme, separately_attributed, settlement_facts,
  rpc_transaction, rpc_inclusion_basis, same_network, same_terminal_state, same_asset, same_amount,
  same_settlement_response, same_origin_result, VerificationCheck, check, VerificationWarning,
  observer_reverted, observer_not_found,
}
use x402_base_evidence.VerifyEvidence.Dynamic.{same_boolean, strict_equal, is_string, is_undefined}
use x402_base_evidence.VerifyEvidence.Reads.{
  JsonRead, parsed, refused, missing, terminal_state_name,
}

-- `PROFILE_CHAIN_OBSERVATION`
abbrev pub profile_chain_observation : Text
profile_chain_observation =
    codes "org.peacprotocol.examples.payment-evidence/base-chain-observation/1"

unfoldable pub is_given : {A : Type 0} → Option A → Bool
is_given none = false
is_given (some a) = true

-- The checks on what the document says it is.
unfoldable pub document_checks : Fields → Option Fields → Option Fields → List VerificationCheck
unfolding is_literal is_given
document_checks doc expectation report =
    check observation_profile (is_literal profile_chain_observation (member (codes "profile") doc))
    ∷ check observation_scheme (is_literal (codes "exact") (member (codes "scheme") doc))
    ∷ check separately_attributed (is_given expectation && is_given report)
    ∷ []

-- `settled`
unfoldable pub is_succeeded : Fields → Bool
unfolding is_literal
is_succeeded report = is_literal (codes "succeeded") (member (codes "settlement_outcome") report)

unfoldable pub settlement_check : Fields → VerificationCheck
unfolding is_succeeded same_boolean is_string
settlement_check report =
    check settlement_facts
      (same_boolean (is_succeeded report) (is_string (member (codes "transaction_hash") report)))

-- `sameTransaction`
unfoldable same_transaction : Fields → Fields → Bool
unfolding is_string strict_equal
same_transaction report rpc =
    is_string (member (codes "transaction_hash") report)
    && strict_equal (member (codes "transaction_hash") rpc)
        (member (codes "transaction_hash") report)

unfoldable claims_inclusion : Fields → Bool
unfolding is_literal
claims_inclusion rpc =
    is_literal (codes "l2_block_inclusion") (member (codes "observation_level") rpc)

unfoldable pub rpc_checks : Fields → Option Fields → List VerificationCheck
unfolding same_transaction claims_inclusion is_string
rpc_checks report none = []
rpc_checks report (some rpc) =
    check rpc_transaction (same_transaction report rpc)
    ∷ check rpc_inclusion_basis (
        not (claims_inclusion rpc)
        || (is_string (member (codes "block_number") rpc)
            && is_string (member (codes "block_hash") rpc)))
    ∷ []

unfoldable warn_if : Bool → VerificationWarning → List VerificationWarning
warn_if true w = w ∷ []
warn_if false w = []

unfoldable pub rpc_warnings : Fields → Option Fields → List VerificationWarning
unfolding same_transaction is_succeeded is_literal warn_if
rpc_warnings report none = []
rpc_warnings report (some rpc) =
    let both = same_transaction report rpc && is_succeeded report in
    warn_if (both && is_literal (codes "reverted") (member (codes "receipt_status") rpc))
      observer_reverted
    ++ warn_if (both && is_literal (codes "not_found") (member (codes "observation_state") rpc))
        observer_not_found

unfoldable pub equal_strings : Option Json → Option Json → Bool
equal_strings (some (string a)) (some (string b)) = eq_text a b
equal_strings _ _ = false

-- `agreeOnValue`
unfoldable pub agree_on_value : CheckName → Option Json → Option Json → VerificationCheck
unfolding equal_strings
agree_on_value name recorded observed = check name (equal_strings recorded observed)

-- `agreeOnOptionalDigest`
unfoldable pub agree_on_optional_digest : CheckName → Option Json → Option Json → VerificationCheck
unfolding equal_strings is_undefined
agree_on_optional_digest name recorded observed =
    if is_undefined recorded && is_undefined observed
    then check name true
    else check name (equal_strings recorded observed)

unfoldable bound_body_digest : JsonRead → Option Json
bound_body_digest (parsed v) = elim (as_object (some v)) [
  | none ↦ none
  | some fs ↦ member (codes "bodyDigest") fs
]
bound_body_digest _ = none

-- The comparison of the result binding with the observation, if there are two sides to it.
unfoldable pub result_agreement : JsonRead → Fields → List VerificationCheck
unfolding bound_body_digest is_undefined agree_on_optional_digest
result_agreement refused doc = []
result_agreement missing doc =
    agree_on_optional_digest same_origin_result none (member (codes "service_result_digest") doc)
    ∷ []
result_agreement (parsed v) doc = elim (is_undefined (bound_body_digest (parsed v))) [
  | true ↦ []
  | false ↦
      agree_on_optional_digest same_origin_result (bound_body_digest (parsed v))
        (member (codes "service_result_digest") doc)
      ∷ []
]

-- What the record and the observation state twice.
unfoldable pub agreement_checks :
    Fields → Fields → TerminalState → JsonRead → Fields → Fields → List VerificationCheck
unfolding agree_on_value agree_on_optional_digest result_agreement terminal_state_name
agreement_checks commerce evidence state binding doc expectation =
    agree_on_value same_network (member (codes "network") evidence)
      (member (codes "network") expectation)
    ∷ agree_on_value same_terminal_state (some (string (terminal_state_name state)))
        (member (codes "terminal_state") doc)
    ∷ agree_on_value same_asset (member (codes "asset") commerce)
        (member (codes "asset") expectation)
    ∷ agree_on_value same_amount (member (codes "amount_minor") commerce)
        (member (codes "amount_base_units") expectation)
    ∷ agree_on_optional_digest same_settlement_response
        (member (codes "payment_response_digest") evidence)
        (member (codes "settlement_response_digest") doc)
    ∷ result_agreement binding doc
