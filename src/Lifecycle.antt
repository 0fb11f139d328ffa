-- ===== src/Lifecycle.antt =====
-- src/flow/lifecycle.ts: the lifecycle positions, the terminal states, and the recorder.
pub mod Observation
use x402_base_evidence.Common.{
  ℕ, ◌+◌, Bool, true, false, not, ◌&&◌, ◌||◌, Option, none, some, List, [], ◌∷◌, ◌++◌, ◌==◌,
  if◌then◌else◌, Text,
}
use x402_base_evidence.FailureVocabulary.{FailureReason}

pub data LifecycleState : Type 0 where
  request_received payment_required payment_payload_received payment_verified : LifecycleState
  resource_executed payment_settled response_prepared response_write_attempted : LifecycleState

abbrev pub lifecycle_states : List LifecycleState
lifecycle_states =
    request_received ∷ payment_required ∷ payment_payload_received ∷ payment_verified
    ∷ resource_executed ∷ payment_settled ∷ response_prepared ∷ response_write_attempted ∷ []

-- The index of a state in `LIFECYCLE_STATES`.
unfoldable pub position : LifecycleState → ℕ
position request_received = 0
position payment_required = 1
position payment_payload_received = 2
position payment_verified = 3
position resource_executed = 4
position payment_settled = 5
position response_prepared = 6
position response_write_attempted = 7

-- `===` on states, and `states.includes(s)`.
unfoldable pub same_state : LifecycleState → LifecycleState → Bool
unfolding position
same_state a b = position a == position b

unfoldable pub has_state : List LifecycleState → LifecycleState → Bool
unfolding same_state
has_state [] s = false
has_state (t ∷ ts) s = same_state t s || has_state ts s

-- `write_attempted` is the source's terminal state `response_write_attempted`.
pub data TerminalState : Type 0 where
  write_attempted payment_rejected_pre_verification verification_rejected : TerminalState
  handler_error_status settlement_failed payment_required_only : TerminalState

unfoldable pub origin_result_was_written : TerminalState → Bool
origin_result_was_written write_attempted = true
origin_result_was_written handler_error_status = true
origin_result_was_written _ = false

unfoldable pub payment_was_settled : TerminalState → Bool
payment_was_settled write_attempted = true
payment_was_settled _ = false

-- `LifecycleRecorder['detail']`
pub record Detail : Type 0 where
  pub cancellation_reason : Option FailureReason
  pub failure_reason : Option FailureReason
  pub transaction : Option Text
  pub payer : Option Text
  pub response_status : Option ℕ

-- A member of an object that is spread: absent, or given, where `given none` is `undefined`.
pub data Member (A : Type 0) : Type 0 where
  absent : Member A
  given : Option A → Member A

pub record Patch : Type 0 where
  pub cancellation_reason : Member FailureReason
  pub failure_reason : Member FailureReason
  pub transaction : Member Text
  pub payer : Member Text
  pub response_status : Member ℕ

abbrev pub no_patch : Patch
no_patch = record {
  cancellation_reason = absent;
  failure_reason = absent;
  transaction = absent;
  payer = absent;
  response_status = absent;
}

abbrev spread : {A : Type 0} → Option A → Member A → Option A
spread old absent = old
spread old (given new) = new

-- `{ ...this.detail, ...detail }`
unfoldable merge : Detail → Patch → Detail
merge d p = record {
  cancellation_reason = spread d.cancellation_reason p.cancellation_reason;
  failure_reason = spread d.failure_reason p.failure_reason;
  transaction = spread d.transaction p.transaction;
  payer = spread d.payer p.payer;
  response_status = spread d.response_status p.response_status;
}

pub record Recorder : Type 0 where
  pub seen : List LifecycleState
  pub terminal : TerminalState
  pub terminal_reported : Bool
  pub detail : Detail

abbrev no_detail : Detail
no_detail = record {
  cancellation_reason = none;
  failure_reason = none;
  transaction = none;
  payer = none;
  response_status = none;
}

-- `new LifecycleRecorder()`
abbrev pub new_recorder : Recorder
new_recorder = record {
  seen = [];
  terminal = payment_required_only;
  terminal_reported = false;
  detail = no_detail;
}

unfoldable pub enter : LifecycleState → Recorder → Recorder
unfolding has_state
enter s r = if has_state r.seen s then r else record r { seen = r.seen ++ s ∷ [] }

unfoldable pub finish : TerminalState → Patch → Recorder → Recorder
unfolding merge
finish s p r = record r { terminal = s; terminal_reported = true; detail = merge r.detail p }

unfoldable pub note : Patch → Recorder → Recorder
unfolding merge
note p r = record r { detail = merge r.detail p }

abbrev pub has_terminal_state : Recorder → Bool
has_terminal_state r = r.terminal_reported

pub record LifecycleObservation : Type 0 where
  pub states : List LifecycleState
  pub terminal_state : TerminalState
  pub cancellation_reason : Option FailureReason
  pub failure_reason : Option FailureReason
  pub transaction : Option Text
  pub payer : Option Text
  pub response_status : Option ℕ

-- A text stands in the observation if it is truthy. No reason is the empty text.
unfoldable pub truthy : Option Text → Option Text
truthy (some []) = none
truthy o = o

-- `LIFECYCLE_STATES.filter((s) => this.seen.includes(s))`
unfoldable pub keep_seen : List LifecycleState → List LifecycleState → List LifecycleState
unfolding has_state
keep_seen seen [] = []
keep_seen seen (s ∷ ss) = if has_state seen s then s ∷ keep_seen seen ss else keep_seen seen ss

unfoldable pub observation : Recorder → LifecycleObservation
unfolding keep_seen truthy
observation r = record {
  states = keep_seen r.seen lifecycle_states;
  terminal_state = r.terminal;
  cancellation_reason = r.detail.cancellation_reason;
  failure_reason = r.detail.failure_reason;
  transaction = truthy r.detail.transaction;
  payer = truthy r.detail.payer;
  response_status = r.detail.response_status;
}
