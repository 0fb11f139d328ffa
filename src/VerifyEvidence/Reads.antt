-- ===== src/VerifyEvidence/Reads.antt =====
-- src/flow/verify-evidence.ts: reading the artifacts of a directory, and admitting its sidecars. What
-- src/flow/safe-read.ts gives for a name is the directory's state here.
use x402_base_evidence.Common.{
  ℕ, Bool, true, false, Option, none, some, List, [], ◌∷◌, Text, codes, eq_text,
}
use x402_base_evidence.Json.{Json, string}
use x402_base_evidence.Lifecycle.{
  TerminalState, write_attempted, payment_rejected_pre_verification, verification_rejected,
  handler_error_status, settlement_failed, payment_required_only,
}
use x402_base_evidence.Presence.{EvidenceArtifact, evidence_artifacts, artifact_path}
use x402_base_evidence.StrictJson.Admission.{StrictJsonRead, refused_as}

-- `ArtifactRead`
pub data ArtifactRead : Type 0 where
  present : List ℕ → ArtifactRead
  absent : ArtifactRead
  unreadable : ArtifactRead

-- An evidence directory: whether its one container, `artifacts`, was refused, and what the read of
-- each artifact gives.
pub record Directory : Type 0 where
  pub container_refused : Bool
  pub read_artifact : EvidenceArtifact → ArtifactRead

unfoldable pub is_unreadable : ArtifactRead → Bool
is_unreadable unreadable = true
is_unreadable _ = false

-- The map `present`, at one artifact.
unfoldable bytes_read : ArtifactRead → Option (List ℕ)
bytes_read (present bytes) = some bytes
bytes_read _ = none

unfoldable pub bytes_of : Directory → EvidenceArtifact → Option (List ℕ)
unfolding bytes_read
bytes_of d a = bytes_read (d.read_artifact a)

unfoldable pub add_path : Option (List ℕ) → EvidenceArtifact → List Text → List Text
add_path none a rest = rest
add_path (some bytes) a rest = artifact_path a ∷ rest

-- The paths of those of the artifacts that are present.
unfoldable pub paths_from : Directory → List EvidenceArtifact → List Text
unfolding add_path bytes_of
paths_from d [] = []
paths_from d (a ∷ as') = add_path (bytes_of d a) a (paths_from d as')

-- `present.keys()`
unfoldable pub present_paths : Directory → List Text
unfolding paths_from
present_paths d = paths_from d evidence_artifacts

-- `JsonRead`
pub data JsonRead : Type 0 where
  parsed : Json → JsonRead
  refused : JsonRead
  missing : JsonRead

unfoldable pub admitted : StrictJsonRead → JsonRead
admitted (StrictJsonRead.parsed v) = JsonRead.parsed v
admitted (refused_as r) = refused

-- `readJsonArtifact` of the bytes; the cache of it changes no answer.
unfoldable pub read_json : (List ℕ → StrictJsonRead) → Option (List ℕ) → JsonRead
unfolding admitted
read_json parse_strict none = missing
read_json parse_strict (some bytes) = admitted (parse_strict bytes)

-- The source's names of the terminal states.
unfoldable pub terminal_state_name : TerminalState → Text
terminal_state_name write_attempted = codes "response_write_attempted"
terminal_state_name payment_rejected_pre_verification = codes "payment_rejected_pre_verification"
terminal_state_name verification_rejected = codes "verification_rejected"
terminal_state_name handler_error_status = codes "handler_error_status"
terminal_state_name settlement_failed = codes "settlement_failed"
terminal_state_name payment_required_only = codes "payment_required_only"

abbrev terminal_states : List TerminalState
terminal_states =
    write_attempted ∷ payment_rejected_pre_verification ∷ verification_rejected
    ∷ handler_error_status ∷ settlement_failed ∷ payment_required_only ∷ []

unfoldable state_named : List TerminalState → Text → Option TerminalState
unfolding terminal_state_name
state_named [] t = none
state_named (s ∷ ss) t = elim (eq_text (terminal_state_name s) t) [
  | true ↦ some s
  | false ↦ state_named ss t
]

-- `isTerminalState`, with the state that is named.
unfoldable pub terminal_state_of : Option Json → Option TerminalState
unfolding state_named
terminal_state_of (some (string t)) = state_named terminal_states t
terminal_state_of _ = none
