-- ===== src/VerifyEvidence/Whole.antt =====
-- The composition of the stages: what a report that verified says (src/flow/verify-evidence.ts).
use x402_base_evidence.Common.{
  ◌≡◌, refl, inl, inr, Text, true, false, Option, none, some, List, [], ◌∷◌, ◌++◌, ℕ, arith,
  Bool-cases, Option-cases, any, codes, includes,
}
use x402_base_evidence.Components.{is_literal}
use x402_base_evidence.Json.{string, Fields, member}
use x402_base_evidence.Lifecycle.{
  TerminalState, write_attempted, payment_rejected_pre_verification, verification_rejected,
  handler_error_status, settlement_failed, payment_required_only,
}
use x402_base_evidence.Presence.Contract.{Satisfies, check_presence-eq-nil_iff}
use x402_base_evidence.Presence.{
  evidence_artifacts, record_jws, check_presence, chain_observation, artifact_path,
  PresenceViolation, presence_contract_for,
}
use x402_base_evidence.VerifyEvidence.Checks.{
  record_signature, record_present, nested_directories, every_artifact_readable, extension_groups,
  terminal_state, presence_contract, VerificationCheck, check, Report, every_ok,
  record_type as record_type_check,
}
use x402_base_evidence.VerifyEvidence.Dynamic.{>>=-eq-some}
use x402_base_evidence.VerifyEvidence.Presented.{chain_observation-present}
use x402_base_evidence.VerifyEvidence.Reads.{
  Directory, missing, is_unreadable, bytes_of, terminal_state_of, present_paths, read_json,
  admitted,
}
use x402_base_evidence.VerifyEvidence.Record.{
  VerifiedRecord, Verification, valid, SuppliedKeyMetadata, Services, record_checks,
  payment_record_type, key_checks, trim, is_empty_list,
}
use x402_base_evidence.VerifyEvidence.Sound.{
  DigestsHold, digest_checks-DigestsHold, Concluded, observation-Concluded, every_ok-both,
  refused-ok, not-ok, cons-ok, is_literal-eq-true,
}
use x402_base_evidence.VerifyEvidence.Stages.{digest_checks, read}
use x402_base_evidence.VerifyEvidence.{
  conclude_state, verify_groups, verify_record, verify_with, verify_text, verify_bytes,
  verify_evidence,
}
use x402_base_evidence.StrictJson.Admission.{StrictJsonRead, refused_as}

is_empty_list-eq-true : (l : List PresenceViolation) → is_empty_list l ≡ true → l ≡ []
unfolding is_empty_list
is_empty_list-eq-true [] h = refl
is_empty_list-eq-true (v ∷ l) h = absurd (ground arith)

admitted-ne-missing : (r : StrictJsonRead) → admitted r ≡ missing → ⊥
unfolding admitted
admitted-ne-missing (StrictJsonRead.parsed v) h = ground arith
admitted-ne-missing (refused_as e) h = ground arith

read_json-ne-missing :
    (parse_strict : List ℕ → StrictJsonRead) (bytes : Option (List ℕ)) (b : List ℕ)
    → bytes ≡ some b
    → read_json parse_strict bytes ≡ missing
    → ⊥
unfolding read_json
read_json-ne-missing parse_strict none b h k = ground arith
read_json-ne-missing parse_strict (some c) b h k = admitted-ne-missing (parse_strict c) k

Satisfies-chain_observation :
    (state : TerminalState) (d : Directory)
    → Satisfies state (present_paths d)
    → includes (present_paths d) (artifact_path chain_observation) ≡ true
unfolding presence_contract_for
Satisfies-chain_observation write_attempted d h = h chain_observation
Satisfies-chain_observation payment_rejected_pre_verification d h = h chain_observation
Satisfies-chain_observation verification_rejected d h = h chain_observation
Satisfies-chain_observation handler_error_status d h = h chain_observation
Satisfies-chain_observation settlement_failed d h = h chain_observation
Satisfies-chain_observation payment_required_only d h = h chain_observation

record_checks-typed :
    (key : Option SuppliedKeyMetadata) (r : VerifiedRecord)
    → every_ok (record_checks key r) ≡ true
    → r.record_type ≡ some (string payment_record_type)
unfolding record_checks check
record_checks-typed key r h =
    let t = check record_type_check (is_literal payment_record_type r.record_type) in
    let (_, both) = cons-ok (check record_signature true) (key_checks key r ++ t ∷ []) h in
    let (_, last) = every_ok-both (key_checks key r) (t ∷ []) both in
    is_literal-eq-true payment_record_type r.record_type (cons-ok t [] last).0

module _ (s : Services) (d : Directory) where
  -- What a verified record and the directory beside it satisfy.
  pub record Holds (r : VerifiedRecord) : Type 0 where
    pub commerce : Fields
    pub evidence : Fields
    pub state : TerminalState
    pub carried : r.commerce ≡ some commerce
    pub bound : r.payment_evidence ≡ some evidence
    pub typed : r.record_type ≡ some (string payment_record_type)
    pub digests : DigestsHold s d evidence
    pub named : terminal_state_of (member (codes "terminal_state") evidence) ≡ some state
    pub present : Satisfies state (present_paths d)
    pub observed : Concluded s d commerce evidence state (read s d chain_observation)

  state-Holds :
      (r : VerifiedRecord) (commerce evidence : Fields) (before : List VerificationCheck)
      (o : Option TerminalState) (p : Report)
      → conclude_state s d commerce evidence before o ≡ some p
      → p.ok ≡ true
      → (every_ok before ≡ true)
        × (state : TerminalState) × (o ≡ some state)
        × Satisfies state (present_paths d)
        × Concluded s d commerce evidence state (read s d chain_observation)
  unfolding conclude_state check
  state-Holds r commerce evidence before none p h k =
      not-ok p _ (refused-ok (before ++ check terminal_state false ∷ []) p h) k
  state-Holds r commerce evidence before (some state) p h k =
      let met = check presence_contract (is_empty_list (check_presence state (present_paths d))) in
      let (first, ended) =
        observation-Concluded s d commerce evidence state (before ++ met ∷ [])
          (read s d chain_observation) p h k in
      let (earlier, last) = every_ok-both before (met ∷ []) first in
      let present =
        (check_presence-eq-nil_iff state (present_paths d)).0 (
          is_empty_list-eq-true (check_presence state (present_paths d)) (cons-ok met [] last).0) in
      elim ended [
        | inl gone ↦
            let (b, there) =
              chain_observation-present d (Satisfies-chain_observation state d present) in
            absurd (read_json-ne-missing s.parse_strict (bytes_of d chain_observation) b there gone)
        | inr c ↦ (earlier, state, refl, present, c)
      ]

  groups-Holds :
      (key : Option SuppliedKeyMetadata) (r : VerifiedRecord) (c e : Option Fields) (p : Report)
      → r.commerce ≡ c
      → r.payment_evidence ≡ e
      → verify_groups s d (record_checks key r) c e ≡ some p
      → p.ok ≡ true
      → Holds r
  unfolding verify_groups
  groups-Holds key r none e p is_c is_e h k =
      not-ok p _ (refused-ok (record_checks key r ++ check extension_groups false ∷ []) p h) k
  groups-Holds key r (some c) none p is_c is_e h k =
      not-ok p _ (refused-ok (record_checks key r ++ check extension_groups false ∷ []) p h) k
  groups-Holds key r (some c) (some e) p is_c is_e h k =
      let (digests, made, rest) = >>=-eq-some (digest_checks s d e) _ h in
      let (first, state, named, present, ended) =
        state-Holds r c e (record_checks key r ++ check extension_groups true ∷ digests)
          (terminal_state_of (member (codes "terminal_state") e)) p rest k in
      let (typed, later) =
        every_ok-both (record_checks key r) (check extension_groups true ∷ digests) first in
      record {
        commerce = c;
        evidence = e;
        state = state;
        carried = is_c;
        bound = is_e;
        typed = record_checks-typed key r typed;
        digests =
            digest_checks-DigestsHold s d e digests made
              (cons-ok (check extension_groups true) digests later).1;
        named = named;
        present = present;
        observed = ended;
      }

  with-Holds :
      (key : Option SuppliedKeyMetadata) (v : Verification) (p : Report)
      → verify_with s d key v ≡ some p
      → p.ok ≡ true
      → (r : VerifiedRecord) × (v ≡ valid r) × Holds r
  unfolding verify_with verify_record
  with-Holds key (valid r) p h k =
      (r, refl, groups-Holds key r r.commerce r.payment_evidence p refl refl h k)
  with-Holds key other p h k = not-ok p _ (refused-ok (check record_signature false ∷ []) p h) k

  bytes-Holds :
      (key : Option SuppliedKeyMetadata) (o : Option (List ℕ)) (p : Report)
      → verify_bytes s d key o ≡ some p
      → p.ok ≡ true
      → (bytes : List ℕ) × (text : Text) × (r : VerifiedRecord) × (o ≡ some bytes)
        × (s.decode_utf8 bytes ≡ some text)
        × (s.verify_local (trim text) ≡ valid r)
        × Holds r
  unfolding verify_bytes verify_text
  bytes-Holds key none p h k = not-ok p _ (refused-ok (check record_present false ∷ []) p h) k
  bytes-Holds key (some bytes) p h k = elim (Option-cases (s.decode_utf8 bytes)) [
    | inl e ↦ not-ok p _ (refused-ok (check record_signature false ∷ []) p (rw e at h)) k
    | inr (text, e) ↦
        let (r, is_valid, holds) = with-Holds key (s.verify_local (trim text)) p (rw e at h) k in
        (bytes, text, r, refl, e, is_valid, holds)
  ]

  -- Evidence that verified has no unreadable artifact and a record that verifies; the record has the
  -- payment type and both extension groups, binds a digest exactly for the sidecars and field values
  -- that are present, each of them the recomputed one, names a terminal state whose presence contract
  -- the directory satisfies, and a chain observation is there that was checked to its end.
  pub verify_evidence-Holds :
      (key : Option SuppliedKeyMetadata) (p : Report)
      → verify_evidence s d key ≡ some p
      → p.ok ≡ true
      → (bytes : List ℕ) × (text : Text) × (r : VerifiedRecord) × (any
            (λ a. is_unreadable (d.read_artifact a))
            evidence_artifacts
          ≡ false)
        × (bytes_of d record_jws ≡ some bytes)
        × (s.decode_utf8 bytes ≡ some text)
        × (s.verify_local (trim text) ≡ valid r)
        × Holds r
  unfolding verify_evidence
  verify_evidence-Holds key p h k = elim (Bool-cases d.container_refused) [
    | inl e ↦ not-ok p _ (refused-ok (check nested_directories false ∷ []) p (rw e at h)) k
    | inr e ↦ elim (Bool-cases (any (λ a. is_unreadable (d.read_artifact a)) evidence_artifacts)) [
      | inl f ↦
          not-ok p _ (refused-ok (check every_artifact_readable false ∷ []) p (rw f at (rw e at h)))
            k
      | inr f ↦
          let (bytes, text, r, e1, e2, e3, holds) =
            bytes-Holds key (bytes_of d record_jws) p (rw f at (rw e at h)) k in
          (bytes, text, r, f, e1, e2, e3, holds)
    ]
  ]
