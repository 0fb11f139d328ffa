-- ===== src/Presence/Contract.antt =====
-- What an accepted artifact set says, and what the contracts say of the runs
-- (src/flow/presence.ts with src/flow/lifecycle.ts).
use x402_base_evidence.Common.{
  ◌≡◌, ◌↔◌, ◌⊎◌, Bool, true, false, List, [], ◌∷◌, arith, All, All-In, In-All, append-eq-nil_iff,
  In, In-append, Text, includes,
}
use x402_base_evidence.Lifecycle.{
  TerminalState, payment_was_settled, origin_result_was_written, settlement_failed,
  payment_required_only,
}
use x402_base_evidence.Presence.{
  EvidenceArtifact, evidence_artifacts, artifact_path, Expectation, required, optional, absent,
  presence_contract_for, PresenceViolation, violation, check_from, check_presence,
  origin_result_binding, origin_result_body, payment_response_txt, payment_signature_txt,
}

-- A presence meets an expectation.
abbrev Meets : Expectation → Bool → Type 0
Meets required present = present ≡ true
Meets absent present = present ≡ false
Meets optional present = Unit

-- Every artifact meets what the contract of the state expects of it.
abbrev pub Satisfies : TerminalState → List Text → Type 0
Satisfies state present =
    (a : EvidenceArtifact)
    → Meets (presence_contract_for state a) (includes present (artifact_path a))

violation-eq-nil_iff :
    (a : EvidenceArtifact) (e : Expectation) (b : Bool) → (violation a e b ≡ []) ↔ Meets e b
unfolding violation
violation-eq-nil_iff a e b = ground arith

violation-In :
    (a : EvidenceArtifact) (e : Expectation) (b : Bool) (v : PresenceViolation)
    → In v (violation a e b)
      ↔ ((v.artifact ≡ a) × (v.expectation ≡ e) × (v.present ≡ b) × ¬ Meets v.expectation v.present)
unfolding violation
violation-In a required true v = ground arith
violation-In a required false v = ground arith
violation-In a optional b v = ground arith
violation-In a absent true v = ground arith
violation-In a absent false v = ground arith

module _ (state : TerminalState) (present : List Text) where
  -- Whether an artifact is in the set, and what one round of the check says of it.
  abbrev here : EvidenceArtifact → Bool
  here a = includes present (artifact_path a)

  abbrev MeetsHere : EvidenceArtifact → Type 0
  MeetsHere a = Meets (presence_contract_for state a) (here a)

  check_from-eq-nil_iff :
      (as' : List EvidenceArtifact) → (check_from as' state present ≡ []) ↔ All MeetsHere as'
  unfolding check_from
  check_from-eq-nil_iff [] = ground arith
  check_from-eq-nil_iff (a ∷ as') = ground (
    arith,
    append-eq-nil_iff (violation a (presence_contract_for state a) (here a))
        (check_from as' state present),
    violation-eq-nil_iff a (presence_contract_for state a) (here a),
    check_from-eq-nil_iff as',
  )

  -- A violation: the artifact with what was expected of it and what was found, which do not agree.
  abbrev IsViolated : PresenceViolation → Type 0
  IsViolated v =
      (v.expectation ≡ presence_contract_for state v.artifact)
      × (v.present ≡ here v.artifact)
      × ¬ Meets v.expectation v.present

  check_from-In :
      (as' : List EvidenceArtifact) (v : PresenceViolation)
      → In v (check_from as' state present) ↔ (In v.artifact as' × IsViolated v)
  unfolding check_from
  check_from-In [] v = ground arith
  check_from-In (a ∷ as') v = ground (
    arith,
    In-append v (violation a (presence_contract_for state a) (here a))
        (check_from as' state present),
    violation-In a (presence_contract_for state a) (here a) v,
    check_from-In as' v,
  )

In-evidence_artifacts : (a : EvidenceArtifact) → In a evidence_artifacts
In-evidence_artifacts a = ground arith

-- No violation is reported exactly if every artifact meets the contract of the state: the required
-- ones are there and the absent ones are not.
pub check_presence-eq-nil_iff :
    (state : TerminalState) (present : List Text)
    → (check_presence state present ≡ []) ↔ Satisfies state present
unfolding check_presence
check_presence-eq-nil_iff state present = (
  λ e a.
      All-In (MeetsHere state present) evidence_artifacts
        ((check_from-eq-nil_iff state present evidence_artifacts).0 e) (In-evidence_artifacts a),
  λ h.
      (check_from-eq-nil_iff state present evidence_artifacts).1
        (In-All (MeetsHere state present) evidence_artifacts (λ a m. h a)),
)

-- The report lists every artifact that breaks its expectation, with what was expected and what was
-- found, and nothing else.
check_presence-In_iff :
    (state : TerminalState) (present : List Text) (v : PresenceViolation)
    → In v (check_presence state present) ↔ IsViolated state present v
unfolding check_presence
check_presence-In_iff state present v =
    ground
      (arith, check_from-In state present evidence_artifacts v, In-evidence_artifacts v.artifact)

-- An artifact set that is accepted for a terminal state agrees with what the state claims of the
-- run: after a settlement the settlement field is there, and where it is there settlement ran; the
-- origin result's binding and body are there together, and whenever the result was written; a
-- payment field is there unless the run is the challenge alone.
pub accepted-agrees :
    (state : TerminalState) (present : List Text)
    → check_presence state present ≡ []
    → ((payment_was_settled state ≡ false)
        ⊎ (includes present (artifact_path payment_response_txt) ≡ true))
      × ((includes present (artifact_path payment_response_txt) ≡ false)
          ⊎ (payment_was_settled state ≡ true)
          ⊎ (state ≡ settlement_failed))
      × (includes present (artifact_path origin_result_binding)
          ≡ includes present (artifact_path origin_result_body))
      × ((origin_result_was_written state ≡ false)
          ⊎ (includes present (artifact_path origin_result_body) ≡ true))
      × ((includes present (artifact_path payment_signature_txt) ≡ false)
          ↔ (state ≡ payment_required_only))
unfolding presence_contract_for payment_was_settled origin_result_was_written
accepted-agrees state present e =
    let h = (check_presence-eq-nil_iff state present).0 e in
    ground (
      arith,
      h payment_response_txt,
      h origin_result_binding,
      h origin_result_body,
      h payment_signature_txt,
    )
