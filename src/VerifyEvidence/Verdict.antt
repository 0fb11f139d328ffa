-- ===== src/VerifyEvidence/Verdict.antt =====
-- When a report says that the evidence verified (src/flow/verify-evidence.ts).
use x402_base_evidence.Common.{
  ◌≡◌, refl, sym, ap, ◌∙◌, ◌&&◌, Bool, true, false, Option, none, some, List, [], ◌∷◌, ◌++◌, ℕ,
  arith, inl, inr, Option-cases, Bool-cases, any, codes,
}
use x402_base_evidence.Json.{object, Fields, member, as_object}
use x402_base_evidence.Lifecycle.{TerminalState}
use x402_base_evidence.Presence.{evidence_artifacts, record_jws, check_presence, chain_observation}
use x402_base_evidence.VerifyEvidence.Agreement.{document_checks, is_given, rpc_warnings}
use x402_base_evidence.VerifyEvidence.Checks.{
  CheckName, chain_observation_document, record_signature, record_present, nested_directories,
  every_artifact_readable, extension_groups, terminal_state, presence_contract, VerificationCheck,
  check, VerificationWarning, Report, every_ok,
}
use x402_base_evidence.VerifyEvidence.Record.{
  Verification, thrown, invalid, valid, SuppliedKeyMetadata, Services, stop, conclude,
  record_checks, is_empty_list, trim,
}
use x402_base_evidence.VerifyEvidence.Reads.{
  Directory, JsonRead, parsed, missing, is_unreadable, bytes_of, terminal_state_of, present_paths,
}
use x402_base_evidence.VerifyEvidence.Stages.{digest_checks, attributed_checks, read}
use x402_base_evidence.VerifyEvidence.{
  conclude_attributed, conclude_document, conclude_observation, conclude_state, verify_groups,
  verify_record, verify_with, verify_text, verify_bytes, verify_evidence,
}
use x402_base_evidence.VerifyEvidence.Dynamic.{◌>>=◌}

-- If there is a report, its `ok` is the conjunction of its checks.
abbrev Agrees : Option Report → Type 0
Agrees o = (r : Report) → o ≡ some r → r.ok ≡ every_ok r.checks

pub every_ok-append :
    (a b : List VerificationCheck) → every_ok (a ++ b) ≡ (every_ok a && every_ok b)
every_ok-append [] b = refl
every_ok-append (c ∷ a) b = ground (arith, every_ok-append a b)

and_false : (b : Bool) → (b && false) ≡ false
and_false true = refl
and_false false = refl

pub every_ok-after-fail :
    (a : List VerificationCheck) (n : CheckName) → every_ok (a ++ check n false ∷ []) ≡ false
unfolding check
every_ok-after-fail a n = every_ok-append a (check n false ∷ []) ∙ and_false (every_ok a)

some-report : {a b : Report} → some a ≡ some b → a ≡ b
some-report h = ground arith

stop-Agrees : (checks : List VerificationCheck) → every_ok checks ≡ false → Agrees (stop checks)
stop-Agrees checks e r h =
    let same = some-report h in
    sym (ap (λ (x : Report). x.ok) same) ∙ (sym e ∙ ap (λ (x : Report). every_ok x.checks) same)

conclude-Agrees :
    (checks : List VerificationCheck) (warnings : List VerificationWarning)
    → Agrees (conclude checks warnings)
conclude-Agrees checks warnings r h =
    let same = some-report h in
    sym (ap (λ (x : Report). x.ok) same) ∙ ap (λ (x : Report). every_ok x.checks) same

bind-Agrees :
    {A : Type 0} (o : Option A) (f : A → Option Report)
    → ((a : A) → Agrees (f a))
    → Agrees (o >>= f)
bind-Agrees none f k r h = absurd (ground arith)
bind-Agrees (some a) f k r h = k a r h

document_checks-refused :
    (doc : Fields) (e r : Option Fields)
    → (is_given e && is_given r) ≡ false
    → every_ok (document_checks doc e r) ≡ false
unfolding document_checks check
document_checks-refused doc e r h = ground arith

before-refused :
    (before : List VerificationCheck) (doc : Fields) (e r : Option Fields)
    → (is_given e && is_given r) ≡ false
    → every_ok (before ++ document_checks doc e r) ≡ false
before-refused before doc e r h =
    every_ok-append before (document_checks doc e r)
    ∙ rw (document_checks-refused doc e r h) (and_false (every_ok before))

module _ (s : Services) (d : Directory) where
  conclude_attributed-Agrees :
      (commerce evidence : Fields) (state : TerminalState) (before : List VerificationCheck)
      (doc : Fields) (e r : Option Fields)
      → Agrees (
          conclude_attributed s d commerce evidence state
            (before ++ document_checks doc e r)
            doc
            e
            r)
  unfolding conclude_attributed is_given
  conclude_attributed-Agrees commerce evidence state before doc none r =
      stop-Agrees (before ++ document_checks doc none r) (before-refused before doc none r refl)
  conclude_attributed-Agrees commerce evidence state before doc (some e) none =
      stop-Agrees (before ++ document_checks doc (some e) none)
        (before-refused before doc (some e) none refl)
  conclude_attributed-Agrees commerce evidence state before doc (some e) (some r) =
      bind-Agrees (attributed_checks s d commerce evidence state doc e r) _ (λ more.
        conclude-Agrees ((before ++ document_checks doc (some e) (some r)) ++ more)
          (rpc_warnings r (as_object (member (codes "rpc_observation") doc))))

  conclude_observation-Agrees :
      (commerce evidence : Fields) (state : TerminalState) (before : List VerificationCheck)
      (v : JsonRead)
      → Agrees (conclude_observation s d commerce evidence state before v)
  unfolding conclude_observation conclude_document
  conclude_observation-Agrees commerce evidence state before missing = conclude-Agrees before []
  conclude_observation-Agrees commerce evidence state before (parsed (object doc)) =
      conclude_attributed-Agrees commerce evidence state before doc
        (as_object (member (codes "payment_expectation") doc))
        (as_object (member (codes "chain_observation") doc))
  conclude_observation-Agrees commerce evidence state before other =
      conclude-Agrees (before ++ check chain_observation_document false ∷ []) []

  conclude_state-Agrees :
      (commerce evidence : Fields) (before : List VerificationCheck) (o : Option TerminalState)
      → Agrees (conclude_state s d commerce evidence before o)
  unfolding conclude_state
  conclude_state-Agrees commerce evidence before none =
      stop-Agrees (before ++ check terminal_state false ∷ [])
        (every_ok-after-fail before terminal_state)
  conclude_state-Agrees commerce evidence before (some state) =
      conclude_observation-Agrees commerce evidence state
        (before
          ++ check presence_contract (is_empty_list (check_presence state (present_paths d))) ∷ [])
        (read s d chain_observation)

  verify_groups-Agrees :
      (before : List VerificationCheck) (c e : Option Fields)
      → Agrees (verify_groups s d before c e)
  unfolding verify_groups
  verify_groups-Agrees before none e =
      stop-Agrees (before ++ check extension_groups false ∷ [])
        (every_ok-after-fail before extension_groups)
  verify_groups-Agrees before (some c) none =
      stop-Agrees (before ++ check extension_groups false ∷ [])
        (every_ok-after-fail before extension_groups)
  verify_groups-Agrees before (some c) (some e) = bind-Agrees (digest_checks s d e) _ (λ digests.
      conclude_state-Agrees c e (before ++ check extension_groups true ∷ digests)
        (terminal_state_of (member (codes "terminal_state") e)))

  verification-Agrees :
      (key : Option SuppliedKeyMetadata) (v : Verification) → Agrees (verify_with s d key v)
  unfolding verify_with verify_record check
  verification-Agrees key thrown = stop-Agrees (check record_signature false ∷ []) refl
  verification-Agrees key invalid = stop-Agrees (check record_signature false ∷ []) refl
  verification-Agrees key (valid r) =
      verify_groups-Agrees (record_checks key r) r.commerce r.payment_evidence

  verify_bytes-Agrees :
      (key : Option SuppliedKeyMetadata) (bytes : Option (List ℕ))
      → Agrees (verify_bytes s d key bytes)
  unfolding verify_bytes verify_text check
  verify_bytes-Agrees key none = stop-Agrees (check record_present false ∷ []) refl
  verify_bytes-Agrees key (some bytes) = elim (Option-cases (s.decode_utf8 bytes)) [
    | inl e ↦ rw e (stop-Agrees (check record_signature false ∷ []) refl)
    | inr (text, e) ↦ rw e (verification-Agrees key (s.verify_local (trim text)))
  ]

  -- On every way out of a verification, early or at the end, the report's `ok` is exactly the
  -- conjunction of its checks: a refusal always names a check that failed, and no warning decides.
  pub verify_evidence-ok :
      (key : Option SuppliedKeyMetadata) (r : Report)
      → verify_evidence s d key ≡ some r
      → r.ok ≡ every_ok r.checks
  unfolding verify_evidence check
  verify_evidence-ok key r h = elim (Bool-cases d.container_refused) [
    | inl e ↦ stop-Agrees (check nested_directories false ∷ []) refl r (rw e at h)
    | inr e ↦ elim (Bool-cases (any (λ a. is_unreadable (d.read_artifact a)) evidence_artifacts)) [
      | inl f ↦ stop-Agrees (check every_artifact_readable false ∷ []) refl r (rw f at (rw e at h))
      | inr f ↦ verify_bytes-Agrees key (bytes_of d record_jws) r (rw f at (rw e at h))
    ]
  ]
