-- ===== src/Tests/Evidence.antt =====
-- An evidence directory of a run that ended with the payment requirements, and a comparison.
use x402_base_evidence.Common.{
  ℕ, ◌≡◌, refl, ◌++◌, true, false, Option, none, some, List, [], ◌∷◌, Text, codes, eq_text, any,
}
use x402_base_evidence.Digest.{is_sha256_digest}
use x402_base_evidence.Json.{Json, string, object, Fields, field, end, member, as_object, as_string}
use x402_base_evidence.Lifecycle.{payment_required_only}
use x402_base_evidence.Presence.{
  EvidenceArtifact, evidence_artifacts, record_jws, request_binding, payment_required_txt,
  chain_observation, artifact_path,
}
use x402_base_evidence.SealedObservation.{Transfer, SealedRpcObservation, found, success}
use x402_base_evidence.Settlement.{
  PaymentExpectation, SettlementReport, ExpectationComparison, facilitator, not_reached,
}
use x402_base_evidence.StrictJson.Admission.{StrictJsonRead}
use x402_base_evidence.VerifyEvidence.Agreed.{Consistent, verify_evidence-Consistent}
use x402_base_evidence.VerifyEvidence.Agreement.{profile_chain_observation}
use x402_base_evidence.VerifyEvidence.Checks.{Report, every_ok, check}
use x402_base_evidence.VerifyEvidence.Comparison.{
  compare_documents, transfer_agrees, verdict_of, linked_by,
}
use x402_base_evidence.VerifyEvidence.Reads.{
  Directory, ArtifactRead, present, absent, is_unreadable, bytes_of,
}
use x402_base_evidence.VerifyEvidence.Record.{VerifiedRecord, valid, Services, payment_record_type}
use x402_base_evidence.VerifyEvidence.Recomputed.{ShowsExpectation, ShowsTransfer, with_transfer}
use x402_base_evidence.VerifyEvidence.Throws.{conclude_document-throws}
use x402_base_evidence.VerifyEvidence.Verdicts.{Says, compare_documents-Says}
use x402_base_evidence.VerifyEvidence.Verdict.{verify_evidence-ok}
use x402_base_evidence.VerifyEvidence.Whole.{Holds, verify_evidence-Holds}
use x402_base_evidence.VerifyEvidence.{verify_evidence, conclude_document}

abbrev zeros : Text
zeros = codes "0000000000000000000000000000000000000000000000000000000000000000"

abbrev digest : Text
digest = codes "sha256:" ++ zeros

abbrev text : Text → Json
text t = string t

abbrev expectation : Fields
expectation = field (codes "network") (text (codes "base")) (
    field (codes "asset") (text (codes "0xa")) (
      field (codes "amount_base_units") (text (codes "5"))
        (field (codes "recipient") (text (codes "0xb")) end)))

abbrev report : Fields
report = field (codes "settlement_outcome") (text (codes "not_reached")) end

abbrev recorded : Fields
recorded = field (codes "network") (text (codes "not_evaluated")) (
    field (codes "asset") (text (codes "not_evaluated")) (
      field (codes "recipient") (text (codes "not_evaluated")) (
        field (codes "amount") (text (codes "not_evaluated")) (
          field (codes "authorization") (text (codes "not_evaluated"))
            (field (codes "transfer_event") (text (codes "not_evaluated")) end)))))

abbrev observation_with : Fields → Fields
observation_with more = field (codes "profile") (text profile_chain_observation) (
    field (codes "scheme") (text (codes "exact")) (
      field (codes "payment_expectation") (object expectation) (
        field (codes "chain_observation") (object report) (
          field (codes "comparison") (object recorded)
            (field (codes "terminal_state") (text (codes "payment_required_only")) more)))))

abbrev evidence : Fields
evidence = field (codes "request_binding_digest") (text digest) (
    field (codes "chain_observation_digest") (text digest) (
      field (codes "payment_required_digest") (text digest) (
        field (codes "network") (text (codes "base"))
          (field (codes "terminal_state") (text (codes "payment_required_only")) end))))

abbrev commerce : Fields
commerce =
    field (codes "asset") (text (codes "0xa")) (field (codes "amount_minor") (text (codes "5")) end)

abbrev verified : VerifiedRecord
verified = record {
  kid = codes "k";
  issuer = none;
  record_type = some (text payment_record_type);
  commerce = some commerce;
  payment_evidence = some evidence;
}

-- The observation is the document of the bytes 2.
abbrev services : Services
services = record {
  verify_local = λ t. valid verified;
  decode_utf8 = λ b. some b;
  parse_strict = λ b. elim b [
    | [] ↦ StrictJsonRead.parsed (object end)
    | c ∷ cs ↦ StrictJsonRead.parsed (object (observation_with end))
  ];
  jcs_digest = λ v. some digest;
  sha256_hex = λ b. zeros;
  validate_local_profile = λ p v. true;
  capture = λ h t. none;
  extract_identifier = λ v. none;
  is_ip = λ t. 0;
}

abbrev files : EvidenceArtifact → ArtifactRead
files record_jws = present (codes "e.y.J")
files request_binding = present []
files payment_required_txt = present (codes "e30=")
files chain_observation = present (2 ∷ [])
files _ = absent

abbrev directory : Directory
directory = record { container_refused = false; read_artifact = files }

abbrev report_of : Option Report → Report
report_of none = record { ok = false; checks = []; warnings = [] }
report_of (some r) = r

abbrev sound : Report
sound = report_of (verify_evidence services directory none)

sound_reported : verify_evidence services directory none ≡ some sound
unfolding verify_evidence member eq_text is_sha256_digest as_object transfer_agrees verdict_of
sound_reported = refl

sound_verified : sound.ok ≡ true
unfolding verify_evidence member eq_text is_sha256_digest as_object transfer_agrees verdict_of check
    artifact_path linked_by
sound_verified = refl

verify_evidence-ok_example : sound.ok ≡ every_ok sound.checks
verify_evidence-ok_example = verify_evidence-ok services directory none sound sound_reported

verify_evidence-Holds_example :
    (bytes : List ℕ) × (read : Text) × (r : VerifiedRecord) × (any
        (λ a. is_unreadable (files a))
        evidence_artifacts
      ≡ false)
    × (bytes_of directory record_jws ≡ some bytes)
    × (some bytes ≡ some read)
    × (valid verified ≡ valid r)
    × Holds services directory r
verify_evidence-Holds_example =
    verify_evidence-Holds services directory none sound sound_reported sound_verified

verify_evidence-Consistent_example :
    (r : VerifiedRecord) × (holds : Holds services directory r) × Consistent holds.commerce
      holds.evidence holds.state holds.observed.doc holds.observed.expectation holds.observed.report
verify_evidence-Consistent_example =
    verify_evidence-Consistent services directory none sound sound_reported sound_verified

abbrev malformed : Fields
malformed = field (codes "token_transfer") (object end) end

abbrev with_malformed : Fields
with_malformed = observation_with (field (codes "rpc_observation") (object malformed) end)

expectation_read :
    as_object (member (codes "payment_expectation") with_malformed) ≡ some expectation
unfolding as_object member eq_text
expectation_read = refl

report_read : as_object (member (codes "chain_observation") with_malformed) ≡ some report
unfolding as_object member eq_text
report_read = refl

recorded_read : as_object (member (codes "comparison") with_malformed) ≡ some recorded
unfolding as_object member eq_text
recorded_read = refl

account_read : as_object (member (codes "rpc_observation") with_malformed) ≡ some malformed
unfolding as_object member eq_text
account_read = refl

transfer_read : member (codes "token_transfer") malformed ≡ some (object end)
unfolding member eq_text
transfer_read = refl

token_unread : as_string (member (codes "token_contract") end) ≡ none
unfolding member as_string
token_unread = refl

conclude_document-throws_example :
    conclude_document services directory commerce evidence payment_required_only [] with_malformed
    ≡ none
conclude_document-throws_example =
    conclude_document-throws services directory commerce evidence payment_required_only []
      with_malformed expectation report recorded malformed end expectation_read report_read
      recorded_read account_read transfer_read token_unread

abbrev expected : PaymentExpectation
expected = record {
  network = codes "base";
  asset = codes "0xa";
  amount_base_units = codes "5";
  asset_decimals = 6;
  recipient = codes "0xb";
  payer = none;
  authorization_digest = none;
}

abbrev reported : SettlementReport
reported = record {
  source = record { kind = facilitator; reference = codes "f" };
  settlement_outcome = not_reached;
  transaction_hash = none;
  network_reported = none;
  payer_reported = none;
  observed_at_unix_seconds = 7;
}

expectation_shown : ShowsExpectation expected expectation
unfolding member eq_text
expectation_shown = record {
  network = refl;
  asset = refl;
  amount = refl;
  recipient = refl;
  payer = refl;
  digest = refl;
}

network_unreported : member (codes "network_reported") report ≡ none
unfolding member eq_text
network_unreported = refl

abbrev moved : Transfer
moved = record {
  token_contract = codes "0xA";
  transfer_from = codes "0xc";
  transfer_to = codes "0xb";
  transfer_amount = codes "5";
}

abbrev account : SealedRpcObservation
account = record {
  reference = codes "r";
  transaction_hash = codes "0x1";
  observation_state = found;
  observation_level = none;
  receipt_status = some success;
  transaction_sender = none;
  block_number = none;
  block_hash = none;
  token_transfer = some moved;
  unavailable_reason = none;
  observed_at_unix_seconds = 7;
}

abbrev moved_fields : Fields
moved_fields = field (codes "token_contract") (text (codes "0xA")) (
    field (codes "transfer_from") (text (codes "0xc")) (
      field (codes "transfer_to") (text (codes "0xb"))
        (field (codes "transfer_amount") (text (codes "5")) end)))

abbrev account_fields : Fields
account_fields =
    field (codes "receipt_status") (text (codes "success"))
      (field (codes "token_transfer") (object moved_fields) end)

transfer_shown : ShowsTransfer moved moved_fields
unfolding member eq_text
transfer_shown = record { token = refl; from' = refl; to = refl; amount = refl }

transfer_there : member (codes "token_transfer") account_fields ≡ some (object moved_fields)
unfolding member eq_text
transfer_there = refl

status_there : member (codes "receipt_status") account_fields ≡ some (text (codes "success"))
unfolding member eq_text
status_there = refl

compare_documents-Says_example :
    (c : ExpectationComparison) × (compare_documents expectation report (some account_fields)
      ≡ some c)
    × Says expected reported (some account) c
compare_documents-Says_example =
    compare_documents-Says expected reported (some account) expectation report (some account_fields)
      expectation_shown network_unreported
      (with_transfer account moved account_fields moved_fields refl transfer_there transfer_shown
        status_there)
