-- ===== src/VerifyEvidence/Agreed.antt =====
-- The record and the observation of evidence that verified (src/flow/verify-evidence.ts).
use x402_base_evidence.Common.{
  ◌≡◌, refl, sym, ap, ◌∙◌, Bool, true, Option, none, some, List, [], ◌∷◌, ◌++◌, Text, arith, codes,
  subst,
}
use x402_base_evidence.Json.{string, Fields, member, as_object}
use x402_base_evidence.Lifecycle.{TerminalState}
use x402_base_evidence.VerifyEvidence.Agreement.{
  settlement_check, rpc_checks, agreement_checks, result_agreement, agree_on_value,
  agree_on_optional_digest, is_succeeded, equal_strings,
}
use x402_base_evidence.Settlement.{ExpectationComparison}
use x402_base_evidence.VerifyEvidence.Checks.{
  VerificationCheck, check, Report, every_ok, request_body_preimage, same_network,
  same_terminal_state, same_asset, same_amount, same_settlement_response, expectation_comparison,
}
use x402_base_evidence.VerifyEvidence.Comparison.{
  comparison_checks, compare_documents, records_comparison, event_checks, member_of,
}
use x402_base_evidence.VerifyEvidence.Dynamic.{>>=-eq-some, same_boolean, is_string}
use x402_base_evidence.VerifyEvidence.Reads.{Directory, terminal_state_name, JsonRead}
use x402_base_evidence.VerifyEvidence.Record.{VerifiedRecord, SuppliedKeyMetadata, Services}
use x402_base_evidence.VerifyEvidence.Sound.{
  SameText, every_ok-both, cons-ok, equal_strings-SameText,
}
use x402_base_evidence.VerifyEvidence.Stages.{attributed_checks, native_checks, read}
use x402_base_evidence.VerifyEvidence.Whole.{Holds, verify_evidence-Holds}
use x402_base_evidence.VerifyEvidence.{verify_evidence}
use x402_base_evidence.Presence.{origin_result_binding, request_binding}

-- The two documents say the same of the payment, and the recorded comparison is the recomputed one.
pub record Consistent (commerce evidence : Fields) (state : TerminalState)
    (doc expectation report : Fields) : Type 0 where
  pub network : SameText (member (codes "network") evidence) (member (codes "network") expectation)
  pub terminal : member (codes "terminal_state") doc ≡ some (string (terminal_state_name state))
  pub asset : SameText (member (codes "asset") commerce) (member (codes "asset") expectation)
  pub amount :
      SameText
        (member (codes "amount_minor") commerce)
        (member (codes "amount_base_units") expectation)
  pub settlement : is_string (member (codes "transaction_hash") report) ≡ is_succeeded report
  pub recorded : Fields
  pub comparison : ExpectationComparison
  pub carries : as_object (member (codes "comparison") doc) ≡ some recorded
  pub recomputed :
      compare_documents expectation report (as_object (member (codes "rpc_observation") doc))
      ≡ some comparison
  pub agrees : records_comparison recorded comparison ≡ true

same_boolean-eq-true : (a b : Bool) → same_boolean a b ≡ true → b ≡ a
unfolding same_boolean
same_boolean-eq-true a b h = ground arith

some-list : {a b : List VerificationCheck} → some a ≡ some b → a ≡ b
some-list h = ground arith

comparison_checks-ok :
    (o : Option Fields) (e r : Fields) (rpc : Option Fields) (cs : List VerificationCheck)
    → comparison_checks o e r rpc ≡ some cs
    → every_ok cs ≡ true
    → (recorded : Fields) × (c : ExpectationComparison) × (o ≡ some recorded)
      × (compare_documents e r rpc ≡ some c)
      × (records_comparison recorded c ≡ true)
unfolding comparison_checks check
comparison_checks-ok none e r rpc cs h k = absurd (ground (arith, ap every_ok (some-list h)))
comparison_checks-ok (some recorded) e r rpc cs h k =
    let (c, made, rest) = >>=-eq-some (compare_documents e r rpc) _ h in
    let listed = subst (λ l. every_ok l ≡ true) (sym (some-list rest)) k in
    (
      recorded,
      c,
      refl,
      made,
      (cons-ok (check expectation_comparison (records_comparison recorded c))
          (event_checks (member_of (codes "receipt_status") rpc) c) listed).0,
    )

settlement_check-ok :
    (report : Fields)
    → (settlement_check report).ok ≡ true
    → is_string (member (codes "transaction_hash") report) ≡ is_succeeded report
unfolding settlement_check check
settlement_check-ok report h =
    same_boolean-eq-true (is_succeeded report)
      (is_string (member (codes "transaction_hash") report)) h

some-string : {a b : Text} → some (string a) ≡ some (string b) → a ≡ b
some-string h = ground arith

agreement_checks-ok :
    (commerce evidence : Fields) (state : TerminalState) (v : JsonRead) (doc e : Fields)
    → every_ok (agreement_checks commerce evidence state v doc e) ≡ true
    → SameText (member (codes "network") evidence) (member (codes "network") e)
      × (member (codes "terminal_state") doc ≡ some (string (terminal_state_name state)))
      × SameText (member (codes "asset") commerce) (member (codes "asset") e)
      × SameText (member (codes "amount_minor") commerce) (member (codes "amount_base_units") e)
unfolding agreement_checks agree_on_value check
agreement_checks-ok commerce evidence state v doc e h =
    let n = equal_strings (member (codes "network") evidence) (member (codes "network") e) in
    let t =
      equal_strings (some (string (terminal_state_name state)))
        (member (codes "terminal_state") doc) in
    let a = equal_strings (member (codes "asset") commerce) (member (codes "asset") e) in
    let m =
      equal_strings (member (codes "amount_minor") commerce)
        (member (codes "amount_base_units") e) in
    let rest : List VerificationCheck =
      agree_on_optional_digest same_settlement_response
        (member (codes "payment_response_digest") evidence)
        (member (codes "settlement_response_digest") doc)
      ∷ result_agreement v doc in
    let (h1, r1) =
      cons-ok (check same_network n)
        (check same_terminal_state t ∷ check same_asset a ∷ check same_amount m ∷ rest) h in
    let (h2, r2) =
      cons-ok (check same_terminal_state t) (check same_asset a ∷ check same_amount m ∷ rest) r1 in
    let (h3, r3) = cons-ok (check same_asset a) (check same_amount m ∷ rest) r2 in
    let (h4, _) = cons-ok (check same_amount m) rest r3 in
    let (u, left, right) =
      equal_strings-SameText (some (string (terminal_state_name state)))
        (member (codes "terminal_state") doc) h2 in
    (
      equal_strings-SameText (member (codes "network") evidence) (member (codes "network") e) h1,
      right ∙ ap (λ x. some (string x)) (sym (some-string left)),
      equal_strings-SameText (member (codes "asset") commerce) (member (codes "asset") e) h3,
      equal_strings-SameText (member (codes "amount_minor") commerce)
          (member (codes "amount_base_units") e) h4,
    )

module _ (s : Services) (d : Directory) (commerce evidence : Fields) (state : TerminalState)
    (doc expectation report : Fields) where
  attributed-Consistent :
      (more : List VerificationCheck)
      → attributed_checks s d commerce evidence state doc expectation report ≡ some more
      → every_ok more ≡ true
      → Consistent commerce evidence state doc expectation report
  unfolding attributed_checks
  attributed-Consistent more h k =
      let rpc : Option Fields = as_object (member (codes "rpc_observation") doc) in
      let (compared, made, h1) =
        >>=-eq-some
          (comparison_checks (as_object (member (codes "comparison") doc)) expectation report rpc) _
          h in
      let (natives, made', h2) =
        >>=-eq-some
          (native_checks s d state (record {
            commerce = commerce;
            expectation = expectation;
            report = report;
            request_binding = read s d request_binding;
          }))
          _ h1 in
      let agreed : List VerificationCheck =
        agreement_checks commerce evidence state (read s d origin_result_binding) doc expectation in
      let tail : List VerificationCheck = natives ++ check request_body_preimage true ∷ [] in
      let listed : every_ok
            (settlement_check report ∷ (rpc_checks report rpc ++ (compared ++ (agreed ++ tail))))
          ≡ true =
        subst (λ l. every_ok l ≡ true) (sym (some-list h2)) k in
      let (settled, k1) =
        cons-ok (settlement_check report) (rpc_checks report rpc ++ (compared ++ (agreed ++ tail)))
          listed in
      let (_, k2) = every_ok-both (rpc_checks report rpc) (compared ++ (agreed ++ tail)) k1 in
      let (k3, k4) = every_ok-both compared (agreed ++ tail) k2 in
      let (k5, _) = every_ok-both agreed tail k4 in
      let (recorded, c, carries, recomputed, agrees) =
        comparison_checks-ok (as_object (member (codes "comparison") doc)) expectation report rpc
          compared made k3 in
      let (network, terminal, asset, amount) =
        agreement_checks-ok commerce evidence state (read s d origin_result_binding) doc expectation
          k5 in
      record {
        network = network;
        terminal = terminal;
        asset = asset;
        amount = amount;
        settlement = settlement_check-ok report settled;
        recorded = recorded;
        comparison = c;
        carries = carries;
        recomputed = recomputed;
        agrees = agrees;
      }

-- The record and the observation of evidence that verified name the same network, asset, amount and
-- terminal state; a transaction is recorded exactly if the settlement succeeded; and the comparison
-- that the observation records is the recomputed one.
pub verify_evidence-Consistent :
    (s : Services) (d : Directory) (key : Option SuppliedKeyMetadata) (p : Report)
    → verify_evidence s d key ≡ some p
    → p.ok ≡ true
    → (r : VerifiedRecord) × (holds : Holds s d r) × Consistent holds.commerce holds.evidence
        holds.state holds.observed.doc holds.observed.expectation holds.observed.report
verify_evidence-Consistent s d key p h k =
    let (bytes, text, r, readable, there, decoded, verified, holds) =
      verify_evidence-Holds s d key p h k in
    let c = holds.observed in
    (
      r,
      holds,
      attributed-Consistent s d holds.commerce holds.evidence holds.state c.doc c.expectation
          c.report c.more c.attributed c.passed,
    )
