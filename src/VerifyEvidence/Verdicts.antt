-- ===== src/VerifyEvidence/Verdicts.antt =====
-- What the verdicts say that a verification recomputes from a document (src/flow/verify-evidence.ts
-- with src/flow/observe-settlement.ts).
use x402_base_evidence.Common.{
  ◌≡◌, refl, ◌↔◌, sym, ◌∙◌, Bool, true, Option, none, some, Text, arith, codes, to_lower, eq_text,
  eq_text_iff, Bool-cases, inl, inr,
}
use x402_base_evidence.Json.{Fields, member}
use x402_base_evidence.SealedObservation.Transfers.{same_address_iff, transfer_matches_expected_iff}
use x402_base_evidence.SealedObservation.{
  Transfer, SealedRpcObservation, ExecutionStatus, same_address,
}
use x402_base_evidence.Settlement.{
  ComparisonVerdict, match, not_evaluated, linked, not_linked, ExpectationComparison,
  PaymentExpectation, SettlementReport, compare_expectation_to_observation, expected_transfer,
  verdict, verdict_on, token_transfer_of, receipt_status_of, transfer_matches,
}
use x402_base_evidence.VerifyEvidence.Comparison.{compare_documents}
use x402_base_evidence.VerifyEvidence.Recomputed.{
  shown, ShowsExpectation, ShowsRpc, compare_documents-compare_expectation,
}

-- A verdict is left unevaluated exactly if the fact is missing, and is a match exactly if the fact is
-- there and agrees.
pub record Reads {A : Type 0} (v : ComparisonVerdict) (fact : Option A) (Agrees : A → Type 0)
    : Type 0 where
  pub unevaluated : (v ≡ not_evaluated) ↔ (fact ≡ none)
  pub matching : (v ≡ match) ↔ ((a : A) × (fact ≡ some a) × Agrees a)

-- A transfer is the expected one in every respect, the payer's address included.
pub record IsExpected (e : PaymentExpectation) (transfer : Option Transfer) : Type 0 where
  pub seen : Transfer
  pub payer : Text
  pub is_seen : transfer ≡ some seen
  pub is_payer : e.payer ≡ some payer
  pub token : to_lower seen.token_contract ≡ to_lower e.asset
  pub sender : to_lower seen.transfer_from ≡ to_lower payer
  pub recipient : to_lower seen.transfer_to ≡ to_lower e.recipient
  pub amount : seen.transfer_amount ≡ e.amount_base_units

verdict_on-Reads :
    {A : Type 0} (test : A → Bool) (Agrees : A → Type 0) (fact : Option A)
    → ((a : A) → (test a ≡ true) ↔ Agrees a)
    → Reads (verdict_on test fact) fact Agrees
unfolding verdict_on verdict
verdict_on-Reads test Agrees none k = record {
  unevaluated = ((λ h. refl), (λ h. refl));
  matching = ((λ h. absurd (ground arith)), (λ (a, h, p). absurd (ground arith)));
}
verdict_on-Reads test Agrees (some a) k = elim (Bool-cases (test a)) [
  | inl e ↦ rw e (record {
    unevaluated = ((λ h. absurd (ground arith)), (λ h. absurd (ground arith)));
    matching = ((λ h. (a, refl, (k a).0 e)), (λ h. refl));
  })
  | inr e ↦ rw e (record {
    unevaluated = ((λ h. absurd (ground arith)), (λ h. absurd (ground arith)));
    matching = ((λ h. absurd (ground arith)), (λ (b, same, p). absurd (ground (arith, (k b).1 p))));
  })
]

matches_by-IsExpected :
    (e : PaymentExpectation) (t : Option Transfer) (p : Option Text)
    → e.payer ≡ p
    → (transfer_matches e t p ≡ true) ↔ IsExpected e t
unfolding transfer_matches
matches_by-IsExpected e none p named =
    ((λ h. absurd (ground arith)), (λ v. absurd (cc (v.is_seen))))
matches_by-IsExpected e (some t) none named =
    ((λ h. absurd (ground arith)), (λ v. absurd (cc (v.is_payer, named))))
matches_by-IsExpected e (some t) (some payer) named = (
  λ h.
      let same = (transfer_matches_expected_iff t (expected_transfer e payer)).0 h in
      record {
        seen = t;
        payer = payer;
        is_seen = refl;
        is_payer = named;
        token = unfold expected_transfer in same.token;
        sender = unfold expected_transfer in same.from';
        recipient = unfold expected_transfer in same.to;
        amount = unfold expected_transfer in same.amount;
      },
  λ v.
      let is_t : t ≡ v.seen = some-injective v.is_seen in
      let is_p : payer ≡ v.payer = some-injective (sym named ∙ v.is_payer) in
      (transfer_matches_expected_iff t (expected_transfer e payer)).1 (
        unfold expected_transfer in
        (record {
          token = rw is_t v.token;
          from' = rw is_t (rw is_p v.sender);
          to = rw is_t v.recipient;
          amount = rw is_t v.amount;
        })),
)
  where
    some-injective : {A : Type 0} {a b : A} → some a ≡ some b → a ≡ b
    some-injective h = ground arith

linked_iff :
    (d : Option Text)
    → ((elim d [ none ↦ not_linked | some x ↦ linked ]) ≡ linked) ↔ ((x : Text) × (d ≡ some x))
linked_iff none = ((λ h. absurd (ground arith)), (λ (x, h). absurd (ground arith)))
linked_iff (some x) = ((λ h. (x, refl)), (λ h. refl))

-- What a comparison says of an expectation, a report and an account.
pub record Says (e : PaymentExpectation) (r : SettlementReport) (o : Option SealedRpcObservation)
    (c : ExpectationComparison) : Type 0 where
  pub network : Reads c.network r.network_reported (λ n. n ≡ e.network)
  pub asset :
      Reads c.asset
        (token_transfer_of o)
        (λ (t : Transfer). to_lower t.token_contract ≡ to_lower e.asset)
  pub recipient :
      Reads c.recipient
        (token_transfer_of o)
        (λ (t : Transfer). to_lower t.transfer_to ≡ to_lower e.recipient)
  pub amount :
      Reads c.amount
        (token_transfer_of o)
        (λ (t : Transfer). t.transfer_amount ≡ e.amount_base_units)
  pub authorization : (c.authorization ≡ linked) ↔ ((d : Text) × (e.authorization_digest ≡ some d))
  pub transfer_event :
      Reads c.transfer_event
        (receipt_status_of o)
        (λ (s : ExecutionStatus). IsExpected e (token_transfer_of o))

compare_expectation-Says :
    (e : PaymentExpectation) (r : SettlementReport) (o : Option SealedRpcObservation)
    → Says e r o (compare_expectation_to_observation e r o)
unfolding compare_expectation_to_observation
compare_expectation-Says e r o = record {
  network =
      verdict_on-Reads (λ n. eq_text n e.network) (λ n. n ≡ e.network) r.network_reported
        (λ n. eq_text_iff n e.network);
  asset =
      verdict_on-Reads (λ (t : Transfer). same_address t.token_contract e.asset)
        (λ (t : Transfer). to_lower t.token_contract ≡ to_lower e.asset) (token_transfer_of o)
        (λ t. same_address_iff t.token_contract e.asset);
  recipient =
      verdict_on-Reads (λ (t : Transfer). same_address t.transfer_to e.recipient)
        (λ (t : Transfer). to_lower t.transfer_to ≡ to_lower e.recipient) (token_transfer_of o)
        (λ t. same_address_iff t.transfer_to e.recipient);
  amount =
      verdict_on-Reads (λ (t : Transfer). eq_text t.transfer_amount e.amount_base_units)
        (λ (t : Transfer). t.transfer_amount ≡ e.amount_base_units) (token_transfer_of o)
        (λ t. eq_text_iff t.transfer_amount e.amount_base_units);
  authorization = linked_iff e.authorization_digest;
  transfer_event =
      verdict_on-Reads (λ (s : ExecutionStatus). transfer_matches e (token_transfer_of o) e.payer)
        (λ (s : ExecutionStatus). IsExpected e (token_transfer_of o)) (receipt_status_of o)
        (λ s. matches_by-IsExpected e (token_transfer_of o) e.payer refl);
}

-- On a document whose members show an expectation, a report and an account, the comparison is
-- recomputed without an exception. The verdict on the network is left unevaluated exactly if none was
-- reported, those on asset, recipient and amount if no transfer was seen, and that on the transfer
-- event if no execution status was; they are a match exactly if the network is the expected one, the
-- token, the recipient and the amount of the transfer are, and the whole transfer is, the payer
-- included (addresses but for the case of their letters). The authorization is linked exactly if the
-- expectation has its digest.
pub compare_documents-Says :
    (e : PaymentExpectation) (r : SettlementReport) (o : Option SealedRpcObservation)
    (es rs : Fields) (rpc : Option Fields)
    → ShowsExpectation e es
    → member (codes "network_reported") rs ≡ shown r.network_reported
    → ShowsRpc o rpc
    → (c : ExpectationComparison) × (compare_documents es rs rpc ≡ some c) × Says e r o c
compare_documents-Says e r o es rs rpc is_e is_r is_o = (
  compare_expectation_to_observation e r o,
  compare_documents-compare_expectation e r o es rs rpc is_e is_r is_o,
  compare_expectation-Says e r o,
)
