-- ===== src/VerifyEvidence/Recomputed.antt =====
-- The comparison that a verification recomputes is the one that was recorded
-- (src/flow/verify-evidence.ts with src/flow/observe-settlement.ts).
use x402_base_evidence.Common.{
  ◌≡◌, refl, ◌∙◌, ap, sym, subst, ◌&&◌, Bool, true, false, Option, none, some, Text, codes, eq_text,
}
use x402_base_evidence.Json.{Json, string, object, Fields, member}
use x402_base_evidence.SealedObservation.{
  Transfer, SealedRpcObservation, ExecutionStatus, success, reverted, same_address,
  transfer_matches_expected,
}
use x402_base_evidence.Settlement.{
  ComparisonVerdict, ExpectationComparison, PaymentExpectation, SettlementReport,
  compare_expectation_to_observation, expected_transfer, verdict, verdict_on, token_transfer_of,
  receipt_status_of, transfer_matches, linked, not_linked,
}
use x402_base_evidence.VerifyEvidence.Comparison.{
  member_of, same_party, same_amount_of, matches_expected, transfer_agrees, if_given, linked_by,
  verdict_of, compare_documents,
}
use x402_base_evidence.VerifyEvidence.Dynamic.{
  and_then, get, lower_of, same_address_of, strict_equal,
}

-- A text of a document, or a member that is left out.
abbrev pub shown : Option Text → Option Json
shown none = none
shown (some t) = some (string t)

abbrev status_shown : Option ExecutionStatus → Option Json
status_shown none = none
status_shown (some success) = some (string (codes "success"))
status_shown (some reverted) = some (string (codes "reverted"))

-- The members of the document's objects that the comparison reads.
pub record ShowsExpectation (e : PaymentExpectation) (fs : Fields) : Type 0 where
  pub network : member (codes "network") fs ≡ some (string e.network)
  pub asset : member (codes "asset") fs ≡ some (string e.asset)
  pub amount : member (codes "amount_base_units") fs ≡ some (string e.amount_base_units)
  pub recipient : member (codes "recipient") fs ≡ some (string e.recipient)
  pub payer : member (codes "payer") fs ≡ shown e.payer
  pub digest : member (codes "authorization_digest") fs ≡ shown e.authorization_digest

pub record ShowsTransfer (t : Transfer) (fs : Fields) : Type 0 where
  pub token : member (codes "token_contract") fs ≡ some (string t.token_contract)
  pub from' : member (codes "transfer_from") fs ≡ some (string t.transfer_from)
  pub to : member (codes "transfer_to") fs ≡ some (string t.transfer_to)
  pub amount : member (codes "transfer_amount") fs ≡ some (string t.transfer_amount)

strings_agree :
    (a b : Text) → same_address_of (some (string a)) (some (string b)) ≡ some (same_address a b)
unfolding same_address_of lower_of same_address
strings_agree a b = refl

and_then-some4 :
    (a b c d : Bool)
    → and_then (some a) (and_then (some b) (and_then (some c) (some d))) ≡ some (a && b && c && d)
unfolding and_then
and_then-some4 false b c d = refl
and_then-some4 true false c d = refl
and_then-some4 true true false d = refl
and_then-some4 true true true d = refl

module _ (e : PaymentExpectation) (t : Transfer) (es ts : Fields) (is_e : ShowsExpectation e es)
    (is_t : ShowsTransfer t ts) where
  token_agrees :
      same_party (codes "token_contract") (some (object ts)) (member (codes "asset") es)
      ≡ some (same_address t.token_contract e.asset)
  unfolding same_party get
  token_agrees = rw is_t.token (rw is_e.asset (strings_agree t.token_contract e.asset))

  recipient_agrees :
      same_party (codes "transfer_to") (some (object ts)) (member (codes "recipient") es)
      ≡ some (same_address t.transfer_to e.recipient)
  unfolding same_party get
  recipient_agrees = rw is_t.to (rw is_e.recipient (strings_agree t.transfer_to e.recipient))

  amount_agrees :
      same_amount_of (some (object ts)) es ≡ some (eq_text t.transfer_amount e.amount_base_units)
  unfolding same_amount_of get strict_equal
  amount_agrees = rw is_t.amount (rw is_e.amount refl)

  sender_agrees :
      (payer : Text)
      → e.payer ≡ some payer
      → same_party (codes "transfer_from") (some (object ts)) (member (codes "payer") es)
        ≡ some (same_address t.transfer_from payer)
  unfolding same_party get
  sender_agrees payer h = rw is_t.from' (rw is_e.payer (rw h (strings_agree t.transfer_from payer)))

  all_agree :
      (payer : Text)
      → e.payer ≡ some payer
      → matches_expected (some (object ts)) es
        ≡ some (transfer_matches_expected t (expected_transfer e payer))
  unfolding matches_expected transfer_matches_expected expected_transfer
  all_agree payer h = rw token_agrees (
      rw (sender_agrees payer h) (
        rw recipient_agrees (
          rw amount_agrees (
            and_then-some4 (same_address t.token_contract e.asset)
              (same_address t.transfer_from payer) (same_address t.transfer_to e.recipient)
              (eq_text t.transfer_amount e.amount_base_units)))))

  matches_agrees :
      (p : Option Text)
      → e.payer ≡ p
      → transfer_agrees (some (object ts)) es ≡ some (transfer_matches e (some t) p)
  unfolding transfer_agrees transfer_matches if_given
  matches_agrees none h = rw is_e.payer (rw h refl)
  matches_agrees (some payer) h =
      ap (λ x. if_given x (matches_expected (some (object ts)) es)) (is_e.payer ∙ ap shown h)
      ∙ all_agree payer h

-- The RPC account of a document shows that of the writer, or neither has one.
pub data ShowsRpc : Option SealedRpcObservation → Option Fields → Type 0 where
  without : ShowsRpc none none
  with_transfer :
      (o : SealedRpcObservation) (t : Transfer) (rpc fs : Fields)
      → o.token_transfer ≡ some t
      → member (codes "token_transfer") rpc ≡ some (object fs)
      → ShowsTransfer t fs
      → member (codes "receipt_status") rpc ≡ status_shown o.receipt_status
      → ShowsRpc (some o) (some rpc)
  with_none :
      (o : SealedRpcObservation) (rpc : Fields)
      → o.token_transfer ≡ none
      → member (codes "token_transfer") rpc ≡ none
      → member (codes "receipt_status") rpc ≡ status_shown o.receipt_status
      → ShowsRpc (some o) (some rpc)

network_agrees :
    (n : Option Text) (m : Text) (shown_m : Option Json)
    → shown_m ≡ some (string m)
    → verdict_of (shown n) (some (strict_equal (shown n) shown_m))
      ≡ some (verdict_on (λ x. eq_text x m) n)
unfolding verdict_of strict_equal verdict_on
network_agrees none m v h = refl
network_agrees (some n) m v h = rw h refl

event_agrees :
    (s : Option ExecutionStatus) (b : Bool)
    → verdict_of (status_shown s) (some b) ≡ some (verdict_on (λ (x : ExecutionStatus). b) s)
unfolding verdict_of verdict_on
event_agrees none b = refl
event_agrees (some success) b = refl
event_agrees (some reverted) b = refl

link_agrees :
    (d : Option Text) → linked_by (shown d) ≡ elim d [ none ↦ not_linked | some x ↦ linked ]
unfolding linked_by
link_agrees none = refl
link_agrees (some x) = refl

-- The writer's comparison, of the transfer and the status that an account has.
abbrev compared :
    PaymentExpectation
    → SettlementReport
    → Option Transfer
    → Option ExecutionStatus
    → ExpectationComparison
compared e r transfer status = record {
  network = verdict_on (λ n. eq_text n e.network) r.network_reported;
  asset = verdict_on (λ (t : Transfer). same_address t.token_contract e.asset) transfer;
  recipient = verdict_on (λ (t : Transfer). same_address t.transfer_to e.recipient) transfer;
  amount = verdict_on (λ (t : Transfer). eq_text t.transfer_amount e.amount_base_units) transfer;
  authorization = elim e.authorization_digest [ none ↦ not_linked | some d ↦ linked ];
  transfer_event = verdict_on (λ (s : ExecutionStatus). transfer_matches e transfer e.payer) status;
}

module _ (e : PaymentExpectation) (r : SettlementReport) (es rs : Fields)
    (is_e : ShowsExpectation e es)
    (is_r : member (codes "network_reported") rs ≡ shown r.network_reported) where
  compare-without : compare_documents es rs none ≡ some (compared e r none none)
  unfolding compare_documents transfer_agrees if_given verdict_of verdict_on
  compare-without = rw is_r (
      rw (network_agrees r.network_reported e.network (member (codes "network") es) is_e.network)
        (rw is_e.digest (rw (link_agrees e.authorization_digest) refl)))

  compare-none :
      (rpc : Fields) (s : Option ExecutionStatus)
      → member (codes "token_transfer") rpc ≡ none
      → member (codes "receipt_status") rpc ≡ status_shown s
      → compare_documents es rs (some rpc) ≡ some (compared e r none s)
  unfolding compare_documents transfer_agrees if_given transfer_matches verdict_of verdict_on
  compare-none rpc s no_m st = rw is_r (
      rw (network_agrees r.network_reported e.network (member (codes "network") es) is_e.network) (
        rw is_e.digest (
          rw (link_agrees e.authorization_digest)
            (rw no_m (rw st (rw (event_agrees s false) refl))))))

  -- The verdicts of a recomputation, one by one.
  compare-parts :
      (rpc : Option Fields) (b : Bool) (asset recipient amount network event : ComparisonVerdict)
      → transfer_agrees (member_of (codes "token_transfer") rpc) es ≡ some b
      → verdict_of (member_of (codes "token_transfer") rpc) (
          same_party
            (codes "token_contract")
            (member_of (codes "token_transfer") rpc)
            (member (codes "asset") es))
        ≡ some asset
      → verdict_of (member_of (codes "token_transfer") rpc) (
          same_party
            (codes "transfer_to")
            (member_of (codes "token_transfer") rpc)
            (member (codes "recipient") es))
        ≡ some recipient
      → verdict_of
          (member_of (codes "token_transfer") rpc)
          (same_amount_of (member_of (codes "token_transfer") rpc) es)
        ≡ some amount
      → verdict_of
          (member (codes "network_reported") rs)
          (some (strict_equal (member (codes "network_reported") rs) (member (codes "network") es)))
        ≡ some network
      → verdict_of (member_of (codes "receipt_status") rpc) (some b) ≡ some event
      → compare_documents es rs rpc
        ≡ some (record {
          network = network;
          asset = asset;
          recipient = recipient;
          amount = amount;
          authorization = linked_by (member (codes "authorization_digest") es);
          transfer_event = event;
        })
  unfolding compare_documents
  compare-parts rpc b asset recipient amount network event h1 h2 h3 h4 h5 h6 =
      rw h1 (rw h2 (rw h3 (rw h4 (rw h5 (rw h6 refl)))))

  verdict-given :
      (j : Option Json) (v : Json) (test : Option Json → Option Bool) (b : Bool)
      → j ≡ some v
      → test (some v) ≡ some b
      → verdict_of j (test j) ≡ some (verdict b)
  unfolding verdict_of
  verdict-given j v test b h k = rw h (rw k refl)

  compare-transfer :
      (t : Transfer) (rpc fs : Fields) (s : Option ExecutionStatus)
      → member (codes "token_transfer") rpc ≡ some (object fs)
      → ShowsTransfer t fs
      → member (codes "receipt_status") rpc ≡ status_shown s
      → compare_documents es rs (some rpc) ≡ some (compared e r (some t) s)
  unfolding verdict_on member_of
  compare-transfer t rpc fs s has_m is_t st =
      compare-parts (some rpc) (transfer_matches e (some t) e.payer)
        (verdict (same_address t.token_contract e.asset))
        (verdict (same_address t.transfer_to e.recipient))
        (verdict (eq_text t.transfer_amount e.amount_base_units))
        (verdict_on (λ n. eq_text n e.network) r.network_reported)
        (verdict_on (λ (x : ExecutionStatus). transfer_matches e (some t) e.payer) s)
        (ap (λ j. transfer_agrees j es) has_m ∙ matches_agrees e t es fs is_e is_t e.payer refl)
        (verdict-given (member (codes "token_transfer") rpc) (object fs)
          (λ j. same_party (codes "token_contract") j (member (codes "asset") es))
          (same_address t.token_contract e.asset) has_m (token_agrees e t es fs is_e is_t))
        (verdict-given (member (codes "token_transfer") rpc) (object fs)
          (λ j. same_party (codes "transfer_to") j (member (codes "recipient") es))
          (same_address t.transfer_to e.recipient) has_m (recipient_agrees e t es fs is_e is_t))
        (verdict-given (member (codes "token_transfer") rpc) (object fs) (λ j. same_amount_of j es)
          (eq_text t.transfer_amount e.amount_base_units) has_m (amount_agrees e t es fs is_e is_t))
        (rw is_r
          (network_agrees r.network_reported e.network (member (codes "network") es) is_e.network))
        (rw st (event_agrees s (transfer_matches e (some t) e.payer)))
      ∙ ap (λ l. some (record (compared e r (some t) s) { authorization = l }))
          (ap linked_by is_e.digest ∙ link_agrees e.authorization_digest)

-- On a document whose members show what the writer recorded, the comparison is recomputed without an
-- exception, and its verdicts are those of the writer's comparison.
pub compare_documents-compare_expectation :
    (e : PaymentExpectation) (r : SettlementReport) (o : Option SealedRpcObservation)
    (es rs : Fields) (rpc : Option Fields)
    → ShowsExpectation e es
    → member (codes "network_reported") rs ≡ shown r.network_reported
    → ShowsRpc o rpc
    → compare_documents es rs rpc ≡ some (compare_expectation_to_observation e r o)
unfolding compare_expectation_to_observation token_transfer_of receipt_status_of verdict_on
compare_documents-compare_expectation e r _ es rs _ is_e is_r without =
    compare-without e r es rs is_e is_r
compare_documents-compare_expectation e r _ es rs _ is_e is_r (with_none o rpc no_t no_m st) =
    subst (λ t. compare_documents es rs (some rpc) ≡ some (compared e r t o.receipt_status))
      (sym no_t) (compare-none e r es rs is_e is_r rpc o.receipt_status no_m st)
compare_documents-compare_expectation e r _ es rs _ is_e is_r
      (with_transfer o t rpc fs has_t has_m is_t st) =
    subst (λ u. compare_documents es rs (some rpc) ≡ some (compared e r u o.receipt_status))
      (sym has_t) (compare-transfer e r es rs is_e is_r t rpc fs o.receipt_status has_m is_t st)
