-- ===== src/VerifyEvidence/Sound.antt =====
-- What evidence that verified says (src/flow/verify-evidence.ts).
use x402_base_evidence.Common.{
  ◌≡◌, refl, sym, ap, ◌∙◌, ◌⊎◌, inl, inr, Bool, true, false, Option, none, some, List, [], ◌∷◌,
  ◌++◌, ℕ, Text, arith, codes, eq_text_iff, subst,
}
use x402_base_evidence.Components.{is_literal}
use x402_base_evidence.Digest.{digest_bytes}
use x402_base_evidence.Json.{
  Json, null, boolean, integer, fraction, string, array, object, Fields, member, as_object,
}
use x402_base_evidence.Lifecycle.{TerminalState}
use x402_base_evidence.Presence.{
  chain_observation, request_binding, origin_result_binding, payment_required_txt,
  payment_signature_txt, payment_response_txt,
}
use x402_base_evidence.VerifyEvidence.Agreement.{document_checks, equal_strings}
use x402_base_evidence.VerifyEvidence.Checks.{
  CheckName, chain_observation_document, VerificationWarning, VerificationCheck, check, Report,
  every_ok, request_binding_digest, origin_result_digest, chain_observation_digest,
  payment_required_digest, payment_signature_digest, payment_response_digest,
}
use x402_base_evidence.VerifyEvidence.Digests.{
  document_digest, recompute_json, recompute_read, recompute_observed, is_absent,
}
use x402_base_evidence.VerifyEvidence.Dynamic.{>>=-eq-some}
use x402_base_evidence.VerifyEvidence.Reads.{
  Directory, JsonRead, parsed, refused, missing, bytes_of,
}
use x402_base_evidence.VerifyEvidence.Record.{Services, stop, conclude}
use x402_base_evidence.VerifyEvidence.Stages.{digest_checks, attributed_checks, read}
use x402_base_evidence.VerifyEvidence.Verdict.{every_ok-append, every_ok-after-fail}
use x402_base_evidence.VerifyEvidence.{conclude_attributed, conclude_document, conclude_observation}

-- The digest that the record binds is that of the admitted document, or there is neither.
abbrev BindsDocument : (Json → Option Text) → Option (List ℕ) → JsonRead → Option Json → Type 0
BindsDocument jcs_digest bytes v claimed =
    ((claimed ≡ none) × (bytes ≡ none))
    ⊎ ((document : Json) × (digest : Text) × (v ≡ parsed document)
        × (document_digest jcs_digest document ≡ some digest)
        × (claimed ≡ some (string digest)))

-- The digest that the record binds is that of the bytes, or there is neither.
abbrev BindsBytes : (List ℕ → Text) → Option (List ℕ) → Option Json → Type 0
BindsBytes sha256_hex bytes claimed =
    ((claimed ≡ none) × (bytes ≡ none))
    ⊎ ((b : List ℕ) × (bytes ≡ some b) × (claimed ≡ some (string (digest_bytes sha256_hex b))))

-- Both are the same text.
abbrev pub SameText : Option Json → Option Json → Type 0
SameText a b = (t : Text) × (a ≡ some (string t)) × (b ≡ some (string t))

pub is_literal-eq-true : (t : Text) (v : Option Json) → is_literal t v ≡ true → v ≡ some (string t)
unfolding is_literal
is_literal-eq-true t (some (string u)) h = ap (λ x. some (string x)) ((eq_text_iff u t).0 h)
is_literal-eq-true t none h = absurd (ground arith)
is_literal-eq-true t (some null) h = absurd (ground arith)
is_literal-eq-true t (some (boolean b)) h = absurd (ground arith)
is_literal-eq-true t (some (integer b)) h = absurd (ground arith)
is_literal-eq-true t (some (fraction b)) h = absurd (ground arith)
is_literal-eq-true t (some (array b)) h = absurd (ground arith)
is_literal-eq-true t (some (object b)) h = absurd (ground arith)

pub equal_strings-SameText : (a b : Option Json) → equal_strings a b ≡ true → SameText a b
unfolding equal_strings
equal_strings-SameText (some (string a)) (some (string b)) h =
    (a, refl, ap (λ x. some (string x)) (sym ((eq_text_iff a b).0 h)))
equal_strings-SameText _ _ h = absurd (ground arith)

is_absent-eq-true : (b : Option (List ℕ)) → is_absent b ≡ true → b ≡ none
unfolding is_absent
is_absent-eq-true none h = refl
is_absent-eq-true (some b) h = absurd (ground arith)

some-check : {a b : VerificationCheck} → some a ≡ some b → a ≡ b
some-check h = ground arith

check-ok : (n : CheckName) (b : Bool) → (check n b).ok ≡ b
unfolding check
check-ok n b = refl

recompute_read-BindsDocument :
    (jcs_digest : Json → Option Text) (n : CheckName) (v : JsonRead) (claimed : Json)
    (c : VerificationCheck)
    → recompute_read jcs_digest n v claimed ≡ some c
    → c.ok ≡ true
    → (document : Json) × (digest : Text) × (v ≡ parsed document)
      × (document_digest jcs_digest document ≡ some digest)
      × (some claimed ≡ some (string digest))
unfolding recompute_read check
recompute_read-BindsDocument jcs_digest n (parsed v) claimed c h k =
    let (digest, e, made) = >>=-eq-some (document_digest jcs_digest v) _ h in
    (
      v,
      digest,
      refl,
      e,
      is_literal-eq-true digest (some claimed)
          (ap (λ (x : VerificationCheck). x.ok) (some-check made) ∙ k),
    )
recompute_read-BindsDocument jcs_digest n refused claimed c h k =
    absurd (ground (arith, ap (λ (x : VerificationCheck). x.ok) (some-check h), check-ok n false))
recompute_read-BindsDocument jcs_digest n missing claimed c h k =
    absurd (ground (arith, ap (λ (x : VerificationCheck). x.ok) (some-check h), check-ok n false))

recompute_json-BindsDocument :
    (jcs_digest : Json → Option Text) (n : CheckName) (bytes : Option (List ℕ)) (v : JsonRead)
    (claimed : Option Json) (c : VerificationCheck)
    → recompute_json jcs_digest n bytes v claimed ≡ some c
    → c.ok ≡ true
    → BindsDocument jcs_digest bytes v claimed
unfolding recompute_json check
recompute_json-BindsDocument jcs_digest n bytes v none c h k =
    inl (refl, is_absent-eq-true bytes (ap (λ (x : VerificationCheck). x.ok) (some-check h) ∙ k))
recompute_json-BindsDocument jcs_digest n none v (some claimed) c h k =
    absurd (ground (arith, ap (λ (x : VerificationCheck). x.ok) (some-check h), check-ok n false))
recompute_json-BindsDocument jcs_digest n (some b) v (some claimed) c h k =
    inr (recompute_read-BindsDocument jcs_digest n v claimed c h k)

recompute_observed-BindsBytes :
    (sha256_hex : List ℕ → Text) (n : CheckName) (bytes : Option (List ℕ)) (claimed : Option Json)
    → (recompute_observed sha256_hex n bytes claimed).ok ≡ true
    → BindsBytes sha256_hex bytes claimed
unfolding recompute_observed check
recompute_observed-BindsBytes sha256_hex n bytes none k = inl (refl, is_absent-eq-true bytes k)
recompute_observed-BindsBytes sha256_hex n none (some claimed) k = absurd (ground arith)
recompute_observed-BindsBytes sha256_hex n (some b) (some claimed) k =
    inr (b, refl, is_literal-eq-true (digest_bytes sha256_hex b) (some claimed) k)

some-report : {a b : Report} → some a ≡ some b → a ≡ b
some-report h = ground arith

pub refused-ok : (cs : List VerificationCheck) (r : Report) → stop cs ≡ some r → r.ok ≡ false
refused-ok cs r h = sym (ap (λ (x : Report). x.ok) (some-report h))

concluded-ok :
    (cs : List VerificationCheck) (w : List VerificationWarning) (r : Report)
    → conclude cs w ≡ some r
    → r.ok ≡ true
    → every_ok cs ≡ true
concluded-ok cs w r h k = ap (λ (x : Report). x.ok) (some-report h) ∙ k

pub every_ok-both :
    (a b : List VerificationCheck)
    → every_ok (a ++ b) ≡ true
    → (every_ok a ≡ true) × (every_ok b ≡ true)
every_ok-both a b h = ground (arith, every_ok-append a b)

pub not-ok : (r : Report) (A : Type 0) → r.ok ≡ false → r.ok ≡ true → A
not-ok r A h k = absurd (ground arith)

module _ (s : Services) (d : Directory) (commerce evidence : Fields) where
  -- A verification that went on to the end of an observation, all of whose checks passed.
  pub record Concluded (state : TerminalState) (v : JsonRead) : Type 0 where
    pub doc : Fields
    pub expectation : Fields
    pub report : Fields
    pub more : List VerificationCheck
    pub admitted : v ≡ parsed (object doc)
    pub expected : as_object (member (codes "payment_expectation") doc) ≡ some expectation
    pub reported : as_object (member (codes "chain_observation") doc) ≡ some report
    pub attributed :
        attributed_checks s d commerce evidence state doc expectation report ≡ some more
    pub passed : every_ok more ≡ true

  attributed-Concluded :
      (state : TerminalState) (before : List VerificationCheck) (v : JsonRead) (doc : Fields)
      (e r : Option Fields) (p : Report)
      → v ≡ parsed (object doc)
      → as_object (member (codes "payment_expectation") doc) ≡ e
      → as_object (member (codes "chain_observation") doc) ≡ r
      → conclude_attributed s d commerce evidence state before doc e r ≡ some p
      → p.ok ≡ true
      → (every_ok before ≡ true) × Concluded state v
  unfolding conclude_attributed
  attributed-Concluded state before v doc none r p is_v is_e is_r h k =
      not-ok p _ (refused-ok before p h) k
  attributed-Concluded state before v doc (some e) none p is_v is_e is_r h k =
      not-ok p _ (refused-ok before p h) k
  attributed-Concluded state before v doc (some e) (some r) p is_v is_e is_r h k =
      let (more, made, rest) =
        >>=-eq-some (attributed_checks s d commerce evidence state doc e r) _ h in
      let (first, passed) = every_ok-both before more (concluded-ok (before ++ more) _ p rest k) in
      (
        first,
        record {
          doc = doc;
          expectation = e;
          report = r;
          more = more;
          admitted = is_v;
          expected = is_e;
          reported = is_r;
          attributed = made;
          passed = passed;
        },
      )

  pub observation-Concluded :
      (state : TerminalState) (before : List VerificationCheck) (v : JsonRead) (p : Report)
      → conclude_observation s d commerce evidence state before v ≡ some p
      → p.ok ≡ true
      → (every_ok before ≡ true) × ((v ≡ missing) ⊎ Concluded state v)
  unfolding conclude_observation conclude_document
  observation-Concluded state before missing p h k = (concluded-ok before [] p h k, inl refl)
  observation-Concluded state before (parsed (object doc)) p h k =
      let e : Option Fields = as_object (member (codes "payment_expectation") doc) in
      let r : Option Fields = as_object (member (codes "chain_observation") doc) in
      let (first, c) =
        attributed-Concluded state (before ++ document_checks doc e r) (parsed (object doc)) doc e r
          p refl refl refl h k in
      ((every_ok-both before (document_checks doc e r) first).0, inr c)
  observation-Concluded state before other p h k = absurd (
      ground (
        arith,
        every_ok-after-fail before chain_observation_document,
        concluded-ok (before ++ check chain_observation_document false ∷ []) [] p h k,
      ))

some-checks : {a b : List VerificationCheck} → some a ≡ some b → a ≡ b
some-checks h = ground arith

pub cons-ok :
    (c : VerificationCheck) (cs : List VerificationCheck)
    → every_ok (c ∷ cs) ≡ true
    → (c.ok ≡ true) × (every_ok cs ≡ true)
cons-ok c cs h = ground arith

-- The checks of the digests, taken out of the list that they stand in.
interleaved-ok :
    (a b c x y z : VerificationCheck) (p q r t l : List VerificationCheck)
    → a ∷ (p ++ b ∷ (q ++ c ∷ (r ++ x ∷ y ∷ z ∷ t))) ≡ l
    → every_ok l ≡ true
    → (a.ok ≡ true) × (b.ok ≡ true) × (c.ok ≡ true) × (x.ok ≡ true) × (y.ok ≡ true) × (z.ok ≡ true)
interleaved-ok a b c x y z p q r t l e k =
    let k0 = subst (λ u. every_ok u ≡ true) (sym e) k in
    let k1 = cons-ok a (p ++ b ∷ (q ++ c ∷ (r ++ x ∷ y ∷ z ∷ t))) k0 in
    let k2 = every_ok-both p (b ∷ (q ++ c ∷ (r ++ x ∷ y ∷ z ∷ t))) k1.1 in
    let k3 = cons-ok b (q ++ c ∷ (r ++ x ∷ y ∷ z ∷ t)) k2.1 in
    let k4 = every_ok-both q (c ∷ (r ++ x ∷ y ∷ z ∷ t)) k3.1 in
    let k5 = cons-ok c (r ++ x ∷ y ∷ z ∷ t) k4.1 in
    let k6 = every_ok-both r (x ∷ y ∷ z ∷ t) k5.1 in
    let k7 = cons-ok x (y ∷ z ∷ t) k6.1 in
    let k8 = cons-ok y (z ∷ t) k7.1 in (k1.0, k3.0, k5.0, k7.0, k8.0, (cons-ok z t k8.1).0)

module _ (s : Services) (d : Directory) where
  -- Every digest of the record is that of what stands beside it.
  pub record DigestsHold (evidence : Fields) : Type 0 where
    pub request :
        BindsDocument s.jcs_digest
          (bytes_of d request_binding)
          (read s d request_binding)
          (member (codes "request_binding_digest") evidence)
    pub result :
        BindsDocument s.jcs_digest
          (bytes_of d origin_result_binding)
          (read s d origin_result_binding)
          (member (codes "origin_result_binding_digest") evidence)
    pub observation :
        BindsDocument s.jcs_digest
          (bytes_of d chain_observation)
          (read s d chain_observation)
          (member (codes "chain_observation_digest") evidence)
    pub required :
        BindsBytes s.sha256_hex
          (bytes_of d payment_required_txt)
          (member (codes "payment_required_digest") evidence)
    pub signature :
        BindsBytes s.sha256_hex
          (bytes_of d payment_signature_txt)
          (member (codes "payment_signature_digest") evidence)
    pub response :
        BindsBytes s.sha256_hex
          (bytes_of d payment_response_txt)
          (member (codes "payment_response_digest") evidence)

  pub digest_checks-DigestsHold :
      (evidence : Fields) (cs : List VerificationCheck)
      → digest_checks s d evidence ≡ some cs
      → every_ok cs ≡ true
      → DigestsHold evidence
  unfolding digest_checks
  digest_checks-DigestsHold evidence cs h k =
      let (request, e1, h1) =
        >>=-eq-some
          (recompute_json s.jcs_digest request_binding_digest (bytes_of d request_binding)
            (read s d request_binding) (member (codes "request_binding_digest") evidence))
          _ h in
      let (result, e2, h2) =
        >>=-eq-some
          (recompute_json s.jcs_digest origin_result_digest (bytes_of d origin_result_binding)
            (read s d origin_result_binding)
            (member (codes "origin_result_binding_digest") evidence))
          _ h1 in
      let (observation, e3, h3) =
        >>=-eq-some
          (recompute_json s.jcs_digest chain_observation_digest (bytes_of d chain_observation)
            (read s d chain_observation) (member (codes "chain_observation_digest") evidence))
          _ h2 in
      let (ok1, ok2, ok3, ok4, ok5, ok6) =
        interleaved-ok request result observation _ _ _ _ _ _ _ cs (some-checks h3) k in
      record {
        request =
            recompute_json-BindsDocument s.jcs_digest request_binding_digest _ _ _ request e1 ok1;
        result = recompute_json-BindsDocument s.jcs_digest origin_result_digest _ _ _ result e2 ok2;
        observation =
            recompute_json-BindsDocument s.jcs_digest chain_observation_digest _ _ _ observation e3
              ok3;
        required = recompute_observed-BindsBytes s.sha256_hex payment_required_digest _ _ ok4;
        signature = recompute_observed-BindsBytes s.sha256_hex payment_signature_digest _ _ ok5;
        response = recompute_observed-BindsBytes s.sha256_hex payment_response_digest _ _ ok6;
      }
