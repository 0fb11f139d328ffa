-- ===== src/FixtureFacilitator/Terms.antt =====
-- What the comparison of terms accepts (src/flow/fixture-facilitator.ts).
use x402_base_evidence.Common.{
  ◌≡◌, refl, ◌↔◌, ◌≢◌, true, Option, none, some, [], ◌∷◌, arith, Text, codes, eq_text_iff,
}
use x402_base_evidence.Json.{object_like, Json, Fields, string, member}
use x402_base_evidence.FixtureFacilitator.{
  AcceptedTerms, PaymentPayload, is_given, is_signature, check_terms,
}

is_given_iff : (o : Option Fields) → (is_given o ≡ true) ↔ ((fs : Fields) × (o ≡ some fs))
unfolding is_given
is_given_iff none = ground arith
is_given_iff (some fs) = (λ e. (fs, refl), λ h. refl)

is_signature_iff :
    (v : Option Json) → (is_signature v ≡ true) ↔ ((s : Text) × (v ≡ some (string s)) × (s ≢ []))
unfolding is_signature
is_signature_iff (some (string [])) = ground arith
is_signature_iff (some (string (c ∷ cs))) = (λ e. (c ∷ cs, refl, ground arith), λ h. refl)
is_signature_iff none = ground arith
is_signature_iff (some _) = ground arith

-- The comparison finds no problem exactly if the payment's network, scheme, asset, amount and
-- recipient are those of the requirements, to the letter, and it carries an authorization object and a
-- signature that is not empty.
check_terms-eq-none_iff :
    (p : PaymentPayload) (r : AcceptedTerms)
    → (check_terms p r ≡ none) ↔ (
        (p.accepted ≡ r)
        × ((fs : Fields) × (object_like (member (codes "authorization") p.payload) ≡ some fs))
        × ((s : Text) × (member (codes "signature") p.payload ≡ some (string s)) × (s ≢ [])))
unfolding check_terms
check_terms-eq-none_iff p r =
    let authorization = object_like (member (codes "authorization") p.payload) in
    let signature = member (codes "signature") p.payload in
    (
      λ e. (
        ground (
          arith,
          eq_text_iff p.accepted.network r.network,
          eq_text_iff p.accepted.scheme r.scheme,
          eq_text_iff p.accepted.asset r.asset,
          eq_text_iff p.accepted.amount r.amount,
          eq_text_iff p.accepted.pay_to r.pay_to,
        ),
        (is_given_iff authorization).0 (ground arith),
        (is_signature_iff signature).0 (ground arith),
      ),
      λ (same, given, signed).
          let g = (is_given_iff authorization).1 given in
          let s = (is_signature_iff signature).1 signed in
          ground (
            arith,
            eq_text_iff p.accepted.network r.network,
            eq_text_iff p.accepted.scheme r.scheme,
            eq_text_iff p.accepted.asset r.asset,
            eq_text_iff p.accepted.amount r.amount,
            eq_text_iff p.accepted.pay_to r.pay_to,
          ),
    )
