-- ===== src/FailureVocabulary.antt =====
-- src/flow/failure-vocabulary.ts: the reasons that may be persisted, and which of them is. The
-- string union `FailureReason` is an enumeration, with the string of each member.
use x402_base_evidence.Common.{
  ℕ, ◌≡◌, ◌≢◌, refl, ap, ◌⊎◌, inl, inr, Bool, true, false, not, ◌&&◌, ◌||◌, Option, none, some,
  List, [], ◌∷◌, arith, if◌then◌else◌, leb, ◌==◌, length, all, In, Text, codes, within, is_digit,
  eq_text, eq_text_iff, Bool-cases,
}

pub data FailureReason : Type 0 where
  verification_rejected verification_exception settlement_rejected : FailureReason
  settlement_exception handler_failed duplicate_settlement network_mismatch : FailureReason
  scheme_mismatch asset_mismatch amount_mismatch recipient_mismatch : FailureReason
  missing_authorization : FailureReason

unfoldable term : FailureReason → Text
term verification_rejected = codes "verification_rejected"
term verification_exception = codes "verification_exception"
term settlement_rejected = codes "settlement_rejected"
term settlement_exception = codes "settlement_exception"
term handler_failed = codes "handler_failed"
term duplicate_settlement = codes "duplicate_settlement"
term network_mismatch = codes "network_mismatch"
term scheme_mismatch = codes "scheme_mismatch"
term asset_mismatch = codes "asset_mismatch"
term amount_mismatch = codes "amount_mismatch"
term recipient_mismatch = codes "recipient_mismatch"
term missing_authorization = codes "missing_authorization"

abbrev supported_upstream_reasons : List FailureReason
supported_upstream_reasons =
    duplicate_settlement ∷ network_mismatch ∷ scheme_mismatch ∷ asset_mismatch ∷ amount_mismatch
    ∷ recipient_mismatch ∷ missing_authorization ∷ handler_failed ∷ []

is_reason_char : ℕ → Bool
unfolding is_digit
is_reason_char c = within b'a' b'z' c || is_digit c || c == b'_'

-- `UPSTREAM_REASON_PATTERN`, `^[a-z][a-z0-9_]{0,39}$`
upstream_reason_pattern : Text → Bool
unfolding is_reason_char
upstream_reason_pattern [] = false
upstream_reason_pattern (c ∷ cs) = within b'a' b'z' c && leb (length cs) 39 && all is_reason_char cs

-- `SUPPORTED.has(upstream) ? (upstream as FailureReason) : derived`
adopt : List FailureReason → Text → FailureReason → FailureReason
adopt [] upstream derived = derived
adopt (r ∷ rs) upstream derived = if eq_text (term r) upstream then r else adopt rs upstream derived

-- `none` is a value that is no string.
unfoldable pub persistable_failure_reason : Option Text → FailureReason → FailureReason
unfolding upstream_reason_pattern adopt term eq_text
persistable_failure_reason none derived = derived
persistable_failure_reason (some upstream) derived =
    if not (upstream_reason_pattern upstream)
    then derived
    else adopt supported_upstream_reasons upstream derived

-- What becomes of the text `s`: it is the term of a listed reason, which is adopted, or it is the
-- term of none, and the derived reason stands.
abbrev IsDecided : List FailureReason → Text → FailureReason → FailureReason → Type 0
IsDecided rs s derived result =
    ((r : FailureReason) × In r rs × (term r ≡ s) × (result ≡ r))
    ⊎ (((r : FailureReason) → In r rs → term r ≢ s) × (result ≡ derived))

adopt-IsDecided :
    (rs : List FailureReason) (s : Text) (d : FailureReason) → IsDecided rs s d (adopt rs s d)
unfolding adopt
adopt-IsDecided [] s d = inr (λ r m. absurd m, refl)
adopt-IsDecided (r ∷ rs) s d = elim (Bool-cases (eq_text (term r) s)) [
  | inl e ↦ inl (r, inl refl, (eq_text_iff (term r) s).0 e, rw e refl)
  | inr e ↦ elim (adopt-IsDecided rs s d) [
    | inl (q, m, t, same) ↦ inl (q, inr m, t, rw e same)
    | inr (none_of, same) ↦ inr (
      λ q. elim [
        | inl here ↦ λ t. cc ((eq_text_iff (term r) s).1 (rw here at t), e)
        | inr later ↦ none_of q later
      ],
      rw e same,
    )
  ]
]

supported-pattern :
    (r : FailureReason) → In r supported_upstream_reasons → upstream_reason_pattern (term r) ≡ true
unfolding upstream_reason_pattern term
supported-pattern duplicate_settlement m = refl
supported-pattern network_mismatch m = refl
supported-pattern scheme_mismatch m = refl
supported-pattern asset_mismatch m = refl
supported-pattern amount_mismatch m = refl
supported-pattern recipient_mismatch m = refl
supported-pattern missing_authorization m = refl
supported-pattern handler_failed m = refl
supported-pattern _ m = absurd (ground arith)

-- A text that a remote party supplied is adopted exactly if it is the term of a supported reason;
-- otherwise the derived reason is persisted. In particular the pattern refuses no supported reason.
persistable-IsDecided :
    (s : Text) (derived : FailureReason)
    → IsDecided supported_upstream_reasons s derived (persistable_failure_reason (some s) derived)
unfolding persistable_failure_reason
persistable-IsDecided s d = elim (Bool-cases (upstream_reason_pattern s)) [
  | inl e ↦ rw e (adopt-IsDecided supported_upstream_reasons s d)
  | inr e ↦ inr (λ r m t. cc (supported-pattern r m, e, ap upstream_reason_pattern t), rw e refl)
]
