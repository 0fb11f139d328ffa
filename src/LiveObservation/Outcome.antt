-- ===== src/LiveObservation/Outcome.antt =====
-- What the outcomes of the loop say (src/flow/live-e2e.ts, `observeUntilSealed`).
use x402_base_evidence.Common.{
  ℕ, zero, suc, ◌+◌, ◌*◌, ◌/◌, ◌≡◌, refl, ◌⊎◌, ap, ◌∙◌, sym, inl, inr, true, Option, none, some,
  arith, Text, Option-cases, Bool-cases, In,
}
use x402_base_evidence.SealedObservation.{
  SealedRpcObservation, Source, Transfer, Log, Receipt, answered, observe_sealed_transaction,
  l2_block_inclusion, transfer_matches_expected,
}
use x402_base_evidence.SealedObservation.Transfers.{
  transfer_matches_expected_iff, Carries, observe-token_transfer_iff,
}
use x402_base_evidence.SealedObservation.Inclusion.{IsIncluded, observe-IsIncluded}
use x402_base_evidence.LiveObservation.{
  LiveOutcome, matched, not_established, LiveInput, definitive, attempt, is_expired, turns,
  observe_until_sealed, on_state, on_found, on_level, on_reason, is_matching,
}

-- The outcome is that of the last attempt, and every earlier attempt left the question open.
abbrev pub EndsAt : LiveInput → ℕ → ℕ → LiveOutcome → SealedRpcObservation → Type 0
EndsAt input from last outcome o =
    (o ≡ attempt input last)
    × ((definitive input.expected_transfer o ≡ some outcome)
        ⊎ ((definitive input.expected_transfer o ≡ none)
            × (outcome ≡ not_established)
            × (is_expired input last ≡ true)))

turns-EndsAt :
    (fuel : ℕ) (input : LiveInput) (i : ℕ) (outcome : LiveOutcome) (o : SealedRpcObservation)
    → turns fuel input i ≡ some (outcome, o)
    → ((last : ℕ) × EndsAt input i last outcome o)
unfolding turns
turns-EndsAt zero input i outcome o e = absurd (ground arith)
turns-EndsAt (suc fuel) input i outcome o e =
    elim (Option-cases (definitive input.expected_transfer (attempt input i))) [
      | inr (settled, settles) ↦ (i, (ground arith, inl (ground arith)))
      | inl unsettled ↦ elim (Bool-cases (is_expired input i)) [
        | inl expired ↦ (i, (ground arith, inr (ground arith)))
        | inr early ↦ turns-EndsAt fuel input (suc i) outcome o (ground arith)
      ]
    ]

is_matching-eq-true :
    (expected : Transfer) (t : Option Transfer)
    → is_matching expected t ≡ true
    → ((u : Transfer) × (t ≡ some u) × (transfer_matches_expected u expected ≡ true))
unfolding is_matching
is_matching-eq-true expected none e = absurd (ground arith)
is_matching-eq-true expected (some t) e = (t, refl, e)

matched-lem :
    (expected : Transfer) (o : SealedRpcObservation)
    → definitive expected o ≡ some matched
    → ((o.observation_level ≡ some l2_block_inclusion)
        × (is_matching expected o.token_transfer ≡ true))
unfolding definitive on_state on_found on_level on_reason
matched-lem expected o e = ground arith

-- When every attempt observes one transaction through a source, which may answer anew each time, the
-- outcome `matched` says that at some attempt the transaction was included in a sealed block, and that
-- the receipt that was given then has a log that is the expected transfer.
pub matched-IsIncluded :
    (input : LiveInput) (src : ℕ → Source) (w : Text) (o : SealedRpcObservation)
    → ((i at : ℕ)
        → input.observe i at ≡ observe_sealed_transaction (src i) w input.expected_transfer at)
    → observe_until_sealed input ≡ some (matched, o)
    → ((i : ℕ) × (number : ℕ) × (hash : Text) × (r : Receipt) × (l : Log) × IsIncluded
          (src i)
          w
          number
          hash
        × ((src i).transaction_receipt w ≡ answered (some r))
        × In l r.logs
        × Carries input.expected_transfer l)
unfolding observe_until_sealed attempt
matched-IsIncluded input src w o observes e =
    let (i, (is_o, ends)) =
      turns-EndsAt (suc (input.deadline_ms / input.poll_ms)) input 0 matched o e in
    let at = input.now_ms (2 * i + 1) / 1000 in
    let seen : o ≡ observe_sealed_transaction (src i) w input.expected_transfer at =
      is_o ∙ observes i at in
    let settles : definitive input.expected_transfer o ≡ some matched = ground arith in
    let (level, matches) = matched-lem input.expected_transfer o settles in
    let (number, hash, number_is, hash_is, included) =
      observe-IsIncluded (src i) w input.expected_transfer at
        (ap (λ (x : SealedRpcObservation). x.observation_level) (sym seen) ∙ level) in
    let (t, transferred, same) =
      is_matching-eq-true input.expected_transfer o.token_transfer matches in
    let (hashed, (r, tx, qr, qt, agrees)) = included in
    let (well_formed, (l, m, carries)) =
      (observe-token_transfer_iff (src i) w input.expected_transfer at r (some tx) hashed qr qt).0 (
        t,
        ap (λ (x : SealedRpcObservation). x.token_transfer) (sym seen) ∙ transferred,
        (transfer_matches_expected_iff t input.expected_transfer).0 same,
      ) in
    (i, number, hash, r, l, included, qr, m, carries)
