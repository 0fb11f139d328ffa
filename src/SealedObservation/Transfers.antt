-- ===== src/SealedObservation/Transfers.antt =====
-- The transfers that are read out of logs, and the one that an observation records
-- (src/flow/observe-transaction.ts).
use x402_base_evidence.Common.{
  ℕ, ◌≡◌, refl, ◌↔◌, inl, inr, true, Option, some, List, [], ◌∷◌, arith, In, In-filter_map, Text,
  eq_text, eq_text_iff, to_lower, lower, Option-cases, Bool-cases, length, ◌++◌, all, is_hex, codes,
}
use x402_base_evidence.Common.Decimal.{to_decimal, decimal_value, decimal_value-to_decimal}
use x402_base_evidence.Common.Hex.{hex_number}
use x402_base_evidence.Rpc.{
  hash32, address20, behind_0x, is_hex_of, abi_uint256_data, big_int, big_int,
}
use x402_base_evidence.SealedObservation.{
  Log, Receipt, Transaction, answered, Source, Transfer, same_address, transfer_of, placed,
  transfers_on_contract, transfer_matches_expected, find_matching, first, recorded_transfer,
  conclude, on_answers, observe_sealed_transaction, transfer_event_topic, address_of_topic, last_40,
  address_topic, is_padded_address,
}

-- The two transfers are of the same token, parties and amount, the letter case of addresses aside.
pub record IsSameTransfer (t u : Transfer) : Type 0 where
  pub token : to_lower t.token_contract ≡ to_lower u.token_contract
  pub from' : to_lower t.transfer_from ≡ to_lower u.transfer_from
  pub to : to_lower t.transfer_to ≡ to_lower u.transfer_to
  pub amount : t.transfer_amount ≡ u.transfer_amount

pub same_address_iff : (a b : Text) → (same_address a b ≡ true) ↔ (to_lower a ≡ to_lower b)
unfolding same_address
same_address_iff a b = eq_text_iff (to_lower a) (to_lower b)

pub transfer_matches_expected_iff :
    (t u : Transfer) → (transfer_matches_expected t u ≡ true) ↔ IsSameTransfer t u
unfolding transfer_matches_expected
transfer_matches_expected_iff t u = ground (
  arith,
  same_address_iff t.token_contract u.token_contract,
  same_address_iff t.transfer_from u.transfer_from,
  same_address_iff t.transfer_to u.transfer_to,
  eq_text_iff t.transfer_amount u.transfer_amount,
)

find_matching-eq-some :
    (expected : Transfer) (ts : List Transfer) (t : Transfer)
    → find_matching expected ts ≡ some t
    → (In t ts × (transfer_matches_expected t expected ≡ true))
unfolding find_matching
find_matching-eq-some expected [] t e = absurd (ground arith)
find_matching-eq-some expected (u ∷ ts) t e =
    elim (Bool-cases (transfer_matches_expected u expected)) [
      | inl here ↦ (inl (ground arith), ground arith)
      | inr other ↦
          let (m, same) = find_matching-eq-some expected ts t (ground arith) in (inr m, same)
    ]

find_matching-In :
    (expected : Transfer) (ts : List Transfer) (t : Transfer)
    → In t ts
    → transfer_matches_expected t expected ≡ true
    → ((u : Transfer) × (find_matching expected ts ≡ some u))
unfolding find_matching
find_matching-In expected (u ∷ ts) t (inl e) h = (u, ground arith)
find_matching-In expected (u ∷ ts) t (inr m) h =
    elim (Bool-cases (transfer_matches_expected u expected)) [
      | inl here ↦ (u, ground arith)
      | inr other ↦ let (v, found) = find_matching-In expected ts t m h in (v, ground arith)
    ]
find_matching-In expected [] t m h = absurd m

first-In : (ts : List Transfer) (t : Transfer) → first ts ≡ some t → In t ts
unfolding first
first-In (u ∷ ts) t e = inl (ground arith)
first-In [] t e = absurd (ground arith)

recorded-In :
    (expected : Transfer) (ts : List Transfer) (t : Transfer)
    → recorded_transfer expected ts ≡ some t
    → In t ts
unfolding recorded_transfer
recorded-In expected ts t e = elim (Option-cases (find_matching expected ts)) [
  | inl nothing ↦ first-In ts t (ground arith)
  | inr (u, found_u) ↦ (find_matching-eq-some expected ts t (ground arith)).0
]

transfers_on_contract-In_iff :
    (logs : List Log) (token : Text) (t : Transfer)
    → In t (transfers_on_contract logs token)
      ↔ ((address20 token ≡ true) × ((l : Log) × In l logs × (transfer_of token l ≡ some t)))
unfolding transfers_on_contract
transfers_on_contract-In_iff logs token t = elim (Bool-cases (address20 token)) [
  | inl well_formed ↦ rw well_formed (
    λ m. (refl, (In-filter_map (transfer_of token) logs t).0 m),
    λ h. (In-filter_map (transfer_of token) logs t).1 h.1,
  )
  | inr malformed ↦ ground arith
]

conclude-token_transfer :
    (src : Source) (w : Text) (expected : Transfer) (at : ℕ) (r : Receipt) (t : Option Transaction)
    → (conclude src w expected at (some r) t).token_transfer
      ≡ recorded_transfer expected (transfers_on_contract r.logs expected.token_contract)
unfolding conclude
conclude-token_transfer src w expected at r t = elim (Option-cases (placed src w r t)) [
  | inl nothing ↦ ground arith
  | inr (p, it_is) ↦ ground arith
]

-- A log carries the expected transfer: it is read as a transfer on the expected token, which is that
-- transfer.
abbrev pub Carries : Transfer → Log → Type 0
Carries expected l =
    (t : Transfer) × (transfer_of expected.token_contract l ≡ some t) × IsSameTransfer t expected

recorded-found :
    (expected : Transfer) (ts : List Transfer) (t : Transfer)
    → find_matching expected ts ≡ some t
    → recorded_transfer expected ts ≡ some t
unfolding recorded_transfer
recorded-found expected ts t e = rw (recorded_transfer, e) refl

recorded_iff :
    (expected : Transfer) (logs : List Log)
    → ((t : Transfer) × (recorded_transfer expected
            (transfers_on_contract logs expected.token_contract)
          ≡ some t)
        × IsSameTransfer t expected)
      ↔ ((address20 expected.token_contract ≡ true) × ((l : Log) × In l logs × Carries expected l))
recorded_iff expected logs =
    let ts = transfers_on_contract logs expected.token_contract in
    (
      λ (t, recorded, same).
          let (well_formed, (l, m, reads)) =
            (transfers_on_contract-In_iff logs expected.token_contract t).0
              (recorded-In expected ts t recorded) in
          (well_formed, (l, m, (t, reads, same))),
      λ (well_formed, (l, m, (t, reads, same))).
          let m' =
            (transfers_on_contract-In_iff logs expected.token_contract t).1
              (well_formed, (l, m, reads)) in
          let (u, found_u) =
            find_matching-In expected ts t m' ((transfer_matches_expected_iff t expected).1 same) in
          (
            u,
            recorded-found expected ts u found_u,
            (transfer_matches_expected_iff u expected).0
                (find_matching-eq-some expected ts u found_u).1,
          ),
    )

-- When the receipt and the transaction were answered, the observation records the expected transfer
-- exactly if the expected token is an address and some log of the receipt, wherever it stands among
-- the others, is read as that transfer.
pub observe-token_transfer_iff :
    (src : Source) (w : Text) (expected : Transfer) (at : ℕ) (r : Receipt) (t : Option Transaction)
    → hash32 w ≡ true
    → src.transaction_receipt w ≡ answered (some r)
    → src.transaction_by_hash w ≡ answered t
    → ((u : Transfer) × ((observe_sealed_transaction src w expected at).token_transfer ≡ some u)
        × IsSameTransfer u expected)
      ↔ ((address20 expected.token_contract ≡ true)
          × ((l : Log) × In l r.logs × Carries expected l))
unfolding observe_sealed_transaction on_answers
observe-token_transfer_iff src w expected at r t h qr qt = rw h (
    rw qr
      (rw qt (rw (conclude-token_transfer src w expected at r t) (recorded_iff expected r.logs))))

-- The word of a topic that holds an address of these digits.
abbrev address_word : Text → Text
address_word digits = codes "0x000000000000000000000000" ++ digits

-- A `Transfer` log, as the token's contract emits it: the signature, the two parties as padded words,
-- and the amount as one word.
abbrev pub emitted : Text → Text → Text → Text → Log
emitted token from to word = record {
  address = token;
  topics = transfer_event_topic ∷ address_word from ∷ address_word to ∷ [];
  data' = codes "0x" ++ word;
}

abbrev IsDigits : ℕ → Text → Type 0
IsDigits n cs = (length cs ≡ n) × (all is_hex cs ≡ true)

address_of_word :
    (digits : Text)
    → length digits ≡ 40
    → address_of_topic (address_word digits) ≡ codes "0x" ++ digits
unfolding address_of_topic last_40
address_of_word digits h = rw h refl

address_topic_word :
    (digits : Text)
    → length digits ≡ 40
    → all is_hex digits ≡ true
    → address_topic (address_word digits) ≡ true
unfolding address_topic behind_0x is_padded_address
address_topic_word digits h k = rw h k

transfer_event_topic-IsWord : abi_uint256_data transfer_event_topic ≡ true
unfolding abi_uint256_data behind_0x is_hex_of transfer_event_topic is_hex
transfer_event_topic-IsWord = refl

transfer_event_topic-IsLower : eq_text (to_lower transfer_event_topic) transfer_event_topic ≡ true
unfolding transfer_event_topic lower eq_text
transfer_event_topic-IsLower = refl

word-IsWord :
    (word : Text)
    → length word ≡ 64
    → all is_hex word ≡ true
    → abi_uint256_data (codes "0x" ++ word) ≡ true
unfolding abi_uint256_data behind_0x is_hex_of
word-IsWord word h k = rw h k

-- A log as the contract at `token` emits it is read as exactly the transfer it stands for: its token
-- and its parties with the digits given, and an amount whose decimal text denotes the word's value.
pub transfer_of-emitted :
    (expected token from to word : Text)
    → address20 token ≡ true
    → to_lower token ≡ to_lower expected
    → IsDigits 40 from
    → IsDigits 40 to
    → IsDigits 64 word
    → ((amount : Text) × (transfer_of expected (emitted token from to word)
          ≡ some (record {
            token_contract = token;
            transfer_from = codes "0x" ++ from;
            transfer_to = codes "0x" ++ to;
            transfer_amount = amount;
          }))
        × (decimal_value amount ≡ hex_number word))
unfolding transfer_of big_int
transfer_of-emitted expected token from to word h same (fl, fh) (tl, th) (wl, wh) = (
  to_decimal (hex_number word),
  rw h (
      rw ((same_address_iff token expected).1 same) (
        rw transfer_event_topic-IsWord (
          rw transfer_event_topic-IsLower (
            rw (address_topic_word from fl fh) (
              rw (address_topic_word to tl th) (
                rw (word-IsWord word wl wh)
                  (rw (address_of_word from fl) (rw (address_of_word to tl) refl)))))))),
  decimal_value-to_decimal (hex_number word),
)
