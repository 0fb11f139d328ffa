-- ===== src/SealedObservation/Inclusion.antt =====
-- What an inclusion level rests on (src/flow/observe-transaction.ts).
use x402_base_evidence.Common.{
  ℕ, ◌≤◌, ◌≡◌, refl, subst, ◌∙◌, ap, ◌↔◌, inl, inr, true, Option, none, some, List, [], ◌∷◌, arith,
  In, Text, eq_text, eq_text_iff, to_lower, any, Option-cases, Bool-cases,
}
use x402_base_evidence.Common.Decimal.{to_decimal}
use x402_base_evidence.Rpc.{hash32}
use x402_base_evidence.SealedObservation.{
  Receipt, Transaction, SealedBlock, Answer, answered, rpc_failed, failed_locally, Source, Transfer,
  l2_block_inclusion, agreed, placement, sealed_at, placed, conclude, observe_sealed_transaction,
  on_answers, without_facts,
}

-- The block of this number and hash is what the sealed source gives for the number, and it lists the
-- transaction; the head is at or above it.
abbrev IsSealedIn : Source → Text → ℕ → Text → Type 0
IsSealedIn src transaction_hash number hash =
    (block : SealedBlock) × (head : ℕ) × (listed : Text) × (src.sealed_block_by_number number
      ≡ answered (some block))
    × (block.number ≡ number)
    × (to_lower block.hash ≡ to_lower hash)
    × In listed block.transaction_hashes
    × (to_lower listed ≡ to_lower transaction_hash)
    × (src.sealed_head_block_number ≡ answered head)
    × (number ≤ head)

-- The receipt and the transaction object report the same placement, and it is sealed.
abbrev pub Agrees : Source → Text → Receipt → Transaction → ℕ → Text → Type 0
Agrees src transaction_hash r t number hash =
    (hash' : Text) × (r.block_number ≡ some number)
    × (r.block_hash ≡ some hash)
    × (t.block_number ≡ some number)
    × (t.block_hash ≡ some hash')
    × (to_lower hash' ≡ to_lower hash)
    × IsSealedIn src transaction_hash number hash

lists_iff :
    (wanted : Text) (hs : List Text)
    → (any (λ h. eq_text (to_lower h) (to_lower wanted)) hs ≡ true)
      ↔ ((h : Text) × In h hs × (to_lower h ≡ to_lower wanted))
lists_iff wanted [] = ground arith
lists_iff wanted (h ∷ hs) = (
  λ e. elim (Bool-cases (eq_text (to_lower h) (to_lower wanted))) [
    | inl same ↦ (h, inl refl, (eq_text_iff (to_lower h) (to_lower wanted)).0 same)
    | inr other ↦ let (h', m, same) = (lists_iff wanted hs).0 (ground arith) in (h', inr m, same)
  ],
  λ (h', m, same). elim m [
    | inl here ↦ ground (arith, eq_text_iff (to_lower h) (to_lower wanted), ap to_lower here)
    | inr later ↦ ground (arith, (lists_iff wanted hs).1 (h', later, same))
  ],
)

agreed-eq-some :
    (w : Text) (n : ℕ) (h : Text) (b : Answer (Option SealedBlock)) (head : Answer ℕ)
    (p : Text × Text)
    → agreed w n h b head ≡ some p
    → ((block : SealedBlock) × (top : ℕ) × (b ≡ answered (some block))
        × (head ≡ answered top)
        × (block.number ≡ n)
        × (to_lower block.hash ≡ to_lower h)
        × (any (λ l. eq_text (to_lower l) (to_lower w)) block.transaction_hashes ≡ true)
        × (n ≤ top)
        × (p ≡ (to_decimal n, h)))
unfolding agreed
agreed-eq-some w n h (answered (some block)) (answered top) p e = (
  block,
  top,
  refl,
  refl,
  ground arith,
  ground (arith, eq_text_iff (to_lower block.hash) (to_lower h)),
  ground arith,
  ground arith,
  ground arith,
)
agreed-eq-some w n h _ _ p e = absurd (ground arith)

agreed_complete :
    (src : Source) (w : Text) (n : ℕ) (h : Text)
    → IsSealedIn src w n h
    → agreed w n h (src.sealed_block_by_number n) src.sealed_head_block_number
      ≡ some (to_decimal n, h)
unfolding agreed
agreed_complete src w n h (block, top, listed, q, number, hash, m, same, q', below) =
    let lists = (lists_iff w block.transaction_hashes).1 (listed, m, same) in
    let hash_same = (eq_text_iff (to_lower block.hash) (to_lower h)).1 hash in
    rw q (rw q' (ground arith))

placement-eq-some :
    (n : Option ℕ) (h : Option Text) (p : ℕ × Text)
    → placement n h ≡ some p
    → ((n ≡ some p.0) × (h ≡ some p.1))
unfolding placement
placement-eq-some (some n) (some h) p e = ground arith
placement-eq-some none h p e = ground arith
placement-eq-some (some n) none p e = ground arith

sealed_at-eq-some :
    (src : Source) (w : Text) (n n' : ℕ) (h h' : Text) (p : Text × Text)
    → sealed_at src w (some (n, h)) (some (n', h')) ≡ some p
    → ((n' ≡ n) × (to_lower h' ≡ to_lower h) × (p ≡ (to_decimal n, h)) × IsSealedIn src w n h)
unfolding sealed_at
sealed_at-eq-some src w n n' h h' p e =
    let same : eq_text (to_lower h') (to_lower h) ≡ true = ground arith in
    let (block, top, q, q', number, hash, lists, below, got) =
      agreed-eq-some w n h (src.sealed_block_by_number n) src.sealed_head_block_number p
        (ground arith) in
    let (listed, m, l) = (lists_iff w block.transaction_hashes).0 lists in
    (
      ground arith,
      (eq_text_iff (to_lower h') (to_lower h)).0 same,
      got,
      (block, top, listed, q, number, hash, m, l, q', below),
    )

sealed_at-some :
    (src : Source) (w : Text) (r t : Option (ℕ × Text)) (p : Text × Text)
    → sealed_at src w r t ≡ some p
    → ((a : ℕ × Text) × (b : ℕ × Text) × (r ≡ some a) × (t ≡ some b))
unfolding sealed_at
sealed_at-some src w (some a) (some b) p e = (a, b, refl, refl)
sealed_at-some src w none t p e = absurd (ground arith)
sealed_at-some src w (some a) none p e = absurd (ground arith)

placed-eq-some :
    (src : Source) (w : Text) (r : Receipt) (t : Option Transaction) (p : Text × Text)
    → placed src w r t ≡ some p
    → ((tx : Transaction) × (number : ℕ) × (hash : Text) × (t ≡ some tx)
        × (p ≡ (to_decimal number, hash))
        × Agrees src w r tx number hash)
unfolding placed
placed-eq-some src w r none p e = absurd (ground arith)
placed-eq-some src w r (some t) p e =
    let ((n, h), (n', h'), qr, qt) =
      sealed_at-some src w (placement r.block_number r.block_hash)
        (placement t.block_number t.block_hash) p e in
    let (rn, rh) = placement-eq-some r.block_number r.block_hash (n, h) qr in
    let (tn, th) = placement-eq-some t.block_number t.block_hash (n', h') qt in
    let (number, hash, got, sealed) = sealed_at-eq-some src w n n' h h' p (ground arith) in
    (t, n, h, refl, got, (h', rn, rh, tn ∙ ap some number, th, hash, sealed))

placed_complete :
    (src : Source) (w : Text) (r : Receipt) (t : Transaction) (number : ℕ) (hash : Text)
    → Agrees src w r t number hash
    → placed src w r (some t) ≡ some (to_decimal number, hash)
unfolding placed placement sealed_at
placed_complete src w r t number hash (h', rn, rh, tn, th, same, sealed) = ground (
  arith,
  agreed_complete src w number hash sealed,
  (eq_text_iff (to_lower h') (to_lower hash)).1 same,
)

-- The two queries were answered, with a receipt and a transaction that agree on a sealed placement.
abbrev pub IsIncluded : Source → Text → ℕ → Text → Type 0
IsIncluded src transaction_hash number hash =
    (hash32 transaction_hash ≡ true)
    × ((r : Receipt) × (t : Transaction) × (src.transaction_receipt transaction_hash
          ≡ answered (some r))
        × (src.transaction_by_hash transaction_hash ≡ answered (some t))
        × Agrees src transaction_hash r t number hash)

conclude-level :
    (src : Source) (w : Text) (expected : Transfer) (at : ℕ) (r : Option Receipt)
    (t : Option Transaction)
    → (conclude src w expected at r t).observation_level ≡ some l2_block_inclusion
    → ((r' : Receipt) × (p : Text × Text) × (r ≡ some r')
        × (placed src w r' t ≡ some p)
        × ((conclude src w expected at r t).block_number ≡ some p.0)
        × ((conclude src w expected at r t).block_hash ≡ some p.1))
unfolding conclude without_facts
conclude-level src w expected at none none e = absurd (ground arith)
conclude-level src w expected at none (some t) e = absurd (ground arith)
conclude-level src w expected at (some r) t e = elim (Option-cases (placed src w r t)) [
  | inl nothing ↦ absurd (ground arith)
  | inr (p, it_is) ↦ (r, p, refl, it_is, ground arith, ground arith)
]

on_answers-level :
    (src : Source) (w : Text) (expected : Transfer) (at : ℕ) (r : Answer (Option Receipt))
    (t : Answer (Option Transaction))
    → (on_answers src w expected at r t).observation_level ≡ some l2_block_inclusion
    → ((r' : Option Receipt) × (t' : Option Transaction) × (r ≡ answered r') × (t ≡ answered t'))
unfolding on_answers without_facts
on_answers-level src w expected at (answered r) (answered t) e = (r, t, refl, refl)
on_answers-level src w expected at (answered r) (rpc_failed f) e = absurd (ground arith)
on_answers-level src w expected at (answered r) failed_locally e = absurd (ground arith)
on_answers-level src w expected at (rpc_failed f) t e = absurd (ground arith)
on_answers-level src w expected at failed_locally t e = absurd (ground arith)

pub observe-IsIncluded :
    (src : Source) (w : Text) (expected : Transfer) (at : ℕ)
    → (observe_sealed_transaction src w expected at).observation_level ≡ some l2_block_inclusion
    → ((number : ℕ) × (hash : Text) × ((observe_sealed_transaction src w expected at).block_number
          ≡ some (to_decimal number))
        × ((observe_sealed_transaction src w expected at).block_hash ≡ some hash)
        × IsIncluded src w number hash)
unfolding observe_sealed_transaction on_answers without_facts
observe-IsIncluded src w expected at e =
    let hashed : hash32 w ≡ true = ground arith in
    let (r, t, qr, qt) =
      on_answers-level src w expected at (src.transaction_receipt w) (src.transaction_by_hash w)
        (ground arith) in
    let (r', p, found, at_p, number_of, hash_of) =
      conclude-level src w expected at r t (ground arith) in
    let (tx, number, hash, found_tx, got, agrees) = placed-eq-some src w r' t p at_p in
    (
      number,
      hash,
      ground arith,
      ground arith,
      (hashed, (r', tx, ground arith, ground arith, agrees)),
    )

-- An observation carries the inclusion level with a block number and hash exactly if the reference
-- is a transaction hash, the receipt and the transaction object report the same placement, the block
-- that the source gives for that number has that number and hash and lists the transaction, and the
-- sealed head is not below it; the number and hash are those of the receipt, in decimal and as given.
pub observe-inclusion_iff :
    (src : Source) (w : Text) (expected : Transfer) (at : ℕ) (number_text hash : Text)
    → (((observe_sealed_transaction src w expected at).observation_level ≡ some l2_block_inclusion)
        × ((observe_sealed_transaction src w expected at).block_number ≡ some number_text)
        × ((observe_sealed_transaction src w expected at).block_hash ≡ some hash))
      ↔ ((number : ℕ) × (number_text ≡ to_decimal number) × IsIncluded src w number hash)
unfolding observe_sealed_transaction on_answers conclude without_facts
observe-inclusion_iff src w expected at number_text hash = (
  λ (level, n, h).
      let (number, hash', number_of, hash_of, is_included) =
        observe-IsIncluded src w expected at level in
      let same : hash' ≡ hash = ground arith in
      (number, ground arith, subst (IsIncluded src w number) same is_included),
  λ (number, decimal, (hashed, (r, t, qr, qt, agrees))).
      let at_p = placed_complete src w r t number hash agrees in ground arith,
)
