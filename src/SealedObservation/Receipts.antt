-- ===== src/SealedObservation/Receipts.antt =====
-- What an admitted receipt is (src/flow/observe-transaction.ts, `admitReceiptResult`).
use x402_base_evidence.Common.{
  ℕ, ◌≤◌, ◌≡◌, refl, subst, ap, ◌∙◌, ◌↔◌, ◌⊎◌, inl, inr, Bool, true, false, Option, none, some,
  List, [], ◌∷◌, arith, length, map, all, Text, codes, eq_text_iff, to_lower, Bool-cases,
}
use x402_base_evidence.Json.{
  Json, boolean, string, object, Fields, member, as_array, as_string, as_object, is_nullish,
}
use x402_base_evidence.Rpc.{
  Failure, Result, ok, thrown, ◌>>◌, hash32, address20, rpc_data, admit_rpc_quantity,
  object_or_unusable, string_or_unusable,
}
use x402_base_evidence.SealedObservation.{Log, Receipt}
use x402_base_evidence.SealedObservation.Admission.{
  some_or_unusable, text_of_shape, quantity_or_unusable, admit_texts, array_or_unusable,
  check_removed, same_as, check_hash, same_number, check_number, admit_log, admit_logs,
  admit_receipt_result, max_receipt_logs,
}

Result-cases :
    {A : Type 0} (r : Result A) → ((a : A) × (r ≡ ok a)) ⊎ ((e : Failure) × (r ≡ thrown e))
Result-cases (ok a) = inl (a, refl)
Result-cases (thrown e) = inr (e, refl)

checks-eq-ok :
    {B : Type 0} (k l m n : Result (Unit {0})) (b c : B)
    → k >> (l >> (m >> (n >> ok b))) ≡ ok c
    → ((k ≡ ok tt) × (l ≡ ok tt) × (m ≡ ok tt) × (n ≡ ok tt) × (b ≡ c))
checks-eq-ok k l m n b c e = ground arith

object-eq-ok : (v : Json) (fs : Fields) → object_or_unusable (some v) ≡ ok fs → v ≡ object fs
unfolding object_or_unusable as_object
object-eq-ok v fs e = ground arith

text_of_shape-eq-ok_iff :
    (shape : Text → Bool) (v : Option Json) (s : Text)
    → (text_of_shape shape v ≡ ok s) ↔ ((v ≡ some (string s)) × (shape s ≡ true))
unfolding text_of_shape string_or_unusable as_string
text_of_shape-eq-ok_iff shape v s = ground arith

array-eq-ok :
    (v : Option Json) (vs : List Json) → array_or_unusable v ≡ ok vs → as_array v ≡ some vs
unfolding array_or_unusable some_or_unusable
array-eq-ok v vs e = ground arith

admit_texts-eq-ok :
    (shape : Text → Bool) (vs : List Json) (ss : List Text)
    → admit_texts shape vs ≡ ok ss
    → ((vs ≡ map string ss) × (all shape ss ≡ true))
unfolding admit_texts
admit_texts-eq-ok shape [] [] e = ground arith
admit_texts-eq-ok shape [] (s ∷ ss) e = absurd (ground arith)
admit_texts-eq-ok shape (v ∷ vs) [] e = absurd (ground arith)
admit_texts-eq-ok shape (v ∷ vs) (s ∷ ss) e =
    ground (arith, text_of_shape-eq-ok_iff shape (some v) s, admit_texts-eq-ok shape vs ss)

check_removed-eq-ok_iff :
    (v : Option Json) → (check_removed v ≡ ok tt) ↔ ((v ≡ none) ⊎ (v ≡ some (boolean false)))
unfolding check_removed
check_removed-eq-ok_iff v = ground arith

-- The hash is the expected one, the letter case aside, if one is expected.
abbrev Equals : Option Text → Text → Type 0
Equals none s = Unit
Equals (some e) s = to_lower s ≡ to_lower e

same_as-Equals : (expected : Option Text) (s : Text) → same_as expected s ≡ true → Equals expected s
unfolding same_as
same_as-Equals none s h = tt
same_as-Equals (some e) s h = (eq_text_iff (to_lower s) (to_lower e)).0 h

-- The number is the expected one, if one is expected.
abbrev EqualsNumber : Option ℕ → ℕ → Type 0
EqualsNumber none n = Unit
EqualsNumber (some m) n = n ≡ m

same_number-EqualsNumber :
    (expected : Option ℕ) (n : ℕ) → same_number expected n ≡ true → EqualsNumber expected n
unfolding same_number
same_number-EqualsNumber none n h = tt
same_number-EqualsNumber (some m) n h = ground arith

-- A hash that a log carries names what is expected, if anything is.
abbrev Names : Option Text → Option Json → Type 0
Names expected none = Unit
Names expected (some v) = (s : Text) × (v ≡ string s) × (hash32 s ≡ true) × Equals expected s

check_hash-eq-ok :
    (expected : Option Text) (v : Option Json) → check_hash expected v ≡ ok tt → Names expected v
unfolding check_hash
check_hash-eq-ok expected none e = tt
check_hash-eq-ok expected (some v) e = elim (Result-cases (text_of_shape hash32 (some v))) [
  | inl (s, q) ↦ (
    s,
    ground (arith, text_of_shape-eq-ok_iff hash32 (some v) s),
    ground (arith, text_of_shape-eq-ok_iff hash32 (some v) s),
    same_as-Equals expected s (ground arith),
  )
  | inr (f, q) ↦ absurd (ground arith)
]

-- A block number that a log carries is what is expected, if anything is.
abbrev Counts : Option ℕ → Option Json → Type 0
Counts expected v =
    (is_nullish v ≡ true) ⊎ ((n : ℕ) × (admit_rpc_quantity v ≡ some n) × EqualsNumber expected n)

quantity-eq-ok :
    (v : Option Json) (n : ℕ) → quantity_or_unusable v ≡ ok n → admit_rpc_quantity v ≡ some n
unfolding quantity_or_unusable some_or_unusable
quantity-eq-ok v n e = ground arith

check_number-eq-ok :
    (expected : Option ℕ) (v : Option Json) → check_number expected v ≡ ok tt → Counts expected v
unfolding check_number
check_number-eq-ok expected v e = elim (Bool-cases (is_nullish v)) [
  | inl nullish ↦ inl nullish
  | inr given ↦ elim (Result-cases (quantity_or_unusable v)) [
    | inl (n, q) ↦ inr (n, quantity-eq-ok v n q, same_number-EqualsNumber expected n (ground arith))
    | inr (f, q) ↦ absurd (ground arith)
  ]
]

-- A log is what its object says: an address, hashes as topics, and data, not removed, and placed in
-- the transaction and block that are expected.
pub record IsLogOf (expected : Option Text) (number : Option ℕ) (hash : Option Text) (raw : Json)
    (l : Log) : Type 0 where
  fields : Fields
  is_object : raw ≡ object fields
  address : member (codes "address") fields ≡ some (string l.address)
  address_shape : address20 l.address ≡ true
  topics : as_array (member (codes "topics") fields) ≡ some (map string l.topics)
  topic_shapes : all hash32 l.topics ≡ true
  data' : member (codes "data") fields ≡ some (string l.data')
  data_shape : rpc_data l.data' ≡ true
  kept :
      (member (codes "removed") fields ≡ none)
      ⊎ (member (codes "removed") fields ≡ some (boolean false))
  transaction : Names expected (member (codes "transactionHash") fields)
  block_hash : Names hash (member (codes "blockHash") fields)
  block_number : Counts number (member (codes "blockNumber") fields)

admit_log-IsLogOf :
    (expected : Option Text) (number : Option ℕ) (hash : Option Text) (raw : Json) (l : Log)
    → admit_log expected number hash raw ≡ ok l
    → IsLogOf expected number hash raw l
unfolding admit_log
admit_log-IsLogOf expected number hash raw l e =
    elim (Result-cases (object_or_unusable (some raw))) [
      | inr (f, q) ↦ absurd (ground arith)
      | inl (fs, q) ↦ elim (Result-cases (text_of_shape address20 (member (codes "address") fs))) [
        | inr (f, q1) ↦ absurd (ground arith)
        | inl (a, q1) ↦ elim (Result-cases (array_or_unusable (member (codes "topics") fs))) [
          | inr (f, q2) ↦ absurd (ground arith)
          | inl (vs, q2) ↦ elim (Result-cases (admit_texts hash32 vs)) [
            | inr (f, q3) ↦ absurd (ground arith)
            | inl (ts, q3) ↦
                elim (Result-cases (text_of_shape rpc_data (member (codes "data") fs))) [
                  | inr (f, q4) ↦ absurd (ground arith)
                  | inl (d, q4) ↦
                      let fs_of = object-eq-ok raw fs q in
                      let (address_is, address_ok) =
                        (text_of_shape-eq-ok_iff address20 (member (codes "address") fs) a).0 q1 in
                      let (topics_are, topics_ok) = admit_texts-eq-ok hash32 vs ts q3 in
                      let array_is = array-eq-ok (member (codes "topics") fs) vs q2 in
                      let (data_is, data_ok) =
                        (text_of_shape-eq-ok_iff rpc_data (member (codes "data") fs) d).0 q4 in
                      let made : Log = record { address = a; topics = ts; data' = d } in
                      let (removed, named, hashed, counted, same) =
                        checks-eq-ok (check_removed (member (codes "removed") fs))
                          (check_hash expected (member (codes "transactionHash") fs))
                          (check_hash hash (member (codes "blockHash") fs))
                          (check_number number (member (codes "blockNumber") fs)) made l
                          (ground arith) in
                      subst (IsLogOf expected number hash raw) same (record {
                        fields = fs;
                        is_object = fs_of;
                        address = address_is;
                        address_shape = address_ok;
                        topics = array_is ∙ ap some topics_are;
                        topic_shapes = topics_ok;
                        data' = data_is;
                        data_shape = data_ok;
                        kept = (check_removed-eq-ok_iff (member (codes "removed") fs)).0 removed;
                        transaction =
                            check_hash-eq-ok expected (member (codes "transactionHash") fs) named;
                        block_hash = check_hash-eq-ok hash (member (codes "blockHash") fs) hashed;
                        block_number =
                            check_number-eq-ok number (member (codes "blockNumber") fs) counted;
                      })
                ]
          ]
        ]
      ]
    ]

-- Logs stand for the raw entries one by one: none is left out, and none added.
abbrev pub AreLogsOf : Option Text → Option ℕ → Option Text → List Json → List Log → Type 0
AreLogsOf expected number hash [] [] = Unit
AreLogsOf expected number hash [] (l ∷ ls) = ⊥
AreLogsOf expected number hash (raw ∷ raws) [] = ⊥
AreLogsOf expected number hash (raw ∷ raws) (l ∷ ls) =
    IsLogOf expected number hash raw l × AreLogsOf expected number hash raws ls

admit_logs-AreLogsOf :
    (expected : Option Text) (number : Option ℕ) (hash : Option Text) (raws : List Json)
    (ls : List Log)
    → admit_logs expected number hash raws ≡ ok ls
    → AreLogsOf expected number hash raws ls
unfolding admit_logs
admit_logs-AreLogsOf expected number hash [] [] e = tt
admit_logs-AreLogsOf expected number hash [] (l ∷ ls) e = absurd (ground arith)
admit_logs-AreLogsOf expected number hash (raw ∷ raws) [] e = absurd (ground arith)
admit_logs-AreLogsOf expected number hash (raw ∷ raws) (l ∷ ls) e = (
  admit_log-IsLogOf expected number hash raw l (ground arith),
  admit_logs-AreLogsOf expected number hash raws ls (ground arith),
)

-- A receipt that is admitted is the result's object, with every one of its logs: they are at most
-- 256, each is an address with hashes as topics and with data, none is marked as removed, and none
-- names another transaction than the one that was asked for or another block than the receipt's own.
pub admit_receipt_result-AreLogsOf :
    (result : Json) (expected : Option Text) (r : Receipt)
    → admit_receipt_result result expected ≡ ok r
    → ((fields : Fields) × (raws : List Json) × (result ≡ object fields)
        × (as_array (member (codes "logs") fields) ≡ some raws)
        × (length raws ≤ max_receipt_logs)
        × AreLogsOf expected r.block_number r.block_hash raws r.logs)
unfolding admit_receipt_result
admit_receipt_result-AreLogsOf result expected r e =
    elim (Result-cases (object_or_unusable (some result))) [
      | inr (f, q) ↦ absurd (ground arith)
      | inl (fs, q) ↦ elim (Result-cases (array_or_unusable (member (codes "logs") fs))) [
        | inr (f, q1) ↦ absurd (ground arith)
        | inl (raws, q1) ↦ (
          fs,
          raws,
          object-eq-ok result fs q,
          array-eq-ok (member (codes "logs") fs) raws q1,
          ground arith,
          admit_logs-AreLogsOf expected r.block_number r.block_hash raws r.logs (ground arith),
        )
      ]
    ]
