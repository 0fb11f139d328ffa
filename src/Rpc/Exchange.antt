-- ===== src/Rpc/Exchange.antt =====
-- One exchange (src/flow/evm-json-rpc.ts, `readBodyWithinBudget` and `jsonRpcRequest`).
use x402_base_evidence.Common.{
  ℕ, ◌+◌, ◌≤◌, ◌≡◌, refl, ap, ◌∙◌, ◌↔◌, ◌⊎◌, inl, inr, true, false, Option, none, some, List, [],
  ◌∷◌, ◌++◌, arith, length, length-append, In, codes, eq_text_iff, Option-cases, append_assoc,
  append-nil,
}
use x402_base_evidence.Json.{Json, Fields, member, as_object, object, string, integer, pos}
use x402_base_evidence.Rpc.{
  Failure, unreachable, temporarily_unavailable, retryable, Result, ok, thrown, Read, chunk, broken,
  read_from, read_body_within_budget, Fetched, no_response, response, is_temporary_status,
  admit_envelope, admit_body, is_version, is_request_id, admit_rpc_error_object, json_rpc_request,
  max_rpc_response_bytes,
}

Result-cases :
    {A : Type 0} (r : Result A) → ((a : A) × (r ≡ ok a)) ⊎ ((e : Failure) × (r ≡ thrown e))
Result-cases (ok a) = inl (a, refl)
Result-cases (thrown e) = inr (e, refl)

-- The bytes of the chunks, if every read succeeds.
abbrev joined_chunks : List Read → Option (List ℕ)
joined_chunks [] = some []
joined_chunks (broken ∷ rs) = none
joined_chunks (chunk b ∷ rs) = elim (joined_chunks rs) [ none ↦ none | some bs ↦ some (b ++ bs) ]

-- The body is read whole: its bytes are those of the chunks, and within the budget.
abbrev IsWhole : ℕ → List ℕ → List Read → List ℕ → Type 0
IsWhole budget joined rs bytes =
    (rest : List ℕ) × (joined_chunks rs ≡ some rest)
    × (bytes ≡ joined ++ rest)
    × (length bytes ≤ budget)

read_from-IsWhole :
    (budget total : ℕ) (joined : List ℕ) (rs : List Read) (bytes : List ℕ)
    → length joined ≡ total
    → total ≤ budget
    → read_from budget total joined rs ≡ ok bytes
    → IsWhole budget joined rs bytes
unfolding read_from
read_from-IsWhole budget total joined [] bytes e h r =
    ([], refl, ground (arith, append-nil joined), ground arith)
read_from-IsWhole budget total joined (broken ∷ rs) bytes e h r = absurd (ground arith)
read_from-IsWhole budget total joined (chunk b ∷ rs) bytes e h r =
    let (rest, all_read, same, fits) =
      read_from-IsWhole budget (total + length b) (joined ++ b) rs bytes
        (omega (arith, length-append joined b)) (ground arith) (ground arith) in
    (b ++ rest, rw all_read refl, same ∙ append_assoc joined b rest, fits)

whole-read_from :
    (budget total : ℕ) (joined : List ℕ) (rs : List Read) (rest : List ℕ)
    → length joined ≡ total
    → joined_chunks rs ≡ some rest
    → total + length rest ≤ budget
    → read_from budget total joined rs ≡ ok (joined ++ rest)
unfolding read_from
whole-read_from budget total joined [] rest e all_read h = ground (arith, append-nil joined)
whole-read_from budget total joined (broken ∷ rs) rest e all_read h = absurd (ground arith)
whole-read_from budget total joined (chunk b ∷ rs) rest e all_read h =
    elim (Option-cases (joined_chunks rs)) [
      | inl broke ↦ absurd (ground arith)
      | inr (more, read_more) ↦
          let split : rest ≡ b ++ more = ground arith in
          let later =
            whole-read_from budget (total + length b) (joined ++ b) rs more
              (omega (arith, length-append joined b)) read_more
              (omega (arith, length-append b more, ap (λ (l : List ℕ). length l) split)) in
          ground (arith, append_assoc joined b more, length-append b more)
    ]

-- A body is returned exactly if every read succeeds and all its bytes fit the budget, and then it is
-- all of them: nothing is cut off.
pub read_body-eq-ok_iff :
    (budget : ℕ) (rs : List Read) (bytes : List ℕ)
    → (read_body_within_budget budget (some rs) ≡ ok bytes)
      ↔ ((joined_chunks rs ≡ some bytes) × (length bytes ≤ budget))
unfolding read_body_within_budget
read_body-eq-ok_iff budget rs bytes = (
  λ r.
      let (rest, all_read, same, fits) =
        read_from-IsWhole budget 0 [] rs bytes refl (omega arith) r in
      (rw same all_read, fits),
  λ h. whole-read_from budget 0 [] rs bytes refl h.0 (omega (arith, h.1)),
)

read_from_broken :
    (budget total : ℕ) (joined : List ℕ) (rs : List Read) (e : Failure)
    → read_from budget total joined rs ≡ thrown e
    → retryable e ≡ true
    → (In broken rs × (e ≡ unreachable))
unfolding read_from retryable
read_from_broken budget total joined [] e r h = absurd (ground arith)
read_from_broken budget total joined (broken ∷ rs) e r h = (inl refl, ground arith)
read_from_broken budget total joined (chunk b ∷ rs) e r h =
    ground (arith, read_from_broken budget (total + length b) (joined ++ b) rs e)

admit_envelope_terminal :
    (fs : Fields) (e : Failure) → admit_envelope fs ≡ thrown e → retryable e ≡ false
unfolding admit_envelope admit_rpc_error_object retryable
admit_envelope_terminal fs e r = ground arith

admit_body_terminal :
    (v : Option Json) (e : Failure) → admit_body v ≡ thrown e → retryable e ≡ false
unfolding admit_body as_object retryable
admit_body_terminal (some (object fs)) e r = admit_envelope_terminal fs e r
admit_body_terminal none e r = ground arith
admit_body_terminal (some _) e r = ground arith

-- Why a failed exchange may be tried again.
abbrev pub IsTransient : Fetched → Failure → Type 0
IsTransient no_response e = e ≡ unreachable
IsTransient (response status false body) e =
    ((status ≡ 429) ⊎ (status ≡ 503)) × (e ≡ temporarily_unavailable status)
IsTransient (response status true none) e = ⊥
IsTransient (response status true (some rs)) e = In broken rs × (e ≡ unreachable)

-- A failure of an exchange is retryable only if nothing answered, the answer was the HTTP status 429
-- or 503, or the body broke off in reading: every other failure, that of a body which is no admitted
-- envelope or is an RPC error among them, is terminal.
pub json_rpc_request-IsTransient :
    (parse : List ℕ → Option Json) (fetched : Fetched) (e : Failure)
    → json_rpc_request parse fetched ≡ thrown e
    → retryable e ≡ true
    → IsTransient fetched e
unfolding json_rpc_request retryable is_temporary_status read_body_within_budget
json_rpc_request-IsTransient parse no_response e r h = ground arith
json_rpc_request-IsTransient parse (response status false body) e r h = ground arith
json_rpc_request-IsTransient parse (response status true none) e r h =
    ground (arith, admit_body_terminal (parse []) e)
json_rpc_request-IsTransient parse (response status true (some rs)) e r h =
    elim (Result-cases (read_from max_rpc_response_bytes 0 [] rs)) [
      | inl (bytes, whole) ↦ absurd (ground (arith, admit_body_terminal (parse bytes) e))
      | inr (e', failed) ↦ ground (arith, read_from_broken max_rpc_response_bytes 0 [] rs e)
    ]

is_version_iff : (v : Option Json) → (is_version v ≡ true) ↔ (v ≡ some (string (codes "2.0")))
unfolding is_version
is_version_iff (some (string s)) = ground (arith, eq_text_iff s (codes "2.0"))
is_version_iff none = ground arith
is_version_iff (some _) = ground arith

is_request_id_iff : (v : Option Json) → (is_request_id v ≡ true) ↔ (v ≡ some (integer (pos 1)))
unfolding is_request_id
is_request_id_iff v = ground arith

admit_envelope-eq-ok_iff :
    (fs : Fields) (result : Json)
    → (admit_envelope fs ≡ ok result) ↔ (
        (member (codes "jsonrpc") fs ≡ some (string (codes "2.0")))
        × (member (codes "id") fs ≡ some (integer (pos 1)))
        × (member (codes "result") fs ≡ some result)
        × (member (codes "error") fs ≡ none))
unfolding admit_envelope
admit_envelope-eq-ok_iff fs result = ground (
  arith,
  is_version_iff (member (codes "jsonrpc") fs),
  is_request_id_iff (member (codes "id") fs),
)

-- What an answered exchange says: a success status, a body within the budget that is an object of the
-- right version and identifier, and a `result` with no `error` beside it.
abbrev IsAnswer : (List ℕ → Option Json) → Fetched → Json → Type 0
IsAnswer parse fetched result =
    (status : ℕ) × (body : Option (List Read)) × (bytes : List ℕ) × (envelope : Fields) × (fetched
      ≡ response status true body)
    × (read_body_within_budget max_rpc_response_bytes body ≡ ok bytes)
    × (parse bytes ≡ some (object envelope))
    × (member (codes "jsonrpc") envelope ≡ some (string (codes "2.0")))
    × (member (codes "id") envelope ≡ some (integer (pos 1)))
    × (member (codes "result") envelope ≡ some result)
    × (member (codes "error") envelope ≡ none)

admit_body-eq-ok :
    (v : Option Json) (result : Json)
    → admit_body v ≡ ok result
    → ((fs : Fields) × (v ≡ some (object fs)) × (admit_envelope fs ≡ ok result))
unfolding admit_body as_object
admit_body-eq-ok (some (object fs)) result e = (fs, refl, e)
admit_body-eq-ok none result e = absurd (ground arith)
admit_body-eq-ok (some _) result e = absurd (ground arith)

json_rpc_request-bytes :
    (parse : List ℕ → Option Json) (fetched : Fetched) (result : Json)
    → json_rpc_request parse fetched ≡ ok result
    → ((status : ℕ) × (body : Option (List Read)) × (bytes : List ℕ) × (fetched
          ≡ response status true body)
        × (read_body_within_budget max_rpc_response_bytes body ≡ ok bytes)
        × (admit_body (parse bytes) ≡ ok result))
unfolding json_rpc_request is_temporary_status
json_rpc_request-bytes parse no_response result e = absurd (ground arith)
json_rpc_request-bytes parse (response status false body) result e = absurd (ground arith)
json_rpc_request-bytes parse (response status true body) result e =
    elim (Result-cases (read_body_within_budget max_rpc_response_bytes body)) [
      | inl (bytes, whole) ↦ (status, body, bytes, refl, whole, ground arith)
      | inr (e', failed) ↦ absurd (ground arith)
    ]

-- An exchange gives a result exactly if it was answered so, with that result.
pub json_rpc_request-eq-ok_iff :
    (parse : List ℕ → Option Json) (fetched : Fetched) (result : Json)
    → (json_rpc_request parse fetched ≡ ok result) ↔ IsAnswer parse fetched result
unfolding json_rpc_request admit_body as_object
json_rpc_request-eq-ok_iff parse fetched result = (
  λ e.
      let (status, body, bytes, f, whole, admitted) =
        json_rpc_request-bytes parse fetched result e in
      let (fs, parsed, enveloped) = admit_body-eq-ok (parse bytes) result admitted in
      let (v, i, r, n) = (admit_envelope-eq-ok_iff fs result).0 enveloped in
      (status, body, bytes, fs, f, whole, parsed, v, i, r, n),
  λ (status, body, bytes, fs, f, whole, parsed, v, i, r, n).
      let enveloped = (admit_envelope-eq-ok_iff fs result).1 (v, i, r, n) in
      rw f (rw whole (rw parsed enveloped)),
)
