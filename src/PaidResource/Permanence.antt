-- ===== src/PaidResource/Permanence.antt =====
-- What no step of the paid resource undoes, and what a dropped connection makes possible
-- (src/flow/server.ts, the identifier store).
use x402_base_evidence.Common.{
  ℕ, ◌≤◌, ◌≡◌, ◌≢◌, refl, inl, inr, Bool, Option, none, arith, length, Text, eq_text_iff,
  Bool-cases,
}
use x402_base_evidence.Idempotency.Pass.{pass-store, pass-claimed_iff, length-pass}
use x402_base_evidence.Idempotency.Store.{get-set, length-set}
use x402_base_evidence.Idempotency.{pending, Store, get, Claim, Ending, next_state, conclude}
use x402_base_evidence.Lifecycle.{Recorder}
use x402_base_evidence.PaidResource.{on_finish}
use x402_base_evidence.PaidResource.Runs.{
  Flight, World, arrive, ending, end_flight, Step, arrival, unclaimed, hook, produced, settle,
  finished, closed, Reach, here, next,
}
use x402_base_evidence.PaidResource.Safety.{IsFinal}

get-conclude-IsFinal :
    (n : ℕ) (c : Claim) (e : Ending) (s : Store) (id : Text)
    → IsFinal (get id s)
    → get id (conclude n c e s) ≡ get id s
unfolding conclude
get-conclude-IsFinal n c e s id h =
    ground (arith, get-set c.payment_id id (next_state c e) s, eq_text_iff c.payment_id id)

get-arrive-IsFinal :
    (capacity : ℕ) (c : Claim) (w : World) (id : Text)
    → IsFinal (get id w.store)
    → get id (arrive capacity c w).store ≡ get id w.store
unfolding arrive
get-arrive-IsFinal capacity c w id h = ground (
  arith,
  pass-store capacity w.next c w.store,
  pass-claimed_iff capacity w.next c w.store,
  get-set c.payment_id id (pending c.fingerprint c.authorization w.next) w.store,
  eq_text_iff c.payment_id id,
)

get-end_flight-IsFinal :
    (n : ℕ) (f : Flight) (r : Recorder) (status : ℕ) (response : Option Text) (w : World)
    (id : Text)
    → IsFinal (get id w.store)
    → get id (end_flight n f r status response w).store ≡ get id w.store
unfolding end_flight
get-end_flight-IsFinal n f r status response w id h =
    ground (arith, get-conclude-IsFinal n f.claim (ending f r status response) w.store id h)

-- A completed or uncertain identifier stays as it is, whatever any request does, also one whose
-- operation was concluded: its result is never replaced, and it is never open to a new attempt.
pub Step-IsFinal :
    {late : Bool} {capacity : ℕ} {w w' : World} (id : Text)
    → Step late capacity w w'
    → IsFinal (get id w.store)
    → get id w'.store ≡ get id w.store
unfolding end_flight
Step-IsFinal {capacity} {w} id (arrival c) h = get-arrive-IsFinal capacity c w id h
Step-IsFinal id unclaimed h = refl
Step-IsFinal id (hook n f k e active other) h = refl
Step-IsFinal id (produced n f result e) h = refl
Step-IsFinal id (settle n f t p e active unseen) h = refl
Step-IsFinal {w} id (finished n f status response e) h =
    get-end_flight-IsFinal n f (on_finish status f.recorder) status response w id h
Step-IsFinal {w} id (closed n f status response e) h =
    get-end_flight-IsFinal n f f.recorder status response w id h

-- The store after a step holds no more than its capacity, and every identifier that it held.
record Keeps (capacity : ℕ) (before after : Store) : Type 0 where
  bounded : length before ≤ capacity → length after ≤ capacity
  kept : (id : Text) → get id before ≢ none → get id after ≢ none

conclude-Keeps :
    (capacity n : ℕ) (c : Claim) (e : Ending) (s : Store) → Keeps capacity s (conclude n c e s)
unfolding conclude
conclude-Keeps capacity n c e s = record {
  bounded = λ h. ground (arith, length-set c.payment_id (next_state c e) s);
  kept = λ id h. ground (arith, get-set c.payment_id id (next_state c e) s);
}

arrive-Keeps :
    (capacity : ℕ) (c : Claim) (w : World) → Keeps capacity w.store (arrive capacity c w).store
unfolding arrive
arrive-Keeps capacity c w = record {
  bounded = length-pass capacity w.next c w.store;
  kept = λ id h. ground (
    arith,
    pass-store capacity w.next c w.store,
    get-set c.payment_id id (pending c.fingerprint c.authorization w.next) w.store,
  );
}

end_flight-Keeps :
    (capacity n : ℕ) (f : Flight) (r : Recorder) (status : ℕ) (response : Option Text) (w : World)
    → Keeps capacity w.store (end_flight n f r status response w).store
unfolding end_flight
end_flight-Keeps capacity n f r status response w =
    let k = conclude-Keeps capacity n f.claim (ending f r status response) w.store in
    elim (Bool-cases f.concluded) [
      | inl over ↦ rw over (record { bounded = λ h. h; kept = λ id h. h })
      | inr live ↦ rw live k
    ]

Step-Keeps :
    {late : Bool} {capacity : ℕ} {w w' : World}
    → Step late capacity w w'
    → Keeps capacity w.store w'.store
Step-Keeps {capacity} {w} (arrival c) = arrive-Keeps capacity c w
Step-Keeps unclaimed = record { bounded = λ h. h; kept = λ id h. h }
Step-Keeps (hook n f k e active other) = record { bounded = λ h. h; kept = λ id h. h }
Step-Keeps (produced n f result e) = record { bounded = λ h. h; kept = λ id h. h }
Step-Keeps (settle n f t p e active unseen) = record { bounded = λ h. h; kept = λ id h. h }
Step-Keeps {capacity} {w} (finished n f status response e) =
    end_flight-Keeps capacity n f (on_finish status f.recorder) status response w
Step-Keeps {capacity} {w} (closed n f status response e) =
    end_flight-Keeps capacity n f f.recorder status response w

-- No step evicts an identifier: one that the store holds it holds after every step.
pub Step-kept :
    {late : Bool} {capacity : ℕ} {w w' : World} (id : Text)
    → Step late capacity w w'
    → get id w.store ≢ none
    → get id w'.store ≢ none
Step-kept id s = (Step-Keeps s).kept id

-- In every run the store holds no more identifiers than its capacity.
pub Reach-bounded :
    {late : Bool} {capacity : ℕ} {w : World} → Reach late capacity w → length w.store ≤ capacity
Reach-bounded here = omega arith
Reach-bounded (next r s) = (Step-Keeps s).bounded (Reach-bounded r)
