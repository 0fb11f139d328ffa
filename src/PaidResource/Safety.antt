-- ===== src/PaidResource/Safety.antt =====
-- What every run of the paid resource keeps (src/flow/server.ts, the identifier store).
use x402_base_evidence.Common.{
  ℕ, ◌+◌, ◌≤◌, ◌≡◌, refl, sym, ap, ◌∙◌, ◌⊎◌, inl, inr, true, false, Option, none, some, List, [],
  ◌∷◌, arith, subst, ◌==◌, if◌then◌else◌, In, Text, eq_text, eq_text_iff, Bool-cases,
}
use x402_base_evidence.Idempotency.Pass.{pass-store, pass-claimed_iff, next_state-settled}
use x402_base_evidence.Idempotency.Store.{get-set}
use x402_base_evidence.Idempotency.{
  OperationState, pending, completed, uncertain, Store, get, Claim, Ending, next_state, conclude,
}
use x402_base_evidence.Lifecycle.Observation.{has_state-observation, enter-keeps, enter-has}
use x402_base_evidence.Lifecycle.{
  Recorder, has_state, enter, finish, note, request_received, payment_required,
  payment_payload_received, payment_verified, resource_executed, payment_settled, response_prepared,
  response_write_attempted,
}
use x402_base_evidence.PaidResource.Runs.{
  Flight, World, start, put, arrive, hooked, ending, end_flight, Step, arrival, unclaimed, hook,
  produced, settle, finished, closed, Reach, here, next,
}
use x402_base_evidence.PaidResource.{
  Hook, protected_request, verified, invalid, verify_failure, before_settle, settled,
  settle_refused, settle_failure, canceled, fire, on_finish,
}

-- The operation under an identifier has ended in a state that nothing leaves.
abbrev pub IsFinal : Option OperationState → Type 0
IsFinal (some (completed f a r)) = Unit
IsFinal (some (uncertain f a)) = Unit
IsFinal _ = ⊥

-- The settlement of an identifier is accounted for: a request that holds the identifier has observed
-- it, or the operation is final.
abbrev IsAccounted : World → Text → Type 0
IsAccounted w id =
    ((n : ℕ) × (f : Flight) × (w.flights n ≡ some f)
      × (f.concluded ≡ false)
      × (f.claim.payment_id ≡ id)
      × (has_state f.recorder.seen payment_settled ≡ true))
    ⊎ IsFinal (get id w.store)

abbrev pub Distinct : List Text → Type 0
Distinct [] = Unit
Distinct (t ∷ ts) = (¬ In t ts) × Distinct ts

record Inv (w : World) : Type 0 where
  unused : (n : ℕ) → w.next ≤ n → w.flights n ≡ none
  held :
      (n : ℕ) (f : Flight)
      → w.flights n ≡ some f
      → f.concluded ≡ false
      → get f.claim.payment_id w.store ≡ some (pending f.claim.fingerprint f.claim.authorization n)
  accounted : (id : Text) → In id w.settlements → IsAccounted w id
  distinct : Distinct w.settlements

start-Inv : Inv start
start-Inv = record {
  unused = λ n h. refl;
  held = λ n f e. cc;
  accounted = λ id m. absurd m;
  distinct = tt;
}

-- No hook and no listener takes an observed settlement back.
fire-keeps :
    (h : Hook) (r : Recorder)
    → has_state r.seen payment_settled ≡ true
    → has_state (fire h r).seen payment_settled ≡ true
unfolding fire finish note
fire-keeps (protected_request b) r e = ground (
  arith,
  enter-keeps request_received payment_settled r e,
  enter-keeps payment_payload_received payment_settled (enter request_received r),
  enter-keeps payment_required payment_settled (enter request_received r),
)
fire-keeps (verified p) r e =
    enter-keeps payment_verified payment_settled (enter payment_payload_received r)
      (enter-keeps payment_payload_received payment_settled r e)
fire-keeps (invalid q) r e = enter-keeps payment_payload_received payment_settled r e
fire-keeps verify_failure r e = e
fire-keeps before_settle r e = enter-keeps resource_executed payment_settled r e
fire-keeps (settled t p) r e = enter-keeps payment_settled payment_settled r e
fire-keeps (settle_refused q) r e = e
fire-keeps settle_failure r e = e
fire-keeps (canceled q s) r e = enter-keeps resource_executed payment_settled r e

on_finish-keeps :
    (status : ℕ) (r : Recorder)
    → has_state r.seen payment_settled ≡ true
    → has_state (on_finish status r).seen payment_settled ≡ true
unfolding on_finish finish note
on_finish-keeps status r e = ground (
  arith,
  has_state-observation r payment_settled,
  enter-keeps response_prepared payment_settled r e,
  enter-keeps response_write_attempted payment_settled (enter response_prepared r),
)

pub get-conclude :
    (n : ℕ) (c : Claim) (e : Ending) (s : Store) (j : Text)
    → get c.payment_id s ≡ some (pending c.fingerprint c.authorization n)
    → get j (conclude n c e s) ≡ (if eq_text c.payment_id j then some (next_state c e) else get j s)
unfolding conclude
get-conclude n c e s j h = rw h (ground (arith, get-set c.payment_id j (next_state c e) s))

module _ (capacity : ℕ) (c : Claim) (w : World) (i : Inv w) where
  arrive-held :
      (n : ℕ) (f : Flight)
      → (arrive capacity c w).flights n ≡ some f
      → f.concluded ≡ false
      → get f.claim.payment_id (arrive capacity c w).store
        ≡ some (pending f.claim.fingerprint f.claim.authorization n)
  unfolding arrive
  arrive-held n f e k = ground (
    arith,
    pass-store capacity w.next c w.store,
    pass-claimed_iff capacity w.next c w.store,
    get-set c.payment_id f.claim.payment_id (pending c.fingerprint c.authorization w.next) w.store,
    eq_text_iff c.payment_id f.claim.payment_id,
    i.held n f,
  )

  arrive-unused : (n : ℕ) → w.next + 1 ≤ n → (arrive capacity c w).flights n ≡ none
  unfolding arrive
  arrive-unused n h = ground (arith, i.unused n)

  arrive-IsAccounted : (id : Text) → In id w.settlements → IsAccounted (arrive capacity c w) id
  unfolding arrive
  arrive-IsAccounted id m = elim (i.accounted id m) [
    | inl (n, f, e, live, same, seen) ↦
        inl (n, f, ground (arith, i.unused w.next), live, same, seen)
    | inr final ↦ inr (
        ground (
          arith,
          pass-store capacity w.next c w.store,
          pass-claimed_iff capacity w.next c w.store,
          get-set c.payment_id id (pending c.fingerprint c.authorization w.next) w.store,
          eq_text_iff c.payment_id id,
        ))
  ]

  arrive-Inv : Inv (arrive capacity c w)
  arrive-Inv = record {
    unused = unfold arrive in arrive-unused;
    held = arrive-held;
    accounted = unfold arrive in arrive-IsAccounted;
    distinct = unfold arrive in i.distinct;
  }

-- One flight goes on, keeps what it holds and what it has seen of a settlement.
module _ (w : World) (i : Inv w) (n : ℕ) (f g : Flight) (e : w.flights n ≡ some f) where
  replace-Inv :
      g.claim ≡ f.claim
      → g.concluded ≡ f.concluded
      → (has_state f.recorder.seen payment_settled ≡ true
          → has_state g.recorder.seen payment_settled ≡ true)
      → Inv (record w { flights = put n g w })
  replace-Inv same flag keeps = record {
    unused = λ k h. ground (arith, i.unused k h);
    held = λ k f' e' live. ground (arith, i.held k f', i.held n f);
    accounted = λ id m. elim (i.accounted id m) [
      | inl (k, f', e', live, named, seen) ↦ elim (Bool-cases (n == k)) [
        | inl at_n ↦ inl (n, g, ground arith, ground arith, ground arith, ground arith)
        | inr other ↦ inl (k, f', ground arith, live, named, seen)
      ]
      | inr final ↦ inr final
    ];
    distinct = i.distinct;
  }

hooked-settled :
    (t p : Option Text) (f : Flight)
    → has_state (hooked (settled t p) f).recorder.seen payment_settled ≡ true
unfolding hooked fire note
hooked-settled t p f = enter-has payment_settled f.recorder

hooked-claim : (h : Hook) (f : Flight) → (hooked h f).claim ≡ f.claim
unfolding hooked
hooked-claim h f = refl

hooked-concluded : (h : Hook) (f : Flight) → (hooked h f).concluded ≡ f.concluded
unfolding hooked
hooked-concluded h f = refl

hooked-keeps :
    (h : Hook) (f : Flight)
    → has_state f.recorder.seen payment_settled ≡ true
    → has_state (hooked h f).recorder.seen payment_settled ≡ true
unfolding hooked
hooked-keeps h f = fire-keeps h f.recorder

put_self : (n : ℕ) (f : Flight) (w : World) → put n f w n ≡ some f
put_self n f w = ground arith

module _ (w : World) (i : Inv w) (n : ℕ) (f : Flight) (e : w.flights n ≡ some f)
    (live : f.concluded ≡ false) where
  -- An identifier that a flight holds with no settlement seen has none.
  unsettled :
      has_state f.recorder.seen payment_settled ≡ false → ¬ In f.claim.payment_id w.settlements
  unsettled unseen m = elim (i.accounted f.claim.payment_id m) [
    | inl (k, f', e', live', named, seen) ↦
        ground (arith, i.held k f' e' live', i.held n f e live, named)
    | inr final ↦ ground (arith, i.held n f e live)
  ]

  settle-Inv :
      (t p : Option Text)
      → has_state f.recorder.seen payment_settled ≡ false
      → Inv (record w {
        flights = put n (hooked (settled t p) f) w;
        settlements = f.claim.payment_id ∷ w.settlements;
      })
  settle-Inv t p unseen =
      let g = hooked (settled t p) f in
      let seen : has_state g.recorder.seen payment_settled ≡ true = hooked-settled t p f in
      let moved =
        replace-Inv w i n f g e (hooked-claim (settled t p) f) (hooked-concluded (settled t p) f)
          (λ _. seen) in
      record {
        unused = moved.unused;
        held = moved.held;
        accounted = λ id. elim [
          | inl new ↦ inl (
            n,
            g,
            put_self n g w,
            hooked-concluded (settled t p) f ∙ live,
            ap (λ (c : Claim). c.payment_id) (hooked-claim (settled t p) f) ∙ sym new,
            seen,
          )
          | inr old ↦ moved.accounted id old
        ];
        distinct = (unsettled unseen, i.distinct);
      }

  conclude-IsAccounted :
      (r : Recorder) (status : ℕ) (response : Option Text)
      → (has_state f.recorder.seen payment_settled ≡ true → has_state r.seen payment_settled ≡ true)
      → (id : Text) → In id w.settlements
      → IsAccounted (end_flight n f r status response w) id
  unfolding end_flight
  conclude-IsAccounted r status response keeps id m = elim (i.accounted id m) [
    | inl (k, f', e', live', named, seen) ↦ elim (Bool-cases (n == k)) [
      | inl at_n ↦ inr (
          ground (
            arith,
            get-conclude n f.claim (ending f r status response) w.store id,
            eq_text_iff f.claim.payment_id id,
            next_state-settled f.claim (ending f r status response),
            has_state-observation r payment_settled,
            i.held n f e live,
          ))
      | inr other ↦ inl (k, f', ground arith, live', named, seen)
    ]
    | inr final ↦ inr (
        ground (
          arith,
          get-conclude n f.claim (ending f r status response) w.store id,
          eq_text_iff f.claim.payment_id id,
          i.held n f e live,
        ))
  ]

  conclude-Inv :
      (r : Recorder) (status : ℕ) (response : Option Text)
      → (has_state f.recorder.seen payment_settled ≡ true → has_state r.seen payment_settled ≡ true)
      → Inv (end_flight n f r status response w)
  unfolding end_flight
  conclude-Inv r status response keeps = record {
    unused = λ k h. ground (arith, i.unused k h);
    held = λ k f' e' live'. ground (
      arith,
      i.held k f',
      i.held n f e live,
      get-conclude n f.claim (ending f r status response) w.store f'.claim.payment_id,
      eq_text_iff f.claim.payment_id f'.claim.payment_id,
    );
    accounted = conclude-IsAccounted r status response keeps;
    distinct = i.distinct;
  }

end_flight_over :
    (w : World) (n : ℕ) (f : Flight) (r : Recorder) (status : ℕ) (response : Option Text)
    → f.concluded ≡ true
    → end_flight n f r status response w
      ≡ record w { flights = put n (record f { recorder = r; concluded = true }) w }
unfolding end_flight
end_flight_over w n f r status response over = ground arith

end_flight-Inv :
    (w : World) (i : Inv w) (n : ℕ) (f : Flight) (r : Recorder) (status : ℕ)
    (response : Option Text)
    → w.flights n ≡ some f
    → (has_state f.recorder.seen payment_settled ≡ true → has_state r.seen payment_settled ≡ true)
    → Inv (end_flight n f r status response w)
end_flight-Inv w i n f r status response e keeps = elim (Bool-cases f.concluded) [
  | inr live ↦ conclude-Inv w i n f e live r status response keeps
  | inl over ↦
      rw (end_flight_over w n f r status response over)
        (replace-Inv w i n f (record f { recorder = r; concluded = true }) e refl (sym over) keeps)
]

Step-Inv : {capacity : ℕ} {w w' : World} → Step false capacity w w' → Inv w → Inv w'
Step-Inv {capacity} {w} (arrival c) i = arrive-Inv capacity c w i
Step-Inv unclaimed i = i
Step-Inv {w} (hook n f h e active other) i =
    replace-Inv w i n f (hooked h f) e (hooked-claim h f) (hooked-concluded h f) (hooked-keeps h f)
Step-Inv {w} (produced n f result e) i =
    replace-Inv w i n f (record f { origin_result = some result }) e refl refl (λ h. h)
Step-Inv {w} (settle n f t p e active unseen) i =
    settle-Inv w i n f e (elim active [ inl live ↦ live | inr late ↦ cc ]) t p unseen
Step-Inv {w} (finished n f status response e) i =
    end_flight-Inv w i n f (on_finish status f.recorder) status response e
      (on_finish-keeps status f.recorder)
Step-Inv {w} (closed n f status response e) i =
    end_flight-Inv w i n f f.recorder status response e (λ h. h)

Reach-Inv : {capacity : ℕ} {w : World} → Reach false capacity w → Inv w
Reach-Inv here = start-Inv
Reach-Inv (next r s) = Step-Inv s (Reach-Inv r)

-- Where the payment middleware does not act for a request any more once its operation is concluded,
-- no identifier is settled twice, in any interleaving of any number of requests.
pub Reach-Distinct : {capacity : ℕ} {w : World} → Reach false capacity w → Distinct w.settlements
Reach-Distinct r = (Reach-Inv r).distinct

-- An identifier is held by a request that has not ended, or its operation has ended for good.
abbrev pub IsWithheld : Option OperationState → Type 0
IsWithheld (some (pending f a n)) = Unit
IsWithheld o = IsFinal o

-- Where the payment middleware does not act for a request any more once its operation is concluded,
-- an identifier that was settled is never free or released for another attempt: in every reachable
-- state its entry is there, and is pending, completed or uncertain.
pub Reach-IsWithheld :
    {capacity : ℕ} {w : World}
    → Reach false capacity w
    → (id : Text) → In id w.settlements
    → IsWithheld (get id w.store)
Reach-IsWithheld {capacity} {w} r id m = elim ((Reach-Inv r).accounted id m) [
  | inl (n, f, e, live, same, settles) ↦
      let held = (Reach-Inv r).held n f e live in
      subst (λ j. IsWithheld (get j w.store)) same (subst IsWithheld (sym held) tt)
  | inr final ↦ final-IsWithheld (get id w.store) final
]
  where
    final-IsWithheld : (o : Option OperationState) → IsFinal o → IsWithheld o
    final-IsWithheld (some (pending f a n)) h = tt
    final-IsWithheld o h = h
