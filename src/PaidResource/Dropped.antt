-- ===== src/PaidResource/Dropped.antt =====
-- A connection that drops while its payment is verified (src/flow/server.ts, the `close` listener).
use x402_base_evidence.Common.{
  ℕ, suc, ◌≡◌, refl, inr, true, false, none, some, [], ◌∷◌, arith, eq_text_refl,
}
use x402_base_evidence.Idempotency.Authorization.{PresentedAuthorization}
use x402_base_evidence.Idempotency.Pass.{pass-store, pass-claimed_iff}
use x402_base_evidence.Idempotency.Store.{get-set}
use x402_base_evidence.PaidResource.Safety.{get-conclude}
use x402_base_evidence.Idempotency.{Claim, pending, rejected, get, next_state}
use x402_base_evidence.Lifecycle.{new_recorder, observation, keep_seen, has_state}
use x402_base_evidence.PaidResource.Runs.{
  Flight, World, start, put, arrive, hooked, ending, end_flight, arrival, settle, closed, Reach,
  here, next,
}
use x402_base_evidence.PaidResource.{settled}

-- A pass over a rejected entry of the same fingerprint is a claim.
arrive_free :
    (capacity : ℕ) (c : Claim) (w : World) (n : ℕ)
    → get c.payment_id w.store ≡ some (rejected c.fingerprint)
    → (arrive capacity c w).flights n
      ≡ put w.next
          (record { claim = c; recorder = new_recorder; origin_result = none; concluded = false })
          w
          n
unfolding arrive
arrive_free capacity c w n h =
    ground (arith, (pass-claimed_iff capacity w.next c w.store).1 (inr h))

-- The request makes the claim, its connection drops, and a second request comes with the same
-- identifier and fingerprint and another authorization. Both go on to settle.
module _ (k : ℕ) (c : Claim) (a : PresentedAuthorization) where
  abbrev first : Flight
  first = record { claim = c; recorder = new_recorder; origin_result = none; concluded = false }

  abbrev second : Flight
  second = record first { claim = record c { authorization = a } }

  abbrev claimed_world : World
  claimed_world = arrive (suc k) c start

  abbrev dropped_world : World
  dropped_world = end_flight 0 first new_recorder 0 none claimed_world

  abbrev retried_world : World
  retried_world = arrive (suc k) (record c { authorization = a }) dropped_world

  first_stored :
      (claimed_world.flights 0 ≡ some first)
      × (get c.payment_id claimed_world.store ≡ some (pending c.fingerprint c.authorization 0))
      × (claimed_world.next ≡ 1)
  unfolding arrive get
  first_stored = ground (
    arith,
    pass-store (suc k) 0 c [],
    pass-claimed_iff (suc k) 0 c [],
    get-set c.payment_id c.payment_id (pending c.fingerprint c.authorization 0) [],
    eq_text_refl c.payment_id,
  )

  next_state_untouched : next_state c (ending first new_recorder 0 none) ≡ rejected c.fingerprint
  unfolding next_state observation has_state keep_seen
  next_state_untouched = refl

  dropped_stored :
      (get c.payment_id dropped_world.store ≡ some (rejected c.fingerprint))
      × (dropped_world.next ≡ 1)
      × (dropped_world.flights 0 ≡ some (record first { concluded = true }))
  unfolding end_flight
  dropped_stored = ground (
    arith,
    first_stored,
    next_state_untouched,
    get-conclude 0 c (ending first new_recorder 0 none) claimed_world.store c.payment_id,
    eq_text_refl c.payment_id,
  )

  retried_flights :
      (retried_world.flights 1 ≡ some second)
      × (retried_world.flights 0 ≡ some (record first { concluded = true }))
  retried_flights = ground (
    arith,
    dropped_stored,
    arrive_free (suc k) (record c { authorization = a }) dropped_world 1,
    arrive_free (suc k) (record c { authorization = a }) dropped_world 0,
  )

  abbrev first_settled : World
  first_settled = record retried_world {
    flights = put 0 (hooked (settled none none) (record first { concluded = true })) retried_world;
    settlements = c.payment_id ∷ retried_world.settlements;
  }

  abbrev both_settled : World
  both_settled = record first_settled {
    flights = put 1 (hooked (settled none none) second) first_settled;
    settlements = c.payment_id ∷ first_settled.settlements;
  }

  both_settled-settlements : both_settled.settlements ≡ c.payment_id ∷ c.payment_id ∷ []
  unfolding arrive end_flight
  both_settled-settlements = refl

  Reach-both_settled : Reach true (suc k) both_settled
  unfolding has_state
  Reach-both_settled =
      next
        (next
          (next (next (next here (arrival c)) (closed 0 first 0 none first_stored.0))
            (arrival (record c { authorization = a })))
          (settle 0 (record first { concluded = true }) none none retried_flights.1 (inr refl)
            refl))
        (settle 1 second none none second_holds (inr refl) refl)
    where
      second_holds : first_settled.flights 1 ≡ some second
      second_holds = retried_flights.0

  -- If the payment middleware goes on with a request whose connection has dropped, then one
  -- identifier is settled twice: the drop before any hook releases it, and a second request with the
  -- same fingerprint and any authorization claims it while the first is still on its way to settle.
  pub late_settles_twice :
      (w : World) × Reach true (suc k) w × (w.settlements ≡ c.payment_id ∷ c.payment_id ∷ [])
  late_settles_twice = (both_settled, Reach-both_settled, both_settled-settlements)
