-- ===== src/PaidResource/Runs.antt =====
-- Runs of the paid resource (src/flow/server.ts): any number of requests that claim identifiers, in
-- any interleaving of their hooks, endings and further arrivals.
use x402_base_evidence.Common.{
  ℕ, ◌+◌, ◌≡◌, ◌⊎◌, Bool, true, false, Option, none, some, List, [], ◌∷◌, ◌==◌, if◌then◌else◌, Text,
}
use x402_base_evidence.Idempotency.{
  Store, Claim, Verdict, claimed, pass, conclude, OriginResult, Ending,
}
use x402_base_evidence.Lifecycle.{Recorder, new_recorder, has_state, payment_settled}
use x402_base_evidence.PaidResource.{Hook, settled, fire, on_finish}

-- A request that holds a pending operation: its `RequestState`, and the flag `concluded`.
pub record Flight : Type 0 where
  pub claim : Claim
  pub recorder : Recorder
  pub origin_result : Option OriginResult
  pub concluded : Bool

-- `settlements` lists the identifiers under which a settlement succeeded, for the statements only.
pub record World : Type 0 where
  pub store : Store
  pub flights : ℕ → Option Flight
  pub next : ℕ
  pub settlements : List Text

abbrev pub start : World
start = record { store = []; flights = λ n. none; next = 0; settlements = [] }

abbrev pub put : ℕ → Flight → World → ℕ → Option Flight
put n f w k = if n == k then some f else w.flights k

abbrev is_claimed : Verdict → Bool
is_claimed claimed = true
is_claimed _ = false

-- A request makes a pass over the store; a request that waits makes it again later.
unfoldable pub arrive : ℕ → Claim → World → World
arrive capacity c w =
    let answer = pass capacity w.next c w.store in
    let flight : Flight = record {
      claim = c;
      recorder = new_recorder;
      origin_result = none;
      concluded = false;
    } in
    record w {
      store = answer.1;
      flights = if is_claimed answer.0 then put w.next flight w else w.flights;
      next = w.next + 1;
    }

unfoldable pub hooked : Hook → Flight → Flight
hooked h f = record f { recorder = fire h f.recorder }

abbrev pub ending : Flight → Recorder → ℕ → Option Text → Ending
ending f r status response = record {
  recorder = r;
  origin_result = f.origin_result;
  status_code = status;
  payment_response = response;
}

-- `concludeOperation`, with the recorder that the listener leaves: once for each request.
unfoldable pub end_flight : ℕ → Flight → Recorder → ℕ → Option Text → World → World
end_flight n f r status response w = record w {
  store = if f.concluded then w.store else conclude n f.claim (ending f r status response) w.store;
  flights = put n (record f { recorder = r; concluded = true }) w;
}

-- Whether the hook reports a successful settlement.
abbrev pub is_settled : Hook → Bool
is_settled (settled t p) = true
is_settled _ = false

-- One step. `late` says whether the payment middleware may still act for a request whose operation
-- was concluded, which the `close` of a dropped connection does at any time. The payment middleware
-- settles once at most for one request, and a settlement is one step with the hook that reports it. A
-- request that makes no claim, having no identifier or no well-formed authorization, goes on to the
-- payment middleware and leaves the store and the claiming requests as they are.
pub data Step (late : Bool) (capacity : ℕ) : World → World → Type 0 where
  arrival : {w : World} (c : Claim) → Step late capacity w (arrive capacity c w)
  unclaimed : {w : World} → Step late capacity w w
  hook :
      {w : World} (n : ℕ) (f : Flight) (h : Hook)
      → w.flights n ≡ some f
      → (f.concluded ≡ false) ⊎ (late ≡ true)
      → is_settled h ≡ false
      → Step late capacity w (record w { flights = put n (hooked h f) w })
  produced :
      {w : World} (n : ℕ) (f : Flight) (result : OriginResult)
      → w.flights n ≡ some f
      → Step late capacity w
          (record w { flights = put n (record f { origin_result = some result }) w })
  settle :
      {w : World} (n : ℕ) (f : Flight) (transaction payer : Option Text)
      → w.flights n ≡ some f
      → (f.concluded ≡ false) ⊎ (late ≡ true)
      → has_state f.recorder.seen payment_settled ≡ false
      → Step late capacity w (record w {
        flights = put n (hooked (settled transaction payer) f) w;
        settlements = f.claim.payment_id ∷ w.settlements;
      })
  finished :
      {w : World} (n : ℕ) (f : Flight) (status : ℕ) (response : Option Text)
      → w.flights n ≡ some f
      → Step late capacity w (end_flight n f (on_finish status f.recorder) status response w)
  closed :
      {w : World} (n : ℕ) (f : Flight) (status : ℕ) (response : Option Text)
      → w.flights n ≡ some f
      → Step late capacity w (end_flight n f f.recorder status response w)

pub data Reach (late : Bool) (capacity : ℕ) : World → Type 0 where
  here : Reach late capacity start
  next : {w w' : World} → Reach late capacity w → Step late capacity w w' → Reach late capacity w'
