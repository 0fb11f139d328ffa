-- ===== src/Lifecycle/Observation.antt =====
-- What an observation shows of the calls made on the recorder (src/flow/lifecycle.ts).
use x402_base_evidence.Common.{
  ◌<◌, ◌≡◌, refl, ◌↔◌, ◌⊎◌, Bool, true, false, Option, none, some, List, [], ◌∷◌, arith, All, In,
  In-append,
}
use x402_base_evidence.Lifecycle.{
  LifecycleState, lifecycle_states, position, same_state, has_state, TerminalState,
  payment_required_only, Patch, Recorder, new_recorder, enter, finish, note, has_terminal_state,
  keep_seen, observation,
}

-- A call on the recorder.
pub data Call : Type 0 where
  entered : LifecycleState → Call
  finished : TerminalState → Patch → Call
  noted : Patch → Call

unfoldable perform : Call → Recorder → Recorder
perform (entered s) r = enter s r
perform (finished t p) r = finish t p r
perform (noted p) r = note p r

-- The recorder after a sequence of calls.
unfoldable pub record_calls : Recorder → List Call → Recorder
unfolding perform
record_calls r [] = r
record_calls r (c ∷ cs) = record_calls (perform c r) cs

-- Whether a sequence of calls enters a state.
abbrev pub Enters : LifecycleState → List Call → Type 0
Enters s cs = In (entered s) cs

same_state_iff : (a b : LifecycleState) → (same_state a b ≡ true) ↔ (a ≡ b)
unfolding same_state
same_state_iff a b = ground arith

has_state_iff : (ts : List LifecycleState) (s : LifecycleState) → (has_state ts s ≡ true) ↔ In s ts
unfolding has_state
has_state_iff [] s = ground arith
has_state_iff (t ∷ ts) s = ground (arith, same_state_iff t s, has_state_iff ts s)

enter-seen : (t s : LifecycleState) (r : Recorder) → In s (enter t r).seen ↔ (In s r.seen ⊎ (s ≡ t))
unfolding enter
enter-seen t s r = ground (arith, has_state_iff r.seen t, In-append s r.seen (t ∷ []))

perform-seen :
    (c : Call) (s : LifecycleState) (r : Recorder)
    → In s (perform c r).seen ↔ (In s r.seen ⊎ (entered s ≡ c))
unfolding perform finish note
perform-seen (entered t) s r = ground (arith, enter-seen t s r)
perform-seen (finished t p) s r = ground arith
perform-seen (noted p) s r = ground arith

record_calls-seen :
    (cs : List Call) (s : LifecycleState) (r : Recorder)
    → In s (record_calls r cs).seen ↔ (In s r.seen ⊎ Enters s cs)
unfolding record_calls
record_calls-seen [] s r = ground arith
record_calls-seen (c ∷ cs) s r =
    ground (arith, perform-seen c s r, record_calls-seen cs s (perform c r))

keep_seen-In :
    (seen ss : List LifecycleState) (s : LifecycleState)
    → In s (keep_seen seen ss) ↔ (In s ss × In s seen)
unfolding keep_seen
keep_seen-In seen [] s = ground arith
keep_seen-In seen (t ∷ ss) s = ground (arith, has_state_iff seen t, keep_seen-In seen ss s)

In-lifecycle_states : (s : LifecycleState) → In s lifecycle_states
In-lifecycle_states s = ground arith

iff→eq : (a b : Bool) → ((a ≡ true) ↔ (b ≡ true)) → a ≡ b
iff→eq a b h = ground arith

-- The observation includes a state exactly if the recorder has seen it.
pub has_state-observation :
    (r : Recorder) (s : LifecycleState) → has_state (observation r).states s ≡ has_state r.seen s
unfolding observation
has_state-observation r s = iff→eq _ _ (
    ground (
      arith,
      has_state_iff (keep_seen r.seen lifecycle_states) s,
      has_state_iff r.seen s,
      keep_seen-In r.seen lifecycle_states s,
      In-lifecycle_states s,
    ))

-- Entering a state loses none.
pub enter-keeps :
    (t s : LifecycleState) (r : Recorder)
    → has_state r.seen s ≡ true
    → has_state (enter t r).seen s ≡ true
enter-keeps t s r h =
    ground (arith, has_state_iff r.seen s, has_state_iff (enter t r).seen s, enter-seen t s r)

pub enter-has : (s : LifecycleState) (r : Recorder) → has_state (enter s r).seen s ≡ true
enter-has s r = ground (arith, has_state_iff (enter s r).seen s, enter-seen s s r)

-- A position stands in the observation exactly if some call entered it: none is inferred, and none
-- that was reported is lost, whatever the other calls and their order.
pub observation-states_iff :
    (cs : List Call) (s : LifecycleState)
    → In s (observation (record_calls new_recorder cs)).states ↔ Enters s cs
unfolding observation
observation-states_iff cs s = ground (
  arith,
  keep_seen-In (record_calls new_recorder cs).seen lifecycle_states s,
  In-lifecycle_states s,
  record_calls-seen cs s new_recorder,
)

-- Each state stands before the next in the order of `LIFECYCLE_STATES`.
abbrev Ascends : List LifecycleState → Type 0
Ascends [] = Unit
Ascends (s ∷ ss) = All (λ t. position s < position t) ss × Ascends ss

keep_seen-All :
    (P : LifecycleState → Type 0) (seen ss : List LifecycleState)
    → All P ss
    → All P (keep_seen seen ss)
unfolding keep_seen
keep_seen-All P seen [] h = h
keep_seen-All P seen (s ∷ ss) h = ground (arith, keep_seen-All P seen ss h.1)

keep_seen-Ascends : (seen ss : List LifecycleState) → Ascends ss → Ascends (keep_seen seen ss)
unfolding keep_seen
keep_seen-Ascends seen [] h = h
keep_seen-Ascends seen (s ∷ ss) h =
    ground (
      arith,
      keep_seen-All (λ t. position s < position t) seen ss h.0,
      keep_seen-Ascends seen ss h.1,
    )

-- The observed positions are in the order of the lifecycle, each at most once, in whatever order and
-- however often they were reported.
observation-Ascends : (r : Recorder) → Ascends (observation r).states
unfolding observation position
observation-Ascends r = keep_seen-Ascends r.seen lifecycle_states (omega arith)

keep_seen-cong :
    (seen other ss : List LifecycleState)
    → ((s : LifecycleState) → In s seen ↔ In s other)
    → keep_seen seen ss ≡ keep_seen other ss
unfolding keep_seen
keep_seen-cong seen other [] h = refl
keep_seen-cong seen other (s ∷ ss) h =
    ground (arith, has_state_iff seen s, has_state_iff other s, h s, keep_seen-cong seen other ss h)

-- Two sequences of calls that enter the same states, in any order and any number of times, are
-- observed with the same list of states.
pub observation-order_free :
    (cs ds : List Call)
    → ((s : LifecycleState) → Enters s cs ↔ Enters s ds)
    → (observation (record_calls new_recorder cs)).states
      ≡ (observation (record_calls new_recorder ds)).states
unfolding observation
observation-order_free cs ds h =
    keep_seen-cong (record_calls new_recorder cs).seen (record_calls new_recorder ds).seen
      lifecycle_states
      (λ s.
        ground
          (arith, h s, record_calls-seen cs s new_recorder, record_calls-seen ds s new_recorder))

-- The state that the last `finish` names, if there is one.
abbrev last_finish : List Call → Option TerminalState
last_finish [] = none
last_finish (finished t p ∷ cs) = elim (last_finish cs) [ none ↦ some t | some u ↦ some u ]
last_finish (entered s ∷ cs) = last_finish cs
last_finish (noted p ∷ cs) = last_finish cs

-- What is observed of the end of a run, from a recorder and the state that calls then report.
abbrev EndsAt : Recorder → Option TerminalState → Recorder → Type 0
EndsAt r none r' = (r'.terminal ≡ r.terminal) × (r'.terminal_reported ≡ r.terminal_reported)
EndsAt r (some t) r' = (r'.terminal ≡ t) × (r'.terminal_reported ≡ true)

enter-terminal :
    (s : LifecycleState) (r : Recorder)
    → ((enter s r).terminal ≡ r.terminal) × ((enter s r).terminal_reported ≡ r.terminal_reported)
unfolding enter
enter-terminal s r = ground arith

record_calls-EndsAt :
    (cs : List Call) (r : Recorder) → EndsAt r (last_finish cs) (record_calls r cs)
unfolding record_calls perform finish note
record_calls-EndsAt [] r = (refl, refl)
record_calls-EndsAt (entered s ∷ cs) r =
    ground (arith, enter-terminal s r, record_calls-EndsAt cs (enter s r))
record_calls-EndsAt (finished t p ∷ cs) r = ground (arith, record_calls-EndsAt cs (finish t p r))
record_calls-EndsAt (noted p ∷ cs) r = record_calls-EndsAt cs (note p r)

-- The default end of a run: no payment was presented, and no observer reported where it ended.
abbrev end_of : List Call → TerminalState × Bool
end_of cs = elim (last_finish cs) [ none ↦ (payment_required_only, false) | some t ↦ (t, true) ]

-- The terminal state is the one that the last `finish` reported, and `hasTerminalState` tells a
-- reported state from the default, which stands only if no call reported any.
record_calls-terminal :
    (cs : List Call)
    → ((observation (record_calls new_recorder cs)).terminal_state ≡ (end_of cs).0)
      × (has_terminal_state (record_calls new_recorder cs) ≡ (end_of cs).1)
unfolding observation
record_calls-terminal cs = ground (arith, record_calls-EndsAt cs new_recorder)
