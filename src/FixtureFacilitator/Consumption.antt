-- ===== src/FixtureFacilitator/Consumption.antt =====
-- How often one authorization settles (src/flow/fixture-facilitator.ts).
use x402_base_evidence.Common.{
  ℕ, ◌+◌, ◌≤◌, ◌≡◌, refl, ◌↔◌, ◌⊎◌, inl, inr, Bool, true, false, ◌&&◌, Option, none, some, List, [],
  ◌∷◌, arith, if◌then◌else◌, Text, eq_text, eq_text_iff, includes, Bool-cases,
}
use x402_base_evidence.FixtureFacilitator.{
  AcceptedTerms, PaymentPayload, Behavior, Facilitator, Response, accepted', begin_settle, settle,
  is_settled, consume, authorization_identity, check_terms, verify,
}

-- What happens to a facilitator: a settlement enters, a settlement passes its barrier, a verification.
pub data Event : Type 0 where
  enters : Event
  passes : PaymentPayload → AcceptedTerms → Event
  verifies : PaymentPayload → AcceptedTerms → Event

is_accepted : Response → Bool
is_accepted accepted' = true
is_accepted _ = false

names : Option Text → Text → Bool
names none identity = false
names (some own) identity = eq_text own identity

module _ (to_lower_case : Text → Text) (b : Behavior) where
  settle_cases :
      (p : PaymentPayload) (r : AcceptedTerms) (f : Facilitator)
      → ((is_accepted (settle to_lower_case b p r f).0 ≡ true)
          × (is_settled (authorization_identity to_lower_case p) f.settled_authorizations ≡ false)
          × ((settle to_lower_case b p r f).1.settled_authorizations
              ≡ consume (authorization_identity to_lower_case p) f.settled_authorizations))
        ⊎ ((is_accepted (settle to_lower_case b p r f).0 ≡ false)
            × ((settle to_lower_case b p r f).1 ≡ f))
  unfolding settle is_accepted
  settle_cases p r f = ground arith

  unfoldable pub after : Event → Facilitator → Facilitator
  after enters f = begin_settle f
  after (passes p r) f = (settle to_lower_case b p r f).1
  after (verifies p r) f = (verify b p r f).1

  -- 1 if the event is a settlement of the authorization that succeeds.
  unfoldable pub success : Text → Event → Facilitator → ℕ
  unfolding is_accepted names
  success identity (passes p r) f =
      if is_accepted (settle to_lower_case b p r f).0
        && names (authorization_identity to_lower_case p) identity
      then 1
      else 0
  success identity _ f = 0

  -- The settlements of the authorization that succeed in a sequence of events.
  unfoldable pub successes : Text → List Event → Facilitator → ℕ
  unfolding success after
  successes identity [] f = 0
  successes identity (e ∷ es) f = success identity e f + successes identity es (after e f)

  verify-keeps :
      (p : PaymentPayload) (r : AcceptedTerms) (f : Facilitator)
      → (verify b p r f).1.settled_authorizations ≡ f.settled_authorizations
  unfolding verify
  verify-keeps p r f = ground arith

  consume-keeps :
      (own : Option Text) (settled : List Text) (identity : Text)
      → includes settled identity ≡ true
      → includes (consume own settled) identity ≡ true
  unfolding consume
  consume-keeps none settled identity h = h
  consume-keeps (some i) settled identity h = ground arith

  settled_or_other :
      (own : Option Text) (settled : List Text) (identity : Text)
      → includes settled identity ≡ true
      → is_settled own settled ≡ false
      → names own identity ≡ false
  unfolding is_settled names
  settled_or_other none settled identity h k = ground arith
  settled_or_other (some i) settled identity h k = ground (arith, eq_text_iff i identity)

  consume-names :
      (own : Option Text) (settled : List Text) (identity : Text)
      → names own identity ≡ true
      → includes (consume own settled) identity ≡ true
  unfolding consume names
  consume-names none settled identity h = absurd (ground arith)
  consume-names (some i) settled identity h = ground arith

  settled-after :
      (identity : Text) (e : Event) (f : Facilitator)
      → includes f.settled_authorizations identity ≡ true
      → ((includes (after e f).settled_authorizations identity ≡ true) × (success identity e f ≡ 0))
  unfolding success after begin_settle
  settled-after identity enters f h = (h, refl)
  settled-after identity (verifies p r) f h = (rw (verify-keeps p r f) h, refl)
  settled-after identity (passes p r) f h = elim (settle_cases p r f) [
    | inl (accepted, fresh, consumed) ↦
        let other =
          settled_or_other (authorization_identity to_lower_case p) f.settled_authorizations
            identity h fresh in
        (
          rw consumed (
              consume-keeps (authorization_identity to_lower_case p) f.settled_authorizations
                identity h),
          rw accepted (rw other refl),
        )
    | inr (failed, same) ↦ (rw same h, rw failed refl)
  ]

  successes-Settled :
      (identity : Text) (es : List Event) (f : Facilitator)
      → includes f.settled_authorizations identity ≡ true
      → successes identity es f ≡ 0
  unfolding successes
  successes-Settled identity [] f h = refl
  successes-Settled identity (e ∷ es) f h =
      let (kept, failed) = settled-after identity e f h in
      omega (arith, failed, successes-Settled identity es (after e f) kept)

  success_cases :
      (identity : Text) (e : Event) (f : Facilitator)
      → (success identity e f ≡ 0)
        ⊎ ((success identity e f ≡ 1)
            × (includes (after e f).settled_authorizations identity ≡ true))
  unfolding success after
  success_cases identity enters f = inl refl
  success_cases identity (verifies p r) f = inl refl
  success_cases identity (passes p r) f = elim (settle_cases p r f) [
    | inr (failed, same) ↦ inl (rw failed refl)
    | inl (accepted, fresh, consumed) ↦
        elim (Bool-cases (names (authorization_identity to_lower_case p) identity)) [
          | inl own ↦ inr (
            rw accepted (rw own refl),
            rw consumed (
                consume-names (authorization_identity to_lower_case p) f.settled_authorizations
                  identity own),
          )
          | inr other ↦ inl (rw accepted (rw other refl))
        ]
  ]

  -- However settlements enter, pass the barrier and interleave with verifications, one authorization
  -- settles successfully at most once, from any state of the facilitator.
  pub successes_le_one :
      (identity : Text) (es : List Event) (f : Facilitator) → successes identity es f ≤ 1
  unfolding successes
  successes_le_one identity [] f = omega arith
  successes_le_one identity (e ∷ es) f = elim (success_cases identity e f) [
    | inl failed ↦ omega (arith, failed, successes_le_one identity es (after e f))
    | inr (succeeded, settled) ↦
        omega (arith, succeeded, successes-Settled identity es (after e f) settled)
  ]

  -- An attempt that does not succeed leaves the facilitator as it was, so that it does not consume the
  -- authorization; and an attempt succeeds exactly if the authorization is not consumed, nothing raises
  -- or refuses, and the terms and the authorization are in order.
  settle-accepted_iff :
      (p : PaymentPayload) (r : AcceptedTerms) (f : Facilitator)
      → (((settle to_lower_case b p r f).0 ≡ accepted') ↔ (
          (is_settled (authorization_identity to_lower_case p) f.settled_authorizations ≡ false)
          × (b.throw_on_settle ≡ none)
          × (b.reject_settlement ≡ none)
          × (check_terms p r ≡ none)))
        × (((settle to_lower_case b p r f).0 ≡ accepted') ⊎ ((settle to_lower_case b p r f).1 ≡ f))
  unfolding settle
  settle-accepted_iff p r f = ground arith
