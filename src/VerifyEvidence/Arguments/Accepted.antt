-- ===== src/VerifyEvidence/Arguments/Accepted.antt =====
-- Which arguments are accepted, and as what (src/flow/verify-evidence.ts).
use x402_base_evidence.Common.{
  codes, ◌≡◌, refl, sym, ap, ◌∙◌, ◌↔◌, ◌⊎◌, inl, inr, Bool, true, false, not, Option, none, some,
  List, [], ◌∷◌, Text, eq_text, eq_text_iff, arith, Bool-cases, subst,
}
use x402_base_evidence.Common.Except.{◌>>=◌, ok, >>=-eq-ok, throw_if->>-eq-ok, ok-injective}
use x402_base_evidence.VerifyEvidence.Arguments.{
  unrecognised_argument, needs_value, evidence_twice, public_key_twice, VerifyRequest, fixture,
  evidence_directory, drop_separator, is_option, evidence_option, public_key_option, Given, is_set,
  take_option, is_known, take_options, request_of, parse_verify_arguments,
}

-- What one option adds.
abbrev Adds : Text → Text → Given → Given → Type 0
Adds argument value g g' =
    (is_option value ≡ false)
    × (((argument ≡ evidence_option)
          × (g.evidence ≡ none)
          × (g' ≡ record g { evidence = some value }))
        ⊎ ((argument ≡ public_key_option)
            × (g.public_key_file ≡ none)
            × (g' ≡ record g { public_key_file = some value })))

is_set-eq-false : (o : Option Text) → is_set o ≡ false → o ≡ none
unfolding is_set
is_set-eq-false none h = refl
is_set-eq-false (some t) h = absurd (ground arith)

is_known-eq-true :
    (a : Text)
    → is_known a ≡ true
    → ((eq_text a evidence_option ≡ true) × (a ≡ evidence_option))
      ⊎ ((eq_text a evidence_option ≡ false) × (a ≡ public_key_option))
unfolding is_known
is_known-eq-true a h = elim (Bool-cases (eq_text a evidence_option)) [
  | inl e ↦ inl (e, (eq_text_iff a evidence_option).0 e)
  | inr e ↦ inr (e, (eq_text_iff a public_key_option).0 (rw e at h))
]

not-eq-false : (b : Bool) → not b ≡ false → b ≡ true
not-eq-false true h = refl
not-eq-false false h = absurd (ground arith)

take_option-Adds :
    (argument value : Text) (g g' : Given)
    → is_known argument ≡ true
    → take_option argument value g ≡ ok g'
    → Adds argument value g g'
unfolding take_option
take_option-Adds argument value g g' known h =
    let (plain, h1) = throw_if->>-eq-ok (is_option value) needs_value _ h in
    elim (is_known-eq-true argument known) [
      | inl (e, same) ↦
          let (unset, h2) = throw_if->>-eq-ok (is_set g.evidence) evidence_twice _ (rw e at h1) in
          (plain, inl (same, is_set-eq-false g.evidence unset, sym (ok-injective h2)))
      | inr (e, same) ↦
          let (unset, h2) =
            throw_if->>-eq-ok (is_set g.public_key_file) public_key_twice _ (rw e at h1) in
          (plain, inr (same, is_set-eq-false g.public_key_file unset, sym (ok-injective h2)))
    ]

take_options-cons :
    (argument value : Text) (rest : List Text) (g g' : Given)
    → take_options (argument ∷ value ∷ rest) g ≡ ok g'
    → (g1 : Given) × Adds argument value g g1 × (take_options rest g1 ≡ ok g')
unfolding take_options
take_options-cons argument value rest g g' h =
    let (known, h1) = throw_if->>-eq-ok (not (is_known argument)) unrecognised_argument _ h in
    let (g1, taken, h2) = >>=-eq-ok (take_option argument value g) _ h1 in
    (g1, take_option-Adds argument value g g1 (not-eq-false (is_known argument) known) taken, h2)

take_options-one : (argument : Text) (g g' : Given) → take_options (argument ∷ []) g ≡ ok g' → ⊥
unfolding take_options
take_options-one argument g g' h = ground arith

-- With both given, nothing may follow.
take_options-full :
    (l : List Text) (a b : Text) (g g' : Given)
    → g.evidence ≡ some a
    → g.public_key_file ≡ some b
    → take_options l g ≡ ok g'
    → (l ≡ []) × (g' ≡ g)
unfolding take_options
take_options-full [] a b g g' ea eb h = (refl, sym (ok-injective h))
take_options-full (x ∷ []) a b g g' ea eb h = absurd (take_options-one x g g' h)
take_options-full (x ∷ v ∷ r) a b g g' ea eb h =
    let (g1, (plain, added), rest) = take_options-cons x v r g g' h in
    elim added [
      | inl (_, unset, _) ↦ absurd (ground arith)
      | inr (_, unset, _) ↦ absurd (ground arith)
    ]

take_options-with_evidence :
    (l : List Text) (a : Text) (g g' : Given)
    → g.evidence ≡ some a
    → g.public_key_file ≡ none
    → take_options l g ≡ ok g'
    → (g' ≡ g)
      ⊎ ((k : Text) × (is_option k ≡ false)
          × (l ≡ public_key_option ∷ k ∷ [])
          × (g' ≡ record g { public_key_file = some k }))
unfolding take_options
take_options-with_evidence [] a g g' ea eb h = inl (sym (ok-injective h))
take_options-with_evidence (x ∷ []) a g g' ea eb h = absurd (take_options-one x g g' h)
take_options-with_evidence (x ∷ v ∷ r) a g g' ea eb h =
    let (g1, (plain, added), rest) = take_options-cons x v r g g' h in
    elim added [
      | inl (_, unset, _) ↦ absurd (ground arith)
      | inr (same, _, made) ↦
          let (done, kept) =
            take_options-full r a v g1 g' (ap (λ (y : Given). y.evidence) made ∙ ea)
              (ap (λ (y : Given). y.public_key_file) made) rest in
          inr (v, plain, rw same (rw done refl), kept ∙ made)
    ]

take_options-with_key :
    (l : List Text) (b : Text) (g g' : Given)
    → g.evidence ≡ none
    → g.public_key_file ≡ some b
    → take_options l g ≡ ok g'
    → (g' ≡ g)
      ⊎ ((e : Text) × (is_option e ≡ false)
          × (l ≡ evidence_option ∷ e ∷ [])
          × (g' ≡ record g { evidence = some e }))
unfolding take_options
take_options-with_key [] b g g' ea eb h = inl (sym (ok-injective h))
take_options-with_key (x ∷ []) b g g' ea eb h = absurd (take_options-one x g g' h)
take_options-with_key (x ∷ v ∷ r) b g g' ea eb h =
    let (g1, (plain, added), rest) = take_options-cons x v r g g' h in
    elim added [
      | inl (same, _, made) ↦
          let (done, kept) =
            take_options-full r v b g1 g' (ap (λ (y : Given). y.evidence) made)
              (ap (λ (y : Given). y.public_key_file) made ∙ eb) rest in
          inr (v, plain, rw same (rw done refl), kept ∙ made)
      | inr (_, unset, _) ↦ absurd (ground arith)
    ]

abbrev nothing : Given
nothing = record { evidence = none; public_key_file = none }

-- The arguments that ask for a directory under a key: both options, in either order.
abbrev AsksFor : List Text → Text → Text → Type 0
AsksFor l directory key =
    (l ≡ evidence_option ∷ directory ∷ public_key_option ∷ key ∷ [])
    ⊎ (l ≡ public_key_option ∷ key ∷ evidence_option ∷ directory ∷ [])

requested :
    (a b : Option Text) (r : VerifyRequest)
    → request_of a b ≡ ok r
    → ((a ≡ none) × (b ≡ none) × (r ≡ fixture))
      ⊎ ((e : Text) × (k : Text) × (a ≡ some e) × (b ≡ some k) × (r ≡ evidence_directory e k))
unfolding request_of
requested none none r q = inl (refl, refl, sym (ok-injective q))
requested (some e) (some k) r q = inr (e, k, refl, refl, sym (ok-injective q))
requested none (some k) r q = absurd (ground arith)
requested (some e) none r q = absurd (ground arith)

-- The request that complete options make.
both-requested :
    (g : Given) (e k : Text) (r : VerifyRequest)
    → g.evidence ≡ some e
    → g.public_key_file ≡ some k
    → request_of g.evidence g.public_key_file ≡ ok r
    → r ≡ evidence_directory e k
unfolding request_of
both-requested g e k r is_e is_k q = sym (ok-injective (rw is_k at (rw is_e at q)))

half-refused :
    (g : Given) (e : Text) (r : VerifyRequest)
    → ((g.evidence ≡ some e) × (g.public_key_file ≡ none))
      ⊎ ((g.evidence ≡ none) × (g.public_key_file ≡ some e))
    → request_of g.evidence g.public_key_file ≡ ok r
    → ⊥
half-refused g e r half q = elim (requested g.evidence g.public_key_file r q) [
  | inl (a, b, _) ↦ ground arith
  | inr (e', k, a, b, _) ↦ ground arith
]

abbrev pub Accepted : List Text → VerifyRequest → Type 0
Accepted l r =
    ((l ≡ []) × (r ≡ fixture))
    ⊎ ((directory : Text) × (key : Text) × (is_option directory ≡ false)
        × (is_option key ≡ false)
        × AsksFor l directory key
        × (r ≡ evidence_directory directory key))

accepted :
    (l : List Text) (g : Given) (r : VerifyRequest)
    → take_options l nothing ≡ ok g
    → request_of g.evidence g.public_key_file ≡ ok r
    → Accepted l r
unfolding take_options request_of
accepted [] g r h q =
    let same : nothing ≡ g = ok-injective h in
    inl (
      refl,
      sym (
          ok-injective
            (subst (λ (x : Given). request_of x.evidence x.public_key_file ≡ ok r) (sym same) q)),
    )
accepted (x ∷ []) g r h q = absurd (take_options-one x nothing g h)
accepted (x ∷ v ∷ l) g r h q =
    let (g1, (plain, added), rest) = take_options-cons x v l nothing g h in
    elim added [
      | inl (is_x, _, made) ↦
          let e1 = ap (λ (y : Given). y.evidence) made in
          let k1 = ap (λ (y : Given). y.public_key_file) made in
          elim (take_options-with_evidence l v g1 g e1 k1 rest) [
            | inl same ↦ absurd (
                half-refused g v r
                  (inl (
                    ap (λ (y : Given). y.evidence) same ∙ e1,
                    ap (λ (y : Given). y.public_key_file) same ∙ k1,
                  ))
                  q)
            | inr (k, plain', is_l, full) ↦ inr (
              v,
              k,
              plain,
              plain',
              inl (rw is_x (rw is_l refl)),
              both-requested g v k r (ap (λ (y : Given). y.evidence) full ∙ e1)
                  (ap (λ (y : Given). y.public_key_file) full) q,
            )
          ]
      | inr (is_x, _, made) ↦
          let e1 = ap (λ (y : Given). y.evidence) made in
          let k1 = ap (λ (y : Given). y.public_key_file) made in
          elim (take_options-with_key l v g1 g e1 k1 rest) [
            | inl same ↦ absurd (
                half-refused g v r
                  (inr (
                    ap (λ (y : Given). y.evidence) same ∙ e1,
                    ap (λ (y : Given). y.public_key_file) same ∙ k1,
                  ))
                  q)
            | inr (e, plain', is_l, full) ↦ inr (
              e,
              v,
              plain',
              plain,
              inr (rw is_x (rw is_l refl)),
              both-requested g e v r (ap (λ (y : Given). y.evidence) full)
                  (ap (λ (y : Given). y.public_key_file) full ∙ k1) q,
            )
          ]
    ]

-- The arguments are these, or these behind the package manager's separator.
abbrev pub IsGiven : List Text → List Text → Type 0
IsGiven argv l = (argv ≡ l) ⊎ (argv ≡ codes "--" ∷ l)

drop_separator-IsGiven : (argv : List Text) → IsGiven argv (drop_separator argv)
unfolding drop_separator
drop_separator-IsGiven [] = inl refl
drop_separator-IsGiven (a ∷ l) = elim (Bool-cases (eq_text a (codes "--"))) [
  | inl e ↦ rw e (inr (ap (λ x. x ∷ l) ((eq_text_iff a (codes "--")).0 e)))
  | inr e ↦ rw e (inl refl)
]

-- No separator begins arguments that are accepted, so that none is dropped twice.
drop_separator-of-Accepted :
    (argv l : List Text) (r : VerifyRequest)
    → IsGiven argv l
    → Accepted l r
    → drop_separator argv ≡ l
unfolding drop_separator eq_text
drop_separator-of-Accepted argv l r (inr e) a = rw e refl
drop_separator-of-Accepted argv l r (inl e) (inl (empty, is_r)) = rw e (rw empty refl)
drop_separator-of-Accepted argv l r (inl e) (inr (d, k, p, q, inl is_l, is_r)) = rw e (rw is_l refl)
drop_separator-of-Accepted argv l r (inl e) (inr (d, k, p, q, inr is_l, is_r)) = rw e (rw is_l refl)

-- The same of the arguments behind a separator.
taken_iff :
    (l : List Text) (r : VerifyRequest)
    → ((take_options l nothing >>= λ g. request_of g.evidence g.public_key_file) ≡ ok r)
      ↔ Accepted l r
unfolding take_options take_option request_of is_known is_set eq_text
taken_iff l r = (
  λ h. let (g, taken, q) = >>=-eq-ok (take_options l nothing) _ h in accepted l g r taken q,
  λ h. elim h [
    | inl (e, is_r) ↦ rw e (rw is_r refl)
    | inr (directory, key, p, p', inl e, is_r) ↦ rw e (rw p (rw p' (rw is_r refl)))
    | inr (directory, key, p, p', inr e, is_r) ↦ rw e (rw p' (rw p (rw is_r refl)))
  ],
)

-- Arguments are accepted exactly if, but for one separator "--" before all of them, there are none,
-- which asks for the fixture, or they are the two options once each, in either order, each with a
-- value that does not begin with "--", which asks for that directory under that key file.
pub parse_verify_arguments-eq-ok_iff :
    (argv : List Text) (r : VerifyRequest)
    → (parse_verify_arguments argv ≡ ok r) ↔ ((l : List Text) × IsGiven argv l × Accepted l r)
unfolding parse_verify_arguments
parse_verify_arguments-eq-ok_iff argv r = (
  λ h. (drop_separator argv, drop_separator-IsGiven argv, (taken_iff (drop_separator argv) r).0 h),
  λ (l, given, a). rw (drop_separator-of-Accepted argv l r given a) ((taken_iff l r).1 a),
)
