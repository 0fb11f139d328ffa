-- ===== src/VerifyEvidence/Arguments.antt =====
-- src/flow/verify-evidence.ts: what the arguments of a command ask for.
pub mod Accepted
use x402_base_evidence.Common.{
  ◌≡◌, refl, ◌↔◌, ◌⊎◌, inl, inr, Bool, true, false, not, ◌&&◌, ◌||◌, Option, none, some, List, [],
  ◌∷◌, any, if◌then◌else◌, Text, codes, eq_text, eq_text_iff, includes, take, arith, Bool-cases,
  Option-cases,
}
use x402_base_evidence.Common.Except.{Except, ok, err, ◌>>=◌, throw_if, ◌>>◌}

-- The `UsageError`s, one for each message.
pub data UsageProblem : Type 0 where
  unrecognised_argument needs_value evidence_twice public_key_twice : UsageProblem
  public_key_alone evidence_alone : UsageProblem

-- `VerifyRequest`: the committed fixture, or a directory under a key file.
pub data VerifyRequest : Type 0 where
  fixture : VerifyRequest
  evidence_directory : Text → Text → VerifyRequest

-- The package manager's separator is dropped.
unfoldable pub drop_separator : List Text → List Text
unfolding eq_text
drop_separator [] = []
drop_separator (a ∷ as') = if eq_text a (codes "--") then as' else a ∷ as'

-- `isHelpRequest`
unfoldable is_help_request : List Text → Bool
unfolding drop_separator
is_help_request argv =
    any (λ a. includes (codes "--help" ∷ codes "-h" ∷ codes "help" ∷ []) a) (drop_separator argv)

-- `value.startsWith('--')`
unfoldable pub is_option : Text → Bool
unfolding eq_text
is_option v = eq_text (take 2 v) (codes "--")

abbrev pub evidence_option : Text
evidence_option = codes "--evidence"

abbrev pub public_key_option : Text
public_key_option = codes "--public-key"

-- The two variables of the loop.
pub record Given : Type 0 where
  pub evidence : Option Text
  pub public_key_file : Option Text

unfoldable pub is_set : Option Text → Bool
is_set none = false
is_set (some t) = true

-- One turn of the loop, for an option and its value.
unfoldable pub take_option : Text → Text → Given → Except UsageProblem Given
unfolding is_option is_set eq_text
take_option argument value g =
    throw_if (is_option value) needs_value
    >> (if eq_text argument evidence_option
        then throw_if (is_set g.evidence) evidence_twice >> ok (record g { evidence = some value })
        else throw_if (is_set g.public_key_file) public_key_twice
          >> ok (record g { public_key_file = some value }))

unfoldable pub is_known : Text → Bool
unfolding eq_text
is_known argument = eq_text argument evidence_option || eq_text argument public_key_option

-- The loop, two arguments at a time.
unfoldable pub take_options : List Text → Given → Except UsageProblem Given
unfolding is_known take_option
take_options [] g = ok g
take_options (argument ∷ []) g =
    throw_if (not (is_known argument)) unrecognised_argument >> err needs_value
take_options (argument ∷ value ∷ rest) g = do
  throw_if (not (is_known argument)) unrecognised_argument
  g' ← take_option argument value g
  take_options rest g'

unfoldable pub request_of : Option Text → Option Text → Except UsageProblem VerifyRequest
request_of none none = ok fixture
request_of none (some key) = err public_key_alone
request_of (some directory) none = err evidence_alone
request_of (some directory) (some key) = ok (evidence_directory directory key)

-- `parseVerifyArguments`
unfoldable pub parse_verify_arguments : List Text → Except UsageProblem VerifyRequest
unfolding drop_separator take_options request_of
parse_verify_arguments argv = do
  g ← take_options (drop_separator argv) (record { evidence = none; public_key_file = none })
  request_of g.evidence g.public_key_file
