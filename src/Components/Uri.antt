-- ===== src/Components/Uri.antt =====
-- The components of an absolute URI (src/components.ts).
use x402_base_evidence.Common.{
  ℕ, Bool, true, false, Option, none, some, [], ◌∷◌, ◌++◌, ◌≡◌, refl, arith, any, Text, codes, ◌||◌,
}
use x402_base_evidence.Common.Scanning.{
  until, from, until-append-from, until-append, from-append, any-of-none, is_alphanumeric, has_code,
}
use x402_base_evidence.Components.Authority.{is_code}
use x402_base_evidence.Components.{
  is_scheme_text, after_slashes, ends_authority, origin_form, or_direct,
  components_from_absolute_uri, capture_request_components,
}
use x402_base_evidence.Json.{Json, string, is_nullish}

until-append_of-nil :
    (p : ℕ → Bool) (a r : Text) → any p a ≡ false → until p r ≡ [] → until p (a ++ r) ≡ a
unfolding until
until-append_of-nil p [] r h k = k
until-append_of-nil p (c ∷ a) r h k = ground (arith, until-append_of-nil p a r)

from-append_of-nil :
    (p : ℕ → Bool) (a r : Text) → any p a ≡ false → until p r ≡ [] → from p (a ++ r) ≡ r
unfolding from
from-append_of-nil p [] r h k = rw k at (until-append-from p r)
from-append_of-nil p (c ∷ a) r h k = ground (arith, from-append_of-nil p a r)

scheme_tail :
    (c : ℕ) → (is_alphanumeric c || has_code c (codes "+.-")) ≡ true → is_code b':' c ≡ false
unfolding is_alphanumeric
scheme_tail c h = ground arith

scheme_text-no_colon : (t : Text) → is_scheme_text t ≡ true → any (is_code b':') t ≡ false
unfolding is_scheme_text
scheme_text-no_colon [] h = refl
scheme_text-no_colon (c ∷ t) h = ground (
  arith,
  any-of-none (is_code b':') (λ x. is_alphanumeric x || has_code x (codes "+.-")) t scheme_tail,
)

-- What follows the authority of a URI, and the request target that it stands for: nothing is "/", a
-- path is itself with all that follows it, and a query or a fragment directly behind the authority
-- gets the path "/" before it.
pub data TargetOf : Text → Text → Type 0 where
  nothing : TargetOf [] (codes "/")
  path : (t : Text) → TargetOf (b'/' ∷ t) (b'/' ∷ t)
  query : (t : Text) → TargetOf (b'?' ∷ t) (b'/' ∷ b'?' ∷ t)
  fragment : (t : Text) → TargetOf (b'#' ∷ t) (b'/' ∷ b'#' ∷ t)

TargetOf-origin_form :
    {rest target : Text}
    → TargetOf rest target
    → (until ends_authority rest ≡ []) × (origin_form rest ≡ target)
unfolding until ends_authority origin_form
TargetOf-origin_form nothing = (refl, refl)
TargetOf-origin_form (path t) = (refl, refl)
TargetOf-origin_form (query t) = (refl, refl)
TargetOf-origin_form (fragment t) = (refl, refl)

ends_authority-of_none :
    (t : Text)
    → has_code b'/' t ≡ false
    → has_code b'?' t ≡ false
    → has_code b'#' t ≡ false
    → any ends_authority t ≡ false
unfolding ends_authority
ends_authority-of_none [] h k l = refl
ends_authority-of_none (c ∷ t) h k l = ground (arith, ends_authority-of_none t)

-- A scheme, "://", an authority without "/", "?" and "#", and a rest that is empty or begins with one
-- of them are captured as that scheme, that authority and the target that the rest stands for, under
-- the direct-origin profile: a path keeps all that follows it, and a query that follows the authority
-- directly is kept behind the path "/".
pub components_from_absolute_uri-capture :
    (is_ip : Text → ℕ) (method : Option Json) (scheme authority rest target : Text)
    → is_scheme_text scheme ≡ true
    → has_code b'/' authority ≡ false
    → has_code b'?' authority ≡ false
    → has_code b'#' authority ≡ false
    → TargetOf rest target
    → components_from_absolute_uri is_ip method
        (scheme ++ (codes "://" ++ (authority ++ rest)))
        none
      ≡ capture_request_components is_ip (record {
        method = method;
        scheme = some (string scheme);
        authority = some (string authority);
        raw_path_and_query = some (string target);
        proxy_trust_profile = some (string (codes "direct-origin"));
      })
unfolding components_from_absolute_uri after_slashes or_direct is_nullish
components_from_absolute_uri-capture is_ip method scheme authority rest target s no_path no_query
      no_fragment at =
    let none_in = scheme_text-no_colon scheme s in
    let a = ends_authority-of_none authority no_path no_query no_fragment in
    let (r, made) = TargetOf-origin_form at in
    rw (until-append (is_code b':') scheme b':' (codes "//" ++ (authority ++ rest)) none_in refl) (
      rw (from-append (is_code b':') scheme b':' (codes "//" ++ (authority ++ rest)) none_in refl) (
        rw s (
          rw (until-append_of-nil ends_authority authority rest a r)
            (rw (from-append_of-nil ends_authority authority rest a r) (rw made refl)))))
