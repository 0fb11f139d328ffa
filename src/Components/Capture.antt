-- ===== src/Components/Capture.antt =====
-- What a capture of components gives (src/components.ts).
use x402_base_evidence.Common.{
  ℕ, Bool, true, false, not, Option, none, some, List, [], ◌∷◌, ◌++◌, ◌==◌, ltb, ◌≡◌, refl, sym, ap,
  ◌∙◌, ◌⊎◌, inl, inr, ◌↔◌, arith, subst, Bool-cases, eq_text_refl, length-append, all, any, Text,
  codes, eq_text, to_lower,
}
use x402_base_evidence.Common.Except.{
  ok, throw_if, >>=-eq-ok, throw_if->>-eq-ok, some_or->>=-eq-ok, Passes, throw_first-Passes,
  ok-injective,
}
use x402_base_evidence.Common.Scanning.{
  has_code, until, from, starts_with, is_empty, pct_ok, utf8_length, is_ascii, utf8_length-of-ascii,
  until-append-from, any-append, any-until,
}
use x402_base_evidence.Components.Authority.{
  ComponentProblem, authority_no_string, invalid_method, non_http_scheme, scheme_no_string,
  empty_target, not_origin_form, control_or_space, non_ascii, fragment_rejected, malformed_encoding,
  target_too_long, invalid_proxy_trust_profile, Scheme, http, https, is_code, canonical_authority,
}
use x402_base_evidence.Components.Canonical.{canonical_authority-canonical_authority}
use x402_base_evidence.Components.{
  max_target_bytes, is_method_token, is_control_or_space, is_non_ascii, scheme_named, scheme_name,
  is_literal, check_target_part, target_of, components_object, optional_field, RequestParts, Target,
  split_target, admit_raw, admit_target, assert_canonical_components, build_components,
  capture_request_components,
}
use x402_base_evidence.Json.{Json, object, Fields, member, as_string, object_like}

-- The checks on a request target, in their order.
abbrev checks_of : Text → List (Bool × ComponentProblem)
checks_of raw =
    (is_empty raw, empty_target)
    ∷ (ltb max_target_bytes (utf8_length raw), target_too_long)
    ∷ (any is_control_or_space raw, control_or_space)
    ∷ (any is_non_ascii raw, non_ascii)
    ∷ (has_code b'#' raw, fragment_rejected)
    ∷ (not (starts_with b'/' raw), not_origin_form)
    ∷ (not (pct_ok (split_target raw).path), malformed_encoding)
    ∷ (not (pct_ok (split_target raw).query), malformed_encoding)
    ∷ []

admit_raw-eq-ok :
    (raw : Text) (t : Target)
    → admit_raw raw ≡ ok t
    → Passes (checks_of raw) × (split_target raw ≡ t)
unfolding admit_raw
admit_raw-eq-ok raw t h =
    let (p, k) = throw_first-Passes (checks_of raw) (ok (split_target raw)) h in (p, ground arith)

admit_target-eq-ok :
    (v : Option Json) (t : Target)
    → admit_target v ≡ ok t
    → (raw : Text) × (as_string v ≡ some raw) × Passes (checks_of raw) × (split_target raw ≡ t)
unfolding admit_target
admit_target-eq-ok v t h =
    let (raw, e, k) = some_or->>=-eq-ok (as_string v) empty_target admit_raw h in
    let (p, s) = admit_raw-eq-ok raw t k in (raw, e, p, s)

-- What the assertion asks of the path and the query.
pub record IsTarget (path query : Text) : Type 0 where
  pub path_part : check_target_part path ≡ ok tt
  pub query_part : check_target_part query ≡ ok tt
  pub filled : is_empty path ≡ false
  pub origin : starts_with b'/' path ≡ true
  pub marked : starts_with b'?' query ≡ true
  pub short : ltb max_target_bytes (utf8_length (target_of path query)) ≡ false

starts_with-until :
    (c d : ℕ) (t : Text)
    → (c == d) ≡ false
    → starts_with c t ≡ true
    → starts_with c (until (is_code d) t) ≡ true
unfolding until
starts_with-until c d [] k h = absurd (ground arith)
starts_with-until c d (x ∷ t) k h = ground arith

starts_with-from :
    (c : ℕ) (t : Text) → has_code c t ≡ true → starts_with c (from (is_code c) t) ≡ true
unfolding from
starts_with-from c [] h = absurd (ground arith)
starts_with-from c (x ∷ t) h = ground (arith, starts_with-from c t)

is_empty-of-starts_with : (c : ℕ) (t : Text) → starts_with c t ≡ true → is_empty t ≡ false
is_empty-of-starts_with c [] h = absurd (ground arith)
is_empty-of-starts_with c (x ∷ t) h = refl

all-ascii : (t : Text) → any is_non_ascii t ≡ false → all is_ascii t ≡ true
all-ascii [] h = refl
all-ascii (c ∷ t) h = ground (arith, all-ascii t)

any-left : (p : ℕ → Bool) (s t : Text) → any p (s ++ t) ≡ false → any p s ≡ false
any-left p s t h = ground (arith, any-append p s t)

any-right : (p : ℕ → Bool) (s t : Text) → any p (s ++ t) ≡ false → any p t ≡ false
any-right p s t h = ground (arith, any-append p s t)

ltb-of-prefix :
    (path query : Text)
    → any is_non_ascii (path ++ query) ≡ false
    → ltb max_target_bytes (utf8_length (path ++ query)) ≡ false
    → ltb max_target_bytes (utf8_length (target_of path query)) ≡ false
unfolding target_of
ltb-of-prefix path query a h = elim (Bool-cases (eq_text query (codes "?"))) [
  | inl e ↦
      let whole = utf8_length-of-ascii (path ++ query) (all-ascii (path ++ query) a) in
      let part = utf8_length-of-ascii path (all-ascii path (any-left is_non_ascii path query a)) in
      rw e (rw part (ground (arith, whole, length-append path query)))
  | inr e ↦ rw e h
]

part-of-target :
    (v : Text)
    → any is_control_or_space v ≡ false
    → any is_non_ascii v ≡ false
    → has_code b'#' v ≡ false
    → pct_ok v ≡ true
    → check_target_part v ≡ ok tt
unfolding check_target_part
part-of-target v c n f p = rw c (rw n (rw f (rw p refl)))

marked-IsTarget :
    (path query : Text)
    → any is_control_or_space (path ++ query) ≡ false
    → any is_non_ascii (path ++ query) ≡ false
    → has_code b'#' (path ++ query) ≡ false
    → ltb max_target_bytes (utf8_length (path ++ query)) ≡ false
    → starts_with b'/' path ≡ true
    → starts_with b'?' query ≡ true
    → pct_ok path ≡ true
    → pct_ok query ≡ true
    → IsTarget path query
marked-IsTarget path query c n f s o m pp pq = record {
  path_part =
      part-of-target path (any-left is_control_or_space path query c)
        (any-left is_non_ascii path query n) (any-left (is_code b'#') path query f) pp;
  query_part =
      part-of-target query (any-right is_control_or_space path query c)
        (any-right is_non_ascii path query n) (any-right (is_code b'#') path query f) pq;
  filled = is_empty-of-starts_with b'/' path o;
  origin = o;
  marked = m;
  short = ltb-of-prefix path query n s;
}

bare_query : check_target_part (codes "?") ≡ ok tt
unfolding check_target_part is_control_or_space pct_ok
bare_query = refl

not-eq-false : (b : Bool) → not b ≡ false → b ≡ true
not-eq-false true h = refl
not-eq-false false h = absurd (ground arith)

short_of_bare :
    (raw : Text)
    → ltb max_target_bytes (utf8_length raw) ≡ false
    → ltb max_target_bytes (utf8_length (target_of raw (codes "?"))) ≡ false
unfolding target_of eq_text
short_of_bare raw h = h

-- The two parts of a request target that passed the checks of a capture are what the assertion asks.
split_target-IsTarget :
    (raw : Text)
    → Passes (checks_of raw)
    → IsTarget (split_target raw).path (split_target raw).query
unfolding split_target
split_target-IsTarget raw (filled, (short, (graphic, (ascii, (whole, (origin, (pp, (pq, _)))))))) =
    elim (Bool-cases (has_code b'?' raw)) [
      | inl q ↦
          let joined = until-append-from (is_code b'?') raw in
          let o = not-eq-false (starts_with b'/' raw) origin in
          rw q (
            marked-IsTarget (until (is_code b'?') raw) (from (is_code b'?') raw) (rw joined graphic)
              (rw joined ascii) (rw joined whole) (rw joined short)
              (starts_with-until b'/' b'?' raw refl o) (starts_with-from b'?' raw q)
              (rw q at (not-eq-false (pct_ok (split_target raw).path) pp))
              (rw q at (not-eq-false (pct_ok (split_target raw).query) pq)))
      | inr q ↦ rw q (record {
        path_part =
            part-of-target raw graphic ascii whole
              (rw q at (not-eq-false (pct_ok (split_target raw).path) pp));
        query_part = bare_query;
        filled = filled;
        origin = not-eq-false (starts_with b'/' raw) origin;
        marked = refl;
        short = short_of_bare raw short;
      })
    ]

member-optional_field : (key : Text) (v : Option Json) → member key (optional_field key v) ≡ v
unfolding member optional_field
member-optional_field key none = refl
member-optional_field key (some v) = rw (eq_text_refl key) refl

scheme_named-scheme_name : (s : Scheme) → scheme_named (scheme_name s) ≡ some s
unfolding scheme_named eq_text
scheme_named-scheme_name http = refl
scheme_named-scheme_name https = refl

split_target-whole :
    (raw : Text)
    → (has_code b'?' (split_target raw).path ≡ false)
      × ((raw ≡ (split_target raw).path ++ (split_target raw).query)
          ⊎ ((raw ≡ (split_target raw).path) × ((split_target raw).query ≡ codes "?")))
unfolding split_target
split_target-whole raw = elim (Bool-cases (has_code b'?' raw)) [
  | inl q ↦ rw q (any-until (is_code b'?') raw, inl (sym (until-append-from (is_code b'?') raw)))
  | inr q ↦ rw q (q, inr (refl, refl))
]

module _ (is_ip : Text → ℕ) where
  assert-components_object :
      (method : Text) (scheme : Scheme) (authority path query : Text) (profile : Option Json)
      → is_method_token method ≡ true
      → canonical_authority is_ip scheme authority ≡ ok authority
      → IsTarget path query
      → assert_canonical_components is_ip
          (some (object (components_object method scheme authority path query profile)))
        ≡ throw_if (not (is_literal (codes "direct-origin") profile)) invalid_proxy_trust_profile
  unfolding assert_canonical_components components_object object_like member eq_text as_string
      is_literal
  assert-components_object method scheme authority path query profile m a t = rw m (
      rw (scheme_named-scheme_name scheme) (
        rw a (
          rw (eq_text_refl authority) (
            rw t.filled (
              rw t.origin (
                rw t.marked (
                  rw t.path_part (
                    rw t.query_part (
                      rw t.short (
                        rw (member-optional_field (codes "proxyTrustProfile") profile)
                          refl))))))))))

  -- What a build took from its input.
  pub record Built (i : RequestParts) (c : Fields) : Type 0 where
    pub method : Text
    pub scheme : Scheme
    pub authority : Text
    pub canonical : Text
    pub raw : Text
    pub token : is_method_token method ≡ true
    pub admitted : canonical_authority is_ip scheme authority ≡ ok canonical
    pub from' : as_string i.raw_path_and_query ≡ some raw
    pub target : IsTarget (split_target raw).path (split_target raw).query
    pub built :
        components_object method scheme canonical
          (split_target raw).path
          (split_target raw).query
          i.proxy_trust_profile
        ≡ c

  build_components-Built :
      (i : RequestParts) (c : Fields) → build_components is_ip i ≡ ok c → Built i c
  unfolding build_components
  build_components-Built i c h =
      let (method, e, h1) = some_or->>=-eq-ok (as_string i.method) invalid_method _ h in
      let (token, h2) = throw_if->>-eq-ok (not (is_method_token method)) invalid_method _ h1 in
      let (name, e2, h3) = some_or->>=-eq-ok (as_string i.scheme) scheme_no_string _ h2 in
      let (scheme, e3, h4) =
        some_or->>=-eq-ok (scheme_named (to_lower name)) non_http_scheme _ h3 in
      let (authority, e4, h5) =
        some_or->>=-eq-ok (as_string i.authority) authority_no_string _ h4 in
      let (target, e5, h6) = >>=-eq-ok (admit_target i.raw_path_and_query) _ h5 in
      let (canonical, e6, h7) = >>=-eq-ok (canonical_authority is_ip scheme authority) _ h6 in
      let (raw, e7, passes, split) = admit_target-eq-ok i.raw_path_and_query target e5 in
      let same : components_object method scheme canonical target.path target.query
            i.proxy_trust_profile
          ≡ c =
        ok-injective h7 in
      record {
        method = method;
        scheme = scheme;
        authority = authority;
        canonical = canonical;
        raw = raw;
        token = not-eq-false (is_method_token method) token;
        admitted = e6;
        from' = e7;
        target = split_target-IsTarget raw passes;
        built = rw split same;
      }

  path_of-Built :
      (i : RequestParts) (c : Fields) (b : Built i c)
      → as_string (member (codes "@path") c) ≡ some (split_target b.raw).path
  unfolding components_object member eq_text as_string
  path_of-Built i c b = ap (λ x. as_string (member (codes "@path") x)) (sym b.built)

  query_of-Built :
      (i : RequestParts) (c : Fields) (b : Built i c)
      → as_string (member (codes "@query") c) ≡ some (split_target b.raw).query
  unfolding components_object member eq_text as_string
  query_of-Built i c b = ap (λ x. as_string (member (codes "@query") x)) (sym b.built)

  module _ (kept : (t : Text) → is_ip t ≡ 6 → is_ip (to_lower t) ≡ 6) where
    assert-of-build :
        (i : RequestParts) (c : Fields)
        → build_components is_ip i ≡ ok c
        → assert_canonical_components is_ip (some (object c))
          ≡ throw_if
              (not (is_literal (codes "direct-origin") i.proxy_trust_profile))
              invalid_proxy_trust_profile
    assert-of-build i c h =
        let b : Built i c = build_components-Built i c h in
        subst
          (λ x.
            assert_canonical_components is_ip (some (object x))
            ≡ throw_if (not (is_literal (codes "direct-origin") i.proxy_trust_profile))
                invalid_proxy_trust_profile)
          (b.built)
          (assert-components_object b.method b.scheme b.canonical (split_target b.raw).path
            (split_target b.raw).query i.proxy_trust_profile b.token
            (canonical_authority-canonical_authority is_ip kept b.scheme b.authority b.canonical
              b.admitted)
            b.target)

    -- A capture gives the components that it builds, and exactly if the trust profile is
    -- "direct-origin": no other check of the final assertion ever fails on what a capture has built.
    pub capture-eq-ok_iff :
        (i : RequestParts) (c : Fields)
        → (capture_request_components is_ip i ≡ ok c) ↔ (
            (build_components is_ip i ≡ ok c)
            × (is_literal (codes "direct-origin") i.proxy_trust_profile ≡ true))
    unfolding capture_request_components
    capture-eq-ok_iff i c = (
      λ h.
          let (c', built, k) = >>=-eq-ok (build_components is_ip i) _ h in
          let k' = rw (assert-of-build i c' built) at k in
          let (direct, same) =
            throw_if->>-eq-ok (not (is_literal (codes "direct-origin") i.proxy_trust_profile))
              invalid_proxy_trust_profile (ok c') k' in
          (
            built ∙ same,
            not-eq-false (is_literal (codes "direct-origin") i.proxy_trust_profile) direct,
          ),
      λ (built, direct). rw built (rw (assert-of-build i c built) (rw direct refl)),
    )

    -- What was captured is what was on the wire: the path has no "?", the query begins with one, and
    -- the two joined are the request target, or the target has no "?" at all, is the path, and the
    -- query is a bare "?".
    pub capture-target :
        (i : RequestParts) (c : Fields)
        → capture_request_components is_ip i ≡ ok c
        → (raw : Text) × (path : Text) × (query : Text) × (as_string i.raw_path_and_query
            ≡ some raw)
          × (as_string (member (codes "@path") c) ≡ some path)
          × (as_string (member (codes "@query") c) ≡ some query)
          × (has_code b'?' path ≡ false)
          × (starts_with b'?' query ≡ true)
          × ((raw ≡ path ++ query) ⊎ ((raw ≡ path) × (query ≡ codes "?")))
    capture-target i c h =
        let b : Built i c = build_components-Built i c ((capture-eq-ok_iff i c).0 h).0 in
        let (free, whole) = split_target-whole b.raw in
        (
          b.raw,
          (split_target b.raw).path,
          (split_target b.raw).query,
          b.from',
          path_of-Built i c b,
          query_of-Built i c b,
          free,
          b.target.marked,
          whole,
        )
