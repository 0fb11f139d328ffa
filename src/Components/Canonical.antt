-- ===== src/Components/Canonical.antt =====
-- The canonical form of an authority is canonical (src/components.ts).
use x402_base_evidence.Common.{
  ℕ, ◌≡◌, refl, inl, inr, true, false, not, ◌&&◌, [], ◌∷◌, ◌++◌, ◌==◌, all, drop, Text, codes,
  is_digit, lower, to_lower, arith, Bool-cases, append_assoc, ◌∙◌, subst,
}
use mathlib.Core.List.{map-append}
use x402_base_evidence.Common.Except.{ok, ◌>>=◌, throw_if, ◌>>◌, >>=-eq-ok, throw_if->>-eq-ok}
use x402_base_evidence.Common.Scanning.{
  has_code, until, from, starts_with, is_empty, occurrences, pct_ok, any-until, until-of-none,
  from-of-none, until-append, from-append, any-append, any-of-none, any-until_of-none, any-drop_1,
  occurrences-append, occurrences-of-none,
}
use x402_base_evidence.Components.Authority.{
  empty_authority, credentials_in_authority, Scheme, is_reg_name_code, is_ipv4_code, is_code,
  HostAndPort, Checked, check_literal, check_host, split_authority, normalize_port, print_authority,
  canonical_authority,
}
use x402_base_evidence.Components.Lowercase.{
  any-lower, all-lower, reg_name-lower, to_lower_twice, pct_ok-lower, ipvfuture-lower,
  is_empty-lower, starts_with-lower, reg_name-starts, ipv4-lower,
}
use x402_base_evidence.Components.Port.{normalize_port-twice}

colon_once : (t : Text) → has_code b':' t ≡ false → occurrences b':' (b':' ∷ t) ≡ 1
unfolding occurrences
colon_once t h = rw (occurrences-of-none b':' t h) refl

colon_port : Text → Text
colon_port [] = []
colon_port (c ∷ cs) = b':' ∷ c ∷ cs

literal_inner :
    (raw : Text)
    → starts_with b'[' raw ≡ true
    → has_code b']' (drop 1 (until (is_code b']') raw)) ≡ false
literal_inner raw b =
    any-drop_1 (is_code b']') (until (is_code b']') raw) (any-until (is_code b']') raw)

literal_lower :
    (inner : Text) → to_lower (b'[' ∷ (inner ++ codes "]")) ≡ b'[' ∷ (to_lower inner ++ codes "]")
unfolding lower
literal_lower inner = rw (map-append lower inner (codes "]")) refl

literal_at :
    (inner : Text)
    → has_code b'@' inner ≡ false
    → has_code b'@' (b'[' ∷ (inner ++ codes "]")) ≡ false
literal_at inner h = rw (any-append (is_code b'@') inner (codes "]")) (rw h refl)

colon-digit : (c : ℕ) → is_digit c ≡ true → is_code b':' c ≡ false
unfolding is_digit
colon-digit c h = ground arith

at-digit : (c : ℕ) → is_digit c ≡ true → is_code b'@' c ≡ false
unfolding is_digit
at-digit c h = ground arith

print-IsFilled :
    (host port : Text) → is_empty host ≡ false → is_empty (print_authority host port) ≡ false
unfolding print_authority
print-IsFilled host [] h = h
print-IsFilled [] (c ∷ cs) h = refl
print-IsFilled (x ∷ xs) (c ∷ cs) h = refl

print-at :
    (host port : Text)
    → has_code b'@' host ≡ false
    → all is_digit port ≡ true
    → has_code b'@' (print_authority host port) ≡ false
unfolding print_authority
print-at host [] h d = h
print-at host (c ∷ cs) h d =
    rw (any-append (is_code b'@') host (b':' ∷ c ∷ cs))
      (rw h (any-of-none (is_code b'@') is_digit (c ∷ cs) at-digit d))

module _ (is_ip : Text → ℕ) where
  split-print-literal :
      (inner port : Text)
      → has_code b']' inner ≡ false
      → split_authority is_ip (print_authority (b'[' ∷ (inner ++ codes "]")) port)
        ≡ check_literal is_ip inner (colon_port port)
  unfolding split_authority print_authority colon_port
  split-print-literal inner [] h =
      rw (until-append (is_code b']') (b'[' ∷ inner) b']' [] h refl)
        (rw (from-append (is_code b']') (b'[' ∷ inner) b']' [] h refl) refl)
  split-print-literal inner (c ∷ cs) h = rw (append_assoc inner (b']' ∷ []) (b':' ∷ c ∷ cs)) (
      rw (until-append (is_code b']') (b'[' ∷ inner) b']' (b':' ∷ c ∷ cs) h refl)
        (rw (from-append (is_code b']') (b'[' ∷ inner) b']' (b':' ∷ c ∷ cs) h refl) refl))

  split-print-name :
      (host port : Text)
      → starts_with b'[' host ≡ false
      → is_empty host ≡ false
      → has_code b':' host ≡ false
      → has_code b':' port ≡ false
      → split_authority is_ip (print_authority host port) ≡ check_host is_ip host port
  unfolding split_authority print_authority
  split-print-name host [] nb ne h k = rw nb (
      rw (occurrences-of-none b':' host h)
        (rw (until-of-none (is_code b':') host h) (rw (from-of-none (is_code b':') host h) refl)))
  split-print-name [] (c ∷ cs) nb ne h k = absurd (ground arith)
  split-print-name (x ∷ xs) (c ∷ cs) nb ne h k = rw nb (
      rw (occurrences-append b':' (x ∷ xs) (b':' ∷ c ∷ cs)) (
        rw (occurrences-of-none b':' (x ∷ xs) h) (
          rw (colon_once (c ∷ cs) k) (
            rw (until-append (is_code b':') (x ∷ xs) b':' (c ∷ cs) h refl)
              (rw (from-append (is_code b':') (x ∷ xs) b':' (c ∷ cs) h refl) refl)))))

  ipv4_guard-lower :
      (h : Text)
      → (all is_ipv4_code h && not (is_ip h == 4)) ≡ false
      → (all is_ipv4_code (to_lower h) && not (is_ip (to_lower h) == 4)) ≡ false
  ipv4_guard-lower h g = elim (Bool-cases (all is_ipv4_code (to_lower h))) [
    | inl e ↦ rw (ipv4-lower h e) g
    | inr e ↦ rw e refl
  ]

  check_host-eq-ok :
      (host p : Text) (parts : HostAndPort)
      → check_host is_ip host p ≡ ok parts
      → (is_empty host ≡ false)
        × (all is_reg_name_code host ≡ true)
        × (pct_ok host ≡ true)
        × ((all is_ipv4_code host && not (is_ip host == 4)) ≡ false)
        × (parts.host ≡ host)
  unfolding check_host
  check_host-eq-ok host p parts h =
      (ground arith, ground arith, ground arith, ground arith, ground arith)

  literal_checked :
      (raw : Text) (parts : HostAndPort)
      → split_authority is_ip raw ≡ ok parts
      → starts_with b'[' raw ≡ true
      → check_literal is_ip (drop 1 (until (is_code b']') raw)) (drop 1 (from (is_code b']') raw))
        ≡ ok parts
  unfolding split_authority
  literal_checked raw parts h b = elim (Bool-cases (is_empty (from (is_code b']') raw))) [
    | inl e ↦ absurd (ground arith)
    | inr e ↦ rw b at (rw e at h)
  ]

  name_checked :
      (raw : Text) (parts : HostAndPort)
      → split_authority is_ip raw ≡ ok parts
      → starts_with b'[' raw ≡ false
      → check_host is_ip (until (is_code b':') raw) (drop 1 (from (is_code b':') raw)) ≡ ok parts
  unfolding split_authority
  name_checked raw parts h b = ground arith

  module _ (kept : (t : Text) → is_ip t ≡ 6 → is_ip (to_lower t) ≡ 6) where
    check_literal-lower :
        (inner rest port : Text) (parts : HostAndPort)
        → check_literal is_ip inner rest ≡ ok parts
        → (parts.host ≡ b'[' ∷ (inner ++ codes "]"))
          × (check_literal is_ip (to_lower inner) (colon_port port)
              ≡ ok (record { host = b'[' ∷ (to_lower inner ++ codes "]"); port = port }))
    unfolding check_literal colon_port
    check_literal-lower inner rest [] parts h = (
      ground arith,
      rw (ipvfuture-lower inner) (rw (is_empty-lower inner) (ground (arith, kept inner))),
    )
    check_literal-lower inner rest (c ∷ cs) parts h = (
      ground arith,
      rw (ipvfuture-lower inner) (rw (is_empty-lower inner) (ground (arith, kept inner))),
    )

    check_host-lower :
        (host p port : Text) (parts : HostAndPort)
        → check_host is_ip host p ≡ ok parts
        → (parts.host ≡ host)
          × (starts_with b'[' host ≡ false)
          × (is_empty host ≡ false)
          × (check_host is_ip (to_lower host) port
              ≡ ok (record { host = to_lower host; port = port }))
    unfolding check_host
    check_host-lower host p port parts h =
        let (ne, reg, pct, four, same) = check_host-eq-ok host p parts h in
        (
          same,
          reg_name-starts host reg,
          ne,
          rw (is_empty-lower host) (
              rw ne (
                rw (all-lower is_reg_name_code host reg_name-lower reg)
                  (rw (pct_ok-lower host) (rw pct (rw (ipv4_guard-lower host four) refl))))),
        )

    module _ (raw port : Text) (parts : HostAndPort) (h : split_authority is_ip raw ≡ ok parts)
        (at : has_code b'@' raw ≡ false) (digits : all is_digit port ≡ true) where
      abbrev Again : Type 0
      Again =
          (split_authority is_ip (print_authority (to_lower parts.host) port)
            ≡ ok (record { host = to_lower parts.host; port = port }))
          × (has_code b'@' parts.host ≡ false)
          × (is_empty parts.host ≡ false)

      literal-again : starts_with b'[' raw ≡ true → Again
      unfolding lower
      literal-again b =
          let inner : Text = drop 1 (until (is_code b']') raw) in
          let rest : Text = drop 1 (from (is_code b']') raw) in
          let checked : check_literal is_ip inner rest ≡ ok parts = literal_checked raw parts h b in
          let (same, again) = check_literal-lower inner rest port parts checked in
          rw same (
            rw (literal_lower inner) (
                split-print-literal (to_lower inner) port
                  (any-lower b']' inner refl (ground arith) ∙ literal_inner raw b)
                ∙ again),
            literal_at inner (
                any-drop_1 (is_code b'@') (until (is_code b']') raw)
                  (any-until_of-none (is_code b']') (is_code b'@') raw at)),
            refl,
          )

      name-again : starts_with b'[' raw ≡ false → Again
      unfolding lower
      name-again b =
          let host : Text = until (is_code b':') raw in
          let p : Text = drop 1 (from (is_code b':') raw) in
          let (same, nb, ne, again) =
            check_host-lower host p port parts (name_checked raw parts h b) in
          rw same (
            split-print-name (to_lower host) port (starts_with-lower host ∙ nb)
                  (is_empty-lower host ∙ ne)
                  (any-lower b':' host refl (ground arith) ∙ any-until (is_code b':') raw)
                  (any-of-none (is_code b':') is_digit port colon-digit digits)
                ∙ again,
            any-until_of-none (is_code b':') (is_code b'@') raw at,
            ne,
          )

      -- What was taken apart and put together with a lower-case host is taken apart the same way.
      split-again : Again
      split-again = elim (Bool-cases (starts_with b'[' raw)) [
        | inl b ↦ literal-again b
        | inr b ↦ name-again b
      ]

    printed-IsCanonical :
        (s : Scheme) (host port : Text)
        → is_empty host ≡ false
        → has_code b'@' host ≡ false
        → to_lower host ≡ host
        → all is_digit port ≡ true
        → split_authority is_ip (print_authority host port)
          ≡ ok (record { host = host; port = port })
        → normalize_port s port ≡ ok port
        → canonical_authority is_ip s (print_authority host port) ≡ ok (print_authority host port)
    unfolding canonical_authority
    printed-IsCanonical s host port ne at lo digits again twice =
        rw (print-IsFilled host port ne)
          (rw (print-at host port at digits) (rw again (rw twice (rw lo refl))))

    -- The canonical form is its own canonical form.
    pub canonical_authority-canonical_authority :
        (s : Scheme) (raw c : Text)
        → canonical_authority is_ip s raw ≡ ok c
        → canonical_authority is_ip s c ≡ ok c
    unfolding canonical_authority lower
    canonical_authority-canonical_authority s raw c h =
        let printed : HostAndPort → Text → Checked Text =
          λ parts port. ok (print_authority (to_lower parts.host) port) in
        let ported : HostAndPort → Checked Text =
          λ parts. normalize_port s parts.port >>= printed parts in
        let split : Checked Text = split_authority is_ip raw >>= ported in
        let (ne, h1) =
          throw_if->>-eq-ok (is_empty raw) empty_authority
            (throw_if (has_code b'@' raw) credentials_in_authority >> split) h in
        let (at, h2) = throw_if->>-eq-ok (has_code b'@' raw) credentials_in_authority split h1 in
        let (parts, sp, h3) = >>=-eq-ok (split_authority is_ip raw) ported h2 in
        let (port, np, h4) = >>=-eq-ok (normalize_port s parts.port) (printed parts) h3 in
        let e : print_authority (to_lower parts.host) port ≡ c = ground arith in
        let (twice, digits) = normalize_port-twice s parts.port port np in
        let (again, at', ne') = split-again raw port parts sp at digits in
        subst (λ x. canonical_authority is_ip s x ≡ ok x) e
          (printed-IsCanonical s (to_lower parts.host) port (is_empty-lower parts.host ∙ ne')
            (any-lower b'@' parts.host refl (ground arith) ∙ at') (to_lower_twice parts.host) digits
            again twice)
