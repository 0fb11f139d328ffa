-- ===== src/Binding/Document.antt =====
-- The binding document of a request and its selected headers (src/binding.ts).
use mathlib.Core.List.{Permᴰ}
use mathlib.Core.List.Permᴰ
use x402_base_evidence.Binding.Headers.{
  SelectedHeader, headers_no_array, invalid_content_type, invalid_content_encoding,
  too_many_headers, max_selected_headers, admit_header, admit_headers, check_duplicates,
  duplicate_of, sort_by_name, duplicate_sensitive, duplicate_field, body_too_long,
}
use x402_base_evidence.Binding.Order.{
  named, named-Perm, IsDistinct, sort_by_name-Perm, check_duplicates-IsDistinct_iff,
  check_duplicates-err,
}
use x402_base_evidence.Binding.Sorted.{IsAscending, sort_by_name-perm, sort_by_name-IsAscending}
use x402_base_evidence.Binding.{
  RequestInput, RequestBinding, Body, bytes, other, max_body_bytes, check_body, assert_components,
  assert_content_meta, content_meta, build_request_binding,
}
use x402_base_evidence.Common.{
  ℕ, suc, ◌≤◌, ◌≡◌, refl, sym, ap, ◌∙◌, arith, false, Option, some, List, ◌∷◌, ltb, length, Text,
  subst, inl, inr, ◌⊎◌, eq_text_iff, codes,
}
use x402_base_evidence.Common.Except.{
  ok, err, ◌>>=◌, ◌>>◌, >>=-eq-ok, throw_if->>-eq-ok, some_or->>=-eq-ok, ok-injective, Except-cases,
}
use x402_base_evidence.Digest.{digest_bytes}
use x402_base_evidence.Json.{Json, as_array}

length-Perm : {A : Type 0} {xs ys : List A} → Permᴰ xs ys → length xs ≡ length ys
length-Perm Permᴰ.nil = refl
length-Perm (Permᴰ.cons e p) = ap suc (length-Perm p)
length-Perm (Permᴰ.swap e f) = refl
length-Perm (Permᴰ.trans p q) = length-Perm p ∙ length-Perm q

admit_headers-cons :
    (v : Json) (vs : List Json) (hs : List SelectedHeader)
    → admit_headers (v ∷ vs) ≡ ok hs
    → (h : SelectedHeader) × (ks : List SelectedHeader) × (admit_header v ≡ ok h)
      × (admit_headers vs ≡ ok ks)
      × (h ∷ ks ≡ hs)
unfolding admit_headers
admit_headers-cons v vs hs e =
    let (h, e1, k1) = >>=-eq-ok (admit_header v) _ e in
    let (ks, e2, k2) = >>=-eq-ok (admit_headers vs) _ k1 in (h, ks, e1, e2, ok-injective k2)

admit_headers-of-cons :
    (v : Json) (vs : List Json) (h : SelectedHeader) (ks : List SelectedHeader)
    → admit_header v ≡ ok h
    → admit_headers vs ≡ ok ks
    → admit_headers (v ∷ vs) ≡ ok (h ∷ ks)
unfolding admit_headers
admit_headers-of-cons v vs h ks e f = rw e (rw f refl)

some-injective : {A : Type 0} {a b : A} → some a ≡ some b → a ≡ b
some-injective h = ground arith

ltb-false-le : (n : ℕ) → ltb max_selected_headers n ≡ false → n ≤ max_selected_headers
ltb-false-le n h = ground arith

check_body-eq-ok :
    (body : Body) (b : List ℕ) → check_body body ≡ ok b → (body ≡ bytes b) × (length b ≤ 8388608)
unfolding check_body
check_body-eq-ok (bytes c) b h =
    let (small, same) = throw_if->>-eq-ok (ltb max_body_bytes (length c)) body_too_long (ok c) h in
    let made : c ≡ b = ok-injective same in (ap bytes made, rw (sym made) (ground arith))
check_body-eq-ok other b h = absurd (ground arith)

-- The header names that are never combined.
abbrev pub IsSensitive : Text → Type 0
IsSensitive m =
    (m ≡ codes "payment-required")
    ⊎ ((m ≡ codes "payment-signature")
        ⊎ ((m ≡ codes "payment-response") ⊎ (m ≡ codes "payment-identifier")))

duplicate_of-cases :
    (m : Text)
    → (IsSensitive m × (duplicate_of m ≡ duplicate_sensitive m))
      ⊎ ((¬ IsSensitive m) × (duplicate_of m ≡ duplicate_field m))
unfolding duplicate_of
duplicate_of-cases m = ground (
  arith,
  eq_text_iff (codes "payment-required") m,
  eq_text_iff (codes "payment-signature") m,
  eq_text_iff (codes "payment-response") m,
  eq_text_iff (codes "payment-identifier") m,
)

-- Headers in another order are admitted as the same headers in that order.
admit_headers-Perm :
    {vs ws : List Json} (hs : List SelectedHeader)
    → Permᴰ vs ws
    → admit_headers vs ≡ ok hs
    → (ks : List SelectedHeader) × (admit_headers ws ≡ ok ks) × Permᴰ hs ks
admit_headers-Perm hs Permᴰ.nil e = (hs, e, Permᴰ.refl hs)
admit_headers-Perm hs (Permᴰ.cons {a} {b} {l₁} {l₂} same p) e =
    let (h, ks, e1, e2, joined) = admit_headers-cons a l₁ hs e in
    let (ks', e3, q) = admit_headers-Perm ks p e2 in
    (
      h ∷ ks',
      admit_headers-of-cons b l₂ h ks' (ap admit_header (sym same) ∙ e1) e3,
      subst (λ x. Permᴰ x (h ∷ ks')) joined (Permᴰ.cons refl q),
    )
admit_headers-Perm hs (Permᴰ.swap {a} {b} {a'} {b'} {l} same same') e =
    let (h, ks, e1, e2, joined) = admit_headers-cons a (b ∷ l) hs e in
    let (k, ls, e3, e4, joined') = admit_headers-cons b l ks e2 in
    (
      k ∷ h ∷ ls,
      admit_headers-of-cons a' (b' ∷ l) k (h ∷ ls) (ap admit_header (sym same') ∙ e3)
          (admit_headers-of-cons b' l h ls (ap admit_header (sym same) ∙ e1) e4),
      subst (λ x. Permᴰ x (k ∷ h ∷ ls)) joined
          (subst (λ x. Permᴰ (h ∷ x) (k ∷ h ∷ ls)) joined' (Permᴰ.swap refl refl)),
    )
admit_headers-Perm hs (Permᴰ.trans p q) e =
    let (ks, e1, p') = admit_headers-Perm hs p e in
    let (ls, e2, q') = admit_headers-Perm ks q e1 in (ls, e2, Permᴰ.trans p' q')

abbrev document : (List ℕ → Text) → RequestInput → List SelectedHeader → List ℕ → RequestBinding
document sha256_hex i headers b = record {
  components = i.components;
  content_type = content_meta i.content_type;
  content_encoding = content_meta i.content_encoding;
  body_digest = digest_bytes sha256_hex b;
  selected_headers = sort_by_name headers;
}

module _ (is_ip : Text → ℕ) (sha256_hex : List ℕ → Text) where
  -- The steps of a build, and what each gave.
  pub record Steps (i : RequestInput) (raw : List Json) (headers : List SelectedHeader)
      : Type 0 where
    pub components : assert_components is_ip i.components ≡ ok tt
    pub content_type : assert_content_meta i.content_type invalid_content_type ≡ ok tt
    pub content_encoding : assert_content_meta i.content_encoding invalid_content_encoding ≡ ok tt
    pub selected : as_array i.selected_headers ≡ some raw
    pub admitted : admit_headers raw ≡ ok headers
    pub few : ltb max_selected_headers (length raw) ≡ false

  build-of-Steps :
      (i : RequestInput) (raw : List Json) (headers : List SelectedHeader)
      → Steps i raw headers
      → build_request_binding is_ip sha256_hex i ≡ (
          check_duplicates headers
          >> (check_body i.body >>= λ b. ok (document sha256_hex i headers b)))
  unfolding build_request_binding
  build-of-Steps i raw headers s =
      rw s.components
        (rw s.content_type (rw s.content_encoding (rw s.selected (rw s.admitted (rw s.few refl)))))

  build-Steps :
      (i : RequestInput) (d : RequestBinding)
      → build_request_binding is_ip sha256_hex i ≡ ok d
      → (raw : List Json) × (headers : List SelectedHeader) × (b : List ℕ) × Steps i raw headers
        × (check_duplicates headers ≡ ok tt)
        × (check_body i.body ≡ ok b)
        × (document sha256_hex i headers b ≡ d)
  unfolding build_request_binding
  build-Steps i d h =
      let (u, e1, h1) = >>=-eq-ok (assert_components is_ip i.components) _ h in
      let (u2, e2, h2) = >>=-eq-ok (assert_content_meta i.content_type invalid_content_type) _ h1 in
      let (u3, e3, h3) =
        >>=-eq-ok (assert_content_meta i.content_encoding invalid_content_encoding) _ h2 in
      let (raw, e4, h4) = some_or->>=-eq-ok (as_array i.selected_headers) headers_no_array _ h3 in
      let (headers, e5, h5) = >>=-eq-ok (admit_headers raw) _ h4 in
      let (few, h6) =
        throw_if->>-eq-ok (ltb max_selected_headers (length raw)) too_many_headers _ h5 in
      let (u4, e6, h7) = >>=-eq-ok (check_duplicates headers) _ h6 in
      let (b, e7, h8) = >>=-eq-ok (check_body i.body) _ h7 in
      (
        raw,
        headers,
        b,
        record {
          components = e1;
          content_type = e2;
          content_encoding = e3;
          selected = e4;
          admitted = e5;
          few = few;
        },
        e6,
        e7,
        ok-injective h8,
      )

  -- The document does not depend on the order in which the caller lists the headers: with any other
  -- order the build gives the same document.
  pub build_request_binding-order_free :
      (i : RequestInput) (d : RequestBinding) (raw others : List Json) (v : Option Json)
      → build_request_binding is_ip sha256_hex i ≡ ok d
      → as_array i.selected_headers ≡ some raw
      → as_array v ≡ some others
      → Permᴰ raw others
      → build_request_binding is_ip sha256_hex (record i { selected_headers = v }) ≡ ok d
  build_request_binding-order_free i d raw others v h r w p =
      let (raw', headers, b, s, unique, body, made) = build-Steps i d h in
      let same : raw' ≡ raw = some-injective (sym s.selected ∙ r) in
      let (ks, admitted, q) =
        admit_headers-Perm headers p (ap admit_headers (sym same) ∙ s.admitted) in
      let distinct : IsDistinct headers = (check_duplicates-IsDistinct_iff headers).0 unique in
      let distinct' : IsDistinct ks = λ n. subst (λ c. c ≤ 1) (named-Perm n q) (distinct n) in
      let steps : Steps (record i { selected_headers = v }) others ks = record {
        components = s.components;
        content_type = s.content_type;
        content_encoding = s.content_encoding;
        selected = w;
        admitted = admitted;
        few =
            subst (λ n. ltb max_selected_headers n ≡ false) (ap length same ∙ length-Perm p) s.few;
      } in
      build-of-Steps (record i { selected_headers = v }) others ks steps
      ∙ rw ((check_duplicates-IsDistinct_iff ks).1 distinct')
          (rw body (rw (sym (sort_by_name-Perm q distinct)) (ap ok made)))

  -- A document has the headers that were admitted, each of them once, at most 32, in strictly
  -- ascending order of their names by code units, and the digest of a body of at most 8 MiB.
  pub build_request_binding-IsAscending :
      (i : RequestInput) (d : RequestBinding)
      → build_request_binding is_ip sha256_hex i ≡ ok d
      → (raw : List Json) × (headers : List SelectedHeader) × (b : List ℕ) × (as_array
            i.selected_headers
          ≡ some raw)
        × (admit_headers raw ≡ ok headers)
        × Permᴰ headers d.selected_headers
        × IsAscending d.selected_headers
        × (length raw ≤ 32)
        × (i.body ≡ bytes b)
        × (length b ≤ 8388608)
        × (d.body_digest ≡ digest_bytes sha256_hex b)
  build_request_binding-IsAscending i d h =
      let (raw, headers, b, s, unique, body, made) = build-Steps i d h in
      let listed = ap (λ (x : RequestBinding). x.selected_headers) made in
      (
        raw,
        headers,
        b,
        s.selected,
        s.admitted,
        subst (λ l. Permᴰ headers l) listed (sort_by_name-perm headers),
        subst IsAscending listed
            (sort_by_name-IsAscending headers ((check_duplicates-IsDistinct_iff headers).0 unique)),
        ltb-false-le (length raw) s.few,
        (check_body-eq-ok i.body b body).0,
        (check_body-eq-ok i.body b body).1,
        ap (λ (x : RequestBinding). x.body_digest) (sym made),
      )

  -- With valid components, content metadata and at most 32 valid headers of which two have one name,
  -- the build fails, and the error names such a name: as security-sensitive if it is
  -- `payment-required`, `payment-signature`, `payment-response` or `payment-identifier`, and as a
  -- plain duplicate field if it is none of these.
  pub build_request_binding-duplicate :
      (i : RequestInput) (raw : List Json) (headers : List SelectedHeader) (n : Text)
      → Steps i raw headers
      → 2 ≤ named n headers
      → (m : Text) × (2 ≤ named m headers)
        × ((IsSensitive m
              × (build_request_binding is_ip sha256_hex i ≡ err (duplicate_sensitive m)))
            ⊎ ((¬ IsSensitive m)
                × (build_request_binding is_ip sha256_hex i ≡ err (duplicate_field m))))
  build_request_binding-duplicate i raw headers n s two =
      elim (Except-cases (check_duplicates headers)) [
        | inl (u, fine) ↦ absurd (omega (arith, (check_duplicates-IsDistinct_iff headers).0 fine n))
        | inr (e, refused) ↦
            let (m, is_dup, twice) = check_duplicates-err headers e refused in
            let failed : build_request_binding is_ip sha256_hex i ≡ err (duplicate_of m) =
              build-of-Steps i raw headers s ∙ rw refused (rw is_dup refl) in
            elim (duplicate_of-cases m) [
              | inl (is, named_so) ↦ (m, twice, inl (is, failed ∙ ap err named_so))
              | inr (plain, named_so) ↦ (m, twice, inr (plain, failed ∙ ap err named_so))
            ]
      ]
