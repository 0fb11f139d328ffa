-- ===== src/Digest/Form.antt =====
-- The form of digests (src/digest.ts).
use x402_base_evidence.Common.{
  ◌≡◌, ◌↔◌, ◌⊎◌, true, false, none, some, List, arith, ℕ, Text, codes, ◌++◌, eq_text, [], ◌∷◌,
}
use x402_base_evidence.Digest.{
  is_sha256_digest, as_sha256_digest, coerce_digest, digest_bytes, hex64, is_lower_hex,
}

prefixed-IsDigest : (h : Text) → hex64 h ≡ true → is_sha256_digest (codes "sha256:" ++ h) ≡ true
unfolding is_sha256_digest eq_text
prefixed-IsDigest h e = e

hex64-IsBare : (v : Text) → hex64 v ≡ true → is_sha256_digest v ≡ false
unfolding hex64 is_sha256_digest is_lower_hex eq_text
hex64-IsBare [] e = absurd (ground arith)
hex64-IsBare (c ∷ cs) e = ground arith

-- Coercion gives a digest, and exactly for the two forms: a digest is kept as it is, and 64 bare
-- digits are prefixed.
coerce_digest-eq-some_iff :
    (v d : Text)
    → (coerce_digest v ≡ some d)
      ↔ ((is_sha256_digest d ≡ true) × ((v ≡ d) ⊎ ((hex64 v ≡ true) × (d ≡ codes "sha256:" ++ v))))
unfolding coerce_digest
coerce_digest-eq-some_iff v d = ground (arith, prefixed-IsDigest v, hex64-IsBare v)

-- What coercion gives for a hash is the digest of the bytes, whether the helper prefixed it or not,
-- and reading it back as an external digest keeps it.
pub coerce_digest-digest_bytes :
    (sha256_hex : List ℕ → Text) (bytes : List ℕ)
    → hex64 (sha256_hex bytes) ≡ true
    → ((coerce_digest (digest_bytes sha256_hex bytes) ≡ some (digest_bytes sha256_hex bytes))
        × (coerce_digest (sha256_hex bytes) ≡ some (digest_bytes sha256_hex bytes))
        × (as_sha256_digest (digest_bytes sha256_hex bytes) ≡ some (digest_bytes sha256_hex bytes))
        × (as_sha256_digest (sha256_hex bytes) ≡ none))
unfolding coerce_digest digest_bytes as_sha256_digest
coerce_digest-digest_bytes sha256_hex bytes h =
    ground (arith, prefixed-IsDigest (sha256_hex bytes) h, hex64-IsBare (sha256_hex bytes) h)
