-- ===== src/Digest.antt =====
-- src/digest.ts: the one representation of a digest. The hash function is a parameter.
pub mod Form
use x402_base_evidence.Common.{
  ℕ, Bool, true, false, not, ◌&&◌, ◌||◌, Option, none, some, List, [], ◌∷◌, ◌++◌, ◌==◌,
  if◌then◌else◌, length, all, take, drop, Text, codes, eq_text, within,
}

-- `[0-9a-f]`
unfoldable pub is_lower_hex : ℕ → Bool
is_lower_hex c = within b'0' b'9' c || within b'a' b'f' c

-- `HEX64`
unfoldable pub hex64 : Text → Bool
unfolding is_lower_hex
hex64 t = length t == 64 && all is_lower_hex t

-- `isSha256Digest` of a string.
unfoldable pub is_sha256_digest : Text → Bool
unfolding hex64
is_sha256_digest v = eq_text (take 7 v) (codes "sha256:") && hex64 (drop 7 v)

-- `asSha256Digest`; `none` is the throw.
unfoldable pub as_sha256_digest : Text → Option Text
as_sha256_digest v = if not (is_sha256_digest v) then none else some v

-- `coerceDigest`
unfoldable pub coerce_digest : Text → Option Text
coerce_digest v =
    if is_sha256_digest v then some v else (if hex64 v then some (codes "sha256:" ++ v) else none)

-- `digestBytes`, with the hex digits that the platform's SHA-256 gives.
unfoldable pub digest_bytes : (List ℕ → Text) → List ℕ → Text
digest_bytes sha256_hex bytes = codes "sha256:" ++ sha256_hex bytes
