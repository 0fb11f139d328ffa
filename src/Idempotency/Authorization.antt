-- ===== src/Idempotency/Authorization.antt =====
-- src/flow/server.ts: `PresentedAuthorization`, `presentedAuthorization` and `sameAuthorization`.
use x402_base_evidence.Common.{
  ◌≡◌, ◌↔◌, Bool, true, ◌&&◌, Option, none, some, [], ◌∷◌, arith, Text, codes, eq_text, eq_text_iff,
}
use x402_base_evidence.Json.{Json, member, as_object, as_string}

pub record PresentedAuthorization : Type 0 where
  pub from : Text
  pub to : Text
  pub value : Text
  pub valid_after : Text
  pub valid_before : Text
  pub nonce : Text
  pub signature : Text

infixl 5 ◌>>=◌
abbrev ◌>>=◌ : {A B : Type 0} → Option A → (A → Option B) → Option B
none >>= k = none
some a >>= k = k a

non_empty : Text → Option Text
non_empty [] = none
non_empty (c ∷ cs) = some (c ∷ cs)

-- `String.prototype.toLowerCase` is the language's, over all of Unicode: a parameter.
module _ (to_lower_case : Text → Text) where
  unfoldable pub presented_authorization : Json → Option PresentedAuthorization
  unfolding non_empty
  presented_authorization payload = do
    whole ← as_object (some payload)
    container ← as_object (member (codes "payload") whole)
    auth ← as_object (member (codes "authorization") container)
    from ← as_string (member (codes "from") auth)
    to ← as_string (member (codes "to") auth)
    value ← as_string (member (codes "value") auth)
    valid_after ← as_string (member (codes "validAfter") auth)
    valid_before ← as_string (member (codes "validBefore") auth)
    nonce ← as_string (member (codes "nonce") auth)
    presented ← as_string (member (codes "signature") container)
    signature ← non_empty presented
    some (record {
      from = to_lower_case from;
      to = to_lower_case to;
      value = value;
      valid_after = valid_after;
      valid_before = valid_before;
      nonce = to_lower_case nonce;
      signature = to_lower_case signature;
    })

unfoldable pub same_authorization : PresentedAuthorization → PresentedAuthorization → Bool
same_authorization a b =
    eq_text a.from b.from
    && eq_text a.to b.to
    && eq_text a.value b.value
    && eq_text a.valid_after b.valid_after
    && eq_text a.valid_before b.valid_before
    && eq_text a.nonce b.nonce
    && eq_text a.signature b.signature

-- The test names the same authorization, member by member.
pub same_authorization_iff :
    (a b : PresentedAuthorization) → (same_authorization a b ≡ true) ↔ (a ≡ b)
unfolding same_authorization
same_authorization_iff a b = ground (
  arith,
  eq_text_iff a.from b.from,
  eq_text_iff a.to b.to,
  eq_text_iff a.value b.value,
  eq_text_iff a.valid_after b.valid_after,
  eq_text_iff a.valid_before b.valid_before,
  eq_text_iff a.nonce b.nonce,
  eq_text_iff a.signature b.signature,
)
