-- ===== src/StrictJson/Admission.antt =====
-- The strict admission of bytes as a JSON document (src/strict-json.ts). The fatal UTF-8 decoder and
-- `JSON.parse` of the platform are parameters.
use x402_base_evidence.Common.{
  ℕ, Option, none, some, List, Text, ◌≡◌, ◌↔◌, inl, inr, arith, Option-cases,
}
use x402_base_evidence.Json.{Json}
use x402_base_evidence.StrictJson.Scanner.{Code, accepted, rejected, scan_for_duplicate_members}

-- `StrictJsonRefusal`
pub data Refusal : Type 0 where
  invalid_utf8 : Refusal
  not_json : Refusal
  scan : Code → Refusal

pub data StrictJsonRead : Type 0 where
  parsed : Json → StrictJsonRead
  refused_as : Refusal → StrictJsonRead

unfoldable or_not_json : Option Json → StrictJsonRead
or_not_json none = refused_as not_json
or_not_json (some v) = parsed v

module _ (decode_utf8 : List ℕ → Option Text) (json_parse : Text → Option Json) where
  -- `parseStrictJson`
  unfoldable parse_strict_json : List ℕ → StrictJsonRead
  unfolding or_not_json scan_for_duplicate_members
  parse_strict_json bytes = elim (decode_utf8 bytes) [
    | none ↦ refused_as invalid_utf8
    | some text ↦ elim (scan_for_duplicate_members text) [
      | accepted ↦ or_not_json (json_parse text)
      | rejected code _ ↦ refused_as (scan code)
    ]
  ]

or_not_json-eq-parsed_iff : (o : Option Json) (v : Json) → (or_not_json o ≡ parsed v) ↔ (o ≡ some v)
unfolding or_not_json
or_not_json-eq-parsed_iff none v = ground arith
or_not_json-eq-parsed_iff (some w) v = ground arith

-- Bytes are admitted as a value exactly if they decode to a text that the scanner accepts and of
-- which `JSON.parse` makes that value.
parse_strict_json-eq-parsed_iff :
    (decode_utf8 : List ℕ → Option Text) (json_parse : Text → Option Json) (bytes : List ℕ)
    (v : Json)
    → (parse_strict_json decode_utf8 json_parse bytes ≡ parsed v) ↔ (
        (text : Text) × (decode_utf8 bytes ≡ some text)
        × (scan_for_duplicate_members text ≡ accepted)
        × (json_parse text ≡ some v))
unfolding parse_strict_json
parse_strict_json-eq-parsed_iff decode_utf8 json_parse bytes v = (
  λ h. elim (Option-cases (decode_utf8 bytes)) [
    | inl e ↦ absurd (ground arith)
    | inr (text, e) ↦
        (text, e, ground arith, ground (arith, or_not_json-eq-parsed_iff (json_parse text) v))
  ],
  λ (text, e, s, p). ground (arith, or_not_json-eq-parsed_iff (json_parse text) v),
)
