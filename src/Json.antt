-- ===== src/Json.antt =====
-- The values that `JSON.parse` makes, as the sources read them: `typeof`, `Array.isArray`, members.
use x402_base_evidence.Common.{
  ℕ, Bool, true, false, Option, none, some, List, [], ◌∷◌, if◌then◌else◌, Text, eq_text,
}

-- An integer, of a JavaScript number: `negsuc n` is -(n + 1).
pub data ℤ : Type 0 where
  pos : ℕ → ℤ
  negsuc : ℕ → ℤ

-- `fraction` is a number that is no integer; which one is never looked at.
mutual
  pub data Json : Type 0 where
    null : Json
    boolean : Bool → Json
    integer : ℤ → Json
    fraction : ℕ → Json
    string : Text → Json
    array : Items → Json
    object : Fields → Json

  pub data Items : Type 0 where
    nil : Items
    cons : Json → Items → Items

  pub data Fields : Type 0 where
    end : Fields
    field : Text → Json → Fields → Fields

abbrev items : Items → List Json
items nil = []
items (cons v vs) = v ∷ items vs

-- `record[key]`, where `none` is `undefined`. A parsed object names no member twice.
unfoldable pub member : Text → Fields → Option Json
member key end = none
member key (field k v fs) = if eq_text k key then some v else member key fs

-- `typeof v === 'object' && v !== null && !Array.isArray(v)`
unfoldable pub as_object : Option Json → Option Fields
as_object (some (object fs)) = some fs
as_object _ = none

-- `typeof v === 'object' && v !== null`, with the members that can be read; an array has none of the
-- names that the sources ask for.
unfoldable pub object_like : Option Json → Option Fields
object_like (some (object fs)) = some fs
object_like (some (array vs)) = some end
object_like _ = none

-- `Array.isArray(v)`
unfoldable pub as_array : Option Json → Option (List Json)
as_array (some (array vs)) = some (items vs)
as_array _ = none

-- `typeof v === 'string'`
unfoldable pub as_string : Option Json → Option Text
as_string (some (string s)) = some s
as_string _ = none

-- `v === null || v === undefined`
unfoldable pub is_nullish : Option Json → Bool
is_nullish none = true
is_nullish (some null) = true
is_nullish _ = false
