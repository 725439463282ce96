-- ===== src/Json.antt =====
-- JSON values, as `JSON.parse` gives them to the readers that take `unknown`: the code tests what a
-- value is before it uses it.
use qare.Prelude.{ℕ, String, Bool, false, Option, none, some, List, [], ◌∷◌, ◌==◌, if◌then◌else◌}

mutual
  pub data Json : Type 0 where
    null : Json
    bool : Bool → Json
    -- a whole number at least 0
    num : ℕ → Json
    -- any other number, by its text
    other_num : String → Json
    text : String → Json
    arr : Items → Json
    obj : Fields → Json

  pub data Items : Type 0 where
    nil : Items
    cons : Json → Items → Items

  pub data Fields : Type 0 where
    end : Fields
    field : String → Json → Fields → Fields

abbrev pub items : Items → List Json
items nil = []
items (cons j js) = j ∷ items js

-- `Object.keys(value)`.
abbrev pub keys : Fields → List String
keys end = []
keys (field k v fs) = k ∷ keys fs

-- `value[k]` of an object, `none` for `undefined`.
abbrev pub get : String → Fields → Option Json
get k end = none
get k (field j v fs) = if j == k then some v else get k fs

-- `typeof value === 'string'`, with the string.
abbrev pub as_text : Option Json → Option String
as_text (some (text s)) = some s
as_text _ = none

-- `Array.isArray(value)`, with the elements.
abbrev pub as_array : Option Json → Option (List Json)
as_array (some (arr js)) = some (items js)
as_array _ = none

-- `isRecord(value)`, with the properties.
abbrev pub as_record : Json → Option Fields
as_record (obj fs) = some fs
as_record _ = none

-- `value === s`.
abbrev pub is_text : String → Option Json → Bool
is_text s (some (text t)) = t == s
is_text s _ = false
