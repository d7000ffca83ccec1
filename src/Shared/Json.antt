-- ===== src/Shared/Json.antt =====
-- Values of type `unknown` that the program takes apart: what `JSON.parse` returns. A number is an
-- integer (`Base.Int`). `none` stands for `undefined`, which no parsed value holds.
use ahp_inspector.Base.{
  String, Bool, true, false, Option, none, some, List, [], ◌∷◌, str_eq, if◌then◌else◌, is_some,
}
use ahp_inspector.Base.Int.{ℤ}

mutual
  pub data Json : Type 0 where
    null : Json
    bool : Bool → Json
    num : ℤ → Json
    str : String → Json
    arr : Items → Json
    obj : Fields → Json

  pub data Items : Type 0 where
    nil : Items
    cons : Json → Items → Items

  pub data Fields : Type 0 where
    end : Fields
    field : String → Json → Fields → Fields

abbrev pub items : Items → List Json
items nil = []
items (cons x xs) = x ∷ items xs

-- an own property of the object, `none` where it has none
unfoldable pub field_of : Fields → String → Option Json
field_of end key = none
field_of (field k v fs) key = if str_eq k key then some v else field_of fs key

-- `value[key]`, for a value that is no primitive. An array has none of the keys asked for.
unfoldable pub get : Json → String → Option Json
unfolding field_of
get (obj fs) key = field_of fs key
get _ key = none

-- `key in value`
abbrev pub has : Json → String → Bool
has v key = is_some (get v key)

-- `typeof value === "object" && value !== null`: an array passes
unfoldable pub is_object : Option Json → Bool
is_object (some (obj fs)) = true
is_object (some (arr xs)) = true
is_object _ = false

-- the same with `!Array.isArray(value)`: `asRecord`
unfoldable pub as_record : Option Json → Option Json
as_record (some (obj fs)) = some (obj fs)
as_record _ = none

-- `typeof value === "string" ? value : null`
unfoldable pub as_string : Option Json → Option String
as_string (some (str s)) = some s
as_string _ = none

-- `typeof value === "number" ? value : null`
unfoldable pub as_number : Option Json → Option ℤ
as_number (some (num n)) = some n
as_number _ = none

-- `Array.isArray(value)`
unfoldable pub as_array : Option Json → Option (List Json)
as_array (some (arr xs)) = some (items xs)
as_array _ = none

-- a text that is there and not empty: what `if (text)` lets through
unfoldable pub truthy : Option String → Option String
truthy none = none
truthy (some String.[]) = none
truthy (some (String.◌∷◌ c s)) = some (String.◌∷◌ c s)
