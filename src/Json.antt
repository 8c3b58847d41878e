-- ===== src/Json.antt =====
-- JSON values, as `response.json()` of frontend-react/src/lib/apiClient.ts returns them. The parser
-- is the platform's: an object's keys are distinct, and a number's literal is kept as text.
use billgen.Prelude.{
  String, Bool, true, false, not, List, [], ◌∷◌, Option, none, some, ◌===◌, if◌then◌else◌,
}

mutual
  pub data Json : Type 0 where
    null : Json
    bool : Bool → Json
    -- the number 0, the one number that is falsy
    nought : Json
    number : String → Json
    text : String → Json
    arr : Elements → Json
    obj : Fields → Json

  pub data Elements : Type 0 where
    nil : Elements
    cons : Json → Elements → Elements

  pub data Fields : Type 0 where
    end : Fields
    field : String → Json → Fields → Fields

abbrev pub elements : Elements → List Json
elements nil = []
elements (cons v vs) = v ∷ elements vs

abbrev pub get_field : String → Fields → Option Json
get_field k end = none
get_field k (field j v fs) = if j === k then some v else get_field k fs

-- `v.k` of a value that is not null; `none` is `undefined`.
abbrev pub property : String → Json → Option Json
property k (obj fs) = get_field k fs
property k v = none

-- How a value behaves as a condition.
abbrev pub truthy : Json → Bool
truthy null = false
truthy (bool b) = b
truthy nought = false
truthy (number n) = true
truthy (text s) = not (s === "")
truthy (arr vs) = true
truthy (obj fs) = true

-- `typeof v === "string"`, with the string.
abbrev pub as_text : Option Json → Option String
as_text (some (text s)) = some s
as_text _ = none

abbrev pub is_text : Option Json → Bool
is_text (some (text s)) = true
is_text _ = false

-- `undefined` where a value is stored: it is falsy, as null is.
abbrev pub or_null : Option Json → Json
or_null none = null
or_null (some v) = v

abbrev pub text_or_null : Option String → Json
text_or_null none = null
text_or_null (some s) = text s
