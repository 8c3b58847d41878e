-- ===== src/Client/Calls/Build.antt =====
-- What the endpoint methods share: the request they make, and query strings.
use Prim.Native.String
use billgen.Prelude.{
  ℕ, String, true, false, List, [], ◌∷◌, Option, none, some, ◌===◌, ◌==◌, if◌then◌else◌,
}
use billgen.Json.{Json, text, end, obj, field}
use billgen.Client.Request.{Call}

infixr 60 ◌&◌
-- A template literal, piece by piece.
abbrev pub ◌&◌ : String → String → String
s & t = String.◌++◌ s t

abbrev pub call : String → String → Option Json → Call
call method path body = record {
  method = method;
  path = path;
  body = body;
  auth = true;
  blob = false;
}

abbrev pub get : String → Call
get path = call "GET" path none

abbrev pub get_blob : String → Call
get_blob path = record { method = "GET"; path = path; body = none; auth = true; blob = true }

abbrev pub post : String → Json → Call
post path body = call "POST" path (some body)

abbrev pub patch : String → Json → Call
patch path body = call "PATCH" path (some body)

abbrev pub empty : Json
empty = obj end

abbrev pub single : String → String → Json
single key value = obj (field key (text value) end)

-- The platform's `URLSearchParams.toString` on the pairs that were set, in order, and `String` of a
-- number.
pub record Platform : Type 0 where
  pub encode : List (String × String) → String
  pub decimal : ℕ → String

-- `if (value) search.set(key, value)`: an absent value and "" set nothing.
abbrev pub set_if : String → Option String → List (String × String)
set_if key none = []
set_if key (some v) = if v === "" then [] else (key, v) ∷ []

-- The same for a number, where 0 sets nothing, and `if (value !== undefined)`, where it does.
module _ (platform : Platform) where
  abbrev pub set_if_positive : String → Option ℕ → List (String × String)
  set_if_positive key none = []
  set_if_positive key (some n) = if n == 0 then [] else (key, platform.decimal n) ∷ []

  abbrev pub set_if_given : String → Option ℕ → List (String × String)
  set_if_given key none = []
  set_if_given key (some n) = (key, platform.decimal n) ∷ []

  -- `search.size > 0 ? `?${search}` : ""`.
  abbrev pub query : List (String × String) → String
  query [] = ""
  query (p ∷ ps) = "?" & platform.encode (p ∷ ps)

  -- `query ? `?${query}` : ""`, on the encoded text.
  abbrev pub text_query : List (String × String) → String
  text_query ps = let encoded = platform.encode ps in if encoded === "" then "" else "?" & encoded

-- `value ? `${prefix}${value}` : ""`: a value that is spliced in as it is.
abbrev pub splice_if : String → Option String → String
splice_if prefix none = ""
splice_if prefix (some v) = if v === "" then "" else prefix & v
