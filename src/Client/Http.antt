-- ===== src/Client/Http.antt =====
-- What the client of frontend-react/src/lib/apiClient.ts exchanges with the platform, the error that
-- it throws, and the effects of a method: it reads and writes the token store, sends requests, and
-- returns or throws.
use billgen.Prelude.{ℕ, String, Bool, List, Option, ◌+◌}
use billgen.Json.{Json, null}

pub data Body : Type 0 where
  no_body : Body
  json_body : Json → Body
  -- raw bytes: an archive that the user picked
  bytes_body : String → Body

-- `authorization` is the value v of a header `Authorization: Bearer ${v}`.
pub record HttpRequest : Type 0 where
  pub method : String
  pub url : String
  pub headers : List (String × String)
  pub authorization : Option Json
  pub body : Body

-- `ok` is the platform's verdict on the status. `json` and `blob` are none
-- where `response.json()` and `response.blob()` reject.
pub record Response : Type 0 where
  pub status : ℕ
  pub ok : Bool
  pub status_text : String
  pub json : Option Json
  pub blob : Option String

-- What a call of `fetch` settles to.
pub data Fetched : Type 0 where
  response : Response → Fetched
  rejected : Fetched

-- `errors` and `entitlement` keep the values of the body as they came.
pub record ApiError : Type 0 where
  pub status : ℕ
  pub detail : String
  pub errors : List Json
  pub entitlement : Option Json

pub data Failure : Type 0 where
  network bad_json bad_blob type_error : Failure
  api : ApiError → Failure

pub data Outcome {ℓ} (A : Type ℓ) : Type ℓ where
  returned : A → Outcome A
  threw : Failure → Outcome A

-- The client's mutable state (the fields of `MemoryTokenStore`, null where unset), how often
-- `onAuthLost` was called, the requests sent, newest first, and the state of the world outside.
pub record State (W : Type 0) : Type 0 where
  pub access : Json
  pub refresh : Json
  pub lost : ℕ
  pub sent : List HttpRequest
  pub world : W

abbrev pub M : Type 0 → Type 0 → Type 0
M W A = State W → Outcome A × State W

module _ {W : Type 0} where
  abbrev pub pure : {A : Type 0} → A → M W A
  pure a s = (returned a, s)

  abbrev pub throw : {A : Type 0} → Failure → M W A
  throw f s = (threw f, s)

  abbrev pub continue : {A B : Type 0} → (A → M W B) → Outcome A × State W → Outcome B × State W
  continue k (returned a, s) = k a s
  continue k (threw f, s) = (threw f, s)

  infixl 5 ◌>>=◌ ◌>>◌
  abbrev pub ◌>>=◌ : {A B : Type 0} → M W A → (A → M W B) → M W B
  ◌>>=◌ m k s = continue k (m s)

  abbrev pub ◌>>◌ : {B : Type 0} → M W (Unit {0}) → M W B → M W B
  m >> k = m >>= λ _. k

  -- `MemoryTokenStore`.
  abbrev pub get_access : M W Json
  get_access s = (returned s.access, s)

  abbrev pub get_refresh : M W Json
  get_refresh s = (returned s.refresh, s)

  abbrev pub clear : M W (Unit {0})
  clear s = (returned tt, record s { access = null; refresh = null })

  abbrev pub auth_lost : M W (Unit {0})
  auth_lost s = (returned tt, record s { lost = s.lost + 1 })
