-- ===== src/Client/Request.antt =====
-- `rawRequest`, `tryRefresh`, `request` and `fetchWithAuth` of frontend-react/src/lib/apiClient.ts.
pub mod Exchange
pub mod Errors
pub mod Outcomes
pub mod Renewal
pub mod Sequence
use Prim.Native.String
use billgen.Prelude.{
  ℕ, String, Bool, true, false, not, ◌&&◌, ◌||◌, List, [], ◌∷◌, ◌++◌, Option, none, some, ◌==◌,
  ◌===◌, if◌then◌else◌, filter,
}
use billgen.Json.{
  Json, null, text, arr, obj, end, field, elements, property, truthy, as_text, is_text, or_null,
}
use billgen.Client.Http.{
  Body, no_body, json_body, HttpRequest, Response, Fetched, response, rejected, ApiError, Failure,
  network, bad_json, bad_blob, type_error, api, Outcome, returned, threw, State, M, pure, throw,
  ◌>>=◌, ◌>>◌, get_access, get_refresh, clear, auth_lost,
}

-- What `request` resolves to.
pub data Payload : Type 0 where
  nothing : Payload
  blob_of : String → Payload
  json_of : Json → Payload

-- The arguments of `request`; `auth` and `blob` are its options.
pub record Call : Type 0 where
  pub method : String
  pub path : String
  pub body : Option Json
  pub auth : Bool
  pub blob : Bool

abbrev content_type : Option Json → List (String × String)
content_type none = []
content_type (some v) = ("Content-Type", "application/json") ∷ []

abbrev body_of : Option Json → Body
body_of none = no_body
body_of (some v) = json_body v

-- The header of an access token: none for null and for "".
abbrev pub bearer : Json → Option Json
bearer access = if truthy access then some access else none

-- `parsed.errors.filter(…)`: the entries that name a field and a message.
abbrev pub is_field_error : Json → Bool
is_field_error e = is_text (property "field" e) && is_text (property "message_key" e)

abbrev pub is_commercial : Option String → Bool
is_commercial none = false
is_commercial (some e) = e === "entitlement_required" || e === "usage_limit_reached"

abbrev or_else : Option String → String → String
or_else none d = d
or_else (some s) d = s

abbrev field_errors : Option Json → List Json
field_errors (some (arr vs)) = filter is_field_error (elements vs)
field_errors _ = []

abbrev bare_error : Response → ApiError
bare_error r = record { status = r.status; detail = r.status_text; errors = []; entitlement = none }

-- The error of a body that is JSON and not null.
abbrev parsed_error : Response → Json → ApiError
parsed_error r v =
    let detail = or_else (as_text (property "detail" v)) r.status_text in
    let commercial = r.status == 402 && is_commercial (as_text (property "error" v)) in
    record {
      status = r.status;
      detail = if commercial then or_else (as_text (property "message" v)) detail else detail;
      errors = field_errors (property "errors" v);
      entitlement = if commercial then some v else none;
    }

-- The `!response.ok` branch of `request`. A body that is no JSON, or is null, throws inside the
-- `try`, before anything is read.
abbrev read_error : Response → Option Json → ApiError
read_error r none = bare_error r
read_error r (some null) = bare_error r
read_error r (some v) = parsed_error r v

unfoldable pub api_error : Response → ApiError
api_error r = read_error r r.json

-- The `!response.ok` branch of `fetchWithAuth`.
abbrev read_detail : Response → Option Json → ApiError
read_detail r none = bare_error r
read_detail r (some null) = bare_error r
read_detail r (some v) = record (bare_error r) {
  detail = or_else (as_text (property "detail" v)) r.status_text;
}

unfoldable pub plain_error : Response → ApiError
plain_error r = read_detail r r.json

unfoldable pub is_entitlement_error : Failure → Bool
is_entitlement_error (api e) =
    e.status == 402 && elim e.entitlement [ none ↦ false | some v ↦ true ]
is_entitlement_error _ = false

module _ {W : Type 0} where
  abbrev pub read_json : Response → M W Json
  read_json r s = elim r.json [ none ↦ (threw bad_json, s) | some v ↦ (returned v, s) ]

  abbrev pub read_blob : Response → M W String
  read_blob r s = elim r.blob [ none ↦ (threw bad_blob, s) | some b ↦ (returned b, s) ]

  -- `tokens.set(v)`: reading a property of null or undefined throws.
  abbrev pub set_tokens : Option Json → M W (Unit {0})
  set_tokens none s = (threw type_error, s)
  set_tokens (some null) s = (threw type_error, s)
  set_tokens (some v) s = (
    returned tt,
    record s {
      access = or_null (property "access_token" v);
      refresh = or_null (property "refresh_token" v);
    },
  )

-- The platform's `fetch`, and the client's base URL.
module _ {W : Type 0} (fetch : W → HttpRequest → Fetched × W) (base_url : String) where
  unfoldable pub send : HttpRequest → M W Response
  send req s =
      let (answer, w) = fetch s.world req in
      let s' = record s { sent = req ∷ s.sent; world = w } in
      elim answer [ response r ↦ (returned r, s') | rejected ↦ (threw network, s') ]

  abbrev pub http_request : Json → Call → HttpRequest
  http_request access c = record {
    method = c.method;
    url = String.◌++◌ base_url c.path;
    headers = content_type c.body;
    authorization = if c.auth then bearer access else none;
    body = body_of c.body;
  }

  unfoldable pub raw_request : Call → M W Response
  raw_request c = do access ← get_access; send (http_request access c)

  abbrev pub refresh_call : Json → Call
  refresh_call token = record {
    method = "POST";
    path = "/auth/refresh";
    body = some (obj (field "refresh_token" token end));
    auth = false;
    blob = false;
  }

  -- The answer to the refresh request.
  unfoldable pub renew : Response → M W Bool
  renew r =
      if r.ok
      then (do tokens ← read_json r; set_tokens (some tokens); pure true)
      else (do clear; auth_lost; pure false)

  unfoldable pub try_refresh : M W Bool
  unfolding renew
  try_refresh = do
    token ← get_refresh
    if truthy token then (do r ← raw_request (refresh_call token); renew r) else pure false

  -- The request, and the one retry: `again` sends it with the token of the moment.
  unfoldable pub exchange : M W Response → Bool → M W Response
  exchange again with_auth = do
    first ← again
    if first.status == 401 && with_auth
        then (do renewed ← try_refresh; if renewed then again else pure first)
        else pure first

  abbrev pub finish : Bool → Response → M W Payload
  finish blob r =
      if not r.ok
      then throw (api (api_error r))
      else if r.status == 204
      then pure nothing
      else if blob
      then (do b ← read_blob r; pure (blob_of b))
      else do v ← read_json r; pure (json_of v)

  unfoldable pub request : Call → M W Payload
  request c = do r ← exchange (raw_request c) c.auth; finish c.blob r

  -- `init.headers` and `init.body` are the caller's.
  abbrev pub raw_http_request : Json → String → String → List (String × String) → Body → HttpRequest
  raw_http_request access method path headers body = record {
    method = method;
    url = String.◌++◌ base_url path;
    headers = headers;
    authorization = bearer access;
    body = body;
  }

  abbrev pub send_again : String → String → List (String × String) → Body → M W Response
  send_again method path headers body = do
    access ← get_access
    send (raw_http_request access method path headers body)

  unfoldable pub fetch_with_auth : String → String → List (String × String) → Body → M W Response
  fetch_with_auth method path headers body = do
    r ← exchange (send_again method path headers body) true
    if not r.ok then throw (api (plain_error r)) else pure r
