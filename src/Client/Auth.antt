-- ===== src/Client/Auth.antt =====
-- `signup`, `login`, `desktopBootstrap` and `logout` of frontend-react/src/lib/apiClient.ts.
pub mod Session
use billgen.Prelude.{String, Bool, true, false, Option, none, some, if◌then◌else◌}
use billgen.Json.{Json, null, obj, end, field, property, truthy}
use billgen.Client.Http.{HttpRequest, Fetched, State, M, pure, get_refresh, clear, ◌>>=◌, ◌>>◌}
use billgen.Client.Request.{Call, Payload, nothing, blob_of, json_of, set_tokens, request}

abbrev pub open_call : String → Option Json → Call
open_call path body = record {
  method = "POST";
  path = path;
  body = body;
  auth = false;
  blob = false;
}

abbrev pub signup_call : Json → Call
signup_call body = open_call "/auth/signup" (some body)

abbrev pub login_call : Json → Call
login_call body = open_call "/auth/login" (some body)

abbrev pub desktop_bootstrap_call : Call
desktop_bootstrap_call = open_call "/auth/desktop-bootstrap" none

abbrev pub logout_call : Json → Call
logout_call token = open_call "/auth/logout" (some (obj (field "refresh_token" token end)))

-- `result.tokens`: none where it is undefined, or where reading it throws as `tokens.set` would.
abbrev pub tokens_of : Payload → Option Json
tokens_of nothing = none
tokens_of (blob_of b) = none
tokens_of (json_of v) = property "tokens" v

module _ {W : Type 0} (fetch : W → HttpRequest → Fetched × W) (base_url : String) where
  -- The three methods that open a session differ in their request only.
  open_session : Call → M W Payload
  open_session c = do result ← request fetch base_url c; set_tokens (tokens_of result); pure result

  unfoldable pub signup : Json → M W Payload
  unfolding open_session
  signup body = open_session (signup_call body)

  unfoldable pub login : Json → M W Payload
  unfolding open_session
  login body = open_session (login_call body)

  unfoldable pub desktop_bootstrap : M W Payload
  unfolding open_session
  desktop_bootstrap = open_session desktop_bootstrap_call

  unfoldable pub logout : M W (Unit {0})
  logout = do
    token ← get_refresh
    if truthy token then (do _ ← request fetch base_url (logout_call token); clear) else clear
