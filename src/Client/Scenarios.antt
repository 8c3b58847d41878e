-- ===== src/Client/Scenarios.antt =====
-- The client against a scripted server.
use billgen.Prelude.{
  ℕ, String, Bool, true, false, List, [], ◌∷◌, Option, none, some, ◌≡◌, refl, ◌↔◌, ◌≤◌, ◌+◌, length,
}
use billgen.Json.{Json, null, text, obj, Fields, end, field}
use billgen.Client.Http.{
  HttpRequest, Response, Fetched, response, rejected, State, returned, api, ApiError, continue,
}
use billgen.Client.Request.{
  Call, http_request, request, json_of, api_error, is_entitlement_error, finish, send, raw_request,
  try_refresh, exchange, renew,
}
use billgen.Client.Request.Exchange.{Exchanged, request-Exchanged}
use billgen.Client.Request.Sequence.{requests, requests-lost}
use billgen.Client.Request.Renewal.{request-renewed, request-refused, renewed_state}
use billgen.Client.Request.Errors.{IsRefusal, api_error-IsRefusal}
use billgen.Client.Request.Outcomes.{Settled, request-Settled}
use billgen.Client.Calls.Build.{Platform}
use billgen.Client.Calls.Records.{update_template}
use billgen.Client.Calls.Sales.{InvoiceFilter, PaymentsArgument, of_invoice}
use billgen.Client.Calls.Reports.{PaymentWindow}
use billgen.Client.Calls.Laws.{Endpoint, template}
use billgen.Client.Auth.{
  signup, login, desktop_bootstrap, signup_call, login_call, desktop_bootstrap_call,
}
use billgen.Client.Auth.Session.{Opened, sessions-Opened}

-- The world is the list of answers that are left.
abbrev scripted : List Fetched → HttpRequest → Fetched × List Fetched
scripted [] req = (rejected, [])
scripted (a ∷ rest) req = (a, rest)

abbrev base : String
base = "https://api"

abbrev answer : ℕ → Bool → Option Json → Response
answer status ok json = record {
  status = status;
  ok = ok;
  status_text = "status";
  json = json;
  blob = some "";
}

abbrev unauthorized : Response
unauthorized = answer 401 false none

abbrev pair : Fields
pair = field "access_token" (text "new") (field "refresh_token" (text "next") end)

abbrev renewal : Response
renewal = answer 200 true (some (obj pair))

abbrev opened : Response
opened = answer 200 true (some (obj (field "tokens" (obj pair) end)))

abbrev refusal : Response
refusal = answer 402 false (some (obj (field "error" (text "usage_limit_reached") end)))

abbrev start : List Fetched → State (List Fetched)
start script = record {
  access = text "old";
  refresh = text "token";
  lost = 0;
  sent = [];
  world = script;
}

abbrev me : Call
me = record { method = "GET"; path = "/users/me"; body = none; auth = true; blob = false }

abbrev retried : State (List Fetched)
retried =
    start (response unauthorized ∷ response renewal ∷ response (answer 200 true (some null)) ∷ [])

abbrev refused : State (List Fetched)
refused = start (response unauthorized ∷ response unauthorized ∷ [])

-- Three requests, and the result of the last.
retry_test :
    ((request scripted base me retried).0 ≡ returned (json_of null))
    × (length (request scripted base me retried).1.sent ≡ 3)
    × ((request scripted base me retried).1.access ≡ text "new")
unfolding request exchange raw_request try_refresh send renew
retry_test = (refl, refl, refl)

request-Exchanged_example :
    Exchanged scripted base
      (λ access. http_request scripted base access me)
      true
      retried
      (request scripted base me retried).1
request-Exchanged_example = request-Exchanged scripted base me retried

request-renewed_example :
    request scripted base me retried
    ≡ continue (finish scripted base false) (
        send scripted base (http_request scripted base (text "new") me) (
          renewed_state scripted base me retried pair
            (response (answer 200 true (some null)) ∷ [])))
request-renewed_example =
    request-renewed scripted base me retried refl refl refl refl refl pair refl refl

request-refused_example :
    request scripted base me refused
    ≡ continue (finish scripted base false) (
      returned unauthorized,
      record {
        access = null;
        refresh = null;
        lost = 1;
        sent =
            http_request scripted base null (record {
              method = "POST";
              path = "/auth/refresh";
              body = some (obj (field "refresh_token" (text "token") end));
              auth = false;
              blob = false;
            })
            ∷ http_request scripted base (text "old") me
            ∷ [];
        world = [];
      },
    )
request-refused_example = request-refused scripted base me refused refl refl refl refl refl refl

requests-lost_example : (requests scripted base (me ∷ me ∷ []) refused).lost ≤ refused.lost + 1
requests-lost_example = requests-lost scripted base (me ∷ me ∷ []) refused

request-Settled_example :
    Settled scripted base false
      (exchange scripted base (raw_request scripted base me) true retried).0
      (request scripted base me retried).0
request-Settled_example = request-Settled scripted base me retried

api_error-IsRefusal_example :
    (is_entitlement_error (api (api_error refusal)) ≡ true) ↔ IsRefusal refusal refusal.json
api_error-IsRefusal_example = api_error-IsRefusal refusal

abbrev platform : Platform
platform = record { encode = λ ps. "query"; decimal = λ n. "50" }

abbrev restyled : Endpoint
restyled = template (update_template "t1" null)

abbrev window : PaymentWindow
window = record { period = some "month"; client_id = none; paid_from = some ""; paid_to = none }

abbrev unpaid : InvoiceFilter
unpaid = record { company_id = some "c1"; status = some "sent"; client_id = none }

abbrev settled : PaymentsArgument
settled = of_invoice "i1"

abbrev refusing : State (List Fetched)
refusing = start (response refusal ∷ [])

abbrev refusal_error : ApiError
refusal_error = record { status = 402; detail = "status"; errors = []; entitlement = none }

abbrev fresh : State (List Fetched)
fresh = record { access = null; refresh = null; lost = 0; sent = []; world = response opened ∷ [] }

sessions-Opened_example :
    Opened scripted base (signup_call null) fresh (signup scripted base null fresh)
    × Opened scripted base (login_call null) fresh (login scripted base null fresh)
    × Opened scripted base desktop_bootstrap_call fresh (desktop_bootstrap scripted base fresh)
sessions-Opened_example = sessions-Opened scripted base null fresh
