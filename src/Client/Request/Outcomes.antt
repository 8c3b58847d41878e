-- ===== src/Client/Request/Outcomes.antt =====
-- What `request` and `fetchWithAuth` of frontend-react/src/lib/apiClient.ts return and throw.
use billgen.Prelude.{
  String, Bool, true, false, not, ◌≡◌, refl, arith, List, ◌∷◌, Option, none, some, ◌≢◌, sym, ◌∙◌,
  [], if◌then◌else◌, ◌==◌, ◌&&◌,
}
use billgen.Json.{Json, truthy}
use billgen.Client.Request.Exchange.{finish-state}
use billgen.Client.Http.{
  HttpRequest, Response, Fetched, State, Failure, network, bad_json, bad_blob, api, Outcome,
  returned, threw, continue, Body, json_body, throw, pure, ◌>>=◌, M,
}
use billgen.Client.Request.{
  Call, Payload, read_json, read_blob, refresh_call, nothing, blob_of, json_of, api_error,
  plain_error, is_entitlement_error, send, raw_request, renew, try_refresh, exchange, finish,
  request, send_again, fetch_with_auth,
}
use billgen.Client.Request.Errors.{plain_error-no_refusal}

module _ {W : Type 0} (fetch : W → HttpRequest → Fetched × W) (base_url : String) where
  abbrev pub IsNoApi : Failure → Type 0
  IsNoApi (api e) = ⊥
  IsNoApi _ = Unit

  abbrev pub NoApi : {A : Type 0} → Outcome A → Type 0
  NoApi (threw f) = IsNoApi f
  NoApi (returned a) = Unit

  -- What the last response makes of a call.
  abbrev pub Answered : Bool → Response → Outcome Payload → Type 0
  Answered blob r (threw (api e)) = (r.ok ≡ false) × (e ≡ api_error r)
  Answered blob r (threw bad_json) =
      (r.ok ≡ true) × (r.status ≢ 204) × (blob ≡ false) × (r.json ≡ none)
  Answered blob r (threw bad_blob) =
      (r.ok ≡ true) × (r.status ≢ 204) × (blob ≡ true) × (r.blob ≡ none)
  Answered blob r (threw _) = ⊥
  Answered blob r (returned nothing) = (r.ok ≡ true) × (r.status ≡ 204)
  Answered blob r (returned (blob_of b)) =
      (r.ok ≡ true) × (r.status ≢ 204) × (blob ≡ true) × (r.blob ≡ some b)
  Answered blob r (returned (json_of v)) =
      (r.ok ≡ true) × (r.status ≢ 204) × (blob ≡ false) × (r.json ≡ some v)

  -- What the exchange makes of it: its last response decides, or what it threw, which is no `ApiError`.
  abbrev pub Settled : Bool → Outcome Response → Outcome Payload → Type 0
  Settled blob (returned r) o = Answered blob r o
  Settled blob (threw f) o = (o ≡ threw f) × IsNoApi f

  send-NoApi : (req : HttpRequest) (s : State W) → NoApi (send fetch base_url req s).0
  unfolding send
  send-NoApi req s = ground arith

  raw_request-NoApi : (c : Call) (s : State W) → NoApi (raw_request fetch base_url c s).0
  unfolding raw_request
  raw_request-NoApi c s = send-NoApi _ s

  renew-NoApi : (r : Response) (s : State W) → NoApi (renew fetch base_url r s).0
  unfolding renew
  renew-NoApi r s = ground arith

  continue-NoApi :
      {A B : Type 0} (t : Outcome A × State W) (k : A → M W B)
      → NoApi t.0
      → ((a : A) (s : State W) → NoApi (k a s).0)
      → NoApi (continue k t).0
  continue-NoApi (returned a, s) k h next = next a s
  continue-NoApi (threw network, s) k h next = tt
  continue-NoApi (threw (api e), s) k h next = h
  continue-NoApi (threw _, s) k h next = tt

  try_refresh-NoApi : (s : State W) → NoApi (try_refresh fetch base_url s).0
  unfolding try_refresh
  try_refresh-NoApi s = go (truthy s.refresh)
    where
      go :
          (held : Bool)
          → NoApi
              ((if held
                  then (do
                    r ← raw_request fetch base_url (refresh_call fetch base_url s.refresh)
                    renew fetch base_url r)
                  else pure false)
                s).0
      go true =
          continue-NoApi (raw_request fetch base_url (refresh_call fetch base_url s.refresh) s)
            (renew fetch base_url) (raw_request-NoApi _ s) renew-NoApi
      go false = tt

  module _ (again : M W Response) (quiet : (s : State W) → NoApi (again s).0) where
    retry-NoApi :
        (first : Response) (renewed : Bool) (s : State W)
        → NoApi ((if renewed then again else pure first) s).0
    retry-NoApi first true s = quiet s
    retry-NoApi first false s = tt

    settle-NoApi :
        (first : Response) (expired : Bool) (s : State W)
        → NoApi
            ((if expired
                then (do
                  renewed ← try_refresh fetch base_url
                  if renewed then again else pure first)
                else pure first)
              s).0
    settle-NoApi first false s = tt
    settle-NoApi first true s =
        continue-NoApi (try_refresh fetch base_url s) _ (try_refresh-NoApi s) (retry-NoApi first)

    exchange-NoApi :
        (with_auth : Bool) (s : State W) → NoApi (exchange fetch base_url again with_auth s).0
    unfolding exchange
    exchange-NoApi with_auth s =
        continue-NoApi (again s) _ (quiet s)
          (λ first. settle-NoApi first (first.status == 401 && with_auth))

  json-Answered :
      (r : Response) (s : State W) (o : Option Json)
      → r.ok ≡ true
      → (r.status == 204) ≡ false
      → r.json ≡ o
      → Answered false r
          (continue {W = W} {A = Json} {B = Payload}
            (λ v. pure (json_of v))
            (elim o [ none ↦ (threw bad_json, s) | some v ↦ (returned v, s) ])).0
  json-Answered r s none good full e = (good, ground arith, refl, e)
  json-Answered r s (some v) good full e = (good, ground arith, refl, e)

  blob-Answered :
      (r : Response) (s : State W) (o : Option String)
      → r.ok ≡ true
      → (r.status == 204) ≡ false
      → r.blob ≡ o
      → Answered true r
          (continue {W = W} {A = String} {B = Payload}
            (λ b. pure (blob_of b))
            (elim o [ none ↦ (threw bad_blob, s) | some b ↦ (returned b, s) ])).0
  blob-Answered r s none good full e = (good, ground arith, refl, e)
  blob-Answered r s (some b) good full e = (good, ground arith, refl, e)

  read-Answered :
      (blob : Bool) (r : Response) (s : State W)
      → r.ok ≡ true
      → (r.status == 204) ≡ false
      → Answered blob r
          ((if blob
              then (do b ← read_blob r; pure (blob_of b))
              else (do v ← read_json r; pure (json_of v)))
            s).0
  read-Answered true r s good full = blob-Answered r s r.blob good full refl
  read-Answered false r s good full = json-Answered r s r.json good full refl

  branch-Answered :
      (blob : Bool) (r : Response) (s : State W) (ok empty : Bool)
      → r.ok ≡ ok
      → (r.status == 204) ≡ empty
      → Answered blob r
          ((if not ok
              then throw (api (api_error r))
              else if empty
              then pure nothing
              else if blob
              then (do b ← read_blob r; pure (blob_of b))
              else (do v ← read_json r; pure (json_of v)))
            s).0
  branch-Answered blob r s false empty bad e = (bad, refl)
  branch-Answered blob r s true true good e = (good, ground arith)
  branch-Answered blob r s true false good e = read-Answered blob r s good e

  finish-Answered :
      (blob : Bool) (r : Response) (s : State W)
      → Answered blob r (finish fetch base_url blob r s).0
  finish-Answered blob r s = branch-Answered blob r s r.ok (r.status == 204) refl refl

  continue-Settled :
      (blob : Bool) (t : Outcome Response × State W)
      → NoApi t.0
      → Settled blob t.0 (continue (finish fetch base_url blob) t).0
  continue-Settled blob (returned r, s) h = finish-Answered blob r s
  continue-Settled blob (threw f, s) h = (refl, h)

  -- The last response of the exchange decides what a call comes to: an `ApiError`, and this response's,
  -- exactly where it is not ok; nothing for a 204; else the blob or the JSON, as asked, or an exception
  -- where that one cannot be read. Where the exchange itself throws, the call throws the same, which
  -- is no `ApiError`.
  pub request-Settled :
      (c : Call) (s : State W)
      → Settled c.blob
          (exchange fetch base_url (raw_request fetch base_url c) c.auth s).0
          (request fetch base_url c s).0
  unfolding request
  request-Settled c s =
      continue-Settled c.blob (exchange fetch base_url (raw_request fetch base_url c) c.auth s)
        (exchange-NoApi (raw_request fetch base_url c) (raw_request-NoApi c) c.auth s)

  refuse-no_refusal :
      (t : Outcome Response × State W) (f : Failure)
      → NoApi t.0
      → (continue (λ r. if not r.ok then throw (api (plain_error r)) else pure r) t).0 ≡ threw f
      → is_entitlement_error f ≡ false
  unfolding is_entitlement_error
  refuse-no_refusal (threw network, s) f h e = ground arith
  refuse-no_refusal (threw (api x), s) f h e = elim h [ ]
  refuse-no_refusal (threw _, s) f h e = ground arith
  refuse-no_refusal (returned r, s) f h e = ground (arith, plain_error-no_refusal r)

  -- Whatever the server answers to `fetchWithAuth`, a 402 with a refusal's body included, the error
  -- that it throws does not open the upgrade prompt.
  fetch_with_auth-no_refusal :
      (method path : String) (headers : List (String × String)) (body : Body) (s : State W)
      (f : Failure)
      → (fetch_with_auth fetch base_url method path headers body s).0 ≡ threw f
      → is_entitlement_error f ≡ false
  unfolding fetch_with_auth
  fetch_with_auth-no_refusal method path headers body s f e =
      refuse-no_refusal
        (exchange fetch base_url (send_again fetch base_url method path headers body) true s) f
        (exchange-NoApi (send_again fetch base_url method path headers body) (λ s'. send-NoApi _ s')
          true s)
        e

  plain-state :
      (t : Outcome Response × State W)
      → (continue (λ r. if not r.ok then throw (api (plain_error r)) else pure r) t).1 ≡ t.1
  plain-state (threw f, s) = refl
  plain-state (returned r, s) = ground arith

  -- With a JSON body, `fetchWithAuth` sends the same requests as `request`, and leaves the same
  -- tokens, refreshed or cleared, whichever way either of them ends.
  fetch_with_auth-state :
      (method path : String) (v : Json) (blob : Bool) (s : State W)
      → (fetch_with_auth fetch base_url method path
          (("Content-Type", "application/json") ∷ [])
          (json_body v)
          s).1
        ≡ (request fetch base_url
            (record { method = method; path = path; body = some v; auth = true; blob = blob })
            s).1
  unfolding fetch_with_auth request raw_request
  fetch_with_auth-state method path v blob s =
      plain-state (
        exchange fetch base_url
          (send_again fetch base_url method path (("Content-Type", "application/json") ∷ [])
            (json_body v))
          true s)
      ∙ sym (
          finish-state fetch base_url blob (
            exchange fetch base_url
              (raw_request fetch base_url
                (record { method = method; path = path; body = some v; auth = true; blob = blob }))
              true s))
