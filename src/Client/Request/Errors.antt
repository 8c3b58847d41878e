-- ===== src/Client/Request/Errors.antt =====
-- What the errors of frontend-react/src/lib/apiClient.ts are read from.
use mathlib.Core.Path.{subst}
use billgen.Prelude.{
  String, true, false, ◌≡◌, refl, ◌↔◌, ◌⊎◌, inl, inr, arith, Option, none, some, eq_iff,
}
use billgen.Json.{Json, null, text, property, as_text}
use billgen.Client.Http.{Response, api}
use billgen.Client.Request.{
  is_commercial, read_error, parsed_error, api_error, plain_error, is_entitlement_error,
}

abbrev pub HasCode : Json → Type 0
HasCode v =
    (property "error" v ≡ some (text "entitlement_required"))
    ⊎ (property "error" v ≡ some (text "usage_limit_reached"))

-- A refusal for a commercial reason.
abbrev pub IsRefusal : Response → Option Json → Type 0
IsRefusal r body = (r.status ≡ 402) × (v : Json) × (body ≡ some v) × HasCode v

is_commercial-text_iff :
    (s : String)
    → (is_commercial (some s) ≡ true) ↔ ((s ≡ "entitlement_required") ⊎ (s ≡ "usage_limit_reached"))
is_commercial-text_iff s =
    ground (arith, eq_iff s "entitlement_required", eq_iff s "usage_limit_reached")

is_commercial_sound : (v : Json) → is_commercial (as_text (property "error" v)) ≡ true → HasCode v
is_commercial_sound v h = go (property "error" v) h
  where
    go :
        (o : Option Json)
        → is_commercial (as_text o) ≡ true
        → (o ≡ some (text "entitlement_required")) ⊎ (o ≡ some (text "usage_limit_reached"))
    go (some (text s)) h = ground (arith, is_commercial-text_iff s)
    go none h = cc
    go (some _) h = cc

is_commercial_complete :
    (v : Json) → HasCode v → is_commercial (as_text (property "error" v)) ≡ true
is_commercial_complete v (inl e) = rw e refl
is_commercial_complete v (inr e) = rw e refl

parsed_error-refusal :
    (r : Response) (v : Json)
    → (is_entitlement_error (api (parsed_error r v)) ≡ true)
      ↔ ((r.status ≡ 402) × (is_commercial (as_text (property "error" v)) ≡ true))
unfolding is_entitlement_error
parsed_error-refusal r v = ground arith

read_error-IsRefusal :
    (r : Response) (body : Option Json)
    → is_entitlement_error (api (read_error r body)) ≡ true
    → IsRefusal r body
unfolding is_entitlement_error
read_error-IsRefusal r none h = ground arith
read_error-IsRefusal r (some null) h = ground arith
read_error-IsRefusal r (some v) h =
    let (status, code) = (parsed_error-refusal r v).0 h in
    (status, v, refl, is_commercial_sound v code)

IsRefusal-read_error :
    (r : Response) (body : Option Json)
    → IsRefusal r body
    → is_entitlement_error (api (read_error r body)) ≡ true
IsRefusal-read_error r none (e, v, b, code) = cc
IsRefusal-read_error r (some null) (e, v, b, code) =
    let same : v ≡ null = cc in
    let here : HasCode null = subst HasCode same code in absurd (ground arith)
IsRefusal-read_error r (some w) (e, v, b, code) =
    let same : v ≡ w = cc in
    let here : HasCode w = subst HasCode same code in
    (parsed_error-refusal r w).1 (e, is_commercial_complete w here)

-- The error of a response opens the upgrade prompt exactly where the status is 402 and the body is
-- JSON whose `error` is one of the two codes.
pub api_error-IsRefusal :
    (r : Response) → (is_entitlement_error (api (api_error r)) ≡ true) ↔ IsRefusal r r.json
unfolding api_error
api_error-IsRefusal r = (read_error-IsRefusal r r.json, IsRefusal-read_error r r.json)

-- `fetchWithAuth` reads the detail alone, so its errors never open the prompt.
pub plain_error-no_refusal : (r : Response) → is_entitlement_error (api (plain_error r)) ≡ false
unfolding plain_error is_entitlement_error
plain_error-no_refusal r = ground arith
