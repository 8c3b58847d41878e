-- ===== src/Client/Request/Exchange.antt =====
-- What `request` of frontend-react/src/lib/apiClient.ts puts on the wire, and what it does to the
-- token store.
use billgen.Prelude.{
  String, Bool, if◌then◌else◌, true, false, ◌∷◌, ◌≡◌, refl, ◌⊎◌, arith, Bool-cases, ◌+◌, ◌==◌, ◌&&◌,
  inl, inr,
}
use billgen.Json.{Json, truthy, null}
use billgen.Client.Http.{
  HttpRequest, Fetched, State, M, continue, Response, Outcome, returned, threw, pure, ◌>>=◌,
}
use billgen.Client.Request.{
  Call, http_request, refresh_call, send, raw_request, renew, try_refresh, exchange, request,
  finish,
}

-- Nothing but the log and the world differs.
pub record Sends {W : Type 0} (req : HttpRequest) (s s' : State W) : Type 0 where
  pub same_access : s'.access ≡ s.access
  pub same_refresh : s'.refresh ≡ s.refresh
  pub same_lost : s'.lost ≡ s.lost
  pub logged : s'.sent ≡ req ∷ s.sent

module _ {W : Type 0} (fetch : W → HttpRequest → Fetched × W) (base_url : String) where
  pub send-Sends : (req : HttpRequest) (s : State W) → Sends req s (send fetch base_url req s).1
  unfolding send
  send-Sends req s = ground arith

  abbrev pub refresh_request : State W → HttpRequest
  refresh_request s = http_request fetch base_url s.access (refresh_call fetch base_url s.refresh)

  -- How a refresh ends: with new tokens, with the session over, or in an exception.
  abbrev Ended : State W → Outcome Bool × State W → Type 0
  Ended s (returned true, s') = s'.lost ≡ s.lost
  Ended s (returned false, s') = (s'.access ≡ null) × (s'.refresh ≡ null) × (s'.lost ≡ s.lost + 1)
  Ended s (threw f, s') = (s'.access ≡ s.access) × (s'.refresh ≡ s.refresh) × (s'.lost ≡ s.lost)

  renew-Ended :
      (r : Response) (s : State W)
      → Ended s (renew fetch base_url r s) × ((renew fetch base_url r s).1.sent ≡ s.sent)
  unfolding renew
  renew-Ended r s = ground arith

  abbrev Attempted : State W → Outcome Bool × State W → Type 0
  Attempted s t = Ended s t × (t.1.sent ≡ refresh_request s ∷ s.sent)

  continue-Attempted :
      (s : State W) (t : Outcome Response × State W)
      → Sends (refresh_request s) s t.1
      → Attempted s (continue (renew fetch base_url) t)
  continue-Attempted s (returned r, s') h = grind (arith, renew-Ended r s')
  continue-Attempted s (threw f, s') h = ground arith

  try_refresh-Attempted :
      (s : State W)
      → ((truthy s.refresh ≡ false) × (try_refresh fetch base_url s ≡ (returned false, s)))
        ⊎ ((truthy s.refresh ≡ true) × Attempted s (try_refresh fetch base_url s))
  unfolding try_refresh raw_request
  try_refresh-Attempted s = elim (Bool-cases (truthy s.refresh)) [
    | inl held ↦ rw held (inr (refl, continue-Attempted s _ (send-Sends (refresh_request s) s)))
    | inr none_held ↦ rw none_held (inl (refl, refl))
  ]

  -- How the tokens and the log differ around a call that sends `build access`, for the access token
  -- of the moment: one request, or a refresh that ended the session, or failed, or a retry.
  abbrev pub Exchanged : (Json → HttpRequest) → Bool → State W → State W → Type 0
  Exchanged build with_auth s s' =
      Sends (build s.access) s s'
      ⊎ ((with_auth ≡ true)
          × (truthy s.refresh ≡ true)
          × (((s'.sent ≡ refresh_request s ∷ build s.access ∷ s.sent)
                × (s'.access ≡ null)
                × (s'.refresh ≡ null)
                × (s'.lost ≡ s.lost + 1))
              ⊎ ((s'.sent ≡ refresh_request s ∷ build s.access ∷ s.sent)
                  × (s'.access ≡ s.access)
                  × (s'.refresh ≡ s.refresh)
                  × (s'.lost ≡ s.lost))
              ⊎ ((s'.sent ≡ build s'.access ∷ refresh_request s ∷ build s.access ∷ s.sent)
                  × (s'.lost ≡ s.lost))))

  module _ (again : M W Response) (build : Json → HttpRequest)
      (sends : (s : State W) → Sends (build s.access) s (again s).1) where
    continue-Exchanged :
        (s s' : State W) (t : Outcome Bool × State W) (r : Response)
        → Sends (build s.access) s s'
        → truthy s.refresh ≡ true
        → Attempted s' t
        → Exchanged build true s (continue (λ renewed. if renewed then again else pure r) t).1
    continue-Exchanged s s' (returned true, s'') r h held a = ground (arith, sends s'')
    continue-Exchanged s s' (returned false, s'') r h held a = ground arith
    continue-Exchanged s s' (threw f, s'') r h held a = ground arith

    settle-Exchanged :
        (with_auth : Bool) (s : State W) (t : Outcome Response × State W)
        → Sends (build s.access) s t.1
        → Exchanged build with_auth s
            (continue
              (λ first.
                if first.status == 401 && with_auth
                then (do
                  renewed ← try_refresh fetch base_url
                  if renewed then again else pure first)
                else pure first)
              t).1
    settle-Exchanged with_auth s (threw f, s') h = inl h
    settle-Exchanged false s (returned r, s') h = ground arith
    settle-Exchanged true s (returned r, s') h = elim (Bool-cases (r.status == 401 && true)) [
      | inr other ↦ rw other (inl h)
      | inl expired ↦ rw expired (elim (try_refresh-Attempted s') [
        | inl (none_held, e) ↦ rw e (inl h)
        | inr (held, a) ↦ continue-Exchanged s s' _ r h (ground arith) a
      ])
    ]

    exchange-Exchanged :
        (with_auth : Bool) (s : State W)
        → Exchanged build with_auth s (exchange fetch base_url again with_auth s).1
    unfolding exchange
    exchange-Exchanged with_auth s = settle-Exchanged with_auth s (again s) (sends s)

  pub finish-state :
      (blob : Bool) (t : Outcome Response × State W)
      → (continue (finish fetch base_url blob) t).1 ≡ t.1
  finish-state blob (threw f, s) = refl
  finish-state blob (returned r, s) = ground arith

  raw_request-Sends :
      (c : Call) (s : State W)
      → Sends (http_request fetch base_url s.access c) s (raw_request fetch base_url c s).1
  unfolding raw_request
  raw_request-Sends c s = send-Sends (http_request fetch base_url s.access c) s

  -- A call sends its request once, with the access token of the moment. Only an authenticated call
  -- whose refresh token is set sends more: one refresh, which carries the refresh token and no
  -- bearer, and then at most one retry, with the access token that is held at the end. A refresh
  -- that ended the session leaves no token and calls `onAuthLost` once; else it is not called, and
  -- tokens change only before a retry.
  pub request-Exchanged :
      (c : Call) (s : State W)
      → Exchanged
          (λ access. http_request fetch base_url access c)
          c.auth
          s
          (request fetch base_url c s).1
  unfolding request
  request-Exchanged c s =
      rw (finish-state c.blob (exchange fetch base_url (raw_request fetch base_url c) c.auth s)) (
        exchange-Exchanged (raw_request fetch base_url c)
          (λ access. http_request fetch base_url access c) (raw_request-Sends c) c.auth s)
