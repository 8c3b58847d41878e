-- ===== src/Client/Request/Sequence.antt =====
-- Requests of frontend-react/src/lib/apiClient.ts made one after another.
use billgen.Prelude.{ℕ, String, ◌+◌, ◌≤◌, List, [], ◌∷◌, Bool, if◌then◌else◌, arith, inl, inr}
use billgen.Json.{Json, truthy}
use billgen.Client.Http.{HttpRequest, Fetched, State}
use billgen.Client.Request.{Call, http_request, request}
use billgen.Client.Request.Exchange.{Exchanged, request-Exchanged}

module _ {W : Type 0} (fetch : W → HttpRequest → Fetched × W) (base_url : String) where
  -- The state after a sequence of requests, whatever each resolves or rejects to.
  unfoldable pub requests : List Call → State W → State W
  requests [] s = s
  requests (c ∷ cs) s = requests cs (request fetch base_url c s).1

  abbrev pub sessions_held : State W → ℕ
  sessions_held s = if truthy s.refresh then 1 else 0

  Exchanged-budget :
      (build : Json → HttpRequest) (with_auth : Bool) (s s' : State W)
      → Exchanged fetch base_url build with_auth s s'
      → s'.lost + sessions_held s' ≤ s.lost + sessions_held s
  Exchanged-budget build with_auth s s' (inl h) = ground (arith, h.same_refresh, h.same_lost)
  Exchanged-budget build with_auth s s' (inr (auth, held, inl (sent, access, refresh, lost))) =
      ground (arith, held, refresh, lost)
  Exchanged-budget build with_auth s s'
        (inr (auth, held, inr (inl (sent, access, refresh, lost)))) =
      ground (arith, held, refresh, lost)
  Exchanged-budget build with_auth s s' (inr (auth, held, inr (inr (sent, lost)))) =
      ground (arith, held, lost)

  -- Over any list of requests made one after another, each ended before the next is made, and however
  -- they end, `onAuthLost` is called at most once, and not at all where no refresh token is held: a
  -- session that is over is not given up again.
  pub requests-lost :
      (cs : List Call) (s : State W) → (requests cs s).lost ≤ s.lost + sessions_held s
  unfolding requests
  requests-lost [] s = omega arith
  requests-lost (c ∷ cs) s = omega (
    arith,
    requests-lost cs (request fetch base_url c s).1,
    Exchanged-budget (λ access. http_request fetch base_url access c) c.auth s _
        (request-Exchanged fetch base_url c s),
  )
